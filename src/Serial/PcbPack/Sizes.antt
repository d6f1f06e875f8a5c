-- ===== src/Serial/PcbPack/Sizes.antt =====
-- How many bytes the layout of a pcb takes (serial_pack_pcb and its callees in Common/serial.c).
use esthe_r.Base.{ℕ, ◌+◌, ◌*◌, ◌≡◌, refl, arith, List, [], ◌∷◌, length, length-append, append-nil}
use esthe_r.Base.Int.{ℤ, pos}
use esthe_r.Structures.{MemPos, Var, ProgramTag, StackEntry, Instruction, Pcb}
use esthe_r.Serial.Integers.{packi16}
use esthe_r.Serial.Integers.Laws.{length-packi16}
use esthe_r.Serial.PcbPack.Encoding.{short_bytes, mempos_bytes, var_bytes, instruction_bytes}
use esthe_r.Serial.PcbPack.Encoding.{
  text_bytes, tag_bytes, each, list_bytes, entry_bytes, pcb_bytes,
}

pub length-short_bytes : (v : ℤ) → length (short_bytes v) ≡ 2
unfolding short_bytes
length-short_bytes v = rw append-nil (length-packi16 _)

pub length-mempos_bytes : (m : MemPos) → length (mempos_bytes m) ≡ 6
unfolding mempos_bytes
length-mempos_bytes m = simp (length-append, length-packi16)

pub length-var_bytes : (x : Var) → length (var_bytes x) ≡ 7
unfolding var_bytes
length-var_bytes x = simp (length-append, length-packi16)

length-instruction_bytes : (x : Instruction) → length (instruction_bytes x) ≡ 4
unfolding instruction_bytes
length-instruction_bytes x = simp (length-append, length-short_bytes)

pub length-text_bytes : (s : List ℕ) → length (text_bytes s) ≡ length s + 2
unfolding text_bytes
length-text_bytes s =
    rw append-nil (omega (arith, length-append (packi16 (length s)) s, length-packi16 (length s)))

-- The sum of a size over a list.
pub total : {A : Type 0} → (A → ℕ) → List A → ℕ
total w [] = 0
total w (x ∷ xs) = w x + total w xs

length-each :
    {A : Type 0} (f : A → List ℕ) (w : A → ℕ)
    → ((x : A) → length (f x) ≡ w x)
    → (l : List A) → length (each f l) ≡ total w l
unfolding each total
length-each f w ok [] = refl
length-each f w ok (x ∷ l) =
    omega (arith, length-append (f x) (each f l), ok x, length-each f w ok l)

total_const : {A : Type 0} (n : ℕ) (l : List A) → total (λ _. n) l ≡ n * length l
unfolding total
total_const n [] = omega arith
total_const n (x ∷ l) = omega (arith, total_const n l)

length-list_bytes :
    {A : Type 0} (f : A → List ℕ) (w : A → ℕ)
    → ((x : A) → length (f x) ≡ w x)
    → (l : List A) → length (list_bytes f l) ≡ 2 + total w l
unfolding list_bytes
length-list_bytes f w ok l = omega (
  arith,
  length-append (short_bytes (pos (length l))) (each f l),
  length-short_bytes (pos (length l)),
  length-each f w ok l,
)

pub length-vars_bytes : (l : List Var) → length (list_bytes var_bytes l) ≡ 2 + 7 * length l
length-vars_bytes l =
    omega (arith, length-list_bytes var_bytes (λ _. 7) length-var_bytes l, total_const 7 l)

pub tag_size : ProgramTag → ℕ
tag_size t = length t.name + 4

length-tag_bytes : (t : ProgramTag) → length (tag_bytes t) ≡ tag_size t
unfolding tag_bytes tag_size
length-tag_bytes t = omega (
  arith,
  length-append (text_bytes t.name) (short_bytes t.pc),
  length-text_bytes t.name,
  length-short_bytes t.pc,
)

pub entry_size : StackEntry → ℕ
entry_size e = 12 + 7 * (length e.args + length e.vars)

length-entry_bytes : (e : StackEntry) → length (entry_bytes e) ≡ entry_size e
unfolding entry_bytes entry_size
length-entry_bytes e =
    simp (length-append, length-short_bytes, length-vars_bytes, length-mempos_bytes) (omega arith)

unfoldable pub pcb_size : Pcb → ℕ
pcb_size pcb =
    20 + 4 * length pcb.index_code + total tag_size pcb.index_tag + total entry_size pcb.stack

pub length-pcb_bytes : (pcb : Pcb) → length (pcb_bytes pcb) ≡ pcb_size pcb
unfolding pcb_bytes pcb_size
length-pcb_bytes pcb =
    simp (length-append, length-short_bytes)
      (omega (
        arith,
        length-each instruction_bytes (λ _. 4) length-instruction_bytes pcb.index_code,
        total_const 4 pcb.index_code,
        length-each tag_bytes tag_size length-tag_bytes pcb.index_tag,
        length-list_bytes entry_bytes entry_size length-entry_bytes pcb.stack,
      ))
