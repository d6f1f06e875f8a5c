-- ===== src/Serial/PcbUnpack/Laws.antt =====
-- The reading functions of Common/serial.c read the layout back, and stop behind it.
use esthe_r.Base.{ℕ, suc, ◌+◌, ◌*◌, ◌≤◌, ◌≡◌, true, Option, some, ap, ap₂, sym, ◌∙◌, arith}
use esthe_r.Base.{List, [], ◌∷◌, ◌++◌, length, All, drop, drop_all-append}
use esthe_r.Base.{append_assoc, append-nil, codes, leb}
use esthe_r.Base.Int.{ℤ, pos}
use esthe_r.Commons.{CommonsList}
use esthe_r.Structures.{MemPos, Var, ProgramTag, StackEntry, Instruction}
use esthe_r.Serial.Format.{num, text, serial_unpack}
use esthe_r.Serial.Format.Fields.{int8, int16, strlen-length, take-length}
use esthe_r.Serial.Format.RoundTrip.{serial_unpack-encoding}
use esthe_r.Serial.Format.Strings.{unpack_64s}
use esthe_r.Serial.PcbUnpack.{read_short, read_mempos, read_var, read_instruction, read_tag}
use esthe_r.Serial.PcbUnpack.{read_each, unpack_vars_loop, serial_unpack_vars, read_entry}
use esthe_r.Serial.PcbUnpack.{serial_unpack_stack}
use esthe_r.Serial.PcbPack.Sizes.{length-short_bytes, length-mempos_bytes, length-var_bytes}
use esthe_r.Serial.PcbPack.Sizes.{length-text_bytes, length-vars_bytes}
use esthe_r.Serial.PcbPack.Encoding.{Short, short_bytes, MemPosFits, mempos_bytes, VarFits}
use esthe_r.Serial.PcbPack.Encoding.{var_bytes, InstructionFits, instruction_bytes, TagFits}
use esthe_r.Serial.PcbPack.Encoding.{
  text_bytes, tag_bytes, each, ListFits, list_bytes, EntryFits, entry_bytes,
}

drop_exactly : (n : ℕ) (xs ys : List ℕ) → length xs ≡ n → drop n (xs ++ ys) ≡ ys
drop_exactly n xs ys e = rw (← e) (drop_all-append xs ys)

pub read_short-bytes :
    (v : ℤ) (rest : List ℕ) → Short v → read_short (short_bytes v ++ rest) ≡ some (v, rest)
unfolding read_short
read_short-bytes v rest h =
    rw (unpacked, drop_exactly 2 (short_bytes v) rest (length-short_bytes v))
  where
    unpacked : serial_unpack (codes "h") (short_bytes v ++ rest) ≡ some (num v ∷ [])
    unpacked = unfold short_bytes in serial_unpack-encoding (int16 ∷ []) (num v ∷ []) rest (h, tt)

pub read_mempos-bytes :
    (m : MemPos) (rest : List ℕ)
    → MemPosFits m
    → read_mempos (mempos_bytes m ++ rest) ≡ some (m, rest)
unfolding read_mempos
read_mempos-bytes m rest h =
    rw (unpacked, drop_exactly 6 (mempos_bytes m) rest (length-mempos_bytes m))
  where
    unpacked :
        serial_unpack (codes "hhh") (mempos_bytes m ++ rest)
        ≡ some (num m.page ∷ num m.offset ∷ num m.size ∷ [])
    unpacked =
        unfold mempos_bytes in
        serial_unpack-encoding (int16 ∷ int16 ∷ int16 ∷ [])
          (num m.page ∷ num m.offset ∷ num m.size ∷ []) rest (h.0, (h.1, (h.2, tt)))

read_var-bytes :
    (x : Var) (rest : List ℕ) → VarFits x → read_var (var_bytes x ++ rest) ≡ some (x, rest)
unfolding read_var
read_var-bytes x rest (i, o) = rw (unpacked, drop_exactly 7 (var_bytes x) rest (length-var_bytes x))
  where
    unpacked :
        serial_unpack (codes "chhh") (var_bytes x ++ rest)
        ≡ some (num x.id ∷ num x.mempos.page ∷ num x.mempos.offset ∷ num x.mempos.size ∷ [])
    unpacked =
        unfold var_bytes in
        serial_unpack-encoding (int8 ∷ int16 ∷ int16 ∷ int16 ∷ [])
          (num x.id ∷ num x.mempos.page ∷ num x.mempos.offset ∷ num x.mempos.size ∷ []) rest
          (i, (o.0, (o.1, (o.2, tt))))

pub read_instruction-bytes :
    (x : Instruction) (rest : List ℕ)
    → InstructionFits x
    → read_instruction (instruction_bytes x ++ rest) ≡ some (x, rest)
unfolding read_instruction instruction_bytes
read_instruction-bytes x rest h =
    rw (append_assoc, read_short-bytes x.start, h.0, read_short-bytes x.offset rest h.1)

unpack_text_bytes :
    (s rest : List ℕ)
    → length s ≤ 64
    → serial_unpack (codes "64s") (text_bytes s ++ rest) ≡ some (text s ∷ [])
unfolding serial_unpack text_bytes
unpack_text_bytes s rest h = rw (append-nil, unpack_64s s rest [] h)

drop-text_bytes : (s rest : List ℕ) → drop (length s + 2) (text_bytes s ++ rest) ≡ rest
drop-text_bytes s rest = drop_exactly (length s + 2) (text_bytes s) rest (length-text_bytes s)

pub read_tag-bytes :
    (x : ProgramTag) (rest : List ℕ) → TagFits x → read_tag (tag_bytes x ++ rest) ≡ some (x, rest)
unfolding read_tag tag_bytes
read_tag-bytes x rest (short, nonzero, pc) =
    let fits : leb (suc (length x.name)) 64 ≡ true = ground arith in
    rw (
      append_assoc,
      unpack_text_bytes x.name (short_bytes x.pc ++ rest) (omega arith),
      strlen-length x.name nonzero,
      fits,
      take-length x.name,
      drop-text_bytes x.name,
      read_short-bytes x.pc rest pc,
    )

-- A loop whose body reads an element reads all of them, in order.
pub read_each-bytes :
    {A : Type 0} (P : A → Type 0) (f : A → List ℕ) (read : List ℕ → Option (A × List ℕ))
    (add : List A → A → List A)
    → ((x : A) (rest : List ℕ) → P x → read (f x ++ rest) ≡ some (x, rest))
    → ((l : List A) (x : A) → add l x ≡ l ++ (x ∷ []))
    → (done todo : List A) (rest : List ℕ) → All P todo
    → read_each read add (length todo) (each f todo ++ rest) done ≡ some (done ++ todo, rest)
unfolding read_each each
read_each-bytes P f read add ok at done [] rest h = rw append-nil
read_each-bytes P f read add ok at done (x ∷ todo) rest h =
    rw (append_assoc, ok x (each f todo ++ rest) h.0, at)
      (read_each-bytes P f read add ok at (done ++ (x ∷ [])) todo rest h.1
        ∙ ap (λ l. some (l, rest)) (append_assoc done (x ∷ []) todo))

module _ (lib : CommonsList) where
  open lib use {list_create, list_add, create_lem, add_lem}

  unpack_vars_loop-bytes :
      (done todo : List Var) (rest : List ℕ) (tam : ℕ)
      → All VarFits todo
      → unpack_vars_loop lib (length todo) (each var_bytes todo ++ rest) tam done
        ≡ some (done ++ todo, tam + 7 * length todo)
  unfolding unpack_vars_loop each
  unpack_vars_loop-bytes done [] rest tam h =
      ap some (ap₂ (λ l n. (l, n)) (sym (append-nil done)) (omega arith))
  unpack_vars_loop-bytes done (x ∷ todo) rest tam h =
      rw (append_assoc, read_var-bytes x, h.0, add_lem)
        (unpack_vars_loop-bytes (done ++ (x ∷ [])) todo rest (tam + 7) h.1
          ∙ ap some (ap₂ (λ l n. (l, n)) (append_assoc done (x ∷ []) todo) (omega arith)))

  serial_unpack_vars-bytes :
      (l : List Var) (rest : List ℕ)
      → ListFits VarFits l
      → serial_unpack_vars lib list_create (list_bytes var_bytes l ++ rest)
        ≡ some (l, length (list_bytes var_bytes l))
  serial_unpack_vars-bytes l rest h = rw (length-vars_bytes l) (
      unfold serial_unpack_vars list_bytes in
      rw
        (append_assoc, read_short-bytes (pos (length l)) (each var_bytes l ++ rest) h.0, create_lem)
        (unpack_vars_loop-bytes [] l rest 2 h.1))

  pub read_entry-bytes :
      (e : StackEntry) (rest : List ℕ)
      → EntryFits e
      → read_entry lib (entry_bytes e ++ rest) ≡ some (e, rest)
  unfolding read_entry entry_bytes
  read_entry-bytes e rest (r, a, v, m) = rw (
    append_assoc,
    append_assoc,
    append_assoc,
    read_short-bytes e.ret_pos,
    r,
    serial_unpack_vars-bytes e.args,
    a,
    drop_all-append,
    serial_unpack_vars-bytes e.vars,
    v,
    drop_all-append,
    read_mempos-bytes e.ret_var rest m,
  )

  pub serial_unpack_stack-bytes :
      (l : List StackEntry) (rest : List ℕ)
      → ListFits EntryFits l
      → serial_unpack_stack lib list_create (list_bytes entry_bytes l ++ rest) ≡ some l
  unfolding serial_unpack_stack list_bytes
  serial_unpack_stack-bytes l rest h = rw (
    append_assoc,
    read_short-bytes (pos (length l)) (each entry_bytes l ++ rest) h.0,
    create_lem,
    read_each-bytes EntryFits entry_bytes (read_entry lib) list_add read_entry-bytes add_lem [] l
        rest h.1,
  )
