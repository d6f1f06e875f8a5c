-- ===== src/Serial/PcbPack/Laws.antt =====
-- The packing functions of Common/serial.c write the layout of `Encoding`.
use esthe_r.Base.{ℕ, suc, ◌^◌, ◌<◌, ◌≢◌, ◌≡◌, refl, Option, some, ap, sym, ◌∙◌, arith}
use esthe_r.Base.{List, [], ◌∷◌, ◌++◌, length, All, get_elem?, get_elem?-middle, length-append}
use esthe_r.Base.{append_assoc, append-nil, codes}
use esthe_r.Base.Int.{ℤ, pos, pos_part}
use native.Mathlib.Nat.{zero-add, add-zero}
use esthe_r.Commons.{CommonsList}
use esthe_r.Structures.{MemPos, Var, ProgramTag, StackEntry, Instruction, Pcb}
use esthe_r.Serial.Format.{Arg, num, text, Packed}
use esthe_r.Serial.Format.Fields.{Field, int8, int16, string, stored}
use esthe_r.Serial.Format.RoundTrip.{format, AllFit, encoding, serial_pack-encoding, stored-append}
use esthe_r.Serial.PcbPack.{emit, append_packed, nothing_packed, pack_each, pack_var}
use esthe_r.Serial.PcbPack.{pack_instruction, pack_tag, serial_pack_vars, pack_entry}
use esthe_r.Serial.PcbPack.{serial_pack_stack, serial_pack_pcb}
use esthe_r.Serial.PcbPack.Encoding.{Short, short_bytes, MemPosFits, mempos_bytes, VarFits}
use esthe_r.Serial.PcbPack.Encoding.{var_bytes, InstructionFits, instruction_bytes, TagFits}
use esthe_r.Serial.PcbPack.Encoding.{
  text_bytes, tag_bytes, each, ListFits, list_bytes, EntryFits, entry_bytes,
}
use esthe_r.Serial.PcbPack.Encoding.{IsSerializable, pcb_bytes}

emit-encoding :
    (fs : List Field) (args : List Arg) (p : Packed)
    → AllFit fs args
    → emit (format fs) args p ≡ some (stored p (encoding fs args))
unfolding emit append_packed stored
emit-encoding fs args p h = rw (serial_pack-encoding fs args h)

Short-emit :
    (v : ℤ) (p : Packed)
    → Short v
    → emit (codes "h") (num v ∷ []) p ≡ some (stored p (short_bytes v))
unfolding short_bytes
Short-emit v p h = emit-encoding (int16 ∷ []) (num v ∷ []) p (h, tt)

emit_mempos :
    (m : MemPos) (p : Packed)
    → MemPosFits m
    → emit (codes "hhh") (num m.page ∷ num m.offset ∷ num m.size ∷ []) p
      ≡ some (stored p (mempos_bytes m))
unfolding mempos_bytes
emit_mempos m p h =
    emit-encoding (int16 ∷ int16 ∷ int16 ∷ []) (num m.page ∷ num m.offset ∷ num m.size ∷ []) p
      (h.0, (h.1, (h.2, tt)))

emit_text :
    (s : List ℕ) (p : Packed)
    → length s < 2 ^ 16
    → All (λ b. b ≢ 0) s
    → emit (codes "s") (text s ∷ []) p ≡ some (stored p (text_bytes s))
unfolding text_bytes
emit_text s p short nonzero = emit-encoding (string ∷ []) (text s ∷ []) p ((short, nonzero), tt)

append-stored :
    (p : Packed) (bs : List ℕ) → append_packed p (stored nothing_packed bs) ≡ stored p bs
unfolding append_packed stored
append-stored p bs = rw (zero-add (length bs))

stored_nothing :
    (bs : List ℕ) → some (stored nothing_packed bs) ≡ some (record { size = length bs; bytes = bs })
unfolding stored
stored_nothing bs = ap (λ n. some (record { size = n; bytes = bs })) (zero-add (length bs))

pack_var-bytes : (x : Var) (p : Packed) → VarFits x → pack_var x p ≡ some (stored p (var_bytes x))
unfolding pack_var var_bytes
pack_var-bytes x p (i, o) =
    emit-encoding (int8 ∷ int16 ∷ int16 ∷ int16 ∷ [])
      (num x.id ∷ num x.mempos.page ∷ num x.mempos.offset ∷ num x.mempos.size ∷ []) p
      (i, (o.0, (o.1, (o.2, tt))))

pack_instruction-bytes :
    (x : Instruction) (p : Packed)
    → InstructionFits x
    → pack_instruction x p ≡ some (stored p (instruction_bytes x))
unfolding pack_instruction instruction_bytes
pack_instruction-bytes x p h =
    rw (Short-emit x.start p h.0, Short-emit x.offset, h.1, stored-append)

pack_tag-bytes :
    (x : ProgramTag) (p : Packed) → TagFits x → pack_tag x p ≡ some (stored p (tag_bytes x))
unfolding pack_tag tag_bytes
pack_tag-bytes x p h =
    rw (emit_text x.name p (omega arith) h.1, Short-emit x.pc, h.2, stored-append)

-- A loop whose body writes the bytes of an element writes those of all, in order.
pack_each-bytes :
    {A : Type 0} (P : A → Type 0) (f : A → List ℕ) (get : ℕ → Option A)
    (body : A → Packed → Option Packed) (l : List A)
    → ((x : A) (p : Packed) → P x → body x p ≡ some (stored p (f x)))
    → ((i : ℕ) → get i ≡ get_elem? l i)
    → (done todo : List A) (p : Packed) → l ≡ done ++ todo
    → All P todo
    → pack_each get body (length todo) (length done) p ≡ some (stored p (each f todo))
unfolding pack_each each
pack_each-bytes P f get body l ok at done [] p e h = unfold stored in rw (append-nil, add-zero)
pack_each-bytes P f get body l ok at done (x ∷ todo) p e h =
    rw (at, e, get_elem?-middle done x todo, ok x p h.0)
      (rw (← stored-append p (f x) (each f todo), ← last)
        (pack_each-bytes P f get body l ok at (done ++ (x ∷ [])) todo (stored p (f x))
          (e ∙ sym (append_assoc done (x ∷ []) todo)) h.1))
  where
    last : length (done ++ (x ∷ [])) ≡ suc (length done)
    last = omega (arith, length-append done (x ∷ []))

pack_list-bytes :
    {A : Type 0} (P : A → Type 0) (f : A → List ℕ) (get : ℕ → Option A)
    (body : A → Packed → Option Packed) (l : List A)
    → ((x : A) (p : Packed) → P x → body x p ≡ some (stored p (f x)))
    → ((i : ℕ) → get i ≡ get_elem? l i)
    → (p : Packed) → All P l
    → pack_each get body (length l) 0 p ≡ some (stored p (each f l))
pack_list-bytes P f get body l ok at p h = pack_each-bytes P f get body l ok at [] l p refl h

module _ (lib : CommonsList) where
  open lib use {list_get, get_lem, size_lem}

  serial_pack_vars-bytes :
      (l : List Var)
      → ListFits VarFits l
      → serial_pack_vars lib l ≡ some (stored nothing_packed (list_bytes var_bytes l))
  unfolding serial_pack_vars list_bytes
  serial_pack_vars-bytes l h = rw (
    size_lem l,
    Short-emit (pos (length l)) nothing_packed h.0,
    pack_list-bytes VarFits var_bytes (list_get l) pack_var l pack_var-bytes (get_lem l)
        (stored nothing_packed (short_bytes (pos (length l)))) h.1,
    stored-append nothing_packed (short_bytes (pos (length l))) (each var_bytes l),
  )

  pack_entry-bytes :
      (e : StackEntry) (p : Packed)
      → EntryFits e
      → pack_entry lib e p ≡ some (stored p (entry_bytes e))
  unfolding pack_entry entry_bytes
  pack_entry-bytes e p (r, a, v, m) = rw (
    Short-emit e.ret_pos p r,
    serial_pack_vars-bytes e.args a,
    serial_pack_vars-bytes e.vars v,
    append-stored,
    append-stored,
    emit_mempos e.ret_var,
    m,
    stored-append,
    stored-append,
    stored-append,
  )

  serial_pack_stack-bytes :
      (l : List StackEntry)
      → ListFits EntryFits l
      → serial_pack_stack lib l ≡ some (stored nothing_packed (list_bytes entry_bytes l))
  unfolding serial_pack_stack list_bytes
  serial_pack_stack-bytes l h = rw (
    size_lem l,
    Short-emit (pos (length l)) nothing_packed h.0,
    pack_list-bytes EntryFits entry_bytes (list_get l) (pack_entry lib) l pack_entry-bytes
        (get_lem l) (stored nothing_packed (short_bytes (pos (length l)))) h.1,
    stored-append nothing_packed (short_bytes (pos (length l))) (each entry_bytes l),
  )

  -- serial_pack_pcb writes the layout of the pcb and returns its length.
  pub serial_pack_pcb-bytes :
      (pcb : Pcb)
      → IsSerializable pcb
      → serial_pack_pcb lib pcb
        ≡ some (record { size = length (pcb_bytes pcb); bytes = pcb_bytes pcb })
  unfolding serial_pack_pcb pcb_bytes
  serial_pack_pcb-bytes pcb h =
      let hi : Short pcb.instructions = rw h.instructions h.code.0 in
      let ht : Short pcb.tags = rw h.tags h.names.0 in
      let ei : pos_part pcb.instructions ≡ length pcb.index_code = ap pos_part h.instructions in
      let et : pos_part pcb.tags ≡ length pcb.index_tag = ap pos_part h.tags in
      rw
        (
          Short-emit pcb.id_process,
          h.id_process,
          Short-emit pcb.pc,
          h.pc,
          Short-emit pcb.quantum,
          h.quantum,
          Short-emit pcb.status,
          h.status,
          Short-emit pcb.pages_code,
          h.pages_code,
          Short-emit pcb.instructions,
          hi,
          Short-emit pcb.tags,
          ht,
          Short-emit pcb.stack_pointer,
          h.stack_pointer,
          Short-emit pcb.exit_code,
          h.exit_code,
          ei,
          et,
          pack_list-bytes InstructionFits instruction_bytes (get_elem? pcb.index_code)
              pack_instruction pcb.index_code pack_instruction-bytes (λ i. refl),
          h.code.1,
          pack_list-bytes TagFits tag_bytes (get_elem? pcb.index_tag) pack_tag pcb.index_tag
              pack_tag-bytes (λ i. refl),
          h.names.1,
          serial_pack_stack-bytes pcb.stack h.stack,
          append-stored,
        )
        (simp (stored-append, append_assoc) (stored_nothing (pcb_bytes pcb)))
