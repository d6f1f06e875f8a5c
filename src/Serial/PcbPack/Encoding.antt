-- ===== src/Serial/PcbPack/Encoding.antt =====
-- The layout that Common/serial.c gives a pcb: two bytes for a number, seven for a variable, and
-- each list behind its length. Beside it the range in which each number must lie.
use esthe_r.Base.{ℕ, ◌^◌, ◌<◌, ◌≢◌, ◌≡◌, List, [], ◌∷◌, ◌++◌, length, All}
use esthe_r.Base.Int.{ℤ, pos, InRange}
use esthe_r.Structures.{MemPos, Var, ProgramTag, StackEntry, Instruction, Pcb}
use esthe_r.Serial.Format.{num, text}
use esthe_r.Serial.Format.Fields.{int8, int16, string}
use esthe_r.Serial.Format.RoundTrip.{encoding}

abbrev pub Short : ℤ → Type 0
Short v = InRange (2 ^ 15) v

unfoldable pub short_bytes : ℤ → List ℕ
short_bytes v = encoding (int16 ∷ []) (num v ∷ [])

abbrev pub MemPosFits : MemPos → Type 0
MemPosFits m = Short m.page × Short m.offset × Short m.size

unfoldable pub mempos_bytes : MemPos → List ℕ
mempos_bytes m = encoding (int16 ∷ int16 ∷ int16 ∷ []) (num m.page ∷ num m.offset ∷ num m.size ∷ [])

abbrev pub VarFits : Var → Type 0
VarFits x = InRange (2 ^ 7) x.id × MemPosFits x.mempos

unfoldable pub var_bytes : Var → List ℕ
var_bytes x =
    encoding (int8 ∷ int16 ∷ int16 ∷ int16 ∷ [])
      (num x.id ∷ num x.mempos.page ∷ num x.mempos.offset ∷ num x.mempos.size ∷ [])

abbrev pub InstructionFits : Instruction → Type 0
InstructionFits i = Short i.start × Short i.offset

unfoldable pub instruction_bytes : Instruction → List ℕ
instruction_bytes i = short_bytes i.start ++ short_bytes i.offset

-- A name has at most 63 bytes, none of them 0.
abbrev pub TagFits : ProgramTag → Type 0
TagFits t = (length t.name < 64) × All (λ b. b ≢ 0) t.name × Short t.pc

unfoldable pub text_bytes : List ℕ → List ℕ
text_bytes s = encoding (string ∷ []) (text s ∷ [])

unfoldable pub tag_bytes : ProgramTag → List ℕ
tag_bytes t = text_bytes t.name ++ short_bytes t.pc

unfoldable pub each : {A : Type 0} → (A → List ℕ) → List A → List ℕ
each f [] = []
each f (x ∷ xs) = f x ++ each f xs

-- A list of at most 2 ^ 15 - 1 elements.
abbrev pub ListFits : {A : Type 0} → (A → Type 0) → List A → Type 0
ListFits P l = (length l < 2 ^ 15) × All P l

unfoldable pub list_bytes : {A : Type 0} → (A → List ℕ) → List A → List ℕ
list_bytes f l = short_bytes (pos (length l)) ++ each f l

abbrev pub EntryFits : StackEntry → Type 0
EntryFits e =
    Short e.ret_pos × ListFits VarFits e.args × ListFits VarFits e.vars × MemPosFits e.ret_var

unfoldable pub entry_bytes : StackEntry → List ℕ
entry_bytes e =
    short_bytes e.ret_pos
    ++ (list_bytes var_bytes e.args ++ (list_bytes var_bytes e.vars ++ mempos_bytes e.ret_var))

-- The numbers fit their two bytes, and the counts are those of the arrays.
pub record IsSerializable (pcb : Pcb) : Type 0 where
  pub id_process : Short pcb.id_process
  pub pc : Short pcb.pc
  pub quantum : Short pcb.quantum
  pub status : Short pcb.status
  pub pages_code : Short pcb.pages_code
  pub instructions : pcb.instructions ≡ pos (length pcb.index_code)
  pub tags : pcb.tags ≡ pos (length pcb.index_tag)
  pub stack_pointer : Short pcb.stack_pointer
  pub exit_code : Short pcb.exit_code
  pub code : ListFits InstructionFits pcb.index_code
  pub names : ListFits TagFits pcb.index_tag
  pub stack : ListFits EntryFits pcb.stack

abbrev pub header_bytes : Pcb → List ℕ → List ℕ
header_bytes pcb rest =
    short_bytes pcb.id_process
    ++ (short_bytes pcb.pc
        ++ (short_bytes pcb.quantum
            ++ (short_bytes pcb.status
                ++ (short_bytes pcb.pages_code
                    ++ (short_bytes pcb.instructions
                        ++ (short_bytes pcb.tags
                            ++ (short_bytes pcb.stack_pointer
                                ++ (short_bytes pcb.exit_code ++ rest))))))))

unfoldable pub pcb_bytes : Pcb → List ℕ
pcb_bytes pcb = header_bytes pcb (
    each instruction_bytes pcb.index_code
    ++ (each tag_bytes pcb.index_tag ++ list_bytes entry_bytes pcb.stack))
