-- ===== src/Serial/PcbPack.antt =====
-- serial_pack_pcb, serial_pack_stack and serial_pack_vars of Common/serial.c. Each serial_pack
-- writes at `buff+tam`, where the one before it stopped, so its bytes are appended.
pub mod Encoding
pub mod Laws
pub mod Sizes
use esthe_r.Base.{ℕ, zero, suc, ◌+◌, Option, none, some, ◌>>=◌, List, [], ◌∷◌, ◌++◌}
use esthe_r.Base.{get_elem?, codes}
use esthe_r.Base.Int.{pos, pos_part}
use esthe_r.Commons.{CommonsList}
use esthe_r.Structures.{Var, ProgramTag, StackEntry, Instruction, Pcb}
use esthe_r.Serial.Format.{Arg, num, text, Packed, serial_pack}

unfoldable pub append_packed : Packed → Packed → Packed
append_packed p q = record { size = p.size + q.size; bytes = p.bytes ++ q.bytes }

-- `tam += serial_pack(buff+tam, format, args)`
unfoldable pub emit : List ℕ → List Arg → Packed → Option Packed
emit format args p = do q ← serial_pack format args; some (append_packed p q)

abbrev pub nothing_packed : Packed
nothing_packed = record { size = 0; bytes = [] }

-- The loop of `rounds` rounds from index `i` on, over the elements that `get` finds.
unfoldable pub pack_each :
    {A : Type 0} → (ℕ → Option A) → (A → Packed → Option Packed) → ℕ → ℕ → Packed → Option Packed
pack_each get body zero i p = some p
pack_each get body (suc rounds) i p = do
  aux ← get i
  p' ← body aux p
  pack_each get body rounds (suc i) p'

unfoldable pub pack_var : Var → Packed → Option Packed
pack_var aux =
    emit (codes "chhh")
      (num aux.id ∷ num aux.mempos.page ∷ num aux.mempos.offset ∷ num aux.mempos.size ∷ [])

unfoldable pub pack_instruction : Instruction → Packed → Option Packed
pack_instruction aux p = do
  p' ← emit (codes "h") (num aux.start ∷ []) p
  emit (codes "h") (num aux.offset ∷ []) p'

unfoldable pub pack_tag : ProgramTag → Packed → Option Packed
pack_tag aux p = do
  p' ← emit (codes "s") (text aux.name ∷ []) p
  emit (codes "h") (num aux.pc ∷ []) p'

module _ (lib : CommonsList) where
  open lib use {list_get, list_size}

  unfoldable pub serial_pack_vars : List Var → Option Packed
  serial_pack_vars lista = do
    p ← emit (codes "h") (num (pos (list_size lista)) ∷ []) nothing_packed
    pack_each (list_get lista) pack_var (list_size lista) 0 p

  unfoldable pub pack_entry : StackEntry → Packed → Option Packed
  pack_entry aux p = do
    p ← emit (codes "h") (num aux.ret_pos ∷ []) p
    args ← serial_pack_vars aux.args
    vars ← serial_pack_vars aux.vars
    emit (codes "hhh") (num aux.ret_var.page ∷ num aux.ret_var.offset ∷ num aux.ret_var.size ∷ [])
        (append_packed (append_packed p args) vars)

  unfoldable pub serial_pack_stack : List StackEntry → Option Packed
  serial_pack_stack stack = do
    p ← emit (codes "h") (num (pos (list_size stack)) ∷ []) nothing_packed
    pack_each (list_get stack) pack_entry (list_size stack) 0 p

  -- A count of 0 or less makes no round. `none` is a read past the end of an array.
  unfoldable pub serial_pack_pcb : Pcb → Option Packed
  serial_pack_pcb pcb = do
    p ← emit (codes "h") (num pcb.id_process ∷ []) nothing_packed
    p ← emit (codes "h") (num pcb.pc ∷ []) p
    p ← emit (codes "h") (num pcb.quantum ∷ []) p
    p ← emit (codes "h") (num pcb.status ∷ []) p
    p ← emit (codes "h") (num pcb.pages_code ∷ []) p
    p ← emit (codes "h") (num pcb.instructions ∷ []) p
    p ← emit (codes "h") (num pcb.tags ∷ []) p
    p ← emit (codes "h") (num pcb.stack_pointer ∷ []) p
    p ← emit (codes "h") (num pcb.exit_code ∷ []) p
    p ← pack_each (get_elem? pcb.index_code) pack_instruction (pos_part pcb.instructions) 0 p
    p ← pack_each (get_elem? pcb.index_tag) pack_tag (pos_part pcb.tags) 0 p
    stack ← serial_pack_stack pcb.stack
    some (append_packed p stack)
