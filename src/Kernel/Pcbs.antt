-- ===== src/Kernel/Pcbs.antt =====
-- Kernel/src/pcbutils.c and Kernel/src/exitcode.c: the searches in the five lists of programs, and the
-- end of a program.
pub mod Removal
pub mod Live
pub mod Ends
use esthe_r.Base.{ℕ, zero, suc, Bool, true, false, Option, none, some, ◌>>=◌, List, [], ◌∷◌, ◌++◌}
use esthe_r.Base.{codes, ◌==◌, if◌then◌else◌}
use esthe_r.Base.Int.{ℤ, eq_ℤ}
use esthe_r.Structures.{Pcb}
use esthe_r.Serial.Format.{Packed, num, serial_pack}
use esthe_r.Protocol.{Packet, protocol_packet}
use esthe_r.Protocol.Opcodes.{op_ke_program_end, op_me_finpro}
use esthe_r.Commons.{find?}
use esthe_r.Kernel.{
  TClient, Status, new, ready, exec, block, exit, KernelState, set_queue, append_queue, write_pcb,
  alloc_pcb, send, receive, program_header, buffered,
}

-- The order of `enum {NEW, READY, EXEC, BLOCK, EXIT}`.
abbrev pub statuses : List Status
statuses = new ∷ ready ∷ exec ∷ block ∷ exit ∷ []

abbrev pub pcb_equals : Pcb → Pcb → Bool
pcb_equals pcb1 pcb2 = eq_ℤ pcb1.id_process pcb2.id_process

-- mlist_find among process control blocks: the first for which the condition holds, or NULL.
unfoldable pub find_pcb : (Pcb → Bool) → List ℕ → KernelState → Option (Option ℕ)
find_pcb condition [] k = some none
find_pcb condition (p ∷ ps) k = do
  pcb ← k.pcb_at p
  if condition pcb then some (some p) else find_pcb condition ps k

-- mlist_remove with `free`: what is left of the list, after the others are freed.
unfoldable pub remove_pcbs : (Pcb → Bool) → List ℕ → KernelState → Option (List ℕ × KernelState)
remove_pcbs condition [] k = some ([], k)
remove_pcbs condition (p ∷ ps) k = do
  pcb ← k.pcb_at p
  let gone = condition pcb
  (left, k) ← remove_pcbs condition ps (if gone then write_pcb p none k else k)
  some (if gone then left else p ∷ left, k)

unfoldable pub remove_from : (Pcb → Bool) → Status → KernelState → Option KernelState
remove_from condition st k = do
  (left, k) ← remove_pcbs condition (k.queue st) k
  some (set_queue st left k)

-- The searches of pcb_by_id and pcb_status: the first list with such a pcb, and the pcb.
unfoldable pub find_status : (Pcb → Bool) → List Status → KernelState → Option (Option (Status × ℕ))
find_status condition [] k = some none
find_status condition (st ∷ sts) k = do
  found ← find_pcb condition (k.queue st) k
  elim found [ some p ↦ some (some (st, p)) | none ↦ find_status condition sts k ]

unfoldable pub pcb_by_id : ℤ → KernelState → Option (Option ℕ)
pcb_by_id pid k = do
  found ← find_status (λ elem. eq_ℤ elem.id_process pid) statuses k
  some (elim found [ some (_, p) ↦ some p | none ↦ none ])

unfoldable pub pcb_status : Pcb → KernelState → Option (Option Status)
pcb_status pcb k = do
  found ← find_status (pcb_equals pcb) statuses k
  some (elim found [ some (st, _) ↦ some st | none ↦ none ])

unfoldable pub remove_all : (Pcb → Bool) → List Status → KernelState → Option KernelState
remove_all condition [] k = some k
remove_all condition (st ∷ sts) k = do k ← remove_from condition st k; remove_all condition sts k

-- For a pcb that is in none of the lists, so that it is not freed.
unfoldable pub pcb_remove : Pcb → KernelState → Option KernelState
pcb_remove pcb k = remove_all (pcb_equals pcb) statuses k

-- mlist_any of the programs of a console.
abbrev pub any_pid : (ℤ → Bool) → List ℤ → Bool
any_pid p [] = false
any_pid p (pid ∷ pids) = if p pid then true else any_pid p pids

abbrev pub has_program : ℤ → TClient → Bool
has_program pid client = any_pid (λ a. eq_ℤ a pid) client.pids

unfoldable pub tell : Option TClient → Packet → KernelState → KernelState
tell (some console) packet k = send packet console.client_id k
tell none packet k = k

-- A packet to the console of the program, if it is connected.
unfoldable pub tell_console : ℤ → Packet → KernelState → KernelState
tell_console pid packet k = tell (find? (has_program pid) k.consolas_conectadas) packet k

-- The packets of end_program.
unfoldable pub tell_both : ℤ → Packed → KernelState → KernelState
tell_both pid b k =
    let header = program_header op_ke_program_end b.size pid in
    let k1 = tell_console pid (protocol_packet header b.bytes) k in
    send (protocol_packet (record header { opcode = op_me_finpro }) b.bytes) k1.memfd k1

-- The packets, and the answer of the memory, which is not looked at.
unfoldable pub announce : ℤ → ℤ → KernelState → Option KernelState
announce pid code k = do
  b ← buffered (serial_pack (codes "h") (num code ∷ []))
  let k1 = tell_both pid b k
  (_, k2) ← receive k1.memfd k1
  some k2

unfoldable pub end_program : ℕ → ℤ → KernelState → Option KernelState
end_program p code k = do
  pcb ← k.pcb_at p
  let pcb' = record pcb { exit_code = code }
  let (dup, k1) = alloc_pcb pcb' (write_pcb p (some pcb') k)
  k2 ← pcb_remove pcb' k1
  let k3 = append_queue exit dup k2
  announce pcb.id_process code k3
