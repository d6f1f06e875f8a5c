-- ===== src/Kernel/Syscall.antt =====
-- Kernel/src/syscall.c: the requests of a CPU. Of the bytes that are read behind a name, which the code
-- does not set, `beyond` is what is there; string_substring of so-commons is a parameter.
pub mod Semaphores
use esthe_r.Base.{
  ℕ, zero, suc, ◌-◌, ◌==◌, Bool, true, false, Option, none, some, ◌>>=◌, List, [], ◌∷◌, ◌++◌,
}
use esthe_r.Base.{codes, drop, take, ltb, get_elem?, if◌then◌else◌}
use esthe_r.Base.Int.{ℤ, pos, ◌+ℤ◌, ◌-ℤ◌, ltb_ℤ}
use esthe_r.Commons.{CommonsList, filter}
use esthe_r.Structures.{Pcb}
use esthe_r.Serial.Format.{num, serial_pack}
use esthe_r.Serial.PcbUnpack.{serial_unpack_pcb, read_short}
use esthe_r.Socket.{buffer_capacity}
use esthe_r.Protocol.{Packet, protocol_header, protocol_packet}
use esthe_r.Protocol.Opcodes.{
  kernel, op_cpu_program_end, op_cpu_semaphore, op_cpu_shared_var, op_ke_send_sharedvalue,
}
use esthe_r.Cpu.Primitives.{equal_texts}
use esthe_r.Cpu.Cycle.{c_string}
use esthe_r.Kernel.{
  TClient, Status, ready, exec, block, KernelState, write_pcb, set_queue, append_queue, alloc_pcb,
  send, receive, buffered,
}
use esthe_r.Kernel.Pcbs.{pcb_equals, remove_from, end_program}
use esthe_r.Kernel.Server.{restore_cpu}

-- How many names stand before the one looked for.
unfoldable pub index_of : List ℕ → List (List ℕ) → ℕ
index_of name [] = 0
index_of name (n ∷ ns) = if equal_texts n name then 0 else suc (index_of name ns)

-- An array with another element at an index.
unfoldable pub store_at : {A : Type 0} → List A → ℕ → A → Option (List A)
store_at [] i x = none
store_at (y ∷ ys) zero x = some (x ∷ ys)
store_at (y ∷ ys) (suc i) x = do zs ← store_at ys i x; some (y ∷ zs)

-- The first byte of a payload, and the buffer with what follows it.
unfoldable pub copied_name : List ℕ → Packet → Option (ℕ × List ℕ)
copied_name beyond packet = do
  payload ← packet.payload
  elim payload [
    | [] ↦ none
    | op ∷ name ↦
        if ltb buffer_capacity packet.header.msgsize then none else some (op, name ++ beyond)
  ]

-- mlist_remove of those that equal the one at `p`, which the condition reads each time, with `free`.
unfoldable pub remove_equal : ℕ → List ℕ → KernelState → Option (List ℕ × KernelState)
remove_equal p [] k = some ([], k)
remove_equal p (q ∷ qs) k = do
  a ← k.pcb_at p
  b ← k.pcb_at q
  let gone = pcb_equals a b
  (left, k) ← remove_equal p qs (if gone then write_pcb q none k else k)
  some (if gone then left else q ∷ left, k)

module _ (lib : CommonsList) where
  open lib use {list_add, list_remove}

  -- A program that waits for semaphore i: in the list of blocked programs and in that of the semaphore.
  unfoldable pub block_on : ℕ → ℕ → KernelState → Option KernelState
  block_on i p k = do
    waiting ← get_elem? k.solicitudes_sem i
    solicitudes ← store_at k.solicitudes_sem i (list_add waiting p)
    some (record (append_queue block p k) { solicitudes_sem = solicitudes })

  unfoldable pub set_semaphore : ℕ → (ℤ → ℤ) → KernelState → Option (ℤ × KernelState)
  set_semaphore i f k = do
    v ← get_elem? k.sem_ansisop i
    values ← store_at k.sem_ansisop i (f v)
    some (f v, record k { sem_ansisop = values })

  unfoldable pub wait_semaphore : ℕ → ℕ → KernelState → Option KernelState
  wait_semaphore i p k = do
    (v, k) ← set_semaphore i (λ v. v -ℤ pos 1) k
    if ltb_ℤ (pos 0) v then some (append_queue ready p k) else block_on i p k

  -- The program that has waited longest goes to ready, and is removed from the blocked, and freed.
  unfoldable pub wake : ℕ → KernelState → Option KernelState
  wake i k = do
    waiting ← get_elem? k.solicitudes_sem i
    let (first, others) = list_remove waiting 0
    p ← first
    solicitudes ← store_at k.solicitudes_sem i others
    let k1 = append_queue ready p (record k { solicitudes_sem = solicitudes })
    (left, k2) ← remove_equal p (k1.queue block) k1
    some (set_queue block left k2)

  unfoldable pub signal_semaphore : ℕ → ℕ → KernelState → Option KernelState
  signal_semaphore i p k = do
    (_, k) ← set_semaphore i (λ v. v +ℤ pos 1) k
    k ← block_on i p k
    wake i k

  -- 'w' is a wait, any other byte a signal.
  unfoldable pub semaphore : List ℕ → TClient → ℕ → KernelState → Option KernelState
  semaphore beyond client p k = do
    (packet, k) ← receive client.client_id k
    (op, buffer) ← copied_name beyond packet
    name ← c_string buffer
    let i = index_of name k.config.sem_ids
    k ← (if op == 119 then wait_semaphore i p k else signal_semaphore i p k)
    some (restore_cpu client k)

  unfoldable pub send_shared : TClient → ℕ → KernelState → Option KernelState
  send_shared client i k = do
    value ← get_elem? k.shared_values i
    b ← buffered (serial_pack (codes "h") (num value ∷ []))
    let packet = protocol_packet (protocol_header kernel op_ke_send_sharedvalue b.size) b.bytes
    some (send packet client.client_id k)

  unfoldable pub store_shared : TClient → ℕ → KernelState → Option KernelState
  store_shared client i k = do
    (packet, k) ← receive client.client_id k
    payload ← packet.payload
    (value, _) ← read_short payload
    values ← store_at k.shared_values i value
    some (record k { shared_values = values })

  -- 'v' asks for the value, any other byte sets it.
  unfoldable pub shared_variable :
      (List ℕ → ℕ → ℤ → List ℕ) → List ℕ → TClient → KernelState → Option KernelState
  shared_variable string_substring beyond client k = do
    (packet, k) ← receive client.client_id k
    (op, buffer) ← copied_name beyond packet
    let variable = string_substring buffer 0 (pos packet.header.msgsize -ℤ pos 1)
    let i = index_of variable k.config.shared_vars
    k ← (if op == 118 then send_shared client i k else store_shared client i k)
    some (restore_cpu client k)

  unfoldable pub gestion_syscall :
      (List ℕ → ℕ → ℤ → List ℕ) → List ℕ → Packet → TClient → KernelState → Option KernelState
  gestion_syscall string_substring beyond packet client k = do
    payload ← packet.payload
    pcb ← serial_unpack_pcb lib payload
    let (p, k1) = alloc_pcb pcb k
    k2 ← remove_from (pcb_equals pcb) exec k1
    let op = packet.header.opcode
    if op == op_cpu_program_end
        then (end_program p (pos 0) k2 >>= λ k3. some (restore_cpu client k3))
        else if op == op_cpu_semaphore
        then semaphore beyond client p k2
        else if op == op_cpu_shared_var
        then shared_variable string_substring beyond client k2
        else some k2
