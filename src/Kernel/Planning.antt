-- ===== src/Kernel/Planning.antt =====
-- Kernel/src/Kernel.c: new programs, and planificacion, which takes a program from new to ready and
-- gives those that are ready to the CPUs that are free. The lists of so-commons are a parameter.
pub mod Dispatch
pub mod Bound
use esthe_r.Base.{
  ℕ, zero, suc, ◌+◌, ◌-◌, ◌/◌, ◌%◌, Bool, true, false, ◌&&◌, not, Option, none, some, ◌>>=◌, List,
  [], ◌∷◌, ◌++◌,
}
use esthe_r.Base.{codes, length, drop, ltb, ◌==◌, if◌then◌else◌}
use esthe_r.Base.Int.{ℤ, pos, negsuc, eq_ℤ}
use esthe_r.Commons.{CommonsList}
use esthe_r.Structures.{Pcb}
use esthe_r.Serial.Format.{Packed, num, serial_pack, copy_bytes}
use esthe_r.Serial.PcbPack.{serial_pack_pcb, serial_pack_stack}
use esthe_r.Serial.PcbUnpack.{read_short}
use esthe_r.Socket.{buffer_capacity}
use esthe_r.Protocol.{Packet, protocol_header, protocol_packet}
use esthe_r.Protocol.Opcodes.{kernel, op_me_inipro, op_me_almbytpag, op_ke_send_pcb}
use esthe_r.Kernel.{
  TClient, Status, new, ready, exec, block, exit, KernelState, set_queue, append_queue, write_pcb,
  send, receive, program_header, buffered,
}

unfoldable pub progs_in_system : KernelState → ℕ
progs_in_system k = length (k.queue ready) + length (k.queue exec) + length (k.queue block)

-- The pages of a code.
unfoldable pub code_pages : ℕ → List ℕ → ℕ
code_pages page_size code =
    length code / page_size + (if length code % page_size == 0 then 0 else 1)

-- The number that the memory answers.
unfoldable pub receive_result : ℕ → KernelState → Option (ℤ × KernelState)
receive_result s k = do
  (packet, k) ← receive s k
  payload ← packet.payload
  (res, _) ← read_short payload
  some (res, k)

-- The size of the part of the code for a page.
unfoldable pub page_part : ℕ → List ℕ → ℕ → ℕ → ℕ
page_part page_size code pages pag =
    if ltb (suc pag) pages then page_size else length code % page_size

-- The packet that says where the bytes of the next one go.
unfoldable pub send_page_place : ℕ → ℤ → ℤ → ℤ → KernelState → Option KernelState
send_page_place mem pid page size k = do
  b ← buffered (serial_pack (codes "hhh") (num page ∷ num (pos 0) ∷ num size ∷ []))
  some (send (protocol_packet (program_header op_me_almbytpag b.size pid) b.bytes) mem k)

-- So many bytes of the code, from `tam` on, by way of the buffer.
unfoldable pub send_part : ℕ → ℤ → List ℕ → ℕ → ℕ → KernelState → Option KernelState
send_part mem pid code tam size k = do
  part ← (if ltb buffer_capacity size then none else copy_bytes size (drop tam code))
  some (send (protocol_packet (program_header op_me_almbytpag size pid) part) mem k)

module _ (page_size : ℕ) (code : List ℕ) (pid : ℤ) (mem : ℕ) where
  -- One round of the loop over the pages; the answer only goes to the log.
  unfoldable pub store_code_page : ℕ → ℕ → ℕ → KernelState → Option KernelState
  store_code_page pages pag tam k = do
    let size = page_part page_size code pages pag
    k ← send_page_place mem pid (pos pag) (pos size) k
    k ← send_part mem pid code tam size k
    (_, k) ← receive_result mem k
    some k

  -- So many rounds of the loop, from page `pag` on.
  unfoldable pub store_pages : ℕ → ℕ → ℕ → ℕ → KernelState → Option KernelState
  store_pages pages zero pag tam k = some k
  store_pages pages (suc rounds) pag tam k = do
    k ← store_code_page pages pag tam k
    store_pages pages rounds (suc pag) (tam + page_part page_size code pages pag) k

unfoldable pub request_pages : ℕ → ℤ → ℕ → KernelState → Option KernelState
request_pages mem pid pages k = do
  b ← buffered (serial_pack (codes "h") (num (pos pages) ∷ []))
  some (send (protocol_packet (program_header op_me_inipro b.size pid) b.bytes) mem k)

-- The packet with a program goes to a CPU; the program and the CPU change lists.
abbrev pub started : ℕ → List ℕ → TClient → List TClient → Packed → KernelState → KernelState
started p ps cpu cpus b k =
    let packet = protocol_packet (protocol_header kernel op_ke_send_pcb b.size) b.bytes in
    let k1 = send packet cpu.client_id (record (set_queue ready ps k) { cpu_conectadas = cpus }) in
    record (append_queue exec p k1) { cpu_executing = k1.cpu_executing ++ (cpu ∷ []) }

module _ (lib : CommonsList) where
  open lib use {list_size}

  unfoldable pub send_stack : ℕ → Pcb → KernelState → Option KernelState
  send_stack mem pcb k = do
    s ← buffered (serial_pack_stack lib pcb.stack)
    some (
        send (protocol_packet (program_header op_me_almbytpag s.size pcb.id_process) s.bytes) mem k)

  -- The stack of the program is sent to the memory.
  unfoldable pub store_stack : ℕ → Pcb → KernelState → Option KernelState
  store_stack mem pcb k = do
    k ← send_page_place mem pcb.id_process pcb.stack_pointer (pos (list_size pcb.stack)) k
    k ← send_stack mem pcb k
    (_, k) ← receive mem k
    some k

  -- What follows the answer of the memory to the request of pages.
  unfoldable pub admitted : ℕ → ℕ → Pcb → List ℕ → ℤ → KernelState → Option KernelState
  admitted mem p pcb code res k =
      if eq_ℤ res (pos 0)
      then some (append_queue exit p (write_pcb p (some (record pcb { exit_code = negsuc 0 })) k))
      else (do
        let page_size = k.config.page_size
        let pages = code_pages page_size code
        let pcb' = record pcb { pages_code = pos pages }
        let k1 = append_queue ready p (write_pcb p (some pcb') k)
        k2 ← store_pages page_size code pcb.id_process mem pages pages 0 0 k1
        store_stack mem pcb' k2)

  -- The first program of new, with its code.
  unfoldable pub admit : ℕ → List ℕ → ℕ → KernelState → Option KernelState
  admit mem code p k = do
    pcb ← k.pcb_at p
    let pages = code_pages k.config.page_size code + k.config.stack_size
    k ← request_pages mem pcb.id_process pages k
    (res, k) ← receive_result mem k
    admitted mem p pcb code res k

  -- The first program of new, if there is one, given the lists of programs and of codes.
  unfoldable pub admit_first : ℕ → List ℕ → List (List ℕ) → KernelState → Option KernelState
  admit_first mem [] codes k = some k
  admit_first mem (p ∷ ps) [] k = none
  admit_first mem (p ∷ ps) (code ∷ codes) k =
      admit mem code p (record (set_queue new ps k) { codes_ms = codes })

  unfoldable pub admit_next : ℕ → KernelState → Option KernelState
  admit_next mem k =
      if ltb (progs_in_system k) k.multipg_level
      then admit_first mem (k.queue new) k.codes_ms k
      else some k

  -- A program that is ready goes to a CPU that is free.
  unfoldable pub run_on : ℕ → List ℕ → TClient → List TClient → KernelState → Option KernelState
  run_on p ps cpu cpus k = do
    pcb ← k.pcb_at p
    b ← buffered (serial_pack_pcb lib pcb)
    some (started p ps cpu cpus b k)

  -- The loop, given the two lists that its condition tests, and what follows a round.
  unfoldable pub dispatch_turn :
      (KernelState → Option KernelState) → List ℕ → List TClient → KernelState → Option KernelState
  dispatch_turn again [] cpus k = some k
  dispatch_turn again (p ∷ ps) [] k = some k
  dispatch_turn again (p ∷ ps) (cpu ∷ cpus) k = run_on p ps cpu cpus k >>= again

  unfoldable pub dispatch : ℕ → KernelState → Option KernelState
  dispatch zero k = none
  dispatch (suc fuel) k = dispatch_turn (dispatch fuel) (k.queue ready) k.cpu_conectadas k

  unfoldable pub planificacion : ℕ → KernelState → Option KernelState
  planificacion mem k = do k ← admit_next mem k; dispatch (suc (length (k.queue ready))) k
