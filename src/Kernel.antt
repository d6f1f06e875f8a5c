-- ===== src/Kernel.antt =====
-- The state of Kernel/src, and how it is read and changed. A process control block is known by the
-- pointer to it, so two lists may hold the same one. A list of Common/mlist.c is the sequence of its
-- elements. A connection is the packets that are still to arrive on it and those that have been sent;
-- Protocol.antt says how a packet goes over the wire. `none` is a read through NULL or freed memory or
-- past the end of an array, or a receive to which nothing is to arrive.
pub mod Pcbs
pub mod Planning
pub mod Server
pub mod Programs
pub mod Loop
pub mod Terminal
pub mod Start
pub mod Quiet
pub mod Syscall
use esthe_r.Base.{ℕ, zero, suc, Bool, true, false, Option, none, some, ◌>>=◌, List, [], ◌∷◌, ◌++◌}
use esthe_r.Base.{length, ltb, ◌==◌, if◌then◌else◌}
use esthe_r.Base.Int.{ℤ, to_unsigned}
use esthe_r.Structures.{Pcb}
use esthe_r.Serial.Format.{Packed}
use esthe_r.Protocol.{Header, Packet, protocol_header, protocol_packet}
use esthe_r.Protocol.Opcodes.{Process, kernel}
use esthe_r.Socket.{buffer_capacity}

pub record TClient : Type 0 where
  pub client_id : ℕ
  pub process : Process
  pub pids : List ℤ

pub record Connection : Type 0 where
  pub arriving : List Packet
  pub sent : List Packet

-- The statuses of a program, and the lists of programs.
pub data Status : Type 0 where
  new ready exec block exit : Status

pub record Configuration : Type 0 where
  pub page_size : ℕ
  pub stack_size : ℕ
  pub quantum : ℤ
  pub sem_ids : List (List ℕ)
  pub shared_vars : List (List ℕ)

pub record KernelState : Type 0 where
  pub config : Configuration
  pub multipg_level : ℕ
  pub generator_pid : ℤ
  pub pcb_at : ℕ → Option Pcb
  pub limit : ℕ
  pub queue : Status → List ℕ
  pub codes_ms : List (List ℕ)
  pub consolas_conectadas : List TClient
  pub cpu_conectadas : List TClient
  pub cpu_executing : List TClient
  pub connection : ℕ → Connection
  pub memfd : ℕ
  pub sem_ansisop : List ℤ
  pub solicitudes_sem : List (List ℕ)
  pub shared_values : List ℤ

abbrev pub same_status : Status → Status → Bool
same_status new new = true
same_status ready ready = true
same_status exec exec = true
same_status block block = true
same_status exit exit = true
same_status _ _ = false

abbrev pub set_queue : Status → List ℕ → KernelState → KernelState
set_queue st ps k = record k { queue = λ a. if same_status a st then ps else k.queue a }

-- mlist_append to one of the five lists.
abbrev pub append_queue : Status → ℕ → KernelState → KernelState
append_queue st p k = set_queue st (k.queue st ++ (p ∷ [])) k

abbrev pub write_pcb : ℕ → Option Pcb → KernelState → KernelState
write_pcb p c k = record k { pcb_at = λ a. if a == p then c else k.pcb_at a }

-- alloc of a process control block, with its content.
abbrev pub alloc_pcb : Pcb → KernelState → ℕ × KernelState
alloc_pcb pcb k = (k.limit, record (write_pcb k.limit (some pcb) k) { limit = suc k.limit })

abbrev pub set_connection : ℕ → Connection → KernelState → KernelState
set_connection s c k = record k { connection = λ a. if a == s then c else k.connection a }

unfoldable pub send : Packet → ℕ → KernelState → KernelState
send packet s k =
    let c = k.connection s in set_connection s (record c { sent = c.sent ++ (packet ∷ []) }) k

-- The first packet that is to arrive on the socket.
unfoldable pub take_packet : ℕ → List Packet → KernelState → Option (Packet × KernelState)
take_packet s [] k = none
take_packet s (packet ∷ more) k =
    some (packet, set_connection s (record (k.connection s) { arriving = more }) k)

unfoldable pub receive : ℕ → KernelState → Option (Packet × KernelState)
receive s k = take_packet s (k.connection s).arriving k

-- A header with the process of the user, a byte.
unfoldable pub program_header : ℕ → ℕ → ℤ → Header
program_header op msgsize pid = record (protocol_header kernel op msgsize) {
  usrpid = to_unsigned 256 pid;
}

-- What is packed into a buffer of `buffer_capacity` bytes.
unfoldable pub buffered : Option Packed → Option Packed
buffered none = none
buffered (some p) = if ltb buffer_capacity p.size then none else some p
