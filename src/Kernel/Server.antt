-- ===== src/Kernel/Server.antt =====
-- Kernel/src/server.c: the clients of the Kernel, and what it does with a packet from one of them. The
-- loop around select is left out: Loop.antt has what it does with a packet.
pub mod Clients
use esthe_r.Base.{
  ℕ, zero, suc, Bool, true, false, not, Option, none, some, ◌>>=◌, List, [], ◌∷◌, ◌++◌,
}
use esthe_r.Base.{codes, ◌==◌, if◌then◌else◌}
use esthe_r.Base.Int.{ℤ, pos, negsuc}
use esthe_r.Commons.{filter}
use esthe_r.Structures.{Pcb}
use esthe_r.Serial.Format.{num, serial_pack}
use esthe_r.Protocol.{protocol_header, protocol_packet}
use esthe_r.Protocol.Opcodes.{Process, kernel, cpu, console, op_ke_send_stack_size}
use esthe_r.Kernel.{TClient, Status, exec, KernelState, send, buffered, same_status}
use esthe_r.Kernel.Pcbs.{pcb_by_id, pcb_status, end_program}

unfoldable pub restore_cpu : TClient → KernelState → KernelState
restore_cpu c k = record k {
  cpu_executing = filter (λ a. not (a.client_id == c.client_id)) k.cpu_executing;
  cpu_conectadas = k.cpu_conectadas ++ (c ∷ []);
}

-- One loop of buscar_proceso: `aux` before it, and what follows it.
unfoldable pub scan :
    ℕ → List TClient → (Option TClient → Option TClient) → Option TClient → Option TClient
scan client [] next aux = next aux
scan client (c ∷ cs) next aux =
    if c.client_id == client then some c else scan client cs next (some c)

-- `none` is `aux` that was never set.
unfoldable pub buscar_proceso : ℕ → KernelState → Option TClient
buscar_proceso client k =
    scan client k.cpu_conectadas
      (scan client k.cpu_executing (scan client k.consolas_conectadas (λ aux. aux))) none

-- EXIT_CONSOLE_KILLED
abbrev pub exit_console_killed : ℤ
exit_console_killed = negsuc 5

-- A program of the console that ends, if it does not run.
unfoldable pub kill_waiting : ℕ → Option Status → KernelState → Option KernelState
kill_waiting p (some exec) k = some k
kill_waiting p _ k = end_program p exit_console_killed k

unfoldable pub kill_found : Option ℕ → KernelState → Option KernelState
kill_found none k = some k
kill_found (some p) k = do pcb ← k.pcb_at p; status ← pcb_status pcb k; kill_waiting p status k

unfoldable pub kill_programs : List ℤ → KernelState → Option KernelState
kill_programs [] k = some k
kill_programs (pid ∷ pids) k = do
  found ← pcb_by_id pid k
  k ← kill_found found k
  kill_programs pids k

unfoldable pub destroy_console : TClient → KernelState → Option KernelState
destroy_console client k = kill_programs client.pids (record k {
  consolas_conectadas = filter (λ a. not (a.client_id == client.client_id)) k.consolas_conectadas;
})

-- A client whose handshake has been received.
unfoldable pub connect : ℕ → Process → KernelState → Option KernelState
connect cli_sock console k = some (record k {
  consolas_conectadas =
      k.consolas_conectadas ++ (record { client_id = cli_sock; process = console; pids = [] } ∷ []);
})
connect cli_sock cpu k = do
  b ←
      buffered (
        serial_pack (codes "hh")
          (num (pos k.config.stack_size) ∷ num (pos k.config.page_size) ∷ []))
  let client : TClient = record { client_id = cli_sock; process = cpu; pids = [] }
  some (
      send (protocol_packet (protocol_header kernel op_ke_send_stack_size b.size) b.bytes) cli_sock
        (record k { cpu_conectadas = k.cpu_conectadas ++ (client ∷ []) }))
connect cli_sock _ k = some k
