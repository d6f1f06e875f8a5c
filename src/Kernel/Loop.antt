-- ===== src/Kernel/Loop.antt =====
-- init_server of Kernel/src/server.c: what is done with a packet of a client, and what ends each round of
-- the loop. The call of select, which says which sockets are ready, is left out.
use esthe_r.Base.{ℕ, Bool, true, false, Option, some, ◌>>=◌, List, [], ◌∷◌}
use esthe_r.Base.{◌==◌, if◌then◌else◌}
use esthe_r.Base.Int.{ℤ}
use esthe_r.Commons.{CommonsList}
use esthe_r.Protocol.{Packet}
use esthe_r.Protocol.Opcodes.{Process, cpu, console, op_undefined, op_new_program}
use esthe_r.Kernel.{TClient, KernelState, receive}
use esthe_r.Kernel.Planning.{planificacion}
use esthe_r.Kernel.Programs.{Metadata, gestion_datos_new_pcb}
use esthe_r.Kernel.Server.{buscar_proceso, destroy_console}
use esthe_r.Kernel.Syscall.{gestion_syscall}

abbrev pub is_console : Process → Bool
is_console console = true
is_console _ = false

abbrev pub is_cpu : Process → Bool
is_cpu cpu = true
is_cpu _ = false

module _ (lib : CommonsList) (metadata_desde_literal : List ℕ → Metadata)
    (metadata_buscar_etiqueta : List ℕ → List ℕ → ℤ) (sizeof_puntero line_size : ℕ)
    (string_substring : List ℕ → ℕ → ℤ → List ℕ) (beyond : List ℕ) where
  -- A packet of a client; an undefined one is a connection that was closed.
  unfoldable pub attend_packet : Packet → TClient → KernelState → Option KernelState
  attend_packet packet client k =
      if packet.header.opcode == op_undefined
      then (if is_console client.process then destroy_console client k else some k)
      else if is_console client.process
      then (if packet.header.opcode == op_new_program
          then gestion_datos_new_pcb lib metadata_desde_literal metadata_buscar_etiqueta
              sizeof_puntero line_size packet client k
          else some k)
      else if is_cpu client.process
      then gestion_syscall lib string_substring beyond packet client k
      else some k

  -- Socket `i` is ready.
  unfoldable pub attend : ℕ → KernelState → Option KernelState
  attend i k = do
    client ← buscar_proceso i k
    (packet, k) ← receive client.client_id k
    attend_packet packet client k

  -- A round of the loop, with the sockets that are ready.
  unfoldable pub serve_all : List ℕ → KernelState → Option KernelState
  serve_all [] k = planificacion lib k.memfd k
  serve_all (i ∷ sockets) k = do k ← attend i k; serve_all sockets k
