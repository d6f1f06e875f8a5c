-- ===== src/Tests/DialogRuns.antt =====
-- The theorems on what the processes answer one another, at concrete states.
use esthe_r.Base.{ℕ, ◌+◌, ◌%◌, ◌≡◌, refl, true, some, List, [], ◌∷◌, ◌++◌, codes, arith}
use esthe_r.Base.Int.{ℤ, pos, negsuc}
use esthe_r.Commons.Instance.{sequences}
use esthe_r.Socket.{Arrival}
use esthe_r.Socket.Receive.{Flows, bytes_of}
use esthe_r.Serial.PcbPack.Encoding.{short_bytes}
use esthe_r.Protocol.{Packet, protocol_header_response, protocol_packet_receive}
use esthe_r.Protocol.RoundTrip.{header_bytes}
use esthe_r.Protocol.Opcodes.{memory}
use esthe_r.Memory.PageTable.{clear_pages}
use esthe_r.Memory.Server.{Client, serve}
use esthe_r.Protocol.Opcodes.{op_ke_program_end, op_me_finpro}
use esthe_r.Kernel.Pcbs.{announce}
use esthe_r.Dialog.Ends.{end_packet, ended_with, announce-clear_pages}
use esthe_r.Kernel.{KernelState, TClient, send}
use esthe_r.Kernel.Planning.{request_pages, receive_result}
use esthe_r.Cpu.Cycle.{c_string}
use esthe_r.Kernel.Programs.{Metadata, read_tags, gestion_datos_new_pcb}
use esthe_r.Consola.{ConsoleState, goes, get_program}
use esthe_r.Consola.Steps.{begin_handler}
use esthe_r.Consola.Run.{receive_next}
use esthe_r.Dialog.{program_packet, pid_packet, arrived, Accepted, new_program-Accepted}
use esthe_r.Dialog.Pages.{pages_packet, granted_pages, answer_packet, request_pages-set_pages}
use esthe_r.Tests.KernelRuns.{two_ready, free_cpu, answer}
use esthe_r.Tests.MemoryRuns.{client, answer-IsValid}
use esthe_r.Tests.ConsoleRuns.{one_program, running}

-- A program of no instructions and no tags.
abbrev empty_program : List ℕ → Metadata
empty_program literal = record {
  instruccion_inicio = pos 0;
  instrucciones = [];
  etiquetas = [];
  cantidad_de_etiquetas = 0;
  cantidad_de_funciones = 0;
}

abbrev no_tag : List ℕ → List ℕ → ℤ
no_tag tag etiquetas = pos 0

tags_are_read : read_tags sequences empty_program no_tag 4 64 [] (0 + 0) [] ≡ some []
unfolding read_tags
tags_are_read = refl

-- A file of one character and a zero byte.
abbrev ended_code : List ℕ
ended_code = codes "x" ++ (0 ∷ [])

code_ended : c_string ended_code ≡ some (codes "x")
unfolding c_string
code_ended = refl

new_program-Accepted_example :
    (s1 : ConsoleState) × (begin_handler 100 1 (some (ended_code)) one_program ≡ goes s1)
    × (s1.sent ≡ one_program.sent ++ (program_packet (ended_code) ∷ []))
    × ((link : List Arrival) (rest : List ℕ)
        → Flows link
        → bytes_of link ≡ header_bytes (program_packet ended_code).header ++ (ended_code ++ rest)
        → (link' : List Arrival) × (protocol_packet_receive link
            ≡ some (arrived (program_packet ended_code), link')))
    × ((k' : KernelState) × (gestion_datos_new_pcb sequences empty_program no_tag 4 64
            (arrived (program_packet (ended_code)))
            free_cpu
            two_ready
          ≡ some k')
        × Accepted free_cpu.client_id (ended_code) (pos 3) two_ready k')
    × ((s2 : ConsoleState) × (receive_next (arrived (pid_packet (pos 3)) ∷ []) s1 ≡ goes s2)
        × (s2.program_at 0 ≡ some (record running { pid = pos (3 % 256) })))
new_program-Accepted_example =
    new_program-Accepted 100 1 0 running (ended_code) one_program refl refl (omega arith) sequences
      empty_program no_tag 4 64 (codes "x") free_cpu 2 two_ready [] [] code_ended (omega arith)
      (omega arith) refl tags_are_read

request_pages-set_pages_example :
    (request_pages 9 (pos 2) 2 two_ready ≡ some (send (pages_packet (pos 2) 2) 9 two_ready))
    × ((c' : Client) × (serve 4 (arrived (pages_packet (pos 2) 2)) client ≡ some (c', true))
        × (c'.shared.page_table ≡ (granted_pages client 2 2).1)
        × (c'.wire
            ≡ client.wire
              ++ (header_bytes (protocol_header_response memory client.header 2)
                  ++ short_bytes (granted_pages client 2 2).0)))
    × ((s : List Arrival) (rest : List ℕ)
        → Flows s
        → bytes_of s
          ≡ header_bytes (protocol_header_response memory client.header 2)
            ++ (short_bytes (granted_pages client 2 2).0 ++ rest)
        → (s' : List Arrival) × (protocol_packet_receive s
            ≡ some (answer_packet client (granted_pages client 2 2).0, s')))
    × ((k1 : KernelState) (more : List Packet)
        → (k1.connection 9).arriving ≡ answer_packet client (granted_pages client 2 2).0 ∷ more
        → (k' : KernelState) × (receive_result 9 k1 ≡ some ((granted_pages client 2 2).0, k')))
request_pages-set_pages_example =
    request_pages-set_pages 9 4 2 2 two_ready client (omega arith) answer-IsValid (omega arith)
      (omega arith)

-- The connection of a console with program 5.
abbrev console : TClient
console = record free_cpu { client_id = 2; pids = pos 5 ∷ [] }

abbrev with_console : KernelState
with_console = record two_ready { consolas_conectadas = console ∷ [] }

program_5 : get_program (pos (5 % 256)) one_program.programs one_program.program_at ≡ some (some 0)
unfolding get_program
program_5 = refl

announce-clear_pages_example :
    ((k' : KernelState) × (announce (pos 5) (negsuc 5) with_console ≡ some k')
      × ((k'.connection 2).sent ≡ [] ++ (end_packet op_ke_program_end (pos 5) (negsuc 5) ∷ []))
      × ((k'.connection 9).sent ≡ [] ++ (end_packet op_me_finpro (pos 5) (negsuc 5) ∷ [])))
    × ((s2 : ConsoleState) × (receive_next
            (arrived (end_packet op_ke_program_end (pos 5) (negsuc 5)) ∷ [])
            one_program
          ≡ goes s2)
        × (s2.program_at 0 ≡ some (ended_with (negsuc 5) running)))
    × ((c' : Client) × (serve 4 (arrived (end_packet op_me_finpro (pos 5) (negsuc 5))) client
          ≡ some (c', true))
        × (c'.shared.page_table ≡ (clear_pages client.shared.page_table (pos 5)).1))
announce-clear_pages_example =
    announce-clear_pages console 5 (negsuc 5) (omega arith) with_console answer [] refl refl refl
      one_program 0 running [] program_5 refl 4 client answer-IsValid (omega arith) (omega arith)
