-- ===== src/Kernel/Programs.antt =====
-- Kernel/src/Kernel.c: crear_pcb_proceso and gestion_datos_newPcb. The functions of the AnSISOP parser
-- and the size of its `t_puntero_instruccion` are parameters, as is LINE_SIZE, which no file defines.
use esthe_r.Base.{ℕ, zero, suc, ◌+◌, Option, none, some, ◌>>=◌, List, [], ◌∷◌, ◌++◌}
use esthe_r.Base.{length, drop, leb, ◌==◌, if◌then◌else◌}
use esthe_r.Base.Int.{ℤ, pos, ◌+ℤ◌}
use esthe_r.Commons.{CommonsList}
use esthe_r.Structures.{ProgramTag, Instruction}
use esthe_r.Protocol.{Packet, protocol_packet, pointed}
use esthe_r.Protocol.Opcodes.{op_ke_send_pid}
use esthe_r.Cpu.Cycle.{c_string}
use esthe_r.Kernel.{TClient, new, KernelState, append_queue, alloc_pcb, send, program_header}

-- `t_metadata_program` of the parser; `etiquetas` holds a text, its zero and a pointer, in turn.
pub record Metadata : Type 0 where
  pub instruccion_inicio : ℤ
  pub instrucciones : List Instruction
  pub etiquetas : List ℕ
  pub cantidad_de_etiquetas : ℕ
  pub cantidad_de_funciones : ℕ

-- mlist_append to the programs of the console.
abbrev pub add_pid : ℕ → ℤ → List TClient → List TClient
add_pid client pid [] = []
add_pid client pid (c ∷ cs) =
    if c.client_id == client
    then record c { pids = c.pids ++ (pid ∷ []) } ∷ cs
    else c ∷ add_pid client pid cs

module _ (lib : CommonsList) (metadata_desde_literal : List ℕ → Metadata)
    (metadata_buscar_etiqueta : List ℕ → List ℕ → ℤ) (sizeof_puntero line_size : ℕ) where
  open lib use {list_create}

  -- So many tags, from the place `q` on; a text that does not fit its buffer is `none`.
  unfoldable pub read_tags : List ℕ → ℕ → List ℕ → Option (List ProgramTag)
  read_tags etiquetas zero q = some []
  read_tags etiquetas (suc tags) q = do
    tag ← c_string q
    rest ← read_tags etiquetas tags (drop (suc (length tag) + sizeof_puntero) q)
    if leb line_size (length tag)
        then none
        else some (record { name = tag; pc = metadata_buscar_etiqueta tag etiquetas } ∷ rest)

  -- The status is NEW.
  unfoldable pub crear_pcb_proceso : Metadata → KernelState → Option (ℕ × KernelState)
  crear_pcb_proceso program k = do
    let pid = k.generator_pid +ℤ pos 1
    let tags = program.cantidad_de_etiquetas + program.cantidad_de_funciones
    index_tag ← read_tags program.etiquetas tags program.etiquetas
    some (
        alloc_pcb
          (record {
            id_process = pid;
            pc = program.instruccion_inicio;
            quantum = k.config.quantum;
            status = pos 0;
            pages_code = pos 0;
            index_code = program.instrucciones;
            instructions = pos (length program.instrucciones);
            index_tag = index_tag;
            tags = pos tags;
            stack = list_create;
            stack_pointer = pos 0;
            exit_code = pos 0;
          })
          (record k { generator_pid = pid }))

  -- metadata_desde_literal reads the payload up to a zero byte: without one, past the payload.
  unfoldable pub gestion_datos_new_pcb : Packet → TClient → KernelState → Option KernelState
  gestion_datos_new_pcb program console k = do
    payload ← program.payload
    literal ← c_string payload
    (p, k1) ← crear_pcb_proceso (metadata_desde_literal literal) k
    pcb ← k1.pcb_at p
    code ← pointed program.payload program.header.msgsize
    let k2 = record k1 { codes_ms = k1.codes_ms ++ (code ∷ []) }
    let packet = protocol_packet (program_header op_ke_send_pid 0 pcb.id_process) []
    let k3 = send packet console.client_id k2
    let k4 = record k3 {
      consolas_conectadas = add_pid console.client_id pcb.id_process k3.consolas_conectadas;
    }
    some (append_queue new p k4)
