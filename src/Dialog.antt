-- ===== src/Dialog.antt =====
-- How the processes answer one another: what one of them sends is given to the function of the other
-- that takes it, across Consola/src and Kernel/src.
pub mod Pages
pub mod Ends
use esthe_r.Base.{
  ℕ, zero, suc, ◌+◌, ◌%◌, ◌^◌, ◌<◌, ◌≡◌, ◌≢◌, refl, sym, ap, ◌∙◌, Bool, true, false, Option, none,
  some, ◌>>=◌, List, [], ◌∷◌, ◌++◌, length, ltb, leb, ◌-◌, ◌*◌, ◌==◌, if◌then◌else◌, arith, ==_iff,
}
use esthe_r.Base.Int.{ℤ, pos, ◌+ℤ◌, to_unsigned}
use esthe_r.Commons.{CommonsList}
use esthe_r.Structures.{Pcb, ProgramTag}
use esthe_r.Protocol.{Packet, protocol_packet, protocol_header, protocol_packet_receive, pointed}
use esthe_r.Protocol.Opcodes.{console, op_new_program, op_ke_send_pid, op_undefined}
use esthe_r.Protocol.RoundTrip.{IsValid, header_bytes, copy_all, protocol_packet_receive-wire}
use esthe_r.Kernel.{KernelState, TClient, new, send, program_header, alloc_pcb, append_queue}
use esthe_r.Socket.{Arrival, buffer_capacity}
use esthe_r.Socket.Receive.{Flows, bytes_of}
use esthe_r.Cpu.Cycle.{c_string}
use esthe_r.Kernel.Programs.{Metadata, add_pid, read_tags, crear_pcb_proceso, gestion_datos_new_pcb}
use esthe_r.Consola.{
  Program, Phase, looping, freeing, ConsoleState, goes, last_of, set_phase, set_program, set_text,
}
use esthe_r.Consola.Steps.{begin_handler}
use esthe_r.Consola.Run.{handle_packet, receive_next}
use esthe_r.Consola.Valid.{put_self}

-- The packet of a console for a new program.
abbrev pub program_packet : List ℕ → Packet
program_packet code = protocol_packet (protocol_header console op_new_program (length code)) code

-- The packet of the Kernel with the number of a program.
abbrev pub pid_packet : ℤ → Packet
pid_packet pid = protocol_packet (program_header op_ke_send_pid 0 pid) []

-- What the Kernel has done for a new program.
pub record Accepted (client : ℕ) (code : List ℕ) (pid : ℤ) (k k' : KernelState) : Type 0 where
  pub pcb : Pcb
  pub created : k'.pcb_at k.limit ≡ some pcb
  pub numbered : pcb.id_process ≡ pid
  pub waiting : k'.queue new ≡ k.queue new ++ (k.limit ∷ [])
  pub kept : k'.codes_ms ≡ k.codes_ms ++ (code ∷ [])
  pub answered : (k'.connection client).sent ≡ (k.connection client).sent ++ (pid_packet pid ∷ [])

-- A packet whose bytes have all been received: the payload is the bytes that the sender's points to.
-- protocol_packet_receive gives it where its size is not 1024, by protocol_packet_receive-wire.
abbrev pub arrived : Packet → Packet
arrived packet = record packet { payload = pointed packet.payload packet.header.msgsize }

pointed-length :
    (code : List ℕ)
    → pointed (if length code == 0 then none else some code) (length code) ≡ some code
unfolding pointed
pointed-length [] = refl
pointed-length (c ∷ code) =
    let t : (suc (length code) == 0) ≡ false = ground arith in rw t (copy_all (c ∷ code))

arrived-program_packet : (code : List ℕ) → (arrived (program_packet code)).payload ≡ some code
unfolding protocol_packet protocol_header
arrived-program_packet code = pointed-length code

arrived-pid_packet : (pid : ℤ) → (arrived (pid_packet pid)).payload ≡ some []
unfolding protocol_packet protocol_header program_header pointed
arrived-pid_packet pid = refl

states_size : (code : List ℕ) → (arrived (program_packet code)).header.msgsize ≡ length code
unfolding protocol_packet protocol_header
states_size code = refl

program_packet-IsValid :
    (code : List ℕ) → length code < 2 ^ 32 → IsValid (program_packet code).header
unfolding protocol_packet protocol_header
program_packet-IsValid code small = record {
  syspid = omega arith;
  usrpid = omega arith;
  opcode = omega arith;
  msgsize = small;
  defined = omega arith;
}

-- The bytes of the packet, in any pieces, are received as it.
receives_program :
    (code rest : List ℕ) (s : List Arrival)
    → length code < 2 ^ 32
    → length code ≢ buffer_capacity
    → Flows s
    → bytes_of s ≡ header_bytes (program_packet code).header ++ (code ++ rest)
    → (s' : List Arrival) × (protocol_packet_receive s ≡ some (arrived (program_packet code), s'))
receives_program code rest s small plain flows e =
    let size = states_size code in
    let payload = arrived-program_packet code in
    let (s', r, _) =
      protocol_packet_receive-wire (program_packet code).header (program_packet-IsValid code small)
        code rest s (sym size) (λ f. plain (sym size ∙ f)) flows e in
    (
      s',
      r
          ∙ ap (λ bs. some (record { header = (program_packet code).header; payload = bs }, s'))
              (sym payload),
    )

pos_suc : (n : ℕ) → pos n +ℤ pos 1 ≡ pos (suc n)
unfolding ◌+ℤ◌
pos_suc n = let t : leb 0 (n + 1) ≡ true = ground arith in rw t (ap pos (omega arith))

-- The process control block of a new program.
abbrev made_pcb : CommonsList → KernelState → Metadata → List ProgramTag → ℤ → Pcb
made_pcb lib k program tags pid = record {
  id_process = pid;
  pc = program.instruccion_inicio;
  quantum = k.config.quantum;
  status = pos 0;
  pages_code = pos 0;
  index_code = program.instrucciones;
  instructions = pos (length program.instrucciones);
  index_tag = tags;
  tags = pos (program.cantidad_de_etiquetas + program.cantidad_de_funciones);
  stack = lib.list_create;
  stack_pointer = pos 0;
  exit_code = pos 0;
}

-- The Kernel with the process control block, the code and the answer.
abbrev accepting : Pcb → List ℕ → TClient → KernelState → KernelState
accepting pcb code client k =
    let k1 = (alloc_pcb pcb (record k { generator_pid = pcb.id_process })).1 in
    let k2 = record k1 { codes_ms = k1.codes_ms ++ (code ∷ []) } in
    let k3 = send (pid_packet pcb.id_process) client.client_id k2 in
    append_queue new k.limit (record k3 {
      consolas_conectadas = add_pid client.client_id pcb.id_process k3.consolas_conectadas;
    })

module _ (lib : CommonsList) (metadata_desde_literal : List ℕ → Metadata)
    (metadata_buscar_etiqueta : List ℕ → List ℕ → ℤ) (sizeof_puntero line_size : ℕ)
    (code text : List ℕ) (client : TClient) (n : ℕ) (k : KernelState) (tags : List ProgramTag)
    (ended : c_string code ≡ some text) (generator : k.generator_pid ≡ pos n)
    (read : read_tags lib metadata_desde_literal metadata_buscar_etiqueta sizeof_puntero line_size
        (metadata_desde_literal text).etiquetas
        ((metadata_desde_literal text).cantidad_de_etiquetas
          + (metadata_desde_literal text).cantidad_de_funciones)
        (metadata_desde_literal text).etiquetas
      ≡ some tags) where
  accepts :
      (k' : KernelState) × (gestion_datos_new_pcb lib metadata_desde_literal
          metadata_buscar_etiqueta sizeof_puntero line_size
          (arrived (program_packet code))
          client
          k
        ≡ some k')
      × Accepted client.client_id code (pos (suc n)) k k'
  unfolding gestion_datos_new_pcb crear_pcb_proceso
  accepts =
      let program = metadata_desde_literal text in
      let pcb = made_pcb lib k program tags (pos (suc n)) in
      let t : (k.limit == k.limit) ≡ true = (==_iff k.limit k.limit).1 refl in
      let copied : pointed (some code) (length code) ≡ some code =
        unfold pointed in copy_all code in
      let c : (client.client_id == client.client_id) ≡ true =
        (==_iff client.client_id client.client_id).1 refl in
      (
        accepting pcb code client k,
        rw
            (
              arrived-program_packet code,
              ended,
              generator,
              read,
              pos_suc n,
              t,
              states_size code,
              copied,
            )
            refl,
        record {
          pcb = pcb;
          created = unfold send in rw t refl;
          numbered = refl;
          waiting = unfold send in refl;
          kept = unfold send in refl;
          answered = unfold send in rw c refl;
        },
      )

-- The console after its thread has asked for the program.
abbrev asking : ℕ → List ℕ → ConsoleState → ConsoleState
asking i code s =
    set_phase i (looping (last_of s.programs))
      (record s { sent = s.sent ++ (program_packet code ∷ []) })

-- The console after the number of the program has come.
abbrev numbered_state : ℕ → Program → ℤ → List Packet → ConsoleState → ConsoleState
numbered_state p program pid more s =
    record (set_program p (some (record program { pid = pid }))
      (set_text s.texts (some []) (record s { arriving = more; texts = suc s.texts }))) {
        receiver = freeing s.texts;
      }

number_of : (n : ℕ) → pos (to_unsigned 256 (pos n)) ≡ pos (n % 256)
unfolding to_unsigned
number_of n = refl

takes_number :
    (s : ConsoleState) (p : ℕ) (program : Program) (n : ℕ) (more : List Packet)
    → last_of s.programs ≡ some p
    → s.program_at p ≡ some program
    → receive_next (arrived (pid_packet (pos n)) ∷ more) s
      ≡ goes (numbered_state p program (pos (n % 256)) more s)
unfolding receive_next handle_packet protocol_packet protocol_header program_header pointed
takes_number s p program n more last here = rw (last, here, ← number_of n) refl

module _ (program_size i p : ℕ) (program : Program) (code : List ℕ) (s : ConsoleState)
    (last : last_of s.programs ≡ some p) (here : s.program_at p ≡ some program)
    (fits : length code < program_size) where
  asks : begin_handler program_size i (some code) s ≡ goes (asking i code s)
  unfolding begin_handler
  asks = let t : ltb (length code) program_size ≡ true = ground (arith, fits) in rw t refl

  module _ (lib : CommonsList) (metadata_desde_literal : List ℕ → Metadata)
      (metadata_buscar_etiqueta : List ℕ → List ℕ → ℤ) (sizeof_puntero line_size : ℕ)
      (text : List ℕ) (client : TClient) (n : ℕ) (k : KernelState) (tags : List ProgramTag)
      (more : List Packet) where
    -- For a console whose last program is at `p`, a file that fits its buffer and holds a zero byte, behind
    -- which the Kernel reads no more of the program, of less than 2 ^ 32 bytes and not of 1024; and a
    -- Kernel that has made n programs and can read the tags of this one: the thread of the program sends
    -- it; in whatever pieces its bytes arrive, it is received; the Kernel takes it as program n + 1, puts
    -- its control block behind the new programs, keeps its code and answers with its number; and the
    -- console stores that number, modulo 256, in the program at `p`.
    pub new_program-Accepted :
        c_string code ≡ some text
        → length code < 2 ^ 32
        → length code ≢ buffer_capacity
        → k.generator_pid ≡ pos n
        → read_tags lib metadata_desde_literal metadata_buscar_etiqueta sizeof_puntero line_size
            (metadata_desde_literal text).etiquetas
            ((metadata_desde_literal text).cantidad_de_etiquetas
              + (metadata_desde_literal text).cantidad_de_funciones)
            (metadata_desde_literal text).etiquetas
          ≡ some tags
        → (s1 : ConsoleState) × (begin_handler program_size i (some code) s ≡ goes s1)
          × (s1.sent ≡ s.sent ++ (program_packet code ∷ []))
          × ((link : List Arrival) (rest : List ℕ)
              → Flows link
              → bytes_of link ≡ header_bytes (program_packet code).header ++ (code ++ rest)
              → (link' : List Arrival) × (protocol_packet_receive link
                  ≡ some (arrived (program_packet code), link')))
          × ((k' : KernelState) × (gestion_datos_new_pcb lib metadata_desde_literal
                  metadata_buscar_etiqueta sizeof_puntero line_size
                  (arrived (program_packet code))
                  client
                  k
                ≡ some k')
              × Accepted client.client_id code (pos (suc n)) k k')
          × ((s2 : ConsoleState) × (receive_next (arrived (pid_packet (pos (suc n))) ∷ more) s1
                ≡ goes s2)
              × (s2.program_at p ≡ some (record program { pid = pos (suc n % 256) })))
    new_program-Accepted ended small plain generator read = (
      asking i code s,
      asks,
      refl,
      (λ link rest flows e. receives_program code rest link small plain flows e),
      accepts lib metadata_desde_literal metadata_buscar_etiqueta sizeof_puntero line_size code text
          client n k tags ended generator read,
      (
        numbered_state p program (pos (suc n % 256)) more (asking i code s),
        takes_number (asking i code s) p program (suc n) more last here,
        put_self p (some (record program { pid = pos (suc n % 256) })) s.program_at,
      ),
    )
