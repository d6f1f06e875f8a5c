-- ===== src/Kernel/Start/Begins.antt =====
-- The state that main of Kernel/src/Kernel.c gives to the server.
use esthe_r.Base.{
  ℕ, suc, ◌≤◌, ◌≡◌, refl, sym, ap, ◌∙◌, true, false, none, some, List, [], ◌∷◌, ◌++◌, length, map,
  codes, append-nil, some-injective, ◌==◌, ==_iff, arith, ltb, Bool-cases, inl, inr,
}
use esthe_r.Base.Int.{ℤ, pos}
use esthe_r.Commons.{CommonsList}
use esthe_r.Serial.Format.{Packed, num, serial_pack}
use esthe_r.Serial.Format.Fields.{int16}
use esthe_r.Serial.Format.RoundTrip.{serial_pack-encoding}
use esthe_r.Serial.PcbPack.Encoding.{short_bytes, Short}
use esthe_r.Serial.PcbUnpack.{read_short}
use esthe_r.Serial.PcbUnpack.Laws.{read_short-bytes}
use esthe_r.Protocol.{Packet, protocol_packet, protocol_header}
use esthe_r.Protocol.Opcodes.{kernel, op_handshake}
use esthe_r.Kernel.{
  KernelState, Connection, Status, new, ready, send, receive, take_packet, set_connection,
}
use esthe_r.Kernel.Planning.{
  progs_in_system, admit_first, admit_next, dispatch_turn, dispatch, planificacion,
}
use esthe_r.Kernel.Pcbs.{statuses}
use esthe_r.Kernel.Pcbs.Live.{Live, Alive, Apart}
use esthe_r.Kernel.Pcbs.Ends.{send-arriving}
use esthe_r.Kernel.Quiet.{listed}
use esthe_r.Kernel.Start.{
  ConfigFile, Configured, get_config, init, create_connections, start, print_three,
}

read_short-serial_pack :
    (v : ℤ) (b : Packed)
    → Short v
    → serial_pack (codes "h") (num v ∷ []) ≡ some b
    → read_short b.bytes ≡ some (v, [])
read_short-serial_pack v b h e =
    let bytes : short_bytes v ≡ b.bytes =
      unfold short_bytes in
      ap (λ (p : Packed). p.bytes)
        (some-injective _ b (sym (serial_pack-encoding (int16 ∷ []) (num v ∷ []) (h, tt)) ∙ e)) in
    rw (← bytes, ← append-nil (short_bytes v)) (read_short-bytes v [] h)

length-map : {A B : Type 0} (f : A → B) (l : List A) → length (map f l) ≡ length l
length-map f [] = refl
length-map f (a ∷ l) = ap suc (length-map f l)

-- The Kernel has no programs, no consoles and no CPUs, has greeted the memory, and has the page size that
-- the memory told and room for each value.
pub record Begun (file : ConfigFile) (size level memfd : ℕ) (connection : ℕ → Connection)
    (more : List Packet) (k : KernelState) : Type 0 where
  pub page_size : k.config.page_size ≡ size
  pub memory : k.memfd ≡ memfd
  pub arriving : (k.connection memfd).arriving ≡ more
  pub level_is : k.multipg_level ≡ level
  pub no_programs : (st : Status) → k.queue st ≡ []
  pub no_blocks : (p : ℕ) → k.pcb_at p ≡ none
  pub no_codes : k.codes_ms ≡ []
  pub no_consoles : k.consolas_conectadas ≡ []
  pub no_cpus : (k.cpu_conectadas ≡ []) × (k.cpu_executing ≡ [])
  pub first_pid : k.generator_pid ≡ pos 0
  pub greeted :
      (k.connection memfd).sent
      ≡ (connection memfd).sent ++ (protocol_packet (protocol_header kernel op_handshake 0) [] ∷ [])
  pub room : progs_in_system k ≤ k.multipg_level
  pub live : Live statuses k
  pub fresh : (st : Status) → listed k.limit (k.queue st) ≡ false
  pub semaphores : length k.sem_ansisop ≡ length (file.config_get_array_value (codes "SEM_INIT"))
  pub waiting : length k.solicitudes_sem ≡ length k.sem_ansisop
  pub variables : length k.shared_values ≡ length k.config.shared_vars

-- The state before the answer of the memory.
abbrev greeted : Configured → ℕ → ℕ → (ℕ → Connection) → KernelState
greeted c level memfd connection =
    send (protocol_packet (protocol_header kernel op_handshake 0) []) memfd (record {
      config = c.config;
      multipg_level = level;
      generator_pid = pos 0;
      pcb_at = λ p. none;
      limit = 0;
      queue = λ st. [];
      codes_ms = [];
      consolas_conectadas = [];
      cpu_conectadas = [];
      cpu_executing = [];
      connection = connection;
      memfd = memfd;
      sem_ansisop = c.sem_ansisop;
      solicitudes_sem = c.solicitudes_sem;
      shared_values = c.shared_values;
    })

-- The state after the packet is received.
abbrev answered : ℕ → List Packet → KernelState → KernelState
answered memfd more k = set_connection memfd (record (k.connection memfd) { arriving = more }) k

received :
    (s : ℕ) (k : KernelState) (packet : Packet) (more : List Packet)
    → (k.connection s).arriving ≡ packet ∷ more
    → receive s k ≡ some (packet, answered s more k)
unfolding receive take_packet
received s k packet more e = ap (λ ps. take_packet s ps k) e

greeted_arriving :
    (c : Configured) (level memfd : ℕ) (connection : ℕ → Connection) (packet : Packet)
    (more : List Packet)
    → (connection memfd).arriving ≡ packet ∷ more
    → receive memfd (greeted c level memfd connection)
      ≡ some (packet, answered memfd more (greeted c level memfd connection))
greeted_arriving c level memfd connection packet more e =
    received memfd _ packet more (send-arriving _ memfd memfd _ ∙ e)

-- The state of the server.
abbrev served : ℕ → KernelState → KernelState
served size k = record k { config = record k.config { page_size = size } }

served-Live :
    (c : Configured) (size level memfd : ℕ) (connection : ℕ → Connection) (more : List Packet)
    → Live statuses (served size (answered memfd more (greeted c level memfd connection)))
unfolding Live Alive Apart send
served-Live c size level memfd connection more = (
  tt,
  (refl, (λ q l. refl), (refl, (λ q l. refl), (refl, (λ q l. refl), (refl, (λ q l. refl), tt)))),
  (
    tt,
    (refl, (λ q l. refl), (refl, (λ q l. refl), (refl, (λ q l. refl), tt))),
    (
      tt,
      (refl, (λ q l. refl), (refl, (λ q l. refl), tt)),
      (tt, (refl, (λ q l. refl), tt), (tt, tt, tt)),
    ),
  ),
)

-- The scheduler has nothing to do without programs and CPUs.
idle_planificacion :
    (lib : CommonsList) (mem : ℕ) (k : KernelState)
    → k.queue new ≡ []
    → k.queue ready ≡ []
    → planificacion lib mem k ≡ some k
unfolding planificacion admit_next admit_first dispatch dispatch_turn
idle_planificacion lib mem k none_new none_ready =
    elim (Bool-cases (ltb (progs_in_system k) k.multipg_level)) [
      | inl t ↦ rw (t, none_new, none_ready) refl
      | inr t ↦ rw (t, none_ready) refl
    ]

module _ (lib : CommonsList) (file : ConfigFile) (atoi : List ℕ → ℤ)
    (stack_size level size memfd : ℕ) (connection : ℕ → Connection) (b : Packed) (packet : Packet)
    (more : List Packet) where
  -- For a configuration file with at least three semaphores, initial values and shared variables, and
  -- with a stack size and a level that are not negative; and a memory that answers first with a size of
  -- pages below 2 ^ 15, packed as it packs it: the Kernel starts, having sent its handshake to the memory,
  -- with that size of pages, that level, no program in a list and no control block, no code, no
  -- console, no CPU, the number 0 as the last it gave to a program, and a value and a queue for each
  -- initial value of a semaphore and a value for each shared variable; and planificacion leaves this state
  -- as it is.
  pub start-Begun :
      print_three (file.config_get_array_value (codes "SEM_IDS")) ≡ some 3
      → print_three (file.config_get_array_value (codes "SEM_INIT")) ≡ some 3
      → print_three (file.config_get_array_value (codes "SHARED_VARS")) ≡ some 3
      → file.config_get_int_value (codes "STACK_SIZE") ≡ pos stack_size
      → file.config_get_int_value (codes "GRADO_MULTIPROG") ≡ pos level
      → Short (pos size)
      → serial_pack (codes "h") (num (pos size) ∷ []) ≡ some b
      → packet.payload ≡ some b.bytes
      → (connection memfd).arriving ≡ packet ∷ more
      → (k : KernelState) × (start lib file atoi memfd connection ≡ some k)
        × Begun file size level memfd connection more k
        × ((mem : ℕ) → planificacion lib mem k ≡ some k)
  unfolding start get_config init create_connections progs_in_system
  start-Begun ids inits vars stack grado short packed payload arriving =
      let c : Configured = record {
        config = record {
          page_size = 0;
          stack_size = stack_size;
          quantum = file.config_get_int_value (codes "QUANTUM");
          sem_ids = file.config_get_array_value (codes "SEM_IDS");
          shared_vars = file.config_get_array_value (codes "SHARED_VARS");
        };
        grado_multiprog = pos level;
        sem_ansisop = map atoi (file.config_get_array_value (codes "SEM_INIT"));
        solicitudes_sem =
            map (λ a. lib.list_create) (file.config_get_array_value (codes "SEM_INIT"));
        shared_values = map (λ a. pos 0) (file.config_get_array_value (codes "SHARED_VARS"));
      } in
      (
        served size (answered memfd more (greeted c level memfd connection)),
        rw
            (
              stack,
              ids,
              inits,
              vars,
              grado,
              greeted_arriving c level memfd connection packet more arriving,
              payload,
              read_short-serial_pack (pos size) b short packed,
            )
            refl,
        record {
          page_size = refl;
          memory = unfold send in refl;
          arriving = let t : (memfd == memfd) ≡ true = (==_iff memfd memfd).1 refl in rw t refl;
          level_is = unfold send in refl;
          no_programs = λ st. unfold send in refl;
          no_blocks = λ p. unfold send in refl;
          no_codes = unfold send in refl;
          no_consoles = unfold send in refl;
          no_cpus = unfold send in (refl, refl);
          first_pid = unfold send in refl;
          greeted =
              let t : (memfd == memfd) ≡ true = (==_iff memfd memfd).1 refl in
              unfold send in rw t refl;
          room = unfold send in omega arith;
          live = served-Live c size level memfd connection more;
          fresh = λ st. unfold send in refl;
          semaphores = unfold send in length-map atoi _;
          waiting = unfold send in length-map _ _ ∙ sym (length-map atoi _);
          variables = unfold send in length-map _ _;
        },
        (λ mem. idle_planificacion lib mem _ (unfold send in refl) (unfold send in refl)),
      )
