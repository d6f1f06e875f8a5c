-- ===== src/Kernel/Start.antt =====
-- Kernel/src/configuration.c, and main, init and create_connections of Kernel/src/Kernel.c: the state
-- with which the server of the Kernel begins. The readers of the configuration file and atoi are
-- parameters; the addresses of the other processes are left out. `none` is a read past the end of an
-- array, a level that is negative, and a packet that is not as expected.
pub mod Begins
use esthe_r.Base.{ℕ, zero, suc, Option, none, some, ◌>>=◌, List, [], ◌∷◌}
use esthe_r.Base.{codes, get_elem?, map, replicate, length, ◌==◌}
use esthe_r.Base.Int.{ℤ, pos, negsuc}
use esthe_r.Serial.PcbUnpack.{read_short}
use esthe_r.Commons.{CommonsList}
use esthe_r.Protocol.{Packet, protocol_packet, protocol_header}
use esthe_r.Protocol.Opcodes.{kernel, op_handshake}
use esthe_r.Kernel.{Configuration, KernelState, Connection, Status, send, receive}

-- The readers of a configuration file, by the key; an array ends with NULL.
pub record ConfigFile : Type 0 where
  pub config_get_int_value : List ℕ → ℤ
  pub config_get_array_value : List ℕ → List (List ℕ)

-- The configuration and the arrays that get_config allocates.
pub record Configured : Type 0 where
  pub config : Configuration
  pub grado_multiprog : ℤ
  pub sem_ansisop : List ℤ
  pub solicitudes_sem : List (List ℕ)
  pub shared_values : List ℤ

-- The entries of an array that are printed are three.
abbrev pub print_three : {A : Type 0} → List A → Option ℕ
print_three entries = do
  a ← get_elem? entries 0
  b ← get_elem? entries 1
  c ← get_elem? entries 2
  some 3

abbrev pub natural : ℤ → Option ℕ
natural (pos n) = some n
natural (negsuc n) = none

module _ (lib : CommonsList) (file : ConfigFile) (atoi : List ℕ → ℤ) where
  open lib use {list_create}
  open file use {config_get_int_value, config_get_array_value}

  -- The page size is set later, with what the memory tells.
  unfoldable pub get_config : Option Configured
  get_config = do
    let sem_ids = config_get_array_value (codes "SEM_IDS")
    let sem_init = config_get_array_value (codes "SEM_INIT")
    let shared_vars = config_get_array_value (codes "SHARED_VARS")
    stack_size ← natural (config_get_int_value (codes "STACK_SIZE"))
    printed_ids ← print_three sem_ids
    printed_init ← print_three sem_init
    printed_vars ← print_three shared_vars
    some (record {
      config = record {
        page_size = 0;
        stack_size = stack_size;
        quantum = config_get_int_value (codes "QUANTUM");
        sem_ids = sem_ids;
        shared_vars = shared_vars;
      };
      grado_multiprog = config_get_int_value (codes "GRADO_MULTIPROG");
      sem_ansisop = map atoi sem_init;
      solicitudes_sem = map (λ a. list_create) sem_init;
      shared_values = map (λ a. pos 0) shared_vars;
    })

-- mlist_create for each list; generatorPid is a global that begins with 0.
unfoldable pub init : Configured → (ℕ → Connection) → Option KernelState
init c connection = do
  level ← natural c.grado_multiprog
  some (record {
    config = c.config;
    multipg_level = level;
    generator_pid = pos 0;
    pcb_at = λ p. none;
    limit = 0;
    queue = λ st. [];
    codes_ms = [];
    consolas_conectadas = [];
    cpu_conectadas = [];
    cpu_executing = [];
    connection = connection;
    memfd = 0;
    sem_ansisop = c.sem_ansisop;
    solicitudes_sem = c.solicitudes_sem;
    shared_values = c.shared_values;
  })

-- The handshake with the memory, and the size of its pages.
unfoldable pub create_connections : ℕ → KernelState → Option KernelState
create_connections memfd k = do
  let k1 =
      send (protocol_packet (protocol_header kernel op_handshake 0) []) memfd
        (record k { memfd = memfd })
  (packet, k2) ← receive memfd k1
  payload ← packet.payload
  (size, rest) ← read_short payload
  page_size ← natural size
  some (record k2 { config = record k2.config { page_size = page_size } })

-- main, up to the server.
unfoldable pub start :
    CommonsList → ConfigFile → (List ℕ → ℤ) → ℕ → (ℕ → Connection) → Option KernelState
start lib file atoi memfd connection = do
  c ← get_config lib file atoi
  k ← init c connection
  create_connections memfd k
