-- ===== src/Memory/Process.antt =====
-- Memoria/src/Memoria.c, Memoria/src/configuration.c and Memoria/src/console.c: the start of the memory
-- process and its console. The configuration file is a parameter: the library's reader of a number by
-- its key, and that of a text; so are the comparison of texts, strtol and string_trim. `none` is a
-- negative size, one that is no int, and the end of the process; what is printed is a value.
pub mod Fresh
use esthe_r.Base.{
  ℕ, zero, suc, ◌+◌, ◌*◌, ◌^◌, Bool, true, false, Option, none, some, ◌>>=◌, List, [], ◌∷◌,
}
use esthe_r.Base.{codes, ltb, replicate, if◌then◌else◌}
use esthe_r.Base.Int.{ℤ, pos, negsuc, eq_ℤ, to_unsigned}
use esthe_r.Commons.{CommonsList}
use esthe_r.Utils.{strtoi, is_empty}
use esthe_r.Memory.PageTable.{get_page_table}
use esthe_r.Memory.Cache.{Cache, cache_create, cache_flush}
use esthe_r.Memory.HashTable.{ElementHash, create_table_hash}
use esthe_r.Memory.Server.{MemoryData}

-- `t_memoria`
pub record MemoryConfig : Type 0 where
  pub puerto : ℤ
  pub marcos : ℤ
  pub marco_size : ℤ
  pub entradas_cache : ℤ
  pub cache_x_proc : ℤ
  pub retardo_memoria : ℤ

-- `t_memory_data` and the globals of the cache and the hash table.
pub record MemoryProcess : Type 0 where
  pub shared : MemoryData
  pub delay : ℕ
  pub nframes : ℕ
  pub sframe : ℕ
  pub cache : Cache
  pub hash_table : List ElementHash

unfoldable pub read_config : (List ℕ → ℤ) → (List ℕ → List ℕ) → (List ℕ → ℤ × List ℕ) → MemoryConfig
read_config config_get_int_value config_get_string_value strtol = record {
  puerto = strtoi strtol (config_get_string_value (codes "PUERTO"));
  marcos = config_get_int_value (codes "MARCOS");
  marco_size = config_get_int_value (codes "MARCO_SIZE");
  entradas_cache = config_get_int_value (codes "ENTRADAS_CACHE");
  cache_x_proc = config_get_int_value (codes "CACHE_X_PROC");
  retardo_memoria = config_get_int_value (codes "RETARDO_MEMORIA");
}

abbrev pub size_of : ℤ → Option ℕ
size_of (pos n) = some n
size_of (negsuc n) = none

-- The product of two sizes, an int.
abbrev pub product : ℕ → ℕ → Option ℕ
product m n = if ltb (m * n) (2 ^ 31) then some (m * n) else none

-- The server that init starts is in Memory/Server.antt.
unfoldable pub init : CommonsList → MemoryConfig → Cache → Option MemoryProcess
init lib config cache = do
  marcos ← size_of config.marcos
  marco_size ← size_of config.marco_size
  bytes ← product marcos marco_size
  let n_entries = to_unsigned (2 ^ 32) config.entradas_cache
  let max_per_prog = to_unsigned (2 ^ 32) config.cache_x_proc
  some (record {
    shared = record { page_table = get_page_table marcos; main = replicate bytes 0 };
    delay = to_unsigned (2 ^ 32) config.retardo_memoria;
    nframes = marcos;
    sframe = marco_size;
    cache = cache_create lib n_entries marco_size max_per_prog cache;
    hash_table = create_table_hash marcos;
  })

abbrev pub memory_get_access_time : MemoryProcess → ℕ
memory_get_access_time m = m.delay

abbrev pub memory_set_access_time : ℕ → MemoryProcess → MemoryProcess
memory_set_access_time delay m = record m { delay = delay }

abbrev pub memory_get_frame_number : MemoryProcess → ℕ
memory_get_frame_number m = m.nframes

abbrev pub memory_get_frame_size : MemoryProcess → ℕ
memory_get_frame_size m = m.sframe

abbrev pub memory_flush_cache : MemoryProcess → MemoryProcess
memory_flush_cache m = record m { cache = cache_flush m.cache }

pub data Printed : Type 0 where
  nothing_printed : Printed
  time_printed : ℕ → Printed
  text_printed : Printed

module _ (string_equals_ignore_case : List ℕ → List ℕ → Bool) (strtol : List ℕ → ℤ × List ℕ)
    (string_trim : List ℕ → List ℕ) where
  abbrev pub set_delay : ℤ → MemoryProcess → Printed × MemoryProcess
  set_delay intvalue m =
      if eq_ℤ intvalue (negsuc 0)
      then (nothing_printed, m)
      else (nothing_printed, memory_set_access_time (to_unsigned (2 ^ 32) intvalue) m)

  unfoldable pub delay_command : Option (List ℕ) → MemoryProcess → Printed × MemoryProcess
  delay_command none m = (time_printed (memory_get_access_time m), m)
  delay_command (some strvalue) m =
      if is_empty string_trim (some strvalue)
      then (time_printed (memory_get_access_time m), m)
      else set_delay (strtoi strtol strvalue) m

  -- A command of the console: `none` is that the console ends.
  unfoldable pub console :
      List ℕ → Option (List ℕ) → MemoryProcess → Option (Printed × MemoryProcess)
  console command argument m =
      if string_equals_ignore_case command (codes "logout")
      then none
      else if string_equals_ignore_case command (codes "delay")
      then some (delay_command argument m)
      else if string_equals_ignore_case command (codes "flush")
      then some (text_printed, memory_flush_cache m)
      else some (text_printed, m)
