-- ===== src/Tests/StartRuns.antt =====
-- The theorems on the start of the memory and of the Kernel, at one configuration.
use esthe_r.Base.{ℕ, ◌≡◌, refl, some, [], ◌∷◌, ◌==◌, if◌then◌else◌, false, codes, arith}
use esthe_r.Base.Int.{pos, to_unsigned}
use esthe_r.Commons.Instance.{sequences}
use esthe_r.Memory.Cache.{Cache}
use esthe_r.Memory.Process.{MemoryConfig, MemoryProcess, init}
use esthe_r.Memory.Process.Fresh.{Keeps, init-Keeps}
use esthe_r.Protocol.{Packet}
use esthe_r.Serial.Format.{Packed, num, serial_pack, serial_pack_va, pack_conv, store_num}
use esthe_r.Serial.Integers.{packi16}
use esthe_r.Kernel.{KernelState, Connection}
use esthe_r.Kernel.Start.{ConfigFile, start}
use esthe_r.Kernel.Planning.{planificacion}
use esthe_r.Kernel.Start.Begins.{Begun, start-Begun}

abbrev unused_cache : Cache
unused_cache = record { enabled = false; mepp = 0; s_entry = 0; content = []; entries = [] }

abbrev small_memory : MemoryConfig
small_memory = record {
  puerto = pos 5003;
  marcos = pos 4;
  marco_size = pos 16;
  entradas_cache = pos 2;
  cache_x_proc = pos 1;
  retardo_memoria = pos 0;
}

init-Keeps_example :
    (m : MemoryProcess) × (init sequences small_memory unused_cache ≡ some m) × Keeps 6 3 16 m
init-Keeps_example =
    init-Keeps sequences small_memory unused_cache 4 16 6 3 refl refl (omega arith) (omega arith)
      (omega arith)

-- Three semaphores, three shared variables, and the number 4 for each key.
abbrev file : ConfigFile
file = record {
  config_get_int_value = λ key. pos 4;
  config_get_array_value = λ key. codes "a" ∷ codes "b" ∷ codes "c" ∷ [];
}

abbrev packed_size : Packed
packed_size = record { size = 2; bytes = 0 ∷ 16 ∷ [] }

size_is_packed : serial_pack (codes "h") (num (pos 16) ∷ []) ≡ some packed_size
unfolding serial_pack serial_pack_va pack_conv store_num packi16 to_unsigned
size_is_packed = refl

abbrev page_size_packet : Packet
page_size_packet = record {
  header = record { syspid = 0; usrpid = 0; opcode = 2; msgsize = 2 };
  payload = some (0 ∷ 16 ∷ []);
}

abbrev memory_answers : ℕ → Connection
memory_answers s =
    if s == 9
    then record { arriving = page_size_packet ∷ []; sent = [] }
    else record { arriving = []; sent = [] }

start-Begun_example :
    (k : KernelState) × (start sequences file (λ text. pos 1) 9 memory_answers ≡ some k)
    × Begun file 16 4 9 memory_answers [] k
    × ((mem : ℕ) → planificacion sequences mem k ≡ some k)
start-Begun_example =
    start-Begun sequences file (λ text. pos 1) 4 4 16 9 memory_answers packed_size page_size_packet
      [] refl refl refl refl refl (omega arith) size_is_packed refl refl
