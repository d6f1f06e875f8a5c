-- ===== src/Memory/Process/Fresh.antt =====
-- A memory that init of Memoria/src/Memoria.c has made keeps the bytes of a program.
use esthe_r.Base.{
  ℕ, zero, suc, ◌+◌, ◌*◌, ◌^◌, ◌≤◌, ◌<◌, ◌≡◌, ◌≢◌, refl, ap, true, some, List, [], ◌∷◌, length,
  get_elem?, take, replicate, length-replicate, All-replicate, ltb, arith,
}
use esthe_r.Base.Int.{pos, to_unsigned}
use native.Mathlib.Nat.{mul-le-mul_right}
use esthe_r.Commons.{CommonsList}
use esthe_r.Memory.PageTable.{
  Row, free_row, free_rows, get_page_table, set_pages, get_frame, get_bytes, set_bytes,
}
use esthe_r.Memory.PageTable.Assign.{Unowned, get_frame-set_pages_own}
use esthe_r.Memory.PageTable.Bytes.{get_bytes-set_bytes}
use esthe_r.Memory.Cache.{Cache, cache_create}
use esthe_r.Memory.HashTable.{create_table_hash}
use esthe_r.Memory.Process.{MemoryConfig, MemoryProcess, init}

new_table-Unowned : (p n : ℕ) → Unowned (pos (suc p)) (get_page_table n)
unfolding get_page_table
new_table-Unowned p n =
    All-replicate (λ r. r.owner ≢ pos (suc p)) n free_row (λ e. ground (arith, e))

free_rows-get_page_table : (n : ℕ) → free_rows (get_page_table n) ≡ n
unfolding get_page_table free_rows
free_rows-get_page_table zero = refl
free_rows-get_page_table (suc n) = ap suc (free_rows-get_page_table n)

get_elem_bound : (rows : List Row) (i : ℕ) (r : Row) → get_elem? rows i ≡ some r → i < length rows
get_elem_bound [] i r e = absurd (let f = e in cc)
get_elem_bound (x ∷ rows) zero r e = omega arith
get_elem_bound (x ∷ rows) (suc i) r e = let h = get_elem_bound rows i r e in omega (arith, h)

-- A frame of the memory that is made.
abbrev frame_of : ℕ → ℕ → ℕ → ℕ → ℕ
frame_of marcos p n k =
    get_frame (set_pages (get_page_table marcos) (pos (suc p)) (pos n)).1 (pos (suc p)) (pos k)

frame_bound : (marcos p n k : ℕ) → 0 < n → n ≤ marcos → k < n → frame_of marcos p n k < marcos
unfolding get_page_table
frame_bound marcos p n k some_page enough h =
    let free = free_rows-get_page_table marcos in
    let (_, pages) =
      get_frame-set_pages_own (get_page_table marcos) p n some_page (omega (arith, free))
        (new_table-Unowned p marcos) in
    let (r, here, _, _) = pages k h in
    let b = get_elem_bound (get_page_table marcos) (frame_of marcos p n k) r here in
    let l = length-replicate marcos free_row in omega (arith, b, l)

-- What the process keeps for a program `pid` with `n` pages: whatever is stored in one of its pages is
-- read back.
abbrev pub Keeps : ℕ → ℕ → ℕ → MemoryProcess → Type 0
Keeps p n size m =
    ((set_pages m.shared.page_table (pos (suc p)) (pos n)).0 ≡ pos 1)
    × ((k o s : ℕ) (bytes : List ℕ)
        → k < n
        → 0 < s
        → s ≤ length bytes
        → o + s ≤ size
        → (after : List ℕ) × (set_bytes size m.shared.main
              (get_frame (set_pages m.shared.page_table (pos (suc p)) (pos n)).1 (pos (suc p))
                (pos k))
              (pos o) (pos s) bytes
            ≡ some (pos 1, after))
          × (get_bytes size after
                (get_frame (set_pages m.shared.page_table (pos (suc p)) (pos n)).1 (pos (suc p))
                  (pos k))
                (pos o) (pos s)
              ≡ some (pos 1, take s bytes)))

inside_memory :
    (f marcos size o s : ℕ) → f < marcos → o + s ≤ size → f * size + o + s ≤ marcos * size
inside_memory f marcos size o s h i =
    let step : suc f * size ≤ marcos * size = mul-le-mul_right size h in omega (arith, step, i)

-- For a configuration of `marcos` frames of `size` bytes, less than 2 ^ 31 bytes in all: init makes a
-- memory that grants n pages to a program, for each positive n up to `marcos` and each positive program,
-- and then returns the bytes that are stored in a part of one of those pages.
pub init-Keeps :
    (lib : CommonsList) (config : MemoryConfig) (cache : Cache) (marcos size p n : ℕ)
    → config.marcos ≡ pos marcos
    → config.marco_size ≡ pos size
    → marcos * size < 2 ^ 31
    → 0 < n
    → n ≤ marcos
    → (m : MemoryProcess) × (init lib config cache ≡ some m) × Keeps p n size m
unfolding init
init-Keeps lib config cache marcos size p n e f small some_page enough =
    let fits : ltb (marcos * size) (2 ^ 31) ≡ true = ground (arith, small) in
    let free = free_rows-get_page_table marcos in
    (
      record {
        shared = record { page_table = get_page_table marcos; main = replicate (marcos * size) 0 };
        delay = to_unsigned (2 ^ 32) config.retardo_memoria;
        nframes = marcos;
        sframe = size;
        cache =
            cache_create lib (to_unsigned (2 ^ 32) config.entradas_cache) size
              (to_unsigned (2 ^ 32) config.cache_x_proc) cache;
        hash_table = create_table_hash marcos;
      },
      rw (e, f, fits) refl,
      (
        (get_frame-set_pages_own (get_page_table marcos) p n some_page (omega (arith, free))
            (new_table-Unowned p marcos)).0,
        (λ k o s bytes h some_byte long i.
            let l = length-replicate {A = ℕ} (marcos * size) 0 in
            let w =
              inside_memory (frame_of marcos p n k) marcos size o s
                (frame_bound marcos p n k some_page enough h) i in
            let (after, stored, _, back) =
              get_bytes-set_bytes size (replicate (marcos * size) 0) bytes (frame_of marcos p n k) o
                s some_byte long (omega (arith, l, w)) in
            (after, stored, back)),
      ),
    )
