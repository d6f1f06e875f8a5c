-- ===== src/Memory/HashTable.antt =====
-- Memoria/src/hash_table.c: an array of pairs of a program and a page, by open addressing. sprintf of a
-- number with "%d" and atoi are parameters. `none` is an access out of bounds, or a text that does not
-- fit its buffer. In table_complete the counter is not set before the loop: its value is `start`.
pub mod Search
pub mod Insert
use esthe_r.Base.{
  ℕ, zero, suc, ◌+◌, ◌-◌, Bool, true, false, ◌&&◌, Option, none, some, ◌>>=◌, List, [], ◌∷◌, ◌++◌,
}
use esthe_r.Base.{length, get_elem?, set, take, drop, replicate, ltb, leb, if◌then◌else◌}
use esthe_r.Base.Int.{ℤ, pos, negsuc, eq_ℤ}
use esthe_r.Cpu.Primitives.{remainder}

pub record ElementHash : Type 0 where
  pub id_process : ℤ
  pub page : ℤ

abbrev pub incorrect : ℤ
incorrect = negsuc 0

-- `(int) NULL` in both fields
abbrev pub no_element : ElementHash
no_element = record { id_process = pos 0; page = pos 0 }

abbrev pub is_free : ElementHash → Bool
is_free e = eq_ℤ e.page (pos 0)

abbrev pub holds_page : ℤ → ℤ → ElementHash → Bool
holds_page page id_process e = eq_ℤ e.id_process id_process && eq_ℤ e.page page

unfoldable pub create_table_hash : ℕ → List ElementHash
create_table_hash marcos = replicate marcos no_element

-- The loop of table_complete: `true` is `no_final`, the value 1.
unfoldable pub finds_free : List ElementHash → Bool
finds_free [] = false
finds_free (e ∷ es) = if is_free e then true else finds_free es

unfoldable pub table_complete : ℕ → List ElementHash → Bool
table_complete start table = finds_free (drop start table)

-- A loop of element_search, from index `i` on.
unfoldable pub scan_rows : ℤ → ℤ → ℕ → List ElementHash → Option ℕ
scan_rows page id_process i [] = none
scan_rows page id_process i (e ∷ es) =
    if holds_page page id_process e then some i else scan_rows page id_process (suc i) es

-- The index of a key that is not negative.
abbrev pub index_of_key : ℤ → Option ℕ
index_of_key (pos k) = some k
index_of_key (negsuc k) = none

abbrev pub found_or : Option ℕ → ℤ → ℤ
found_or (some i) other = pos i
found_or none other = other

-- The row of the key, then the rows behind it, then those before it.
abbrev pub search_at : ℤ → ℤ → ℕ → ElementHash → List ElementHash → ℤ
search_at page id_process k row table =
    if holds_page page id_process row
    then pos k
    else found_or (scan_rows page id_process (suc k) (drop (suc k) table))
        (found_or (scan_rows page id_process 0 (take k table)) incorrect)

-- The table, `keys` and `final_arrays` of add_element.
pub record Placing : Type 0 where
  pub table : List ElementHash
  pub keys : ℕ
  pub final_arrays : Bool

abbrev pub place : ℕ → ElementHash → Bool → Placing → Placing
place i e free s =
    if free then record { table = set s.table i e; keys = i; final_arrays = false } else s

-- So many rounds of the loop behind the key; each tests the row of `keys`.
unfoldable pub probe : ℕ → ℕ → ElementHash → Placing → Option Placing
probe zero i e s = some s
probe (suc rounds) i e s = do
  row ← get_elem? s.table s.keys
  probe rounds (suc i) e (place i e (is_free row) s)

-- At most so many rounds of the loop from the first row; each that stores sets `keys`.
unfoldable pub wrap : ℕ → ℕ → ElementHash → Placing → Placing
wrap zero i e s = s
wrap (suc rounds) i e s =
    if ltb i s.keys
    then wrap rounds (suc i) e (record s { table = set s.table i e; keys = i })
    else s

-- A row that is taken.
unfoldable pub place_behind : ElementHash → ℕ → List ElementHash → Option Placing
place_behind e k table = do
  s ←
      probe (length table - suc k) (suc k) e
        (record { table = table; keys = k; final_arrays = true })
  some (if s.final_arrays then wrap (suc s.keys) 0 e s else s)

unfoldable pub place_at : ElementHash → ℕ → List ElementHash → Option (ℤ × List ElementHash)
place_at e k table = do
  row ← get_elem? table k
  if is_free row
      then some (pos k, set table k e)
      else (do s ← place_behind e k table; some (pos s.keys, s.table))

abbrev pub delete_at : ℤ → List ElementHash → Bool × List ElementHash
delete_at (pos i) table = (true, set table i no_element)
delete_at (negsuc i) table = (false, table)

module _ (sprintf_d : ℤ → List ℕ) (atoi : List ℕ → ℤ) where
  -- The buffer of the joined text has 15 bytes, the closing zero included.
  unfoldable pub create_keys : ℤ → ℤ → ℕ → Option ℤ
  create_keys page id_process cant_max_frame =
      let str1 = sprintf_d id_process ++ sprintf_d page in
      if leb 15 (length str1) then none else some (remainder (atoi str1) cant_max_frame)

  -- The result is the index or `incorrect`, and the table.
  unfoldable pub add_element : ℕ → ℤ → ℤ → List ElementHash → Option (ℤ × List ElementHash)
  add_element start pag id_pro table =
      if table_complete start table then some (incorrect, table) else (do
        keys ← create_keys pag id_pro (length table)
        k ← index_of_key keys
        place_at (record { id_process = id_pro; page = pag }) k table)

  unfoldable pub element_search : ℤ → ℤ → List ElementHash → Option ℤ
  element_search page id_process table = do
    keys ← create_keys page id_process (length table)
    k ← index_of_key keys
    row ← get_elem? table k
    some (search_at page id_process k row table)

  unfoldable pub delete_element : ℤ → ℤ → List ElementHash → Option (Bool × List ElementHash)
  delete_element page id_process table = do
    indice ← element_search page id_process table
    some (delete_at indice table)
