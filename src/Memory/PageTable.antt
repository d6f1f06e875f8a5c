-- ===== src/Memory/PageTable.antt =====
-- Memoria/src/page_table.c: the inverted page table, one row per frame, and the bytes of a frame. An
-- owner of 0 marks a free row. A read or a write outside the memory, or past the end of the data
-- that is given, is `none`.
pub mod Assign
pub mod Clear
pub mod Lookup
pub mod Bytes
use esthe_r.Base.{ℕ, zero, suc, ◌+◌, ◌*◌, ◌≡◌, Bool, true, false, ◌&&◌, Option, none, some, ◌>>=◌}
use esthe_r.Base.{List, [], ◌∷◌, ◌++◌, length, take, drop, replicate, leb, if◌then◌else◌}
use esthe_r.Base.Int.{ℤ, pos, negsuc, pos_part, ◌-ℤ◌, leb_ℤ, ltb_ℤ, eq_ℤ}

pub record Row : Type 0 where
  pub owner : ℤ
  pub page : ℤ

abbrev pub free_row : Row
free_row = record { owner = pos 0; page = pos 0 }

-- `alloc` clears what it allocates.
unfoldable pub get_page_table : ℕ → List Row
get_page_table rows = replicate rows free_row

-- The number of free rows, the `r` of set_pages.
unfoldable pub free_rows : List Row → ℕ
free_rows [] = 0
free_rows (r ∷ rows) = if eq_ℤ r.owner (pos 0) then suc (free_rows rows) else free_rows rows

-- The second loop of set_pages, from one row on.
unfoldable pub assign_rows : ℤ → ℤ → List Row → List Row
assign_rows pid pages [] = []
assign_rows pid pages (r ∷ rows) =
    let free = eq_ℤ r.owner (pos 0) in
    let last = pages -ℤ pos 1 in
    let rest = assign_rows pid (if free then last else pages) rows in
    if ltb_ℤ (pos 0) pages
    then (if free then record { owner = pid; page = last } else r) ∷ rest
    else r ∷ rows

-- The result, and the table.
unfoldable pub set_pages : List Row → ℤ → ℤ → ℤ × List Row
set_pages table pid pages =
    if leb_ℤ pid (pos 0)
    then (pos 0, table)
    else if leb_ℤ pages (pos 0)
    then (pos 0, table)
    else if ltb_ℤ (pos (free_rows table)) pages
    then (pos 0, table)
    else (pos 1, assign_rows pid pages table)

unfoldable pub clear_rows : ℤ → List Row → List Row
clear_rows pid [] = []
clear_rows pid (r ∷ rows) = (if eq_ℤ r.owner pid then free_row else r) ∷ clear_rows pid rows

unfoldable pub clear_pages : List Row → ℤ → ℤ × List Row
clear_pages table pid = if leb_ℤ pid (pos 0) then (pos 0, table) else (pos 1, clear_rows pid table)

-- The search of get_frame: the index of the first row that holds the page.
unfoldable pub find_frame : ℤ → ℤ → List Row → Option ℕ
find_frame pid page [] = none
find_frame pid page (r ∷ rows) =
    if eq_ℤ r.owner pid && eq_ℤ r.page page
    then some 0
    else (find_frame pid page rows >>= λ i. some (suc i))

abbrev pub or_zero : Option ℕ → ℕ
or_zero none = 0
or_zero (some i) = i

unfoldable pub get_frame : List Row → ℤ → ℤ → ℕ
get_frame table pid page =
    if leb_ℤ pid (pos 0)
    then 0
    else if ltb_ℤ page (pos 0)
    then 0
    else if leb_ℤ (pos (length table)) page
    then 0
    else or_zero (find_frame pid page table)

-- The bytes from `base` on, as many as `size`.
unfoldable pub read_from : List ℕ → ℕ → ℕ → Option (List ℕ)
read_from main base size =
    if leb (base + size) (length main) then some (take size (drop base main)) else none

-- The result, and what has been stored in the buffer.
unfoldable pub get_bytes : ℕ → List ℕ → ℕ → ℤ → ℤ → Option (ℤ × List ℕ)
get_bytes marco_size main frame offset size =
    if ltb_ℤ offset (pos 0)
    then some (pos 0, [])
    else if leb_ℤ size (pos 0)
    then some (pos 0, [])
    else (read_from main (frame * marco_size + pos_part offset) (pos_part size) >>= λ bytes.
        some (pos 1, bytes))

unfoldable pub write_at : List ℕ → ℕ → List ℕ → Option (List ℕ)
write_at main base bytes =
    if leb (base + length bytes) (length main)
    then some (take base main ++ (bytes ++ drop (base + length bytes) main))
    else none

-- The result, and the memory.
unfoldable pub set_bytes : ℕ → List ℕ → ℕ → ℤ → ℤ → List ℕ → Option (ℤ × List ℕ)
set_bytes marco_size main frame offset size bytes =
    if ltb_ℤ offset (pos 0)
    then some (pos 0, main)
    else if leb_ℤ size (pos 0)
    then some (pos 0, main)
    else if leb (pos_part size) (length bytes)
    then (write_at main (frame * marco_size + pos_part offset) (take (pos_part size) bytes) >>= λ m.
        some (pos 1, m))
    else none
