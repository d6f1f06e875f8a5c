-- ===== src/Memory/HashTable/Insert.antt =====
-- add_element of Memoria/src/hash_table.c: its test of a full table is the other way round.
use esthe_r.Base.{ℕ, zero, suc, ◌-◌, ◌<◌, ◌≡◌, refl, sym, ap, ◌∙◌, inl, inr, true, false}
use esthe_r.Base.{some, List, [], ◌∷◌, length, get_elem?, set}
use esthe_r.Base.{ltb, Bool-cases, arith, some-injective}
use esthe_r.Base.Int.{ℤ, pos}
use esthe_r.Memory.HashTable.{
  ElementHash, finds_free, table_complete, is_free, create_keys, add_element, place_at,
  place_behind, probe, wrap, Placing, incorrect, create_table_hash,
}
use esthe_r.Memory.HashTable.Search.{row_at}

finds_free-get :
    (rows : List ElementHash) (i : ℕ) (row : ElementHash)
    → finds_free rows ≡ false
    → get_elem? rows i ≡ some row
    → is_free row ≡ false
unfolding finds_free
finds_free-get [] i row f e = cc
finds_free-get (r ∷ rows) zero row f e = elim (Bool-cases (is_free r)) [
  | inl t ↦ let g : true ≡ false = rw t at f in cc
  | inr t ↦ ap is_free (sym (some-injective r row e)) ∙ t
]
finds_free-get (r ∷ rows) (suc i) row f e = elim (Bool-cases (is_free r)) [
  | inl t ↦ let g : true ≡ false = rw t at f in cc
  | inr t ↦ finds_free-get rows i row (rw t at f) e
]

probe_taken :
    (rounds i : ℕ) (e row : ElementHash) (s : Placing)
    → get_elem? s.table s.keys ≡ some row
    → is_free row ≡ false
    → probe rounds i e s ≡ some s
unfolding probe
probe_taken zero i e row s here taken = refl
probe_taken (suc rounds) i e row s here taken =
    rw (here, taken) (probe_taken rounds (suc i) e row s here taken)

-- What add_element stores when no row is free: the first row is lost, unless it is that of the key.
abbrev pub overwritten : ElementHash → ℕ → List ElementHash → List ElementHash
overwritten e zero rows = rows
overwritten e (suc k) rows = set rows 0 e

wrap_once :
    (k : ℕ) (e : ElementHash) (rows : List ElementHash)
    → wrap (suc k) 0 e (record { table = rows; keys = k; final_arrays = true })
      ≡ record { table = overwritten e k rows; keys = 0; final_arrays = true }
unfolding wrap
wrap_once zero e rows = refl
wrap_once (suc k) e rows = let t : ltb 0 (suc k) ≡ true = ground arith in rw t refl

module _ (sprintf_d : ℤ → List ℕ) (atoi : List ℕ → ℤ) (pag id_pro : ℤ) (k : ℕ)
    (rows : List ElementHash)
    (key : create_keys sprintf_d atoi pag id_pro (length rows) ≡ some (pos k))
    (inside : k < length rows) where
  -- For a page whose key is a row of the table, with the unset counter of table_complete at 0: if some
  -- row is free, add_element returns -1 and changes nothing; if none is free, it returns 0, and has
  -- written the page over row 0, or nowhere if the key is 0.
  pub add_element-finds_free :
      (finds_free rows ≡ true
        → add_element sprintf_d atoi 0 pag id_pro rows ≡ some (incorrect, rows))
      × (finds_free rows ≡ false
          → add_element sprintf_d atoi 0 pag id_pro rows
            ≡ some (pos 0, overwritten (record { id_process = id_pro; page = pag }) k rows))
  unfolding add_element table_complete place_at place_behind
  add_element-finds_free = (
    (λ f. rw f refl),
    (λ f.
        let (row, e) = row_at k rows inside in
        let taken = finds_free-get rows k row f e in
        let el : ElementHash = record { id_process = id_pro; page = pag } in
        let s : Placing = record { table = rows; keys = k; final_arrays = true } in
        rw
          (
            f,
            key,
            e,
            taken,
            probe_taken (length rows - suc k) (suc k) el row s e taken,
            wrap_once k el rows,
          )
          refl),
  )

-- A new table of at least one row takes no page.
new_table-finds_free : (n : ℕ) → finds_free (create_table_hash (suc n)) ≡ true
unfolding finds_free create_table_hash
new_table-finds_free n = refl
