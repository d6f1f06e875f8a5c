-- ===== src/Memory/HashTable/Search.antt =====
-- element_search of Memoria/src/hash_table.c looks at every row.
use esthe_r.Base.{ℕ, zero, suc, ◌+◌, ◌<◌, ◌≡◌, refl, ap, ◌∙◌, ◌⊎◌, inl, inr, Bool, true, false}
use esthe_r.Base.{none, some, List, [], ◌∷◌, length, get_elem?, take, drop, All, set}
use esthe_r.Base.{Bool-cases, arith, some-injective}
use esthe_r.Base.Int.{ℤ, pos, negsuc}
use esthe_r.Memory.HashTable.{
  ElementHash, holds_page, scan_rows, found_or, element_search, create_keys, delete_element,
  delete_at, search_at, incorrect, no_element,
}

-- No row holds the page.
abbrev pub Absent : ℤ → ℤ → List ElementHash → Type 0
Absent page id_process rows = All (λ e. holds_page page id_process e ≡ false) rows

-- The row at an index holds the page.
abbrev pub HoldsAt : ℤ → ℤ → List ElementHash → ℕ → Type 0
HoldsAt page id_process rows i =
    (e : ElementHash) × (get_elem? rows i ≡ some e) × (holds_page page id_process e ≡ true)

-- The index of a row that holds the page, or -1 if none does.
abbrev pub Found : ℤ → ℤ → List ElementHash → ℤ → Type 0
Found page id_process rows (pos i) = HoldsAt page id_process rows i
Found page id_process rows (negsuc n) = (n ≡ 0) × Absent page id_process rows

module _ (page id_process : ℤ) where
  scan_rows-finds :
      (i : ℕ) (rows : List ElementHash)
      → ((m : ℕ) × (scan_rows page id_process i rows ≡ some (i + m))
          × HoldsAt page id_process rows m)
        ⊎ ((scan_rows page id_process i rows ≡ none) × Absent page id_process rows)
  unfolding scan_rows
  scan_rows-finds i [] = inr (refl, tt)
  scan_rows-finds i (e ∷ rows) = elim (Bool-cases (holds_page page id_process e)) [
    | inl t ↦ inl (0, rw t (ap some (omega arith)), (e, refl, t))
    | inr t ↦ elim (scan_rows-finds (suc i) rows) [
      | inl (m, s, h) ↦ inl (suc m, rw t (s ∙ ap some (omega arith)), h)
      | inr (s, a) ↦ inr (rw t s, (t, a))
    ]
  ]

  holds-take :
      (k m : ℕ) (rows : List ElementHash)
      → HoldsAt page id_process (take k rows) m
      → HoldsAt page id_process rows m
  holds-take zero m rows (e, s, h) = (e, ground (arith, s), h)
  holds-take (suc k) m [] (e, s, h) = (e, s, h)
  holds-take (suc k) zero (r ∷ rows) h = h
  holds-take (suc k) (suc m) (r ∷ rows) h = holds-take k m rows h

  holds-drop :
      (k m : ℕ) (rows : List ElementHash)
      → HoldsAt page id_process (drop k rows) m
      → HoldsAt page id_process rows (k + m)
  holds-drop zero m rows h = let e : 0 + m ≡ m = omega arith in rw e h
  holds-drop (suc k) m [] (e, s, h) = (e, ground (arith, s), h)
  holds-drop (suc k) m (r ∷ rows) h =
      let e : suc k + m ≡ suc (k + m) = omega arith in rw e (holds-drop k m rows h)

  Absent-parts :
      (k : ℕ) (rows : List ElementHash) (row : ElementHash)
      → get_elem? rows k ≡ some row
      → Absent page id_process (take k rows)
      → holds_page page id_process row ≡ false
      → Absent page id_process (drop (suc k) rows)
      → Absent page id_process rows
  Absent-parts k [] row e a h b = tt
  Absent-parts zero (r ∷ rows) row e a h b = let s : r ≡ row = some-injective r row e in (rw s h, b)
  Absent-parts (suc k) (r ∷ rows) row e (x, a) h b = (x, Absent-parts k rows row e a h b)

pub row_at :
    (k : ℕ) (rows : List ElementHash)
    → k < length rows
    → (row : ElementHash) × (get_elem? rows k ≡ some row)
row_at k [] i = absurd (omega arith)
row_at zero (r ∷ rows) i = (r, refl)
row_at (suc k) (r ∷ rows) i = row_at k rows (omega arith)

-- What delete_element does, by what it returns.
abbrev pub Deleted : ℤ → ℤ → List ElementHash → Bool × List ElementHash → Type 0
Deleted page id_process rows (true, rows') =
    (i : ℕ) × HoldsAt page id_process rows i × (rows' ≡ set rows i no_element)
Deleted page id_process rows (false, rows') = Absent page id_process rows × (rows' ≡ rows)

delete_at-Deleted :
    (page id_process : ℤ) (rows : List ElementHash) (r : ℤ)
    → Found page id_process rows r
    → Deleted page id_process rows (delete_at r rows)
delete_at-Deleted page id_process rows (pos i) h = (i, h, refl)
delete_at-Deleted page id_process rows (negsuc n) (e, a) = (a, refl)

module _ (sprintf_d : ℤ → List ℕ) (atoi : List ℕ → ℤ) (page id_process : ℤ) (k : ℕ)
    (rows : List ElementHash)
    (key : create_keys sprintf_d atoi page id_process (length rows) ≡ some (pos k))
    (inside : k < length rows) where
  -- The rows before the key, when it is in no other.
  found_or-Found :
      (row : ElementHash)
      → get_elem? rows k ≡ some row
      → holds_page page id_process row ≡ false
      → Absent page id_process (drop (suc k) rows)
      → Found page id_process rows (found_or (scan_rows page id_process 0 (take k rows)) incorrect)
  found_or-Found row e h behind = elim (scan_rows-finds page id_process 0 (take k rows)) [
    | inl (m, s, at) ↦
        let i : 0 + m ≡ m = omega arith in rw (s, i) (holds-take page id_process k m rows at)
    | inr (s, a) ↦ rw s (refl, Absent-parts page id_process k rows row e a h behind)
  ]

  -- For a page whose key is a row of the table: element_search returns the index of a row that holds
  -- the page, and -1 exactly when no row does.
  pub element_search-Found :
      (r : ℤ) × (element_search sprintf_d atoi page id_process rows ≡ some r)
      × Found page id_process rows r
  unfolding element_search
  element_search-Found =
      let (row, e) = row_at k rows inside in
      (
        search_at page id_process k row rows,
        rw (key, e) refl,
        elim (Bool-cases (holds_page page id_process row)) [
          | inl t ↦ rw t (row, e, t)
          | inr t ↦ rw t (elim (scan_rows-finds page id_process (suc k) (drop (suc k) rows)) [
            | inl (m, s, at) ↦ rw s (holds-drop page id_process (suc k) m rows at)
            | inr (s, a) ↦ rw s (found_or-Found row e t a)
          ])
        ],
      )

  -- For a page whose key is a row of the table: delete_element empties one row that holds the page and
  -- returns true, or, exactly when no row does, changes nothing and returns false.
  pub delete_element-Deleted :
      (r : Bool × List ElementHash) × (delete_element sprintf_d atoi page id_process rows ≡ some r)
      × Deleted page id_process rows r
  unfolding delete_element
  delete_element-Deleted =
      let (i, e, f) = element_search-Found in
      (delete_at i rows, rw e refl, delete_at-Deleted page id_process rows i f)
