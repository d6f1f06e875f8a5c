-- ===== src/Memory/PageTable/Assign.antt =====
-- What set_pages of Memoria/src/page_table.c does to the rows.
use esthe_r.Base.{length, subst}
use esthe_r.Base.{ℕ, zero, suc, ◌+◌, ◌≤◌, ◌<◌, ◌≡◌, refl, sym, ap, ◌∙◌, ◌≢◌, inl, inr, true, false}
use esthe_r.Base.{some, List, [], ◌∷◌, get_elem?, All}
use esthe_r.Base.{ltb, leb, ◌==◌, Bool-cases, arith}
use esthe_r.Base.Int.{ℤ, pos, ◌-ℤ◌, eq_ℤ, eq_ℤ_iff, eq_ℤ_refl, eq_ℤ_apart}
use esthe_r.Memory.PageTable.{Row, free_rows, assign_rows, set_pages, find_frame, get_frame}
use esthe_r.Memory.PageTable.Lookup.{find_frame-holds, get_frame-find_frame}
use esthe_r.Base.{◌<◌, ltb, leb}
use esthe_r.Base.Int.{leb_ℤ}

-- No row belongs to `pid`.
abbrev pub Unowned : ℤ → List Row → Type 0
Unowned pid table = All (λ r. r.owner ≢ pid) table

sub_one : (n : ℕ) → pos (suc n) -ℤ pos 1 ≡ pos n
unfolding ◌-ℤ◌
sub_one n = let t : leb (0 + 1) (suc n + 0) ≡ true = ground arith in rw t (ap pos (omega arith))

pub assign_rows_none : (pid pages : ℤ) → assign_rows pid pages [] ≡ []
unfolding assign_rows
assign_rows_none pid pages = refl

pub assign_rows_zero : (pid : ℤ) (rows : List Row) → assign_rows pid (pos 0) rows ≡ rows
unfolding assign_rows
assign_rows_zero pid [] = refl
assign_rows_zero pid (r ∷ rows) = refl

pub assign_rows_free :
    (pid : ℤ) (n : ℕ) (r : Row) (rows : List Row)
    → eq_ℤ r.owner (pos 0) ≡ true
    → assign_rows pid (pos (suc n)) (r ∷ rows)
      ≡ (record { owner = pid; page = pos n }) ∷ assign_rows pid (pos n) rows
unfolding assign_rows
assign_rows_free pid n r rows e =
    let t : ltb 0 (suc n + 0) ≡ true = ground arith in rw (t, e, sub_one n) refl

pub assign_rows_taken :
    (pid : ℤ) (n : ℕ) (r : Row) (rows : List Row)
    → eq_ℤ r.owner (pos 0) ≡ false
    → assign_rows pid (pos (suc n)) (r ∷ rows) ≡ r ∷ assign_rows pid (pos (suc n)) rows
unfolding assign_rows
assign_rows_taken pid n r rows e = let t : ltb 0 (suc n + 0) ≡ true = ground arith in rw (t, e) refl

-- The rows of another program are where they were.
find_frame-assign_rows_other :
    (pid q : ℤ) (page : ℤ) (n : ℕ) (rows : List Row)
    → q ≢ pid
    → q ≢ pos 0
    → find_frame q page (assign_rows pid (pos n) rows) ≡ find_frame q page rows
unfolding find_frame
find_frame-assign_rows_other pid q page zero rows other some_one =
    rw (assign_rows_zero pid rows) refl
find_frame-assign_rows_other pid q page (suc n) [] other some_one =
    rw (assign_rows_none pid (pos (suc n))) refl
find_frame-assign_rows_other pid q page (suc n) (r ∷ rows) other some_one =
    elim (Bool-cases (eq_ℤ r.owner (pos 0))) [
      | inl e ↦
          let free : r.owner ≡ pos 0 = (eq_ℤ_iff r.owner (pos 0)).0 e in
          let new : eq_ℤ pid q ≡ false = eq_ℤ_apart pid q (λ w. other (sym w)) in
          let old : eq_ℤ r.owner q ≡ false = eq_ℤ_apart r.owner q (λ w. some_one (sym w ∙ free)) in
          rw
            (
              assign_rows_free pid n r rows e,
              new,
              old,
              find_frame-assign_rows_other pid q page n rows other some_one,
            )
            refl
      | inr e ↦
          rw
            (
              assign_rows_taken pid n r rows e,
              find_frame-assign_rows_other pid q page (suc n) rows other some_one,
            )
            refl
    ]

no_rows : (n : ℕ) → ¬ (suc n ≤ free_rows [])
unfolding free_rows
no_rows n h = omega arith

pub free_rows_more :
    (r : Row) (rows : List Row) (n : ℕ)
    → eq_ℤ r.owner (pos 0) ≡ true
    → suc n ≤ free_rows (r ∷ rows)
    → n ≤ free_rows rows
unfolding free_rows
free_rows_more r rows n e enough = ground (arith, e)

pub free_rows_same :
    (r : Row) (rows : List Row) (n : ℕ)
    → eq_ℤ r.owner (pos 0) ≡ false
    → suc n ≤ free_rows (r ∷ rows)
    → suc n ≤ free_rows rows
unfolding free_rows
free_rows_same r rows n e enough = ground (arith, e)

-- Each page below `n` is found, on a row that was free.
find_frame-assign_rows_own :
    (pid : ℤ) (n k : ℕ) (rows : List Row)
    → Unowned pid rows
    → n ≤ free_rows rows
    → k < n
    → (i : ℕ) × (find_frame pid (pos k) (assign_rows pid (pos n) rows) ≡ some i)
      × (r : Row) × (get_elem? rows i ≡ some r)
      × (r.owner ≡ pos 0)
unfolding find_frame
find_frame-assign_rows_own pid zero k rows none_own enough h = absurd (omega arith)
find_frame-assign_rows_own pid (suc n) k [] none_own enough h = absurd (no_rows n enough)
find_frame-assign_rows_own pid (suc n) k (r ∷ rows) (not_r, none_own) enough h =
    elim (Bool-cases (eq_ℤ r.owner (pos 0))) [
      | inl e ↦ elim (Bool-cases (n == k)) [
        | inl last ↦
            rw (assign_rows_free pid n r rows e, eq_ℤ_refl pid, last)
              (0, refl, r, refl, (eq_ℤ_iff r.owner (pos 0)).0 e)
        | inr further ↦
            let (i, found, s, here, free) =
              find_frame-assign_rows_own pid n k rows none_own (free_rows_more r rows n e enough)
                (ground arith) in
            rw (assign_rows_free pid n r rows e, eq_ℤ_refl pid, further, found)
              (suc i, refl, s, here, free)
      ]
      | inr e ↦
          let (i, found, s, here, free) =
            find_frame-assign_rows_own pid (suc n) k rows none_own
              (free_rows_same r rows n e enough) h in
          rw (assign_rows_taken pid n r rows e, eq_ℤ_apart r.owner pid not_r, found)
            (suc i, refl, s, here, free)
    ]

length-assign_rows :
    (pid : ℤ) (n : ℕ) (rows : List Row) → length (assign_rows pid (pos n) rows) ≡ length rows
length-assign_rows pid zero rows = rw (assign_rows_zero pid rows) refl
length-assign_rows pid (suc n) [] = rw (assign_rows_none pid (pos (suc n))) refl
length-assign_rows pid (suc n) (r ∷ rows) = elim (Bool-cases (eq_ℤ r.owner (pos 0))) [
  | inl e ↦ rw (assign_rows_free pid n r rows e, length-assign_rows pid n rows) refl
  | inr e ↦ rw (assign_rows_taken pid n r rows e, length-assign_rows pid (suc n) rows) refl
]

free_rows-length : (rows : List Row) → free_rows rows ≤ length rows
unfolding free_rows
free_rows-length [] = omega arith
free_rows-length (r ∷ rows) = ground (arith, free_rows-length rows)

free_rows-assign_rows :
    (p n : ℕ) (rows : List Row)
    → n ≤ free_rows rows
    → free_rows (assign_rows (pos (suc p)) (pos n) rows) + n ≡ free_rows rows
unfolding free_rows
free_rows-assign_rows p zero rows h = rw (assign_rows_zero (pos (suc p)) rows) (omega arith)
free_rows-assign_rows p (suc n) [] h = absurd (omega arith)
free_rows-assign_rows p (suc n) (r ∷ rows) h = elim (Bool-cases (eq_ℤ r.owner (pos 0))) [
  | inl e ↦
      let t : eq_ℤ (pos (suc p)) (pos 0) ≡ false = ground arith in
      rw (assign_rows_free (pos (suc p)) n r rows e, t, e)
        (omega (arith, free_rows-assign_rows p n rows (free_rows_more r rows n e h)))
  | inr e ↦
      rw (assign_rows_taken (pos (suc p)) n r rows e, e)
        (free_rows-assign_rows p (suc n) rows (free_rows_same r rows n e h))
]

get_frame-assign_rows_other :
    (table : List Row) (p n : ℕ) (q page : ℤ)
    → q ≢ pos (suc p)
    → get_frame (assign_rows (pos (suc p)) (pos n) table) q page ≡ get_frame table q page
unfolding get_frame
get_frame-assign_rows_other table p n q page other = elim (Bool-cases (leb_ℤ q (pos 0))) [
  | inl e ↦ rw e refl
  | inr e ↦
      let some_one : q ≢ pos 0 = λ w.
        let f : leb_ℤ (pos 0) (pos 0) ≡ false = subst (λ z. leb_ℤ z (pos 0) ≡ false) w e in cc in
      rw
        (
          e,
          length-assign_rows (pos (suc p)) n table,
          find_frame-assign_rows_other (pos (suc p)) q page n table other some_one,
        )
        refl
]

pub granted :
    (table : List Row) (p n : ℕ)
    → 0 < n
    → n ≤ free_rows table
    → set_pages table (pos (suc p)) (pos n) ≡ (pos 1, assign_rows (pos (suc p)) (pos n) table)
unfolding set_pages
granted table p n some_page enough =
    let a : leb (suc p + 0) (0 + 0) ≡ false = ground arith in
    let b : leb (n + 0) (0 + 0) ≡ false = ground arith in
    let c : ltb (free_rows table + 0) (n + 0) ≡ false = ground arith in rw (a, b, c) refl

module _ (table : List Row) (p n : ℕ) (some_page : 0 < n) (enough : n ≤ free_rows table) where
  -- For a program that owns no page, a positive number n of pages and a table with n free rows:
  -- set_pages returns 1, and after it get_frame finds each page below n on a row that was free
  -- and now holds that page of the program.
  pub get_frame-set_pages_own :
      Unowned (pos (suc p)) table
      → ((set_pages table (pos (suc p)) (pos n)).0 ≡ pos 1)
        × ((k : ℕ)
            → k < n
            → (r : Row) × (get_elem? table
                  (get_frame (set_pages table (pos (suc p)) (pos n)).1 (pos (suc p)) (pos k))
                ≡ some r)
              × (r.owner ≡ pos 0)
              × (get_elem?
                    (set_pages table (pos (suc p)) (pos n)).1
                    (get_frame (set_pages table (pos (suc p)) (pos n)).1 (pos (suc p)) (pos k))
                  ≡ some (record { owner = pos (suc p); page = pos k })))
  get_frame-set_pages_own unowned = rw (granted table p n some_page enough) (
    refl,
    λ k h.
        (let (i, found, r, here, free) =
            find_frame-assign_rows_own (pos (suc p)) n k table unowned enough h in
          let inside : k < length (assign_rows (pos (suc p)) (pos n) table) =
            rw (length-assign_rows (pos (suc p)) n table) (omega (arith, free_rows-length table)) in
          rw (get_frame-find_frame (assign_rows (pos (suc p)) (pos n) table) p k i inside found)
            (r, here, free, find_frame-holds (pos (suc p)) (pos k) _ i found)),
  )

  -- For a positive number of pages that the table can grant: set_pages changes no frame that
  -- get_frame returns to another program, and takes exactly that number from the free rows.
  pub get_frame-set_pages_other :
      ((q page : ℤ)
        → q ≢ pos (suc p)
        → get_frame (set_pages table (pos (suc p)) (pos n)).1 q page ≡ get_frame table q page)
      × (free_rows (set_pages table (pos (suc p)) (pos n)).1 + n ≡ free_rows table)
  get_frame-set_pages_other =
      rw (granted table p n some_page enough)
        (get_frame-assign_rows_other table p n, free_rows-assign_rows p n table enough)
