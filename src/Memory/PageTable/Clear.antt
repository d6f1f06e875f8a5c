-- ===== src/Memory/PageTable/Clear.antt =====
-- What clear_pages of Memoria/src/page_table.c does to the rows.
use esthe_r.Base.{ℕ, zero, suc, ◌≤◌, ◌<◌, ◌≡◌, refl, sym, ap, ◌∙◌, ◌≢◌, inl, inr, true, false}
use esthe_r.Base.{List, [], ◌∷◌, length, All}
use esthe_r.Base.{Bool-cases, arith}
use esthe_r.Base.{subst}
use esthe_r.Base.Int.{ℤ, pos, leb_ℤ, eq_ℤ, eq_ℤ_iff, eq_ℤ_refl, eq_ℤ_apart}
use esthe_r.Memory.PageTable.{
  Row, free_row, free_rows, assign_rows, set_pages, clear_rows, clear_pages, find_frame, get_frame,
}
use esthe_r.Memory.PageTable.Assign.{
  Unowned, assign_rows_zero, assign_rows_free, assign_rows_taken, assign_rows_none, granted,
}

-- A row that no program owns is as `alloc` made it.
abbrev pub Tidy : List Row → Type 0
Tidy table = All (λ r. r.owner ≡ pos 0 → r ≡ free_row) table

clear_rows-Unowned : (pid : ℤ) (rows : List Row) → Unowned pid rows → clear_rows pid rows ≡ rows
unfolding clear_rows
clear_rows-Unowned pid [] u = refl
clear_rows-Unowned pid (r ∷ rows) (not_r, u) =
    rw (eq_ℤ_apart r.owner pid not_r, clear_rows-Unowned pid rows u) refl

clear_rows-assign_rows :
    (pid : ℤ) (n : ℕ) (rows : List Row)
    → Unowned pid rows
    → Tidy rows
    → clear_rows pid (assign_rows pid (pos n) rows) ≡ rows
unfolding clear_rows
clear_rows-assign_rows pid zero rows u tidy =
    rw (assign_rows_zero pid rows) (clear_rows-Unowned pid rows u)
clear_rows-assign_rows pid (suc n) [] u tidy = rw (assign_rows_none pid (pos (suc n))) refl
clear_rows-assign_rows pid (suc n) (r ∷ rows) (not_r, u) (tidy_r, tidy) =
    elim (Bool-cases (eq_ℤ r.owner (pos 0))) [
      | inl e ↦
          rw
            (
              assign_rows_free pid n r rows e,
              eq_ℤ_refl pid,
              clear_rows-assign_rows pid n rows u tidy,
              tidy_r ((eq_ℤ_iff r.owner (pos 0)).0 e),
            )
            refl
      | inr e ↦
          rw
            (
              assign_rows_taken pid n r rows e,
              eq_ℤ_apart r.owner pid not_r,
              clear_rows-assign_rows pid (suc n) rows u tidy,
            )
            refl
    ]

cleared :
    (table : List Row) (p : ℕ)
    → clear_pages table (pos (suc p)) ≡ (pos 1, clear_rows (pos (suc p)) table)
unfolding clear_pages
cleared table p = let a : leb_ℤ (pos (suc p)) (pos 0) ≡ false = ground arith in rw a refl

-- For a program that owns no page, a table whose free rows are cleared, and a positive number of
-- pages that the table can grant: clear_pages after set_pages returns 1 and the table as it was.
pub clear_pages-set_pages :
    (table : List Row) (p n : ℕ)
    → Tidy table
    → Unowned (pos (suc p)) table
    → 0 < n
    → n ≤ free_rows table
    → clear_pages (set_pages table (pos (suc p)) (pos n)).1 (pos (suc p)) ≡ (pos 1, table)
clear_pages-set_pages table p n tidy unowned some_page enough =
    rw
      (
        granted table p n some_page enough,
        cleared (assign_rows (pos (suc p)) (pos n) table) p,
        clear_rows-assign_rows (pos (suc p)) n table unowned tidy,
      )
      refl

length-clear_rows : (pid : ℤ) (rows : List Row) → length (clear_rows pid rows) ≡ length rows
unfolding clear_rows
length-clear_rows pid [] = refl
length-clear_rows pid (r ∷ rows) = ap suc (length-clear_rows pid rows)

find_frame-clear_rows :
    (pid q page : ℤ) (rows : List Row)
    → q ≢ pid
    → q ≢ pos 0
    → find_frame q page (clear_rows pid rows) ≡ find_frame q page rows
unfolding clear_rows find_frame
find_frame-clear_rows pid q page [] other some_one = refl
find_frame-clear_rows pid q page (r ∷ rows) other some_one = elim (Bool-cases (eq_ℤ r.owner pid)) [
  | inl e ↦
      let mine : r.owner ≡ pid = (eq_ℤ_iff r.owner pid).0 e in
      let old : eq_ℤ r.owner q ≡ false = eq_ℤ_apart r.owner q (λ w. other (sym w ∙ mine)) in
      let new : eq_ℤ (pos 0) q ≡ false = eq_ℤ_apart (pos 0) q (λ w. some_one (sym w)) in
      rw (e, old, new, find_frame-clear_rows pid q page rows other some_one) refl
  | inr e ↦ rw (e, find_frame-clear_rows pid q page rows other some_one) refl
]

Unowned-clear_rows :
    (p : ℕ) (rows : List Row) → Unowned (pos (suc p)) (clear_rows (pos (suc p)) rows)
unfolding clear_rows
Unowned-clear_rows p [] = tt
Unowned-clear_rows p (r ∷ rows) = elim (Bool-cases (eq_ℤ r.owner (pos (suc p)))) [
  | inl e ↦ rw e ((λ w. ground (arith, w)), Unowned-clear_rows p rows)
  | inr e ↦ rw e (
    (λ w. let f : eq_ℤ r.owner (pos (suc p)) ≡ true = (eq_ℤ_iff r.owner (pos (suc p))).1 w in cc),
    Unowned-clear_rows p rows,
  )
]

get_frame-clear_rows :
    (table : List Row) (p : ℕ) (q page : ℤ)
    → q ≢ pos (suc p)
    → get_frame (clear_rows (pos (suc p)) table) q page ≡ get_frame table q page
unfolding get_frame
get_frame-clear_rows table p q page other = elim (Bool-cases (leb_ℤ q (pos 0))) [
  | inl e ↦ rw e refl
  | inr e ↦
      let some_one : q ≢ pos 0 = λ w.
        let f : leb_ℤ (pos 0) (pos 0) ≡ false = subst (λ z. leb_ℤ z (pos 0) ≡ false) w e in cc in
      rw
        (
          e,
          length-clear_rows (pos (suc p)) table,
          find_frame-clear_rows (pos (suc p)) q page table other some_one,
        )
        refl
]

-- For any table and a positive process number: after clear_pages the program owns no row, and
-- get_frame returns to every other number what it returned before.
pub get_frame-clear_pages :
    (table : List Row) (p : ℕ)
    → Unowned (pos (suc p)) (clear_pages table (pos (suc p))).1
      × ((q page : ℤ)
          → q ≢ pos (suc p)
          → get_frame (clear_pages table (pos (suc p))).1 q page ≡ get_frame table q page)
get_frame-clear_pages table p =
    rw (cleared table p) (Unowned-clear_rows p table, get_frame-clear_rows table p)
