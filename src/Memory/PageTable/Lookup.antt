-- ===== src/Memory/PageTable/Lookup.antt =====
-- What get_frame of Memoria/src/page_table.c finds.
use esthe_r.Base.{ap₂}
use esthe_r.Base.{ℕ, suc, ◌+◌, ◌<◌, ◌≡◌, refl, ap, inl, inr, true, false, ◌&&◌}
use esthe_r.Base.{none, some, List, [], ◌∷◌, length, get_elem?}
use esthe_r.Base.{ltb, leb, Bool-cases, Option-cases, arith}
use esthe_r.Base.Int.{ℤ, pos, eq_ℤ, eq_ℤ_iff}
use esthe_r.Memory.PageTable.{Row, find_frame, get_frame, or_zero}

same_row :
    (r : Row) (pid page : ℤ)
    → (eq_ℤ r.owner pid && eq_ℤ r.page page) ≡ true
    → r ≡ record { owner = pid; page = page }
same_row r pid page e = elim (Bool-cases (eq_ℤ r.owner pid)) [
  | inl o ↦
      let p : eq_ℤ r.page page ≡ true = rw o at e in
      ap₂ (λ a b. record { owner = a; page = b }) ((eq_ℤ_iff r.owner pid).0 o)
        ((eq_ℤ_iff r.page page).0 p)
  | inr o ↦ let f : false ≡ true = rw o at e in cc
]

pub find_frame-holds :
    (pid page : ℤ) (rows : List Row) (i : ℕ)
    → find_frame pid page rows ≡ some i
    → get_elem? rows i ≡ some (record { owner = pid; page = page })
unfolding find_frame
find_frame-holds pid page [] i e = cc
find_frame-holds pid page (r ∷ rows) i e =
    elim (Bool-cases (eq_ℤ r.owner pid && eq_ℤ r.page page)) [
      | inl here ↦
          let first : some 0 ≡ some i = rw here at e in
          rw (← ap or_zero first) (ap some (same_row r pid page here))
      | inr not_here ↦ elim (Option-cases (find_frame pid page rows)) [
        | inl none_left ↦ let f : none ≡ some i = rw (not_here, none_left) at e in cc
        | inr (j, found) ↦
            let next : some (suc j) ≡ some i = rw (not_here, found) at e in
            rw (← ap or_zero next) (find_frame-holds pid page rows j found)
      ]
    ]

-- Within the table, get_frame is the search.
pub get_frame-find_frame :
    (table : List Row) (p k i : ℕ)
    → k < length table
    → find_frame (pos (suc p)) (pos k) table ≡ some i
    → get_frame table (pos (suc p)) (pos k) ≡ i
unfolding get_frame
get_frame-find_frame table p k i h e =
    let a : leb (suc p + 0) (0 + 0) ≡ false = ground arith in
    let b : ltb (k + 0) (0 + 0) ≡ false = ground arith in
    let c : leb (length table + 0) (k + 0) ≡ false = ground arith in rw (a, b, c, e) refl

-- A page that is not in the table gives frame 0, like a page of the program in that frame.
pub get_frame-missing :
    (table : List Row) (pid page : ℤ)
    → find_frame pid page table ≡ none
    → get_frame table pid page ≡ 0
unfolding get_frame
get_frame-missing table pid page e = rw e (ground arith)
