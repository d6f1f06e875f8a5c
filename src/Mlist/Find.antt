-- ===== src/Mlist/Find.antt =====
-- The searches of Common/mlist.c, against the list of the elements.
use esthe_r.Base.{
  ℕ, zero, suc, ◌+◌, ◌<◌, ◌≡◌, ◌≢◌, refl, Bool, false, ◌||◌, none, some, List, [], ◌∷◌, length, ltb,
  ◌==◌, if◌then◌else◌, arith, Bool-cases, inl, inr, not,
}
use esthe_r.Base.Int.{pos, negsuc}
use esthe_r.Base.{All}
use esthe_r.Mlist.Nodes.{Ptr, Heap}
use esthe_r.Mlist.{
  MList, null, find_loop, mlist_index, mlist_find, mlist_contains, mlist_any, mlist_all,
}
use esthe_r.Mlist.Links.{length-elems, Cells, Links, IsList, elems, first_of}
use esthe_r.Mlist.Walk.{elem_at, node_at, get_elem-node_at}

-- How many elements stand before the first that satisfies the condition.
abbrev pub before_first : (ℕ → Bool) → List ℕ → ℕ
before_first cond [] = 0
before_first cond (x ∷ xs) = if cond x then 0 else suc (before_first cond xs)

abbrev pub any : (ℕ → Bool) → List ℕ → Bool
any cond [] = false
any cond (x ∷ xs) = cond x || any cond xs

find_loop-first :
    (h : Heap) (cond : ℕ → Bool) (start : Ptr) (cs : Cells) (fuel k : ℕ)
    → Links h start cs none
    → length cs < fuel
    → find_loop fuel h cond k (first_of cs none)
      ≡ some (k + before_first cond (elems cs), node_at cs (before_first cond (elems cs)))
unfolding find_loop
find_loop-first h cond start cs zero k l enough = absurd (omega arith)
find_loop-first h cond start [] (suc fuel) k l enough = let e : k + 0 ≡ k = omega arith in rw e refl
find_loop-first h cond start ((p, x) ∷ cs) (suc fuel) k (here, _, l) enough =
    elim (Bool-cases (cond x)) [
      | inl t ↦ let e : k + 0 ≡ k = omega arith in rw (here, t, e) refl
      | inr t ↦
          let e : k + suc (before_first cond (elems cs)) ≡ suc k + before_first cond (elems cs) =
            omega arith in
          rw (here, t, e) (find_loop-first h cond (some p) cs fuel (suc k) l (omega arith))
    ]

before_first-any :
    (cond : ℕ → Bool) (xs : List ℕ) → ltb (before_first cond xs) (length xs) ≡ any cond xs
before_first-any cond [] = refl
before_first-any cond (x ∷ xs) = elim (Bool-cases (cond x)) [
  | inl t ↦ rw t (ground arith)
  | inr t ↦ rw (t, ← before_first-any cond xs) (ground arith)
]

elem-any :
    (cond : ℕ → Bool) (xs : List ℕ)
    → All (λ x. x ≢ null) xs
    → not (elem_at xs (before_first cond xs) == null) ≡ any cond xs
elem-any cond [] full = refl
elem-any cond (x ∷ xs) (some_x, full) = elim (Bool-cases (cond x)) [
  | inl t ↦ let w : (x == 0) ≡ false = ground (arith, some_x) in rw (t, w) refl
  | inr t ↦ rw t (elem-any cond xs full)
]

module _ (h : Heap) (l : MList) (cs : Cells) (li : IsList h l cs) where
  found :
      (cond : ℕ → Bool)
      → find_loop (suc l.length) h cond 0 l.head
        ≡ some (before_first cond (elems cs), node_at cs (before_first cond (elems cs)))
  found cond =
      let e : 0 + before_first cond (elems cs) ≡ before_first cond (elems cs) = omega arith in
      rw
        (
          li.head,
          find_loop-first h cond none cs (suc l.length) 0 li.links (omega (arith, li.length)),
          e,
        )
        refl

  -- For a list and a condition: the search ends. mlist_find returns the first element that satisfies
  -- the condition, or NULL; mlist_index returns how many stand before it, or -1 where there is none.
  pub mlist_find-before_first :
      (cond : ℕ → Bool)
      → (mlist_find h l cond ≡ some (elem_at (elems cs) (before_first cond (elems cs))))
        × (mlist_index h l cond
            ≡ some (if any cond (elems cs) then pos (before_first cond (elems cs)) else negsuc 0))
  unfolding mlist_find mlist_index
  mlist_find-before_first cond = (
    rw (found cond) (get_elem-node_at h l cs li none cs (before_first cond (elems cs)) li.links),
    rw (found cond, li.length, ← length-elems cs, before_first-any cond (elems cs)) refl,
  )

  -- For a list: mlist_contains tells whether an element is in it. If no element is NULL, mlist_any and
  -- mlist_all tell whether some element, or each, satisfies the condition.
  pub mlist_any-any :
      ((x : ℕ) → mlist_contains h l x ≡ some (any (λ y. y == x) (elems cs)))
      × (All (λ x. x ≢ null) (elems cs)
          → (cond : ℕ → Bool)
          → (mlist_any h l cond ≡ some (any cond (elems cs)))
            × (mlist_all h l cond ≡ some (not (any (λ x. not (cond x)) (elems cs)))))
  unfolding mlist_contains mlist_any mlist_all
  mlist_any-any = (
    (λ x. elim (Bool-cases (any (λ y. y == x) (elems cs))) [
      | inl t ↦ rw ((mlist_find-before_first (λ y. y == x)).1, t) refl
      | inr t ↦ rw ((mlist_find-before_first (λ y. y == x)).1, t) refl
    ]),
    (λ full cond. (
      rw ((mlist_find-before_first cond).0, elem-any cond (elems cs) full) refl,
      rw
          (
            (mlist_find-before_first (λ x. not (cond x))).0,
            elem-any (λ x. not (cond x)) (elems cs) full,
          )
          refl,
    )),
  )
