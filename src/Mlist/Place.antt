-- ===== src/Mlist/Place.antt =====
-- A new node of Common/mlist.c in the heap.
use esthe_r.Base.{
  ℕ, suc, ◌≡◌, refl, ◌∙◌, false, Option, none, some, [], ◌==◌, arith, Bool-cases, inl, inr,
}
use esthe_r.Base.{subst, ==_iff}
use esthe_r.Mlist.Nodes.{Ptr, Node, Heap, write, malloc, update}
use esthe_r.Mlist.Links.{Cells, has, Links, Keeps, IsFresh, frame-Keeps, not-has_of_none}
use esthe_r.Mlist.Relink.{self}

-- `h'` is `h` with a node more, at the limit of `h`.
abbrev pub Placed : Heap → Heap → Node → Type 0
Placed h h' n =
    (h'.cells h.limit ≡ some n)
    × ((q : ℕ) → (q == h.limit) ≡ false → h'.cells q ≡ h.cells q)
    × (h'.limit ≡ suc h.limit)

pub Placed-malloc : (h : Heap) (n : Node) → Placed h (malloc n h).1 n
Placed-malloc h n = (self h.limit _ _, (λ q i. rw i refl), refl)

pub Placed-update :
    (h h' : Heap) (n m : Node) (f : Node → Option Node)
    → Placed h h' n
    → f n ≡ some m
    → (h'' : Heap) × (update f (some h.limit) h' ≡ some h'') × Placed h h'' m
Placed-update h h' n m f (here, others, limit) e =
    rw (here, e)
      (write h.limit (some m) h', refl, (self h.limit _ _, (λ q i. rw i (others q i)), limit))

module _ (h h' : Heap) (n : Node) (fresh : IsFresh h) (placed : Placed h h' n) where
  pub IsFresh-Placed : IsFresh h'
  IsFresh-Placed q i =
      let (_, others, limit) = placed in
      let apart : (q == h.limit) ≡ false = ground (arith, limit, i) in
      others q apart ∙ fresh q (omega (arith, limit))

  pub Keeps-Placed : (cs : Cells) → Keeps cs h h'
  Keeps-Placed cs q m i e = elim (Bool-cases (q == h.limit)) [
    | inl t ↦
        let w : h.cells h.limit ≡ some m =
          subst (λ a. h.cells a ≡ some m) ((==_iff q h.limit).0 t) e in
        let z : h.cells h.limit ≡ none = fresh h.limit (omega arith) in cc
    | inr t ↦ placed.1 q t ∙ e
  ]

  pub Links-Placed :
      (start stop : Ptr) (cs : Cells)
      → Links h start cs stop
      → Links h' start cs stop × (has h.limit cs ≡ false)
  Links-Placed start stop cs l = (
    frame-Keeps h h' start stop [] cs l (λ q i. refl) (Keeps-Placed []),
    not-has_of_none h start stop h.limit cs l (fresh h.limit (omega arith)),
  )
