-- ===== src/Mlist/Traverse/Clears.antt =====
-- mlist_clear of Common/mlist.c: every node is freed.
use esthe_r.Base.{
  ℕ, zero, suc, ◌<◌, ◌≡◌, refl, sym, ap, ◌∙◌, Bool, true, false, none, some, [], ◌∷◌, ◌++◌, length,
  ◌==◌, arith, Bool-cases, append-nil, inl, inr,
}
use esthe_r.Base.{subst, ==_iff}
use esthe_r.Mlist.Nodes.{Ptr, Node, Heap, write}
use esthe_r.Mlist.{MList, mlist_create, null}
use esthe_r.Mlist.Links.{Cells, has, Links, IsList, elems, first_of}
use esthe_r.Mlist.Remove.{freed}
use esthe_r.Mlist.Traverse.{
  Removing, destroyer, free_visited, traverse_nodes, traverse_loop, visit, mlist_clear,
}
use esthe_r.Mlist.Traverse.Removes.{given, given-cons, given_none}

-- The nodes of the list are freed, and no other.
abbrev pub Freed : Cells → Heap → Heap → Type 0
Freed cs h h' =
    (q : ℕ) → (has q cs ≡ true → h'.cells q ≡ none) × (has q cs ≡ false → h'.cells q ≡ h.cells q)

module _ (destroys : Bool) where
  visit_freed :
      (s : Removing) (p x : ℕ) (n : Node)
      → s.heap.cells p ≡ some n
      → visit
          (λ (s : Removing). s.heap)
          (some free_visited)
          (destroyer destroys)
          none
          false
          (some p)
          x
          s
        ≡ some (record s {
          heap = write p none s.heap;
          destroyed = s.destroyed ++ given destroys (x ∷ []);
        })
  unfolding visit free_visited
  visit_freed s p x n e = elim (Bool-cases destroys) [
    | inl d ↦ rw (d, e) refl
    | inr d ↦ rw (d, e, append-nil s.destroyed) refl
  ]

  frees :
      (start : Ptr) (cs : Cells) (fuel : ℕ) (s : Removing)
      → Links s.heap start cs none
      → length cs < fuel
      → (s' : Removing) × (traverse_loop
            (λ (s : Removing). s.heap)
            (some free_visited)
            (destroyer destroys)
            none
            false
            fuel
            (first_of cs none)
            s
          ≡ some s')
        × Freed cs s.heap s'.heap
        × (s'.destroyed ≡ s.destroyed ++ given destroys (elems cs))
  unfolding traverse_loop
  frees start cs zero s l enough = absurd (omega arith)
  frees start [] (suc fuel) s l enough = (
    s,
    refl,
    (λ q. ((λ t. absurd (ground (arith, t))), λ t. refl)),
    given_none destroys s.destroyed,
  )
  frees start ((p, x) ∷ cs) (suc fuel) s (here, out, l) enough =
      let (s', e, f, d) =
        frees (some p) cs fuel
          (record s {
            heap = write p none s.heap;
            destroyed = s.destroyed ++ given destroys (x ∷ []);
          })
          (freed s.heap (some p) none p x _ cs here out l) (omega arith) in
      (
        s',
        rw (here, visit_freed s p x _ here) e,
        (λ q. elim (Bool-cases (q == p)) [
          | inl t ↦
              let w : has q cs ≡ false =
                subst (λ a. has a cs ≡ false) (sym ((==_iff q p).0 t)) out in
              ((λ i. (f q).1 w ∙ rw t refl), λ o. absurd (ground (arith, o, t)))
          | inr t ↦ (
            (λ i. (f q).0 (ground (arith, t, i))),
            λ o. (f q).1 (ground (arith, t, o)) ∙ rw t refl,
          )
        ]),
        d ∙ given-cons destroys s.destroyed x (elems cs),
      )

  -- For a list: mlist_clear ends. It frees each node of the list and no other cell, leaves the list
  -- empty, and the destroyer, if there is one, is given each element once, in order.
  pub mlist_clear-Freed :
      (h : Heap) (l : MList) (cs : Cells)
      → IsList h l cs
      → (s : Removing) × (mlist_clear h l destroys ≡ some s)
        × Freed cs h s.heap
        × (s.list ≡ mlist_create)
        × (s.destroyed ≡ given destroys (elems cs))
  unfolding mlist_clear traverse_nodes
  mlist_clear-Freed h l cs li =
      let start : Removing = record { heap = h; list = l; elem = null; destroyed = [] } in
      let (s, e, f, d) = frees none cs (suc l.length) start li.links (omega (arith, li.length)) in
      let whole : traverse_loop (λ (s : Removing). s.heap) (some free_visited) (destroyer destroys)
            none false (suc l.length) l.head start
          ≡ some s =
        ap
          (λ p.
            traverse_loop (λ (s : Removing). s.heap) (some free_visited) (destroyer destroys) none
              false (suc l.length) p start)
          li.head
        ∙ e in
      (record s { list = mlist_create }, rw whole refl, f, refl, d)
