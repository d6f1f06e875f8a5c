-- ===== src/Mlist/Traverse/Removes.antt =====
-- The functions of Common/mlist.c that remove or count nodes while they traverse the list.
use esthe_r.Base.{
  ℕ, zero, suc, ◌+◌, ◌<◌, ◌≡◌, refl, sym, ap, ◌∙◌, Bool, true, false, none, some, List, [], ◌∷◌,
  ◌++◌, length, if◌then◌else◌, arith, Bool-cases, append-nil, append_assoc, inl, inr, not,
}
use esthe_r.Mlist.Nodes.{Ptr, Heap}
use esthe_r.Mlist.{MList, null, remove_node}
use esthe_r.Mlist.Links.{Cells, Links, IsList, elems, first_of, Links-back}
use esthe_r.Mlist.Remove.{remove_node-IsList}
use esthe_r.Mlist.Traverse.{
  Removing, destroyer, remove_visited, count_node, traverse_nodes, traverse_loop, visit,
  mlist_remove, mlist_count,
}
use esthe_r.Commons.{filter}

-- The nodes that stay.
abbrev pub remaining : (ℕ → Bool) → Cells → Cells
remaining cond [] = []
remaining cond ((p, x) ∷ cs) = if cond x then remaining cond cs else (p, x) ∷ remaining cond cs

-- The last element for which the condition holds.
abbrev pub last_match : (ℕ → Bool) → List ℕ → ℕ → ℕ
last_match cond [] found = found
last_match cond (x ∷ xs) found = last_match cond xs (if cond x then x else found)

-- What the destroyer is given.
abbrev pub given : Bool → List ℕ → List ℕ
given true xs = xs
given false xs = []

pub given-cons :
    (destroys : Bool) (before : List ℕ) (x : ℕ) (xs : List ℕ)
    → (before ++ given destroys (x ∷ [])) ++ given destroys xs ≡ before ++ given destroys (x ∷ xs)
given-cons true before x xs = append_assoc before (x ∷ []) xs
given-cons false before x xs = rw (append-nil before, append-nil before) refl

pub given_none : (destroys : Bool) (before : List ℕ) → before ≡ before ++ given destroys []
given_none true before = sym (append-nil before)
given_none false before = sym (append-nil before)

elems-remaining :
    (cond : ℕ → Bool) (cs : Cells)
    → elems (remaining cond cs) ≡ filter (λ x. not (cond x)) (elems cs)
elems-remaining cond [] = refl
elems-remaining cond ((p, x) ∷ cs) = elim (Bool-cases (cond x)) [
  | inl t ↦ rw (t, elems-remaining cond cs) refl
  | inr t ↦ rw (t, elems-remaining cond cs) refl
]

module _ (cond : ℕ → Bool) (destroys : Bool) where
  visit_removed :
      (s : Removing) (p x : ℕ) (h' : Heap) (l' : MList)
      → cond x ≡ true
      → remove_node s.heap s.list (some p) ≡ some (x, h', l')
      → visit
          (λ (s : Removing). s.heap)
          (some remove_visited)
          (destroyer destroys)
          (some cond)
          false
          (some p)
          x
          s
        ≡ some (record {
          heap = h';
          list = l';
          elem = x;
          destroyed = s.destroyed ++ given destroys (x ∷ []);
        })
  unfolding visit remove_visited
  visit_removed s p x h' l' t r = elim (Bool-cases destroys) [
    | inl d ↦ rw (t, d, r) refl
    | inr d ↦ rw (t, d, r, append-nil s.destroyed) refl
  ]

  visit_kept :
      (s : Removing) (p x : ℕ)
      → cond x ≡ false
      → visit
          (λ (s : Removing). s.heap)
          (some remove_visited)
          (destroyer destroys)
          (some cond)
          false
          (some p)
          x
          s
        ≡ some s
  unfolding visit
  visit_kept s p x t = rw t refl

  removes :
      (ks ys : Cells) (fuel : ℕ) (s : Removing)
      → IsList s.heap s.list (ks ++ ys)
      → length ys < fuel
      → (s' : Removing) × (traverse_loop
            (λ (s : Removing). s.heap)
            (some remove_visited)
            (destroyer destroys)
            (some cond)
            false
            fuel
            (first_of ys none)
            s
          ≡ some s')
        × IsList s'.heap s'.list (ks ++ remaining cond ys)
        × (s'.elem ≡ last_match cond (elems ys) s.elem)
        × (s'.destroyed ≡ s.destroyed ++ given destroys (filter cond (elems ys)))
  unfolding traverse_loop
  removes ks ys zero s li enough = absurd (omega arith)
  removes ks [] (suc fuel) s li enough = (s, refl, li, refl, given_none destroys s.destroyed)
  removes ks ((p, x) ∷ ys) (suc fuel) s li enough =
      let back = Links-back s.heap none none ks ((p, x) ∷ ys) li.links in
      elim (Bool-cases (cond x)) [
        | inl t ↦
            let (h', l', r, li', keeps) = remove_node-IsList s.heap s.list ks p x ys li in
            let (s', e, li2, m, d) =
              removes ks ys fuel
                (record {
                  heap = h';
                  list = l';
                  elem = x;
                  destroyed = s.destroyed ++ given destroys (x ∷ []);
                })
                li' (omega arith) in
            (
              s',
              rw (back.0, visit_removed s p x h' l' t r) e,
              rw t li2,
              m ∙ ap (λ b. last_match cond (elems ys) (if b then x else s.elem)) (sym t),
              rw t (d ∙ given-cons destroys s.destroyed x (filter cond (elems ys))),
            )
        | inr t ↦
            let li' : IsList s.heap s.list ((ks ++ ((p, x) ∷ [])) ++ ys) =
              rw (append_assoc ks ((p, x) ∷ []) ys) li in
            let (s', e, li2, m, d) = removes (ks ++ ((p, x) ∷ [])) ys fuel s li' (omega arith) in
            (
              s',
              rw (back.0, visit_kept s p x t) e,
              rw (t, ← append_assoc ks ((p, x) ∷ []) (remaining cond ys)) li2,
              m ∙ ap (λ b. last_match cond (elems ys) (if b then x else s.elem)) (sym t),
              rw t d,
            )
      ]

  -- For a list: mlist_remove ends with the list of the elements for which the condition does not hold,
  -- in order. It returns the last element that it removed, or NULL, and the destroyer, if there is
  -- one, is given each removed element once, in order.
  pub mlist_remove-filter :
      (h : Heap) (l : MList) (cs : Cells)
      → IsList h l cs
      → (s : Removing) × (ds : Cells) × (mlist_remove h l cond destroys ≡ some s)
        × IsList s.heap s.list ds
        × (elems ds ≡ filter (λ x. not (cond x)) (elems cs))
        × (s.elem ≡ last_match cond (elems cs) null)
        × (s.destroyed ≡ given destroys (filter cond (elems cs)))
  unfolding mlist_remove traverse_nodes
  mlist_remove-filter h l cs li =
      let start : Removing = record { heap = h; list = l; elem = null; destroyed = [] } in
      let (s, e, li', m, d) = removes [] cs (suc l.length) start li (omega (arith, li.length)) in
      (
        s,
        remaining cond cs,
        ap
              (λ p.
                traverse_loop (λ (s : Removing). s.heap) (some remove_visited) (destroyer destroys)
                  (some cond) false (suc l.length) p start)
              li.head
            ∙ e,
        li',
        elems-remaining cond cs,
        m,
        d,
      )

  counts :
      (start : Ptr) (h : Heap) (cs : Cells) (fuel n : ℕ)
      → Links h start cs none
      → length cs < fuel
      → traverse_loop
          (λ (s : Heap × ℕ). s.0)
          (some count_node)
          none
          (some cond)
          false
          fuel
          (first_of cs none)
          (h, n)
        ≡ some (h, n + length (filter cond (elems cs)))
  unfolding traverse_loop visit
  counts start h cs zero n l enough = absurd (omega arith)
  counts start h [] (suc fuel) n l enough = ap (λ m. some (h, m)) (omega arith)
  counts start h ((p, x) ∷ cs) (suc fuel) n (here, out, l) enough = elim (Bool-cases (cond x)) [
    | inl t ↦
        rw (here, t)
          (counts (some p) h cs fuel (suc n) l (omega arith) ∙ ap (λ m. some (h, m)) (omega arith))
    | inr t ↦ rw (here, t) (counts (some p) h cs fuel n l (omega arith))
  ]

  -- For a list: mlist_count returns how many elements satisfy the condition.
  pub mlist_count-length :
      (h : Heap) (l : MList) (cs : Cells)
      → IsList h l cs
      → mlist_count h l cond ≡ some (length (filter cond (elems cs)))
  unfolding mlist_count traverse_nodes
  mlist_count-length h l cs li =
      rw (li.head, counts none h cs (suc l.length) 0 li.links (omega (arith, li.length)))
        (ap some (omega arith))
