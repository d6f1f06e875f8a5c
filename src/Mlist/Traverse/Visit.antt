-- ===== src/Mlist/Traverse/Visit.antt =====
-- What traverse_nodes of Common/mlist.c comes to, when the callbacks keep the list.
use esthe_r.Base.{take-length_le, take}
use esthe_r.Base.{
  ℕ, zero, suc, ◌≤◌, ◌<◌, ◌≡◌, refl, sym, ap, ◌∙◌, true, false, Option, none, some, List, [], ◌∷◌,
  ◌++◌, length, arith, append-nil, append_assoc, take,
}
use esthe_r.Mlist.Nodes.{Ptr, Node, Heap}
use esthe_r.Mlist.{MList}
use esthe_r.Base.{subst}
use esthe_r.Mlist.Links.{length-elems, Cells, Links, Links-back, IsList, elems, first_of, last_of}
use esthe_r.Mlist.Walk.{elem_at}
use esthe_r.Mlist.Traverse.{visit, traverse_loop, traverse_nodes}

pub elems-append : (xs ys : Cells) → elems (xs ++ ys) ≡ elems xs ++ elems ys
elems-append [] ys = refl
elems-append ((p, x) ∷ xs) ys = ap (◌∷◌ x) (elems-append xs ys)

-- The elements from the one before index `m` to the first.
abbrev downwards : List ℕ → ℕ → List ℕ
downwards xs zero = []
downwards xs (suc m) = elem_at xs m ∷ downwards xs m

abbrev pub reverse : List ℕ → List ℕ
reverse [] = []
reverse (x ∷ xs) = reverse xs ++ (x ∷ [])

downwards-cons :
    (x : ℕ) (xs : List ℕ) (m : ℕ) → downwards (x ∷ xs) (suc m) ≡ downwards xs m ++ (x ∷ [])
downwards-cons x xs zero = refl
downwards-cons x xs (suc m) = ap (◌∷◌ (elem_at xs m)) (downwards-cons x xs m)

downwards-reverse : (xs : List ℕ) → downwards xs (length xs) ≡ reverse xs
downwards-reverse [] = refl
downwards-reverse (x ∷ xs) =
    downwards-cons x xs (length xs) ∙ ap (λ ys. ys ++ (x ∷ [])) (downwards-reverse xs)

back_cell :
    (h : Heap) (start : Ptr) (cs : Cells) (m : ℕ)
    → Links h start cs none
    → m < length cs
    → (q : ℕ) × (n : Node) × (last_of start (take (suc m) cs) ≡ some q)
      × (h.cells q ≡ some n)
      × (n.prev ≡ last_of start (take m cs))
      × (n.elem ≡ elem_at (elems cs) m)
back_cell h start [] m l i = absurd (omega arith)
back_cell h start ((p, x) ∷ cs) zero (here, _, l) i = (p, _, refl, here, refl, refl)
back_cell h start ((p, x) ∷ cs) (suc m) (here, _, l) i = back_cell h (some p) cs m l (omega arith)

module _ {S : Type 0} (heap_of : S → Heap) (elem_fn : ℕ → S → Option S) (I : List ℕ → S → Type 0)
    (cs : Cells) (reads : (d : List ℕ) (s : S) → I d s → Links (heap_of s) none cs none)
    (step : (d : List ℕ) (x : ℕ) (s : S)
      → I d s
      → (s' : S) × (elem_fn x s ≡ some s') × I (d ++ (x ∷ [])) s') where
  loop_forward :
      (xs ys : Cells) (fuel : ℕ) (s : S)
      → cs ≡ xs ++ ys
      → length ys < fuel
      → I (elems xs) s
      → (s' : S) × (traverse_loop heap_of none (some elem_fn) none false fuel (first_of ys none) s
          ≡ some s')
        × I (elems cs) s'
  unfolding traverse_loop visit
  loop_forward xs ys zero s e enough i = absurd (omega arith)
  loop_forward xs [] (suc fuel) s e enough i = (s, refl, rw (e, append-nil xs) i)
  loop_forward xs ((p, x) ∷ ys) (suc fuel) s e enough i =
      let back =
        Links-back (heap_of s) none none xs ((p, x) ∷ ys) (rw e at (reads (elems xs) s i)) in
      let (s1, r, i1) = step (elems xs) x s i in
      let next : cs ≡ (xs ++ ((p, x) ∷ [])) ++ ys = e ∙ sym (append_assoc xs ((p, x) ∷ []) ys) in
      let i2 : I (elems (xs ++ ((p, x) ∷ []))) s1 = rw (elems-append xs ((p, x) ∷ [])) i1 in
      let (s2, r2, i3) = loop_forward (xs ++ ((p, x) ∷ [])) ys fuel s1 next (omega arith) i2 in
      rw (back.0, r) (s2, r2, i3)

  -- A traversal from the head runs the callback on each element, in order.
  pub traverse_forward :
      (h : Heap) (l : MList) (s : S)
      → IsList h l cs
      → I [] s
      → (s' : S) × (traverse_nodes heap_of none (some elem_fn) none false l s ≡ some s')
        × I (elems cs) s'
  unfolding traverse_nodes
  traverse_forward h l s li i =
      rw li.head (loop_forward [] cs (suc l.length) s refl (omega (arith, li.length)) i)

  loop_backward :
      (m : ℕ) (d : List ℕ) (fuel : ℕ) (s : S)
      → m ≤ length cs
      → m < fuel
      → I d s
      → (s' : S) × (traverse_loop heap_of none
            (some elem_fn)
            none
            true
            fuel
            (last_of none (take m cs))
            s
          ≡ some s')
        × I (d ++ downwards (elems cs) m) s'
  unfolding traverse_loop visit
  loop_backward m d zero s inside enough i = absurd (omega arith)
  loop_backward zero d (suc fuel) s inside enough i = (s, refl, rw (append-nil d) i)
  loop_backward (suc m) d (suc fuel) s inside enough i =
      let (q, n, last, here, prev, x) = back_cell (heap_of s) none cs m (reads d s i) inside in
      let (s1, r, i1) = step d (elem_at (elems cs) m) s i in
      let (s2, r2, i2) =
        loop_backward m (d ++ (elem_at (elems cs) m ∷ [])) fuel s1 (omega arith) (omega arith) i1 in
      rw (last, here, x, r, prev)
        (s2, r2, rw (append_assoc d (elem_at (elems cs) m ∷ []) (downwards (elems cs) m)) at i2)

  -- A traversal from the tail runs the callback on each element, in the opposite order.
  pub traverse_backward :
      (h : Heap) (l : MList) (s : S)
      → IsList h l cs
      → I [] s
      → (s' : S) × (traverse_nodes heap_of none (some elem_fn) none true l s ≡ some s')
        × I (reverse (elems cs)) s'
  unfolding traverse_nodes
  traverse_backward h l s li i =
      let all : last_of none cs ≡ last_of none (take (length cs) cs) =
        rw (take-length_le (length cs) cs (omega arith)) refl in
      let (s', r, i') =
        loop_backward (length cs) [] (suc l.length) s (omega arith) (omega (arith, li.length)) i in
      let whole : downwards (elems cs) (length cs) ≡ reverse (elems cs) =
        ap (downwards (elems cs)) (sym (length-elems cs)) ∙ downwards-reverse (elems cs) in
      rw (li.tail, all) (s', r, subst (λ xs. I xs s') whole i')
