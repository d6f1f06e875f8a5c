-- ===== src/Mlist/Buffer.antt =====
-- A list of Common/mlist.c that is used from its ends: what a queue and a stack promise.
use esthe_r.Base.{
  ℕ, zero, suc, ◌≡◌, refl, sym, ap, ◌∙◌, false, Option, none, some, ◌>>=◌, List, [], ◌∷◌, ◌++◌,
  length, ◌==◌, arith, length-append,
}
use esthe_r.Base.Int.{negsuc}
use esthe_r.Mlist.Nodes.{Ptr, Heap}
use esthe_r.Mlist.{MList, null, mlist_pop, mlist_last, elem_of, before_end}
use esthe_r.Mlist.Links.{Cells, IsList, Links, last_of, elems, length-elems}
use esthe_r.Mlist.Walk.{elem_at, get_node-drop}
use esthe_r.Mlist.Remove.{mlist_pop-remove_at, remove_at}
use esthe_r.Mlist.Traverse.Visit.{reverse}

-- The elements of a list, from the last to the first.
unfoldable pub Holds : Heap → MList → List ℕ → Type 0
Holds h l xs = (cs : Cells) × IsList h l cs × (reverse (elems cs) ≡ xs)

pub reverse-last : (xs : List ℕ) (y : ℕ) → reverse (xs ++ (y ∷ [])) ≡ y ∷ reverse xs
reverse-last [] y = refl
reverse-last (x ∷ xs) y = ap (λ ys. ys ++ (x ∷ [])) (reverse-last xs y)

reverse-pop :
    (x : ℕ) (xs : List ℕ)
    → reverse (x ∷ xs) ≡ elem_at (x ∷ xs) (length xs) ∷ reverse (remove_at (x ∷ xs) (length xs))
reverse-pop x [] = refl
reverse-pop x (y ∷ xs) = ap (λ ys. ys ++ (x ∷ [])) (reverse-pop y xs)

-- The first of some elements, or NULL, and the others.
abbrev pub next : List ℕ → ℕ
next [] = null
next (x ∷ xs) = x

abbrev pub rest : List ℕ → List ℕ
rest [] = []
rest (x ∷ xs) = xs

pop_none :
    (h : Heap) (l : MList) (cs : Cells)
    → IsList h l cs
    → mlist_pop h l (negsuc 0) ≡ some (null, h, l)
unfolding mlist_pop
pop_none h l cs li = rw ((get_node-drop h l cs li).1 0) refl

-- The last element of a list is popped; of an empty list, none.
pub mlist_pop-Holds :
    (h : Heap) (l : MList) (xs : List ℕ)
    → Holds h l xs
    → (h' : Heap) × (l' : MList) × (mlist_pop h l (before_end l.length) ≡ some (next xs, h', l'))
      × Holds h' l' (rest xs)
unfolding Holds
mlist_pop-Holds h l xs ([], li, e) = (
  h,
  l,
  ap (λ n. mlist_pop h l (before_end n)) li.length
      ∙ pop_none h l [] li
      ∙ ap (λ ys. some (next ys, h, l)) e,
  ([], li, ap rest e),
)
mlist_pop-Holds h l xs ((p, x) ∷ cs, li, e) =
    let all = reverse-pop x (elems cs) in
    let (h', l', ds, r, li', less, _) =
      mlist_pop-remove_at h l ((p, x) ∷ cs) (length cs) li (omega arith) in
    let here : elem_at (x ∷ elems cs) (length cs) ≡ next xs =
      ap (elem_at (x ∷ elems cs)) (sym (length-elems cs)) ∙ sym (ap next all) ∙ ap next e in
    let left : reverse (elems ds) ≡ rest xs =
      ap reverse (less ∙ ap (remove_at (x ∷ elems cs)) (sym (length-elems cs)))
      ∙ sym (ap rest all)
      ∙ ap rest e in
    (
      h',
      l',
      ap (λ n. mlist_pop h l (before_end n)) li.length ∙ r ∙ ap (λ y. some (y, h', l')) here,
      (ds, li', left),
    )

next-reverse : (x y : ℕ) (xs : List ℕ) → next (reverse (y ∷ xs)) ≡ next (reverse (x ∷ y ∷ xs))
next-reverse x y xs =
    ap next (reverse-pop y xs) ∙ sym (ap (λ zs. next (zs ++ (x ∷ []))) (reverse-pop y xs))

last_elem :
    (h : Heap) (start : Ptr) (p x : ℕ) (cs : Cells)
    → Links h start ((p, x) ∷ cs) none
    → elem_of h (last_of (some p) cs) ≡ some (next (reverse (x ∷ elems cs)))
unfolding elem_of
last_elem h start p x [] (here, _, l) = rw here refl
last_elem h start p x ((q, y) ∷ cs) (here, _, l) =
    last_elem h (some p) q y cs l ∙ ap some (next-reverse x y (elems cs))

pub length-reverse : (xs : List ℕ) → length (reverse xs) ≡ length xs
length-reverse [] = refl
length-reverse (x ∷ xs) = omega (arith, length-append (reverse xs) (x ∷ []), length-reverse xs)

pub mlist_length-Holds : (h : Heap) (l : MList) (xs : List ℕ) → Holds h l xs → l.length ≡ length xs
unfolding Holds
mlist_length-Holds h l xs (cs, li, e) =
    li.length ∙ sym (length-elems cs) ∙ sym (length-reverse (elems cs)) ∙ ap length e

pub mlist_last-Holds :
    (h : Heap) (l : MList) (xs : List ℕ) → Holds h l xs → mlist_last h l ≡ some (next xs)
unfolding Holds mlist_last
mlist_last-Holds h l xs ([], li, e) = rw li.length (ap (λ ys. some (next ys)) e)
mlist_last-Holds h l xs ((p, x) ∷ cs, li, e) =
    let t : (l.length == 0) ≡ false = ground (arith, li.length) in
    rw (t, li.tail) (last_elem h none p x cs li.links ∙ ap (λ ys. some (next ys)) e)

-- A first in, first out or last in, first out discipline: how an element is put among those that wait,
-- and an implementation by a list.
pub record Discipline : Type 0 where
  pub put : ℕ → List ℕ → List ℕ
  pub push : Heap → MList → ℕ → Option (Heap × MList)
  pub pop : Heap → MList → Option (ℕ × Heap × MList)
  pub push_Holds :
      (h : Heap) (l : MList) (xs : List ℕ) (y : ℕ)
      → Holds h l xs
      → (h' : Heap) × (l' : MList) × (push h l y ≡ some (h', l')) × Holds h' l' (put y xs)
  pub pop_Holds :
      (h : Heap) (l : MList) (xs : List ℕ)
      → Holds h l xs
      → (h' : Heap) × (l' : MList) × (pop h l ≡ some (next xs, h', l')) × Holds h' l' (rest xs)

pub data Call : Type 0 where
  push : ℕ → Call
  pop : Call

-- The calls that push the elements, in order.
abbrev pub pushes : List ℕ → List Call
pushes [] = []
pushes (y ∷ ys) = push y ∷ pushes ys

abbrev pub pops : ℕ → List Call
pops zero = []
pops (suc n) = pop ∷ pops n

module _ (d : Discipline) where
  -- The calls one after the other, on the list: what the calls of pop return.
  unfoldable pub run : List Call → Heap → MList → Option (List ℕ × Heap × MList)
  run [] h l = some ([], h, l)
  run (push y ∷ calls) h l = do (h, l) ← d.push h l y; run calls h l
  run (pop ∷ calls) h l = do (x, h, l) ← d.pop h l; (ys, h, l) ← run calls h l; some (x ∷ ys, h, l)

  -- The same on the elements that wait.
  unfoldable pub replay : List Call → List ℕ → List ℕ × List ℕ
  replay [] xs = ([], xs)
  replay (push y ∷ calls) xs = replay calls (d.put y xs)
  replay (pop ∷ calls) xs = let (ys, zs) = replay calls (rest xs) in (next xs ∷ ys, zs)

  pub run-replay :
      (calls : List Call) (h : Heap) (l : MList) (xs : List ℕ)
      → Holds h l xs
      → (h' : Heap) × (l' : MList) × (run calls h l ≡ some ((replay calls xs).0, h', l'))
        × Holds h' l' (replay calls xs).1
  unfolding run replay
  run-replay [] h l xs held = (h, l, refl, held)
  run-replay (push y ∷ calls) h l xs held =
      let (h1, l1, e, held1) = d.push_Holds h l xs y held in
      let (h2, l2, r, held2) = run-replay calls h1 l1 (d.put y xs) held1 in (h2, l2, rw e r, held2)
  run-replay (pop ∷ calls) h l xs held =
      let (h1, l1, e, held1) = d.pop_Holds h l xs held in
      let (h2, l2, r, held2) = run-replay calls h1 l1 (rest xs) held1 in
      (h2, l2, rw (e, r) refl, held2)

  -- Where `put` waits behind the others, or before them.
  pub replay-pops : (xs : List ℕ) → replay (pops (length xs)) xs ≡ (xs, [])
  unfolding replay
  replay-pops [] = refl
  replay-pops (x ∷ xs) = rw (replay-pops xs) refl

  abbrev pub all_put : List ℕ → List ℕ → List ℕ
  all_put [] xs = xs
  all_put (y ∷ ys) xs = all_put ys (d.put y xs)

  pub replay-pushes :
      (ys xs : List ℕ) (calls : List Call)
      → replay (pushes ys ++ calls) xs ≡ replay calls (all_put ys xs)
  unfolding replay
  replay-pushes [] xs calls = refl
  replay-pushes (y ∷ ys) xs calls = replay-pushes ys (d.put y xs) calls
