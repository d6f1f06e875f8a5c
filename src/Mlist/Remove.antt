-- ===== src/Mlist/Remove.antt =====
-- Removal of a node from the lists of Common/mlist.c.
use esthe_r.Base.{
  ℕ, zero, suc, ◌-◌, ◌<◌, ◌≡◌, refl, ap, false, none, some, List, [], ◌∷◌, ◌++◌, length, ◌==◌,
  if◌then◌else◌, arith, append-nil, length-append,
}
use esthe_r.Base.Int.{pos}
use esthe_r.Base.{==_iff}
use esthe_r.Mlist.Nodes.{Ptr, Node, Heap, write, same_ptr}
use esthe_r.Mlist.{MList, remove_node, mlist_pop}
use esthe_r.Mlist.Links.{
  Cells, has, first_of, last_of, last-append, Links, Disjoint, Disjoint-sym, Keeps, frame-Keeps,
  IsList, Links-append, Links-front, Links-back, Links-Disjoint, not-has-front, not-has-back, elems,
}
use esthe_r.Mlist.Relink.{Touches-write, not_same, last_some, relink_next_last, relink_prev_first}
use esthe_r.Mlist.Walk.{elem_at, node_at, get_node-drop}

-- The nodes stay when another is freed.
pub freed :
    (h : Heap) (start stop : Ptr) (p x : ℕ) (n : Node) (cs : Cells)
    → h.cells p ≡ some n
    → has p cs ≡ false
    → Links h start cs stop
    → Links (write p none h) start cs stop
freed h start stop p x n cs e out l =
    frame-Keeps h (write p none h) start stop ((p, x) ∷ []) cs l
      (λ q i. rw (not_same p q cs out i) refl)
      (Touches-write h p n none ((p, x) ∷ []) e (ground arith)).0

new_head :
    (xs : Cells) (p x : ℕ) (ys : Cells)
    → has p xs ≡ false
    → (if same_ptr (some p) (first_of (xs ++ ((p, x) ∷ ys)) none)
        then first_of ys none
        else first_of (xs ++ ((p, x) ∷ ys)) none)
      ≡ first_of (xs ++ ys) none
new_head [] p x ys out = rw ((==_iff p p).1 refl) refl
new_head ((q, z) ∷ xs) p x ys out = let t : (p == q) ≡ false = ground (arith, out) in rw t refl

new_tail :
    (xs : Cells) (p x : ℕ) (ys : Cells)
    → has p ys ≡ false
    → (if same_ptr (some p) (last_of (some p) ys) then last_of none xs else last_of (some p) ys)
      ≡ last_of none (xs ++ ys)
new_tail xs p x [] out = rw ((==_iff p p).1 refl, append-nil xs) refl
new_tail xs p x ((r, y) ∷ ys) out =
    let (q, e, i) = last_some r y ys in
    let t : (q == p) ≡ false = not_same p q ((r, y) ∷ ys) out i in
    let u : (p == q) ≡ false = ground (arith, t) in rw (e, u, last-append none xs r y ys, e) refl

length-without : (xs ys : Cells) (p x : ℕ) → length (xs ++ ((p, x) ∷ ys)) - 1 ≡ length (xs ++ ys)
length-without xs ys p x = omega (arith, length-append xs ((p, x) ∷ ys), length-append xs ys)

module _ (h : Heap) (l : MList) (xs : Cells) (p x : ℕ) (ys : Cells) where
  -- For a list with a node at p: remove_node returns the element of that node and the list without
  -- it; the nodes of other lists are as they were.
  pub remove_node-IsList :
      IsList h l (xs ++ ((p, x) ∷ ys))
      → (h' : Heap) × (l' : MList) × (remove_node h l (some p) ≡ some (x, h', l'))
        × IsList h' l' (xs ++ ys)
        × Keeps (xs ++ ((p, x) ∷ ys)) h h'
  unfolding remove_node
  remove_node-IsList li =
      let before = last_of none xs in
      let behind = first_of ys none in
      let front = Links-front h none none xs ((p, x) ∷ ys) li.links in
      let back = Links-back h none none xs ((p, x) ∷ ys) li.links in
      let apart = Links-Disjoint h none none xs ((p, x) ∷ ys) li.links in
      let back_apart = Disjoint-sym xs ((p, x) ∷ ys) apart in
      let out_x : has p xs ≡ false = back_apart p (ground arith) in
      let (h1, e1, front1, (keeps1, fresh1, _)) = relink_next_last h (some p) behind xs front in
      let (here1, out_y, back1) =
        frame-Keeps h h1 before none xs ((p, x) ∷ ys) back back_apart keeps1 in
      let (h2, e2, back2, (keeps2, fresh2, _)) = relink_prev_first h1 (some p) before ys back1 in
      let sides : Disjoint xs ys = λ q i. not-has-back q ((p, x) ∷ []) ys (apart q i) in
      let front2 = frame-Keeps h1 h2 none behind ys xs front1 sides keeps2 in
      let here2 = keeps2 p _ out_y here1 in
      let (keeps3, fresh3, _) = Touches-write h2 p _ none ((p, x) ∷ []) here2 (ground arith) in
      let links =
        Links-append (write p none h2) none none xs ys
          (freed h2 none behind p x _ xs here2 out_x front2)
          (freed h2 before none p x _ ys here2 out_y back2) sides in
      (
        write p none h2,
        record {
          head = if same_ptr (some p) l.head then behind else l.head;
          tail = if same_ptr (some p) l.tail then before else l.tail;
          length = l.length - 1;
        },
        rw (back.0, e1, here1, e2, here2) refl,
        record {
          links = links;
          head = rw li.head (new_head xs p x ys out_x);
          tail = rw (li.tail, last-append none xs p x ys) (new_tail xs p x ys out_y);
          length = rw li.length (length-without xs ys p x);
          fresh = fresh3 (fresh2 (fresh1 li.fresh));
        },
        λ a n o e.
            (let o' = not-has-back a xs ((p, x) ∷ ys) o in
              keeps3 a n (not-has-front a ((p, x) ∷ []) ys o') (
                keeps2 a n (not-has-back a ((p, x) ∷ []) ys o')
                  (keeps1 a n (not-has-front a xs ((p, x) ∷ ys) o) e))),
      )

-- A list is cut in front of the node at an index, if there is one.
pub cut_at :
    (cs : Cells) (i : ℕ)
    → i < length cs
    → (xs : Cells) × (p : ℕ) × (x : ℕ) × (ys : Cells) × (cs ≡ xs ++ ((p, x) ∷ ys)) × (length xs ≡ i)
cut_at [] i m = absurd (omega arith)
cut_at ((p, x) ∷ cs) zero m = ([], p, x, cs, refl, refl)
cut_at ((q, z) ∷ cs) (suc i) m =
    let (xs, p, x, ys, e, n) = cut_at cs i (omega arith) in
    ((q, z) ∷ xs, p, x, ys, ap (◌∷◌ (q, z)) e, ap suc n)

pub node_at-cut :
    (xs : Cells) (p x : ℕ) (ys : Cells) → node_at (xs ++ ((p, x) ∷ ys)) (length xs) ≡ some p
node_at-cut [] p x ys = refl
node_at-cut (c ∷ xs) p x ys = node_at-cut xs p x ys

abbrev pub remove_at : List ℕ → ℕ → List ℕ
remove_at [] i = []
remove_at (x ∷ xs) zero = xs
remove_at (x ∷ xs) (suc i) = x ∷ remove_at xs i

elems-cut :
    (xs : Cells) (p x : ℕ) (ys : Cells)
    → (elem_at (elems (xs ++ ((p, x) ∷ ys))) (length xs) ≡ x)
      × (elems (xs ++ ys) ≡ remove_at (elems (xs ++ ((p, x) ∷ ys))) (length xs))
elems-cut [] p x ys = (refl, refl)
elems-cut ((q, z) ∷ xs) p x ys = let (e, f) = elems-cut xs p x ys in (e, ap (◌∷◌ z) f)

pop_cut :
    (h : Heap) (l : MList) (xs : Cells) (p x : ℕ) (ys : Cells)
    → IsList h l (xs ++ ((p, x) ∷ ys))
    → (h' : Heap) × (l' : MList) × (ds : Cells) × (mlist_pop h l (pos (length xs))
        ≡ some (elem_at (elems (xs ++ ((p, x) ∷ ys))) (length xs), h', l'))
      × IsList h' l' ds
      × (elems ds ≡ remove_at (elems (xs ++ ((p, x) ∷ ys))) (length xs))
      × Keeps (xs ++ ((p, x) ∷ ys)) h h'
unfolding mlist_pop
pop_cut h l xs p x ys li =
    let (h', l', r, li', keeps) = remove_node-IsList h l xs p x ys li in
    let (here, rest) = elems-cut xs p x ys in
    let found = (get_node-drop h l (xs ++ ((p, x) ∷ ys)) li).0 (length xs) in
    (h', l', xs ++ ys, rw (found, node_at-cut xs p x ys, r, here) refl, li', rest, keeps)

-- For a list and an index below its length: mlist_pop returns the element there and the list
-- without it; the nodes of other lists are as they were.
pub mlist_pop-remove_at :
    (h : Heap) (l : MList) (cs : Cells) (i : ℕ)
    → IsList h l cs
    → i < length cs
    → (h' : Heap) × (l' : MList) × (ds : Cells) × (mlist_pop h l (pos i)
        ≡ some (elem_at (elems cs) i, h', l'))
      × IsList h' l' ds
      × (elems ds ≡ remove_at (elems cs) i)
      × Keeps cs h h'
mlist_pop-remove_at h l cs i li m = go (cut_at cs i m)
  where
    go :
        (xs : Cells) × (p : ℕ) × (x : ℕ) × (ys : Cells) × (cs ≡ xs ++ ((p, x) ∷ ys))
          × (length xs ≡ i)
        → (h' : Heap) × (l' : MList) × (ds : Cells) × (mlist_pop h l (pos i)
            ≡ some (elem_at (elems cs) i, h', l'))
          × IsList h' l' ds
          × (elems ds ≡ remove_at (elems cs) i)
          × Keeps cs h h'
    go (xs, p, x, ys, e, n) = rw (e, ← n) (pop_cut h l xs p x ys (rw e at li))
