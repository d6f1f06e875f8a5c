-- ===== src/Mlist/InsertAt.antt =====
-- Insertion at an index in Common/mlist.c.
use esthe_r.Base.{
  ℕ, zero, suc, ◌≤◌, ◌<◌, ◌≡◌, refl, ap, true, false, none, some, List, [], ◌∷◌, ◌++◌, length, ltb,
  ◌==◌, if◌then◌else◌, arith, Bool-cases, inl, inr, length-append,
}
use esthe_r.Base.Int.{pos, negsuc}
use esthe_r.Mlist.Nodes.{Heap, malloc}
use esthe_r.Mlist.{MList, mlist_insert, create_node, mlist_append, get_node}
use esthe_r.Mlist.Links.{Cells, node, Keeps, IsList, elems}
use esthe_r.Mlist.Place.{Placed-malloc, IsFresh-Placed, Links-Placed}
use esthe_r.Mlist.Insert.{insert_before-IsList, mlist_append-IsList}
use esthe_r.Mlist.Walk.{get_node-drop}
use esthe_r.Mlist.Remove.{cut_at, node_at-cut}

abbrev pub insert_at : List ℕ → ℕ → ℕ → List ℕ
insert_at xs zero y = y ∷ xs
insert_at [] (suc i) y = []
insert_at (x ∷ xs) (suc i) y = x ∷ insert_at xs i y

elems-insert :
    (xs : Cells) (p x : ℕ) (ys : Cells) (q y : ℕ)
    → elems (xs ++ ((q, y) ∷ (p, x) ∷ ys)) ≡ insert_at (elems (xs ++ ((p, x) ∷ ys))) (length xs) y
elems-insert [] p x ys q y = refl
elems-insert ((r, z) ∷ xs) p x ys q y = ap (◌∷◌ z) (elems-insert xs p x ys q y)

elems-last :
    (cs : Cells) (q y : ℕ) → elems (cs ++ ((q, y) ∷ [])) ≡ insert_at (elems cs) (length cs) y
elems-last [] q y = refl
elems-last ((r, z) ∷ cs) q y = ap (◌∷◌ z) (elems-last cs q y)

base_found :
    (h : Heap) (l : MList) (xs : Cells) (p x : ℕ) (ys : Cells)
    → IsList h l (xs ++ ((p, x) ∷ ys))
    → (if length xs == 0 then some l.head else get_node h l (pos (length xs))) ≡ some (some p)
base_found h l [] p x ys li = ap some li.head
base_found h l (c ∷ xs) p x ys li =
    let t : (suc (length xs) == 0) ≡ false = ground arith in
    rw
      (
        t,
        (get_node-drop h l ((c ∷ xs) ++ ((p, x) ∷ ys)) li).0 (suc (length xs)),
        node_at-cut xs p x ys,
      )
      refl

insert_cut :
    (h : Heap) (l : MList) (xs : Cells) (p x : ℕ) (ys : Cells) (y : ℕ)
    → IsList h l (xs ++ ((p, x) ∷ ys))
    → (h' : Heap) × (l' : MList) × (ds : Cells) × (mlist_insert h l (pos (length xs)) y
        ≡ some (h', l'))
      × IsList h' l' ds
      × (elems ds ≡ insert_at (elems (xs ++ ((p, x) ∷ ys))) (length xs) y)
      × Keeps (xs ++ ((p, x) ∷ ys)) h h'
unfolding mlist_insert create_node mlist_append
insert_cut h l xs p x ys y li =
    let h1 : Heap = (malloc (node none none y) h).1 in
    let placed = Placed-malloc h (node none none y) in
    let li1 : IsList h1 l (xs ++ ((p, x) ∷ ys)) = record {
      links = (Links-Placed h h1 _ li.fresh placed none none (xs ++ ((p, x) ∷ ys)) li.links).0;
      head = li.head;
      tail = li.tail;
      length = li.length;
      fresh = IsFresh-Placed h h1 _ li.fresh placed;
    } in
    let (h', l', e, li', keeps) = insert_before-IsList h h1 l xs p x ys y li placed in
    let n = length-append xs ((p, x) ∷ ys) in
    let t : ltb l.length (length xs) ≡ false = rw (li.length, n) (ground arith) in
    let u : ltb (length xs) l.length ≡ true = rw (li.length, n) (ground arith) in
    (
      h',
      l',
      xs ++ ((h.limit, y) ∷ (p, x) ∷ ys),
      rw (t, u, base_found h1 l xs p x ys li1, e) refl,
      li',
      elems-insert xs p x ys h.limit y,
      keeps,
    )

-- For a list: at an index up to the length, mlist_insert returns the list with the element there, and
-- the nodes of other lists are as they were; at any other index it changes nothing.
pub mlist_insert-insert_at :
    (h : Heap) (l : MList) (cs : Cells) (y : ℕ)
    → IsList h l cs
    → ((i : ℕ)
        → i ≤ length cs
        → (h' : Heap) × (l' : MList) × (ds : Cells) × (mlist_insert h l (pos i) y ≡ some (h', l'))
          × IsList h' l' ds
          × (elems ds ≡ insert_at (elems cs) i y)
          × Keeps cs h h')
      × ((i : ℕ) → length cs < i → mlist_insert h l (pos i) y ≡ some (h, l))
      × ((i : ℕ) → mlist_insert h l (negsuc i) y ≡ some (h, l))
unfolding mlist_insert create_node mlist_append
mlist_insert-insert_at h l cs y li = (
  (λ i m. elim (Bool-cases (ltb i (length cs))) [
    | inl t ↦ go i (cut_at cs i (ground (arith, t)))
    | inr t ↦ at_end i (ground (arith, t, m)) (mlist_append-IsList h l cs y li)
  ]),
  (λ i m. let t : ltb l.length i ≡ true = rw li.length (ground arith) in rw t refl),
  (λ i. refl),
)
  where
    Result : ℕ → Type 0
    Result i =
        (h' : Heap) × (l' : MList) × (ds : Cells) × (mlist_insert h l (pos i) y ≡ some (h', l'))
        × IsList h' l' ds
        × (elems ds ≡ insert_at (elems cs) i y)
        × Keeps cs h h'

    go :
        (i : ℕ)
        → (xs : Cells) × (p : ℕ) × (x : ℕ) × (ys : Cells) × (cs ≡ xs ++ ((p, x) ∷ ys))
          × (length xs ≡ i)
        → Result i
    go i (xs, p, x, ys, e, n) = rw (e, ← n) (insert_cut h l xs p x ys y (rw e at li))

    at_end :
        (i : ℕ)
        → i ≡ length cs
        → (h' : Heap) × (l' : MList) × (mlist_append h l y ≡ some (h', l'))
          × IsList h' l' (cs ++ ((h.limit, y) ∷ []))
          × Keeps cs h h'
        → Result i
    at_end i e (h', l', a, li', keeps) =
        let t : ltb l.length i ≡ false = rw (li.length, e) (ground arith) in
        let u : ltb i l.length ≡ false = rw (li.length, e) (ground arith) in
        (h', l', cs ++ ((h.limit, y) ∷ []), rw (t, u) a, li', rw e (elems-last cs h.limit y), keeps)
