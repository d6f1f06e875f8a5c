-- ===== src/Mlist/Walk.antt =====
-- The walks to an index in Common/mlist.c, from either end.
use esthe_r.Base.{
  ℕ, zero, suc, ◌+◌, ◌≤◌, ◌<◌, ◌≡◌, refl, ap, ◌∙◌, none, some, List, [], ◌∷◌, length, ltb, leb,
  arith, Bool-cases, inl, inr, ◌/◌, take, drop,
}
use esthe_r.Base.Int.{pos, negsuc}
use esthe_r.Base.{take-length_le}
use esthe_r.Mlist.Nodes.{Ptr, Node, Heap, read}
use esthe_r.Mlist.{MList, walk_next, walk_prev, get_node, get_elem, elem_of, mlist_get, null}
use esthe_r.Mlist.Links.{Cells, first_of, last_of, Links, IsList, elems}

-- The node at an index, or NULL.
abbrev pub node_at : Cells → ℕ → Ptr
node_at cs i = first_of (drop i cs) none

-- The element at an index, or NULL.
abbrev pub elem_at : List ℕ → ℕ → ℕ
elem_at [] i = null
elem_at (x ∷ xs) zero = x
elem_at (x ∷ xs) (suc i) = elem_at xs i

walk_next-drop :
    (h : Heap) (start : Ptr) (cs : Cells) (i : ℕ)
    → Links h start cs none
    → i ≤ length cs
    → walk_next h i (first_of cs none) ≡ some (node_at cs i)
unfolding walk_next
walk_next-drop h start cs zero l m = refl
walk_next-drop h start [] (suc i) l m = absurd (omega arith)
walk_next-drop h start ((p, x) ∷ cs) (suc i) (here, _, l) m =
    rw here (walk_next-drop h (some p) cs i l (omega arith))

cell_before :
    (h : Heap) (start : Ptr) (cs : Cells) (m : ℕ)
    → Links h start cs none
    → m < length cs
    → (n : Node) × (read h (last_of start (take (suc m) cs)) ≡ some n)
      × (n.prev ≡ last_of start (take m cs))
cell_before h start [] m l i = absurd (omega arith)
cell_before h start ((p, x) ∷ cs) zero (here, _, l) i = (_, here, refl)
cell_before h start ((p, x) ∷ cs) (suc m) (here, _, l) i =
    cell_before h (some p) cs m l (omega arith)

walk_prev-take :
    (h : Heap) (cs : Cells) (i m fuel index : ℕ)
    → Links h none cs none
    → m + index ≡ length cs + i
    → m ≤ length cs
    → i < m
    → m < fuel + suc i
    → walk_prev h fuel index (length cs) (last_of none (take m cs))
      ≡ some (last_of none (take (suc i) cs))
unfolding walk_prev
walk_prev-take h cs i m zero index l e inside above enough = absurd (omega arith)
walk_prev-take h cs i zero (suc fuel) index l e inside above enough = absurd (omega arith)
walk_prev-take h cs i (suc m) (suc fuel) index l e inside above enough =
    elim (Bool-cases (ltb (suc index) (length cs))) [
      | inl t ↦
          let (n, here, back) = cell_before h none cs m l inside in
          rw (t, here, back)
            (walk_prev-take h cs i m fuel (suc index) l (omega (arith, e)) (omega arith)
              (ground (arith, e, t)) (omega arith))
      | inr t ↦ let w : m ≡ i = ground (arith, e, t) in rw (t, w) refl
    ]

last-take :
    (start : Ptr) (cs : Cells) (i : ℕ)
    → i < length cs
    → last_of start (take (suc i) cs) ≡ node_at cs i
last-take start [] i m = absurd (omega arith)
last-take start ((p, x) ∷ cs) zero m = refl
last-take start ((p, x) ∷ cs) (suc i) m = last-take (some p) cs i (omega arith)

drop_behind : (cs : Cells) (i : ℕ) → length cs ≤ i → drop i cs ≡ []
drop_behind [] zero m = refl
drop_behind [] (suc i) m = refl
drop_behind (c ∷ cs) zero m = absurd (omega arith)
drop_behind (c ∷ cs) (suc i) m = drop_behind cs i (omega arith)

module _ (h : Heap) (l : MList) (cs : Cells) (li : IsList h l cs) where
  -- For a list: the walk of get_node, from the nearer end, gives the node at the index, and NULL for
  -- an index that is negative or not below the length.
  pub get_node-drop :
      ((i : ℕ) → get_node h l (pos i) ≡ some (node_at cs i))
      × ((i : ℕ) → get_node h l (negsuc i) ≡ some none)
  unfolding get_node
  get_node-drop = (
    (λ i. elim (Bool-cases (leb l.length i)) [
      | inl t ↦ rw (t, drop_behind cs i (ground (arith, li.length, t))) refl
      | inr t ↦
          let below : i < length cs = ground (arith, li.length, t) in
          elim (Bool-cases (leb i (l.length / 2))) [
            | inl u ↦ rw (t, u, li.head) (walk_next-drop h none cs i li.links (omega arith))
            | inr u ↦
                let all : last_of none cs ≡ last_of none (take (length cs) cs) =
                  rw (take-length_le (length cs) cs (omega arith)) refl in
                rw (t, u, li.tail, li.length, all)
                  (walk_prev-take h cs i (length cs) (length cs) i li.links refl (omega arith) below
                      (omega arith)
                    ∙ ap some (last-take none cs i below))
          ]
    ]),
    (λ i. refl),
  )

  pub get_elem-node_at :
      (start : Ptr) (ds : Cells) (i : ℕ)
      → Links h start ds none
      → get_elem h (node_at ds i) ≡ some (elem_at (elems ds) i)
  unfolding get_elem elem_of
  get_elem-node_at start [] zero k = refl
  get_elem-node_at start [] (suc i) k = refl
  get_elem-node_at start ((p, x) ∷ ds) zero (here, _, k) = rw here refl
  get_elem-node_at start ((p, x) ∷ ds) (suc i) (here, _, k) = get_elem-node_at (some p) ds i k

  pub mlist_get-elem_at : (i : ℕ) → mlist_get h l (pos i) ≡ some (elem_at (elems cs) i)
  unfolding mlist_get
  mlist_get-elem_at i = rw (get_node-drop.0 i) (get_elem-node_at none cs i li.links)
