-- ===== src/Mlist/Relink.antt =====
-- A pointer of one node of Common/mlist.c is changed: the other links stay.
use esthe_r.Base.{
  ℕ, ◌≡◌, refl, sym, true, false, Option, none, some, [], ◌∷◌, ◌==◌, if◌then◌else◌, arith,
  Bool-cases, inl, inr,
}
use esthe_r.Base.{subst, ==_iff}
use esthe_r.Mlist.Nodes.{Ptr, Node, Heap, write, set_next}
use esthe_r.Mlist.{relink_next, relink_prev}
use esthe_r.Mlist.Links.{Cells, has, first_of, last_of, node, Links, Keeps, IsFresh, frame-Keeps}

-- A change within `cs` that does not allocate.
abbrev pub Touches : Cells → Heap → Heap → Type 0
Touches cs h h' = Keeps cs h h' × (IsFresh h → IsFresh h') × (h'.limit ≡ h.limit)

-- The cell at `p` is another.
pub Touches-write :
    (h : Heap) (p : ℕ) (n : Node) (c : Option Node) (cs : Cells)
    → h.cells p ≡ some n
    → has p cs ≡ true
    → Touches cs h (write p c h)
Touches-write h p n c cs e i = (
  (λ q m o b. elim (Bool-cases (q == p)) [
    | inl t ↦
        let w : has q cs ≡ true = subst (λ a. has a cs ≡ true) (sym ((==_iff q p).0 t)) i in cc
    | inr t ↦ rw t b
  ]),
  (λ f q b. elim (Bool-cases (q == p)) [
    | inl t ↦
        let w : h.cells q ≡ some n = subst (λ a. h.cells a ≡ some n) (sym ((==_iff q p).0 t)) e in
        let z : h.cells q ≡ none = f q b in cc
    | inr t ↦ rw t (f q b)
  ]),
  refl,
)

-- The cell just written.
pub self : {A : Type 0} (p : ℕ) (x y : A) → (if p == p then x else y) ≡ x
self p x y = rw ((==_iff p p).1 refl) refl

pub not_same : (p q : ℕ) (cs : Cells) → has p cs ≡ false → has q cs ≡ true → (q == p) ≡ false
not_same p q cs out i = elim (Bool-cases (q == p)) [
  | inl t ↦ let w : has p cs ≡ true = subst (λ a. has a cs ≡ true) ((==_iff q p).0 t) i in cc
  | inr t ↦ t
]

pub last_some :
    (p x : ℕ) (cs : Cells) → (q : ℕ) × (last_of (some p) cs ≡ some q) × (has q ((p, x) ∷ cs) ≡ true)
last_some p x [] = (p, refl, ground arith)
last_some p x ((r, y) ∷ cs) = let (q, e, i) = last_some r y cs in (q, e, ground (arith, i))

pub set_next_last :
    (h : Heap) (start stop v : Ptr) (p x : ℕ) (cs : Cells)
    → Links h start ((p, x) ∷ cs) stop
    → (h' : Heap) × (set_next (last_of (some p) cs) v h ≡ some h')
      × Links h' start ((p, x) ∷ cs) v
      × Touches ((p, x) ∷ cs) h h'
set_next_last h start stop v p x [] (here, out, l) = rw here (
  _,
  refl,
  (self p _ _, refl, tt),
  Touches-write h p _ (some (node start v x)) ((p, x) ∷ []) here (ground arith),
)
set_next_last h start stop v p x ((q, y) ∷ cs) (here, out, l) =
    let (h', e, l', (keeps, fresh, limit)) = set_next_last h (some p) stop v q y cs l in
    (h', e, (keeps p _ out here, out, l'), ((λ a n i. keeps a n (ground (arith, i))), fresh, limit))

-- `if(last != NULL) last->next = v;`
pub relink_next_last :
    (h : Heap) (stop v : Ptr) (cs : Cells)
    → Links h none cs stop
    → (h' : Heap) × (relink_next (last_of none cs) v h ≡ some h')
      × Links h' none cs v
      × Touches cs h h'
unfolding relink_next
relink_next_last h stop v [] l = (h, refl, tt, ((λ q n i e. e), (λ f. f), refl))
relink_next_last h stop v ((p, x) ∷ cs) l =
    let (q, e, i) = last_some p x cs in
    let (h', set, l', t) = set_next_last h none stop v p x cs l in (h', rw e (rw e at set), l', t)

-- `if(first != NULL) first->prev = u;`
pub relink_prev_first :
    (h : Heap) (start u : Ptr) (cs : Cells)
    → Links h start cs none
    → (h' : Heap) × (relink_prev (first_of cs none) u h ≡ some h')
      × Links h' u cs none
      × Touches cs h h'
unfolding relink_prev
relink_prev_first h start u [] l = (h, refl, tt, ((λ q n i e. e), (λ f. f), refl))
relink_prev_first h start u ((p, x) ∷ cs) (here, out, l) =
    let c = some (node u (first_of cs none) x) in
    let t = Touches-write h p _ c ((p, x) ∷ cs) here (ground arith) in
    let (keeps, _, _) = Touches-write h p _ c ((p, x) ∷ []) here (ground arith) in
    let l' =
      frame-Keeps h (write p c h) (some p) none ((p, x) ∷ []) cs l
        (λ q i. rw (not_same p q cs out i) refl) keeps in
    rw here (_, refl, (self p _ _, out, l'), t)
