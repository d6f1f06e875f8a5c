-- ===== src/Mlist/Traverse/Appends.antt =====
-- The functions of Common/mlist.c that build a list while they traverse another.
use esthe_r.Base.{
  ℕ, ◌≡◌, refl, sym, ap, ◌∙◌, Bool, true, Option, none, some, List, [], ◌∷◌, ◌++◌, if◌then◌else◌,
  arith, Bool-cases, append-nil, append_assoc, map, ◌⊎◌, inl, inr,
}
use esthe_r.Mlist.Nodes.{Heap}
use esthe_r.Mlist.{MList, mlist_append, mlist_create}
use esthe_r.Mlist.Links.{Cells, has-append, Disjoint, IsList, elems, frame-Keeps, not-has_of_none}
use esthe_r.Mlist.Insert.{mlist_append-IsList}
use esthe_r.Mlist.Traverse.{
  Building, building_heap, append_to, append_if, append_image, mlist_traverse, traverse_nodes,
  mlist_extend, mlist_copy, mlist_reverse, mlist_filter, mlist_map,
}
use esthe_r.Mlist.Traverse.Visit.{elems-append, traverse_forward, traverse_backward, reverse}
use esthe_r.Mlist.Relink.{not_same}
use esthe_r.Commons.{filter}

-- Two lists in one heap, with no node in common.
abbrev pub Both : Heap → MList → Cells → MList → Cells → Type 0
Both h l cs l' ds = IsList h l cs × IsList h l' ds × Disjoint cs ds

append_apart :
    (h : Heap) (l : MList) (cs : Cells) (c : MList) (ds : Cells) (y : ℕ)
    → Both h l cs c ds
    → (h' : Heap) × (c' : MList) × (mlist_append h c y ≡ some (h', c'))
      × Both h' l cs c' (ds ++ ((h.limit, y) ∷ []))
append_apart h l cs c ds y (li, ci, apart) =
    let (h', c', e, ci', keeps) = mlist_append-IsList h c ds y ci in
    let new = not-has_of_none h none none h.limit cs li.links (li.fresh h.limit (omega arith)) in
    (
      h',
      c',
      e,
      (
        record {
          links = frame-Keeps h h' none none ds cs li.links apart keeps;
          head = li.head;
          tail = li.tail;
          length = li.length;
          fresh = ci'.fresh;
        },
        ci',
        λ q i.
            rw (has-append q ds ((h.limit, y) ∷ []), apart q i, not_same h.limit q cs new i) refl,
      ),
    )

-- The elements that are appended, given those for each element.
abbrev outs : (ℕ → List ℕ) → List ℕ → List ℕ
outs out [] = []
outs out (x ∷ xs) = out x ++ outs out xs

outs-append :
    (out : ℕ → List ℕ) (xs : List ℕ) (x : ℕ) → outs out (xs ++ (x ∷ [])) ≡ outs out xs ++ out x
outs-append out [] x = append-nil (out x)
outs-append out (y ∷ xs) x =
    ap (λ ys. out y ++ ys) (outs-append out xs x) ∙ sym (append_assoc (out y) (outs out xs) (out x))

-- What a callback does: it appends one element, or nothing.
abbrev Appending : (ℕ → Building → Option Building) → (ℕ → List ℕ) → Type 0
Appending f out =
    (x : ℕ) (s : Building)
    → ((y : ℕ) × (f x s ≡ append_to y s) × (out x ≡ y ∷ [])) ⊎ ((f x s ≡ some s) × (out x ≡ []))

module _ (f : ℕ → Building → Option Building) (out : ℕ → List ℕ) (good : Appending f out)
    (l : MList) (cs ds : Cells) where
  -- The lists after the callback has run on the elements `d`.
  Built : List ℕ → Building → Type 0
  Built d (h, c) = (es : Cells) × Both h l cs c es × (elems es ≡ elems ds ++ outs out d)

  Built-IsList : (d : List ℕ) (s : Building) → Built d s → IsList (building_heap s) l cs
  unfolding Built
  Built-IsList d (h, c) (es, both, e) = both.0

  built :
      (d : List ℕ) (x : ℕ) (s : Building)
      → Built d s
      → (s' : Building) × (f x s ≡ some s') × Built (d ++ (x ∷ [])) s'
  unfolding Built
  built d x (h, c) (es, both, e) = elim (good x (h, c)) [
    | inl (y, r, o) ↦
        let (h', c', a, both') = append_apart h l cs c es y both in
        (
          (h', c'),
          r ∙ a,
          (
            es ++ ((h.limit, y) ∷ []),
            both',
            rw (elems-append es ((h.limit, y) ∷ []), e, outs-append out d x, o, append_assoc) refl,
          ),
        )
    | inr (r, o) ↦ ((h, c), r, (es, both, rw (outs-append out d x, o, append-nil) e))
  ]

  appends_forward :
      (h : Heap) (c : MList)
      → Both h l cs c ds
      → (h' : Heap) × (c' : MList) × (es : Cells) × (mlist_traverse building_heap l f (h, c)
          ≡ some (h', c'))
        × Both h' l cs c' es
        × (elems es ≡ elems ds ++ outs out (elems cs))
  unfolding mlist_traverse Built
  appends_forward h c both =
      let ((h', c'), r, (es, both', e)) =
        traverse_forward building_heap f Built cs (λ d s b. (Built-IsList d s b).links) built h l
          (h, c) both.0 (ds, both, sym (append-nil (elems ds))) in
      (h', c', es, r, both', e)

  appends_backward :
      (h : Heap) (c : MList)
      → Both h l cs c ds
      → (h' : Heap) × (c' : MList) × (es : Cells) × (traverse_nodes building_heap none
            (some f)
            none
            true
            l
            (h, c)
          ≡ some (h', c'))
        × Both h' l cs c' es
        × (elems es ≡ elems ds ++ outs out (reverse (elems cs)))
  unfolding Built
  appends_backward h c both =
      let ((h', c'), r, (es, both', e)) =
        traverse_backward building_heap f Built cs (λ d s b. (Built-IsList d s b).links) built h l
          (h, c) both.0 (ds, both, sym (append-nil (elems ds))) in
      (h', c', es, r, both', e)

append_to-Appending : Appending append_to (λ x. x ∷ [])
append_to-Appending x s = inl (x, refl, refl)

outs-id : (xs : List ℕ) → outs (λ x. x ∷ []) xs ≡ xs
outs-id [] = refl
outs-id (x ∷ xs) = ap (λ ys. x ∷ ys) (outs-id xs)

outs-map : (g : ℕ → ℕ) (xs : List ℕ) → outs (λ x. g x ∷ []) xs ≡ map g xs
outs-map g [] = refl
outs-map g (x ∷ xs) = ap (λ ys. g x ∷ ys) (outs-map g xs)

abbrev kept : (ℕ → Bool) → ℕ → List ℕ
kept condition x = if condition x then x ∷ [] else []

outs-filter : (condition : ℕ → Bool) (xs : List ℕ) → outs (kept condition) xs ≡ filter condition xs
outs-filter condition [] = refl
outs-filter condition (x ∷ xs) = elim (Bool-cases (condition x)) [
  | inl t ↦ rw (t, outs-filter condition xs) refl
  | inr t ↦ rw (t, outs-filter condition xs) refl
]

append_if-Appending : (condition : ℕ → Bool) → Appending (append_if condition) (kept condition)
append_if-Appending condition x s = elim (Bool-cases (condition x)) [
  | inl t ↦ inl (x, rw t refl, rw t refl)
  | inr t ↦ inr (rw t refl, rw t refl)
]

-- An empty list shares no node with another.
alone : (h : Heap) (l : MList) (cs : Cells) → IsList h l cs → Both h l cs mlist_create []
alone h l cs li = (
  li,
  record { links = tt; head = refl; tail = refl; length = refl; fresh = li.fresh },
  λ q i. refl,
)

-- A new list beside `l`, that holds `ys`, and `l` as it was.
pub Beside : MList → Cells → List ℕ → Option (Heap × MList) → Type 0
Beside l cs ys r =
    (h' : Heap) × (c' : MList) × (es : Cells) × (r ≡ some (h', c'))
    × Both h' l cs c' es
    × (elems es ≡ ys)

-- mlist_copy gives a list of other nodes with the same elements, and leaves the list it copies.
pub mlist_copy-Beside :
    (h : Heap) (l : MList) (cs : Cells) → IsList h l cs → Beside l cs (elems cs) (mlist_copy h l)
unfolding mlist_copy Beside
mlist_copy-Beside h l cs li =
    let (h', c', es, r, both, e) =
      appends_forward append_to (λ x. x ∷ []) append_to-Appending l cs [] h mlist_create
        (alone h l cs li) in
    (h', c', es, r, both, e ∙ outs-id (elems cs))

-- mlist_filter gives a new list of the elements for which the condition holds, in order, and leaves
-- the list it filters.
pub mlist_filter-filter :
    (h : Heap) (l : MList) (cs : Cells) (condition : ℕ → Bool)
    → IsList h l cs
    → Beside l cs (filter condition (elems cs)) (mlist_filter h l condition)
unfolding mlist_filter Beside
mlist_filter-filter h l cs condition li =
    let (h', c', es, r, both, e) =
      appends_forward (append_if condition) (kept condition) (append_if-Appending condition) l cs []
        h mlist_create (alone h l cs li) in
    (h', c', es, r, both, e ∙ outs-filter condition (elems cs))

-- mlist_map gives a new list of the images of the elements, in order, and leaves the list it reads.
pub mlist_map-map :
    (h : Heap) (l : MList) (cs : Cells) (mapper : ℕ → ℕ)
    → IsList h l cs
    → Beside l cs (map mapper (elems cs)) (mlist_map h l mapper)
unfolding mlist_map Beside
mlist_map-map h l cs mapper li =
    let (h', c', es, r, both, e) =
      appends_forward (append_image mapper) (λ x. mapper x ∷ []) (λ x s. inl (mapper x, refl, refl))
        l cs [] h mlist_create (alone h l cs li) in
    (h', c', es, r, both, e ∙ outs-map mapper (elems cs))

-- mlist_reverse gives a new list of the elements in the opposite order, and leaves the list it reads.
pub mlist_reverse-reverse :
    (h : Heap) (l : MList) (cs : Cells)
    → IsList h l cs
    → Beside l cs (reverse (elems cs)) (mlist_reverse h l)
unfolding mlist_reverse Beside
mlist_reverse-reverse h l cs li =
    let (h', c', es, r, both, e) =
      appends_backward append_to (λ x. x ∷ []) append_to-Appending l cs [] h mlist_create
        (alone h l cs li) in
    (h', c', es, r, both, e ∙ outs-id (reverse (elems cs)))

-- mlist_extend puts the elements of the other list behind those of the first, and leaves the other list
-- as it was, when the two have no node in common.
pub mlist_extend-Beside :
    (h : Heap) (l other : MList) (cs ds : Cells)
    → Both h other ds l cs
    → Beside other ds (elems cs ++ elems ds) (mlist_extend h l other)
unfolding mlist_extend Beside
mlist_extend-Beside h l other cs ds both =
    let (h', c', es, r, both', e) =
      appends_forward append_to (λ x. x ∷ []) append_to-Appending other ds cs h l both in
    (h', c', es, r, both', e ∙ ap (λ ys. elems cs ++ ys) (outs-id (elems ds)))
