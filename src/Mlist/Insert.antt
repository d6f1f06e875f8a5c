-- ===== src/Mlist/Insert.antt =====
-- Insertion into the lists of Common/mlist.c.
use esthe_r.Base.{
  ℕ, suc, ◌≡◌, refl, sym, ap, ◌∙◌, true, false, none, some, ◌>>=◌, [], ◌∷◌, ◌++◌, length, ◌==◌,
  arith, Bool-cases, inl, inr, length-append,
}
use esthe_r.Base.{subst, ==_iff}
use esthe_r.Mlist.Nodes.{Ptr, Heap, malloc, set_next}
use esthe_r.Mlist.{MList, create_node, insert_after, insert_before, mlist_append, relink_prev}
use esthe_r.Mlist.Links.{
  Cells, has, first_of, last_of, node, Links, Disjoint, Keeps, IsFresh, frame-Keeps, IsList,
  Links-append, last_cell, last-append, Disjoint-sym, not-has-front, not-has-back, Links-front,
  Links-back, Links-Disjoint, not-has_of_none,
}
use esthe_r.Mlist.Place.{
  Placed, Placed-malloc, Placed-update, IsFresh-Placed, Keeps-Placed, Links-Placed,
}
use esthe_r.Mlist.Relink.{self, not_same, last_some, set_next_last, relink_prev_first}

new_apart :
    (r y q : ℕ) (cs : Cells) → has r cs ≡ false → has q cs ≡ true → has q ((r, y) ∷ []) ≡ false
new_apart r y q cs out i = rw (not_same r q cs out i) refl

-- A new node behind the last one.
insert_last :
    (h h1 : Heap) (l : MList) (p x : ℕ) (cs : Cells) (y : ℕ)
    → IsList h l ((p, x) ∷ cs)
    → Placed h h1 (node none none y)
    → (h' : Heap) × (insert_after h1 l l.tail (some h.limit)
        ≡ some (h', record l { tail = some h.limit; length = suc l.length }))
      × Links h' none (((p, x) ∷ cs) ++ ((h.limit, y) ∷ [])) none
      × IsFresh h'
      × Keeps ((p, x) ∷ cs) h h'
unfolding insert_after
insert_last h h1 l p x cs y li placed =
    let (q, last, i) = last_some p x cs in
    let (h2, e2, p2) =
      Placed-update h h1 _ (node none none y) (λ n. some (record n { next = none })) placed refl in
    let (h3, e3, p3) =
      Placed-update h h2 _ (node (some q) none y) (λ n. some (record n { prev = some q })) p2
        refl in
    let (l3, out) = Links-Placed h h3 _ li.fresh p3 none none ((p, x) ∷ cs) li.links in
    let (h4, e4, l4, (keeps, fresh, limit)) = set_next_last h3 none none (some h.limit) p x cs l3 in
    let (n, read_q, next) = last_cell h none none p x cs li.links in
    let t : (l.length == 0) ≡ false = ground (arith, li.length) in
    let here : h4.cells h.limit ≡ some (node (some q) none y) = keeps h.limit _ out p3.0 in
    let read_b : h1.cells q ≡ some n =
      Keeps-Placed h h1 _ li.fresh placed [] q n refl (rw last at read_q) in
    let behind : Links h4 (last_of none ((p, x) ∷ cs)) ((h.limit, y) ∷ []) none =
      rw last (here, refl, tt) in
    let apart =
      λ (a : ℕ) (m : has a ((p, x) ∷ cs) ≡ true). new_apart h.limit y a ((p, x) ∷ cs) out m in
    (
      h4,
      (rw (t, li.tail, last, read_b, next, e2, e3, (rw last at e4), here) refl),
      Links-append h4 none none ((p, x) ∷ cs) ((h.limit, y) ∷ []) l4 behind apart,
      fresh (IsFresh-Placed h h3 _ li.fresh p3),
      λ a m o e. keeps a m o (Keeps-Placed h h3 _ li.fresh p3 [] a m refl e),
    )

insert_empty :
    (h : Heap) (l : MList) (base new : Ptr)
    → l.length ≡ 0
    → insert_after h l base new ≡ some (h, record { head = new; tail = new; length = suc l.length })
unfolding insert_after
insert_empty h l base new e = let t : (l.length == 0) ≡ true = ground (arith, e) in rw t refl

-- For a list: mlist_append returns, and the list has one element more at its end; the other nodes of
-- the heap are as they were.
pub mlist_append-IsList :
    (h : Heap) (l : MList) (cs : Cells) (y : ℕ)
    → IsList h l cs
    → (h' : Heap) × (l' : MList) × (mlist_append h l y ≡ some (h', l'))
      × IsList h' l' (cs ++ ((h.limit, y) ∷ []))
      × Keeps cs h h'
unfolding mlist_append create_node
mlist_append-IsList h l [] y li = (
  (malloc (node none none y) h).1,
  record { head = some h.limit; tail = some h.limit; length = suc l.length },
  insert_empty _ l _ _ li.length,
  record {
    links = (self h.limit _ _, refl, tt);
    head = refl;
    tail = refl;
    length = ap suc li.length;
    fresh = IsFresh-Placed h _ _ li.fresh (Placed-malloc h _);
  },
  Keeps-Placed h _ _ li.fresh (Placed-malloc h _) [],
)
mlist_append-IsList h l ((p, x) ∷ cs) y li =
    let (h', e, links, fresh, keeps) = insert_last h _ l p x cs y li (Placed-malloc h _) in
    (
      h',
      record l { tail = some h.limit; length = suc l.length },
      e,
      record {
        links = links;
        head = li.head;
        tail = sym (last-append (some p) cs h.limit y []);
        length = omega (arith, li.length, length-append cs ((h.limit, y) ∷ []));
        fresh = fresh;
      },
      keeps,
    )

not_empty :
    (l : MList) (xs : Cells) (p x : ℕ) (ys : Cells)
    → l.length ≡ length (xs ++ ((p, x) ∷ ys))
    → (l.length == 0) ≡ false
not_empty l xs p x ys e = ground (arith, e, length-append xs ((p, x) ∷ ys))

Disjoint-cons :
    (q z : ℕ) (ys xs : Cells) → has q xs ≡ false → Disjoint ys xs → Disjoint ((q, z) ∷ ys) xs
Disjoint-cons q z ys xs out d a i = elim (Bool-cases (a == q)) [
  | inl t ↦ subst (λ b. has b xs ≡ false) (sym ((==_iff a q).0 t)) out
  | inr t ↦ d a (rw t at i)
]

length-insert :
    (xs ys : Cells) (p x q y : ℕ)
    → length (xs ++ ((q, y) ∷ (p, x) ∷ ys)) ≡ suc (length (xs ++ ((p, x) ∷ ys)))
length-insert xs ys p x q y =
    omega (arith, length-append xs ((q, y) ∷ (p, x) ∷ ys), length-append xs ((p, x) ∷ ys))

-- The heap before the last step of insert_before, with the new node linked to both sides.
prepared :
    (h h1 : Heap) (l : MList) (xs : Cells) (p x : ℕ) (ys : Cells) (y : ℕ)
    → IsList h l (xs ++ ((p, x) ∷ ys))
    → Placed h h1 (node none none y)
    → (h' : Heap) × (insert_before h1 l (some p) (some h.limit) ≡ elim (last_of none xs) [
      | some q ↦
          (set_next (some q) (some h.limit) h' >>= λ h''.
          some (h'', record l { length = suc l.length }))
      | none ↦ some (h', record l { head = some h.limit; length = suc l.length })
    ])
      × Links h' none xs (some p)
      × Links h' (last_of none xs) ((h.limit, y) ∷ (p, x) ∷ ys) none
      × IsFresh h'
      × Keeps (xs ++ ((p, x) ∷ ys)) h h'
unfolding insert_before relink_prev
prepared h h1 l xs p x ys y li placed =
    let front = Links-front h none none xs ((p, x) ∷ ys) li.links in
    let back = Links-back h none none xs ((p, x) ∷ ys) li.links in
    let apart = Links-Disjoint h none none xs ((p, x) ∷ ys) li.links in
    let before = last_of none xs in
    let (h2, e2, p2) =
      Placed-update h h1 _ (node before none y) (λ n. some (record n { prev = before })) placed
        refl in
    let (h3, e3, p3) =
      Placed-update h h2 _ (node before (some p) y) (λ n. some (record n { next = some p })) p2
        refl in
    let (front3, out_x) = Links-Placed h h3 _ li.fresh p3 none (some p) xs front in
    let (back3, out_y) = Links-Placed h h3 _ li.fresh p3 before none ((p, x) ∷ ys) back in
    let (h4, e4, back4, (keeps, fresh, limit)) =
      relink_prev_first h3 before (some h.limit) ((p, x) ∷ ys) back3 in
    let t = not_empty l xs p x ys li.length in
    let here : h4.cells h.limit ≡ some (node before (some p) y) = keeps h.limit _ out_y p3.0 in
    let read_b : h1.cells p ≡ some (node before (first_of ys none) x) =
      Keeps-Placed h h1 _ li.fresh placed [] p _ refl back.0 in
    (
      h4,
      (rw (t, read_b, e2, e3, e4, here) refl),
      frame-Keeps h3 h4 none (some p) ((p, x) ∷ ys) xs front3 apart keeps,
      (here, out_y, back4),
      fresh (IsFresh-Placed h h3 _ li.fresh p3),
      λ a m o e.
          keeps a m (not-has-back a xs ((p, x) ∷ ys) o)
            (Keeps-Placed h h3 _ li.fresh p3 [] a m refl e),
    )

pub insert_before-IsList :
    (h h1 : Heap) (l : MList) (xs : Cells) (p x : ℕ) (ys : Cells) (y : ℕ)
    → IsList h l (xs ++ ((p, x) ∷ ys))
    → Placed h h1 (node none none y)
    → (h' : Heap) × (l' : MList) × (insert_before h1 l (some p) (some h.limit) ≡ some (h', l'))
      × IsList h' l' (xs ++ ((h.limit, y) ∷ (p, x) ∷ ys))
      × Keeps (xs ++ ((p, x) ∷ ys)) h h'
insert_before-IsList h h1 l [] p x ys y li placed =
    let (h', e, _, links, fresh, keeps) = prepared h h1 l [] p x ys y li placed in
    (
      h',
      record l { head = some h.limit; length = suc l.length },
      e,
      record {
        links = links;
        head = refl;
        tail = li.tail;
        length = ap suc li.length;
        fresh = fresh;
      },
      keeps,
    )
insert_before-IsList h h1 l ((r, z) ∷ xs) p x ys y li placed =
    let (q, last, i) = last_some r z xs in
    let (h', e, front, back, fresh, keeps) = prepared h h1 l ((r, z) ∷ xs) p x ys y li placed in
    let (h2, e2, front2, (keeps2, fresh2, _)) =
      set_next_last h' none (some p) (some h.limit) r z xs front in
    let out = not-has-front h.limit ((r, z) ∷ xs) ((p, x) ∷ ys) (
      not-has_of_none h none none h.limit (((r, z) ∷ xs) ++ ((p, x) ∷ ys)) li.links
        (li.fresh h.limit (omega arith))) in
    let apart : Disjoint ((h.limit, y) ∷ (p, x) ∷ ys) ((r, z) ∷ xs) =
      Disjoint-cons h.limit y ((p, x) ∷ ys) ((r, z) ∷ xs) out (
        Disjoint-sym ((r, z) ∷ xs) ((p, x) ∷ ys)
          (Links-Disjoint h none none ((r, z) ∷ xs) ((p, x) ∷ ys) li.links)) in
    let back2 =
      frame-Keeps h' h2 _ none ((r, z) ∷ xs) ((h.limit, y) ∷ (p, x) ∷ ys) back apart keeps2 in
    (
      h2,
      record l { length = suc l.length },
      rw (e, last, (rw last at e2)) refl,
      record {
        links =
            Links-append h2 none none ((r, z) ∷ xs) ((h.limit, y) ∷ (p, x) ∷ ys) front2 back2
              (Disjoint-sym ((h.limit, y) ∷ (p, x) ∷ ys) ((r, z) ∷ xs) apart);
        head = li.head;
        tail =
            li.tail
            ∙ last-append none ((r, z) ∷ xs) p x ys
            ∙ sym (last-append none ((r, z) ∷ xs) h.limit y ((p, x) ∷ ys));
        length = ap suc li.length ∙ sym (length-insert ((r, z) ∷ xs) ys p x h.limit y);
        fresh = fresh2 fresh;
      },
      λ a m o e. keeps2 a m (not-has-front a ((r, z) ∷ xs) ((p, x) ∷ ys) o) (keeps a m o e),
    )
