-- ===== src/Mlist/Links.antt =====
-- What the nodes of Common/mlist.c stand for: the addresses and elements of a list, in order.
use esthe_r.Base.{ap, suc, length, sym, ◌∙◌, ◌||◌, Bool-cases, inl, inr}
use esthe_r.Base.{length}
use esthe_r.Base.{
  ℕ, ◌≤◌, ◌≡◌, refl, Bool, true, false, ◌||◌, none, some, List, [], ◌∷◌, ◌++◌, ◌==◌, arith,
}
use esthe_r.Mlist.{MList}
use esthe_r.Mlist.Nodes.{read}
use esthe_r.Mlist.Nodes.{Ptr, Node, Heap}

abbrev pub Cells : Type 0
Cells = List (ℕ × ℕ)

abbrev pub has : ℕ → Cells → Bool
has q [] = false
has q ((p, x) ∷ cs) = (q == p) || has q cs

-- The first node of `cs`, or `stop`.
abbrev pub first_of : Cells → Ptr → Ptr
first_of [] stop = stop
first_of ((p, x) ∷ cs) stop = some p

-- The last node of `cs`, or `start`.
abbrev pub last_of : Ptr → Cells → Ptr
last_of start [] = start
last_of start ((p, x) ∷ cs) = last_of (some p) cs

abbrev pub node : Ptr → Ptr → ℕ → Node
node p n x = record { prev = p; next = n; elem = x }

-- The nodes `cs` are distinct, linked in both directions, behind `start` and before `stop`.
abbrev pub Links : Heap → Ptr → Cells → Ptr → Type 0
Links h start [] stop = Unit {0}
Links h start ((p, x) ∷ cs) stop =
    (h.cells p ≡ some (node start (first_of cs stop) x))
    × (has p cs ≡ false)
    × Links h (some p) cs stop

abbrev pub Disjoint : Cells → Cells → Type 0
Disjoint xs ys = (q : ℕ) → has q xs ≡ true → has q ys ≡ false

-- The nodes outside `cs` are in `h'` xs they are in `h`.
abbrev pub Keeps : Cells → Heap → Heap → Type 0
Keeps cs h h' = (q : ℕ) (n : Node) → has q cs ≡ false → h.cells q ≡ some n → h'.cells q ≡ some n

-- No address from the limit on is in use.
abbrev pub IsFresh : Heap → Type 0
IsFresh h = (q : ℕ) → h.limit ≤ q → h.cells q ≡ none

frame :
    (h h' : Heap) (start stop : Ptr) (cs : Cells)
    → Links h start cs stop
    → ((q : ℕ) (n : Node) → has q cs ≡ true → h.cells q ≡ some n → h'.cells q ≡ some n)
    → Links h' start cs stop
frame h h' start stop [] l same = tt
frame h h' start stop ((p, x) ∷ cs) (here, apart, l) same = (
  same p _ (ground arith) here,
  apart,
  frame h h' (some p) stop cs l (λ q n i. same q n (ground (arith, i))),
)

pub frame-Keeps :
    (h h' : Heap) (start stop : Ptr) (xs cs : Cells)
    → Links h start cs stop
    → Disjoint cs xs
    → Keeps xs h h'
    → Links h' start cs stop
frame-Keeps h h' start stop xs cs l apart keeps =
    frame h h' start stop cs l (λ q n i. keeps q n (apart q i))

pub has-append : (q : ℕ) (xs ys : Cells) → has q (xs ++ ys) ≡ (has q xs || has q ys)
has-append q [] ys = refl
has-append q ((p, x) ∷ xs) ys = ground (arith, has-append q xs ys)

either : (a b : Bool) → (a || b) ≡ false → (a ≡ false) × (b ≡ false)
either true b e = (cc, cc)
either false b e = (refl, e)

pub not-has-front : (q : ℕ) (xs ys : Cells) → has q (xs ++ ys) ≡ false → has q xs ≡ false
not-has-front q xs ys o = (either (has q xs) (has q ys) (sym (has-append q xs ys) ∙ o)).0

pub not-has-back : (q : ℕ) (xs ys : Cells) → has q (xs ++ ys) ≡ false → has q ys ≡ false
not-has-back q xs ys o = (either (has q xs) (has q ys) (sym (has-append q xs ys) ∙ o)).1

pub Disjoint-sym : (xs ys : Cells) → Disjoint xs ys → Disjoint ys xs
Disjoint-sym xs ys d q i = elim (Bool-cases (has q xs)) [
  | inl t ↦ let f : has q ys ≡ false = d q t in cc
  | inr t ↦ t
]

module _ (h : Heap) where
  pub Links-append :
      (start stop : Ptr) (xs ys : Cells)
      → Links h start xs (first_of ys stop)
      → Links h (last_of start xs) ys stop
      → Disjoint xs ys
      → Links h start (xs ++ ys) stop
  Links-append start stop [] ys l r apart = r
  Links-append start stop ((p, x) ∷ []) ys (here, _, _) r apart = (here, apart p (ground arith), r)
  Links-append start stop ((p, x) ∷ c ∷ xs) ys (here, out, l) r apart = (
    here,
    rw (has-append p (c ∷ xs) ys, out, apart p (ground arith)) refl,
    Links-append (some p) stop (c ∷ xs) ys l r (λ q i. apart q (ground (arith, i))),
  )

  pub Links-front :
      (start stop : Ptr) (xs ys : Cells)
      → Links h start (xs ++ ys) stop
      → Links h start xs (first_of ys stop)
  Links-front start stop [] ys l = tt
  Links-front start stop ((p, x) ∷ []) ys (here, out, l) = (here, refl, tt)
  Links-front start stop ((p, x) ∷ c ∷ xs) ys (here, out, l) =
      (here, ground (arith, out, has-append p (c ∷ xs) ys), Links-front (some p) stop (c ∷ xs) ys l)

  pub Links-back :
      (start stop : Ptr) (xs ys : Cells)
      → Links h start (xs ++ ys) stop
      → Links h (last_of start xs) ys stop
  Links-back start stop [] ys l = l
  Links-back start stop ((p, x) ∷ xs) ys (here, out, l) = Links-back (some p) stop xs ys l

  pub Links-Disjoint :
      (start stop : Ptr) (xs ys : Cells) → Links h start (xs ++ ys) stop → Disjoint xs ys
  Links-Disjoint start stop [] ys l q i = cc
  Links-Disjoint start stop ((p, x) ∷ xs) ys (here, out, l) q i = ground (
    arith,
    out,
    has-append p xs ys,
    has-append q xs ys,
    Links-Disjoint (some p) stop xs ys l q,
    i,
  )

  pub not-has_of_none :
      (start stop : Ptr) (q : ℕ) (cs : Cells)
      → Links h start cs stop
      → h.cells q ≡ none
      → has q cs ≡ false
  not-has_of_none start stop q [] l e = refl
  not-has_of_none start stop q ((p, x) ∷ cs) (here, out, l) e =
      ground (arith, here, e, not-has_of_none (some p) stop q cs l e)

-- The structure `l` and the nodes of `h` are the list `cs`.
pub record IsList (h : Heap) (l : MList) (cs : Cells) : Type 0 where
  pub links : Links h none cs none
  pub head : l.head ≡ first_of cs none
  pub tail : l.tail ≡ last_of none cs
  pub length : l.length ≡ length cs
  pub fresh : IsFresh h

-- The elements of a list.
abbrev pub elems : Cells → List ℕ
elems [] = []
elems ((p, x) ∷ cs) = x ∷ elems cs

pub length-elems : (cs : Cells) → length (elems cs) ≡ length cs
length-elems [] = refl
length-elems (c ∷ cs) = ap suc (length-elems cs)

pub last_cell :
    (h : Heap) (start stop : Ptr) (p x : ℕ) (cs : Cells)
    → Links h start ((p, x) ∷ cs) stop
    → (n : Node) × (read h (last_of (some p) cs) ≡ some n) × (n.next ≡ stop)
last_cell h start stop p x [] (here, out, l) = (_, here, refl)
last_cell h start stop p x (c ∷ cs) (here, out, l) = last_cell h (some p) stop c.0 c.1 cs l

pub last-append :
    (start : Ptr) (xs : Cells) (p x : ℕ) (ys : Cells)
    → last_of start (xs ++ ((p, x) ∷ ys)) ≡ last_of (some p) ys
last-append start [] p x ys = refl
last-append start ((q, y) ∷ xs) p x ys = last-append (some q) xs p x ys
