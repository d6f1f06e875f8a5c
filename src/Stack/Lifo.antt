-- ===== src/Stack/Lifo.antt =====
-- Common/stack.c: what is pushed last is popped first.
use esthe_r.Base.{
  ℕ, ◌≡◌, refl, sym, ap, ◌∙◌, some, List, [], ◌∷◌, ◌++◌, length, ◌==◌, append-nil, append_assoc,
}
use esthe_r.Mlist.Nodes.{Heap}
use esthe_r.Mlist.Links.{elems}
use esthe_r.Mlist.Insert.{mlist_append-IsList}
use esthe_r.Mlist.Traverse.Visit.{elems-append}
use esthe_r.Mlist.Traverse.Visit.{reverse}
use esthe_r.Mlist.Buffer.{
  Holds, length-reverse, reverse-last, next, mlist_pop-Holds, mlist_last-Holds, mlist_length-Holds,
  Discipline, Call, run, replay, run-replay, replay-pops, replay-pushes, all_put, pushes, pops,
}
use esthe_r.Stack.{Stack, stack_push, stack_pop, stack_top, stack_length, stack_empty}

-- What is pushed is on top of all others.
abbrev pub put_first : ℕ → List ℕ → List ℕ
put_first y xs = y ∷ xs

pub stack_push-Holds :
    (h : Heap) (s : Stack) (xs : List ℕ) (y : ℕ)
    → Holds h s xs
    → (h' : Heap) × (s' : Stack) × (stack_push h s y ≡ some (h', s')) × Holds h' s' (put_first y xs)
unfolding Holds
stack_push-Holds h s xs y (cs, li, e) =
    let (h', s', r, li', _) = mlist_append-IsList h s cs y li in
    (
      h',
      s',
      r,
      (
        cs ++ ((h.limit, y) ∷ []),
        li',
        ap reverse (elems-append cs ((h.limit, y) ∷ []))
            ∙ reverse-last (elems cs) y
            ∙ ap (put_first y) e,
      ),
    )

abbrev pub lifo : Discipline
lifo = record {
  put = put_first;
  push = stack_push;
  pop = stack_pop;
  push_Holds = stack_push-Holds;
  pop_Holds = mlist_pop-Holds;
}

-- For a stack and any calls of stack_push and stack_pop: each call ends, and what the pops return is
-- what they return on the list of the elements on it, last in, first out, with NULL where there is none; the stack then holds what is left of that list.
pub stack-replay :
    (calls : List Call) (h : Heap) (s : Stack) (xs : List ℕ)
    → Holds h s xs
    → (h' : Heap) × (s' : Stack) × (run lifo calls h s ≡ some ((replay lifo calls xs).0, h', s'))
      × Holds h' s' (replay lifo calls xs).1
stack-replay calls h s xs held = run-replay lifo calls h s xs held

-- For a stack: stack_top returns the element pushed last, or NULL, stack_length how many are on it,
-- and stack_empty whether none is.
pub stack_top-next :
    (h : Heap) (s : Stack) (xs : List ℕ)
    → Holds h s xs
    → (stack_top h s ≡ some (next xs))
      × (stack_length s ≡ length xs)
      × (stack_empty s ≡ (length xs == 0))
stack_top-next h s xs held =
    let n = mlist_length-Holds h s xs held in (mlist_last-Holds h s xs held, n, ap (λ m. m == 0) n)

all_put-reverse : (ys xs : List ℕ) → all_put lifo ys xs ≡ reverse ys ++ xs
all_put-reverse [] xs = refl
all_put-reverse (y ∷ ys) xs =
    all_put-reverse ys (put_first y xs) ∙ sym (append_assoc (reverse ys) (y ∷ []) xs)

-- Elements that are pushed to an empty stack and then popped, as many times, come out in the order opposite
-- to the one in which they were pushed, and leave it empty.
pub stack-pops :
    (ys : List ℕ) (h : Heap) (s : Stack)
    → Holds h s []
    → (h' : Heap) × (s' : Stack) × (run lifo (pushes ys ++ pops (length ys)) h s
        ≡ some (reverse ys, h', s'))
      × Holds h' s' []
stack-pops ys h s held =
    let (h', s', e, held') = run-replay lifo (pushes ys ++ pops (length ys)) h s [] held in
    let back : length (reverse ys) ≡ length ys = length-reverse ys in
    let all =
      replay-pushes lifo ys [] (pops (length ys))
      ∙ ap (replay lifo (pops (length ys))) (all_put-reverse ys [] ∙ append-nil (reverse ys))
      ∙ ap (λ n. replay lifo (pops n) (reverse ys)) (sym back)
      ∙ replay-pops lifo (reverse ys) in
    (h', s', e ∙ ap (λ (r : List ℕ × List ℕ). some (r.0, h', s')) all, rw all at held')
