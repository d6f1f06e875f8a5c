-- ===== src/Queue/Fifo.antt =====
-- Common/queue.c: what is pushed first is popped first.
use esthe_r.Base.{
  ℕ, ◌≡◌, sym, ap, ◌∙◌, some, List, [], ◌∷◌, ◌++◌, length, ◌==◌, arith, append-nil, append_assoc,
}
use esthe_r.Mlist.Nodes.{Heap}
use esthe_r.Mlist.InsertAt.{mlist_insert-insert_at}
use esthe_r.Mlist.Traverse.Visit.{reverse}
use esthe_r.Mlist.Buffer.{
  Holds, next, mlist_pop-Holds, mlist_last-Holds, mlist_length-Holds, Discipline, Call, run, replay,
  run-replay, replay-pops, replay-pushes, all_put, pushes, pops,
}
use esthe_r.Queue.{Queue, queue_push, queue_pop, queue_next, queue_length, queue_empty}

-- What is pushed waits behind all others.
abbrev pub put_last : ℕ → List ℕ → List ℕ
put_last y xs = xs ++ (y ∷ [])

pub queue_push-Holds :
    (h : Heap) (q : Queue) (xs : List ℕ) (y : ℕ)
    → Holds h q xs
    → (h' : Heap) × (q' : Queue) × (queue_push h q y ≡ some (h', q')) × Holds h' q' (put_last y xs)
unfolding Holds
queue_push-Holds h q xs y (cs, li, e) =
    let (h', q', ds, r, li', more, _) = (mlist_insert-insert_at h q cs y li).0 0 (omega arith) in
    (h', q', r, (ds, li', ap reverse more ∙ ap (λ ys. ys ++ (y ∷ [])) e))

abbrev pub fifo : Discipline
fifo = record {
  put = put_last;
  push = queue_push;
  pop = queue_pop;
  push_Holds = queue_push-Holds;
  pop_Holds = mlist_pop-Holds;
}

-- For a queue and any calls of queue_push and queue_pop: each call ends, and what the pops return is
-- what they return on the list of the elements that wait, first in, first out, with NULL where none
-- waits; the queue then holds what is left of that list.
pub queue-replay :
    (calls : List Call) (h : Heap) (q : Queue) (xs : List ℕ)
    → Holds h q xs
    → (h' : Heap) × (q' : Queue) × (run fifo calls h q ≡ some ((replay fifo calls xs).0, h', q'))
      × Holds h' q' (replay fifo calls xs).1
queue-replay calls h q xs held = run-replay fifo calls h q xs held

-- For a queue: queue_next returns the element that waits longest, or NULL, queue_length how many wait,
-- and queue_empty whether none waits.
pub queue_next-next :
    (h : Heap) (q : Queue) (xs : List ℕ)
    → Holds h q xs
    → (queue_next h q ≡ some (next xs))
      × (queue_length q ≡ length xs)
      × (queue_empty q ≡ (length xs == 0))
queue_next-next h q xs held =
    let n = mlist_length-Holds h q xs held in (mlist_last-Holds h q xs held, n, ap (λ m. m == 0) n)

all_put-append : (ys xs : List ℕ) → all_put fifo ys xs ≡ xs ++ ys
all_put-append [] xs = sym (append-nil xs)
all_put-append (y ∷ ys) xs = all_put-append ys (put_last y xs) ∙ append_assoc xs (y ∷ []) ys

-- Elements that are pushed to an empty queue and then popped, as many times, come out in the order in
-- which they were pushed, and leave it empty.
pub queue-pops :
    (ys : List ℕ) (h : Heap) (q : Queue)
    → Holds h q []
    → (h' : Heap) × (q' : Queue) × (run fifo (pushes ys ++ pops (length ys)) h q
        ≡ some (ys, h', q'))
      × Holds h' q' []
queue-pops ys h q held =
    let (h', q', e, held') = run-replay fifo (pushes ys ++ pops (length ys)) h q [] held in
    let all =
      replay-pushes fifo ys [] (pops (length ys))
      ∙ ap (replay fifo (pops (length ys))) (all_put-append ys [])
      ∙ replay-pops fifo ys in
    (h', q', e ∙ ap (λ (r : List ℕ × List ℕ). some (r.0, h', q')) all, rw all at held')
