-- ===== src/Tests/MlistRuns.antt =====
-- The theorems on lists, queues and stacks at a list of three nodes.
use esthe_r.Base.{
  ℕ, ◌≤◌, ◌<◌, ◌≡◌, refl, true, false, none, some, [], ◌∷◌, ◌==◌, if◌then◌else◌, arith,
}
use esthe_r.Base.Int.{pos, negsuc}
use esthe_r.Mlist.Nodes.{Heap}
use esthe_r.Mlist.{MList, mlist_create, mlist_insert}
use esthe_r.Mlist.Links.{Cells, IsList, Keeps, elems, node}
use esthe_r.Mlist.InsertAt.{insert_at, mlist_insert-insert_at}
use esthe_r.Mlist.Traverse.{Removing, mlist_remove, mlist_clear, mlist_reverse}
use esthe_r.Mlist.Traverse.Appends.{Beside, mlist_reverse-reverse}
use esthe_r.Mlist.Traverse.Removes.{mlist_remove-filter}
use esthe_r.Mlist.Traverse.Clears.{mlist_clear-Freed, Freed}
use esthe_r.Mlist.Buffer.{Holds, push, pop, run, replay}
use esthe_r.Queue.{Queue}
use esthe_r.Queue.Fifo.{fifo, queue-replay}

abbrev cells : Cells
cells = (0, 7) ∷ (1, 0) ∷ (2, 9) ∷ []

abbrev memory : Heap
memory = record {
  cells = λ q.
      if q == 0
      then some (node none (some 1) 7)
      else if q == 1
      then some (node (some 0) (some 2) 0)
      else if q == 2
      then some (node (some 1) none 9)
      else none;
  limit = 3;
}

abbrev list : MList
list = record { head = some 0; tail = some 2; length = 3 }

list-IsList : IsList memory list cells
list-IsList = record {
  links = (refl, refl, (refl, refl, (refl, refl, tt)));
  head = refl;
  tail = refl;
  length = refl;
  fresh = λ q m.
      let a : (q == 0) ≡ false = ground (arith, m) in
      let b : (q == 1) ≡ false = ground (arith, m) in
      let c : (q == 2) ≡ false = ground (arith, m) in rw (a, b, c) refl;
}

list-Holds : Holds memory list (9 ∷ 0 ∷ 7 ∷ [])
unfolding Holds
list-Holds = (cells, list-IsList, refl)

blank : Heap
blank = record { cells = λ q. none; limit = 0 }

blank-Holds : Holds blank mlist_create []
unfolding Holds blank
blank-Holds =
    ([], record { links = tt; head = refl; tail = refl; length = refl; fresh = λ q m. refl }, refl)

mlist_remove-filter_example :
    (s : Removing) × (ds : Cells) × (mlist_remove memory list (λ x. x == 0) true ≡ some s)
    × IsList s.heap s.list ds
    × (elems ds ≡ 7 ∷ 9 ∷ [])
    × (s.elem ≡ 0)
    × (s.destroyed ≡ 0 ∷ [])
mlist_remove-filter_example = mlist_remove-filter (λ x. x == 0) true memory list cells list-IsList

mlist_clear-Freed_example :
    (s : Removing) × (mlist_clear memory list true ≡ some s)
    × Freed cells memory s.heap
    × (s.list ≡ mlist_create)
    × (s.destroyed ≡ 7 ∷ 0 ∷ 9 ∷ [])
mlist_clear-Freed_example = mlist_clear-Freed true memory list cells list-IsList

mlist_insert-insert_at_example :
    ((i : ℕ)
      → i ≤ 3
      → (h' : Heap) × (l' : MList) × (ds : Cells) × (mlist_insert memory list (pos i) 5
          ≡ some (h', l'))
        × IsList h' l' ds
        × (elems ds ≡ insert_at (7 ∷ 0 ∷ 9 ∷ []) i 5)
        × Keeps cells memory h')
    × ((i : ℕ) → 3 < i → mlist_insert memory list (pos i) 5 ≡ some (memory, list))
    × ((i : ℕ) → mlist_insert memory list (negsuc i) 5 ≡ some (memory, list))
mlist_insert-insert_at_example = mlist_insert-insert_at memory list cells 5 list-IsList

mlist_reverse-reverse_example : Beside list cells (9 ∷ 0 ∷ 7 ∷ []) (mlist_reverse memory list)
mlist_reverse-reverse_example = mlist_reverse-reverse memory list cells list-IsList

queue-replay_example :
    (h' : Heap) × (q' : Queue) × (run fifo (pop ∷ push 4 ∷ pop ∷ pop ∷ pop ∷ pop ∷ []) memory list
      ≡ some (9 ∷ 0 ∷ 7 ∷ 4 ∷ 0 ∷ [], h', q'))
    × Holds h' q' []
unfolding replay
queue-replay_example =
    queue-replay (pop ∷ push 4 ∷ pop ∷ pop ∷ pop ∷ pop ∷ []) memory list (9 ∷ 0 ∷ 7 ∷ []) list-Holds
