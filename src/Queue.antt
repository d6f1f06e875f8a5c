-- ===== src/Queue.antt =====
-- Common/queue.c: a queue is a list of Common/mlist.c; what was pushed first is its last element. The
-- structure that points to the list is left out. `clone` takes the copies that malloc gives.
pub mod Fifo
use esthe_r.Base.{ℕ, zero, suc, Bool, Option, some, ◌>>=◌, List}
use esthe_r.Base.Int.{ℤ, pos, negsuc}
use esthe_r.Mlist.Nodes.{Heap}
use esthe_r.Mlist.{
  MList, mlist_create, mlist_empty, mlist_length, mlist_last, mlist_insert, mlist_pop, before_end,
}
use esthe_r.Mlist.Traverse.{Cloning, Removing, mlist_copy, mlist_clone, mlist_clear, mlist_destroy}

abbrev pub Queue : Type 0
Queue = MList

abbrev pub queue_create : Queue
queue_create = mlist_create

abbrev pub queue_empty : Queue → Bool
queue_empty q = mlist_empty q

abbrev pub queue_length : Queue → ℕ
queue_length q = mlist_length q

abbrev pub queue_next : Heap → Queue → Option ℕ
queue_next h q = mlist_last h q

abbrev pub queue_copy : Heap → Queue → Option (Heap × Queue)
queue_copy h q = mlist_copy h q

abbrev pub queue_clone : Heap → Queue → List ℕ → Option Cloning
queue_clone h q supply = mlist_clone h q supply

abbrev pub queue_push : Heap → Queue → ℕ → Option (Heap × Queue)
queue_push h q element = mlist_insert h q (pos 0) element

abbrev pub queue_pop : Heap → Queue → Option (ℕ × Heap × Queue)
queue_pop h q = mlist_pop h q (before_end (queue_length q))

abbrev pub queue_clear : Heap → Queue → Bool → Option Removing
queue_clear h q destroys = mlist_clear h q destroys

abbrev pub queue_destroy : Heap → Queue → Bool → Option (Heap × List ℕ)
queue_destroy h q destroys = mlist_destroy h q destroys
