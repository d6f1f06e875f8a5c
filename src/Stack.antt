-- ===== src/Stack.antt =====
-- Common/stack.c: a stack is a list of Common/mlist.c, whose last element is the top. The
-- structure that points to the list is left out. `clone` takes the copies that malloc gives.
pub mod Lifo
use esthe_r.Base.{ℕ, zero, suc, Bool, Option, some, ◌>>=◌, List}
use esthe_r.Base.Int.{ℤ, pos, negsuc}
use esthe_r.Mlist.Nodes.{Heap}
use esthe_r.Mlist.{
  MList, mlist_create, mlist_empty, mlist_length, mlist_last, mlist_append, mlist_pop, before_end,
}
use esthe_r.Mlist.Traverse.{Cloning, Removing, mlist_copy, mlist_clone, mlist_clear, mlist_destroy}

abbrev pub Stack : Type 0
Stack = MList

abbrev pub stack_create : Stack
stack_create = mlist_create

abbrev pub stack_empty : Stack → Bool
stack_empty s = mlist_empty s

abbrev pub stack_length : Stack → ℕ
stack_length s = mlist_length s

abbrev pub stack_top : Heap → Stack → Option ℕ
stack_top h s = mlist_last h s

abbrev pub stack_copy : Heap → Stack → Option (Heap × Stack)
stack_copy h s = mlist_copy h s

abbrev pub stack_clone : Heap → Stack → List ℕ → Option Cloning
stack_clone h s supply = mlist_clone h s supply

abbrev pub stack_push : Heap → Stack → ℕ → Option (Heap × Stack)
stack_push h s element = mlist_append h s element

abbrev pub stack_pop : Heap → Stack → Option (ℕ × Heap × Stack)
stack_pop h s = mlist_pop h s (before_end (stack_length s))

abbrev pub stack_clear : Heap → Stack → Bool → Option Removing
stack_clear h s destroys = mlist_clear h s destroys

abbrev pub stack_destroy : Heap → Stack → Bool → Option (Heap × List ℕ)
stack_destroy h s destroys = mlist_destroy h s destroys
