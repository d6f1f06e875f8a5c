-- ===== src/Mlist/Traverse.antt =====
-- Common/mlist.c: traverse_nodes and the functions that run it. A callback is a step on a state of its
-- own, in which the heap is; NULL for a callback is `none`. What a destroyer does to an element is not
-- modelled, only for which elements it is called. A list is not traversed by a callback that changes
-- the same list, but for those of this file.
pub mod Visit
pub mod Appends
pub mod Removes
pub mod Clears
use esthe_r.Base.{
  ℕ, zero, suc, ◌+◌, Bool, true, false, Option, none, some, ◌>>=◌, List, [], ◌∷◌, ◌++◌,
}
use esthe_r.Base.{if◌then◌else◌}
use esthe_r.Mlist.Nodes.{Ptr, Heap, read, free}
use esthe_r.Mlist.{MList, null, mlist_create, mlist_append, remove_node}

abbrev pub passes : Option (ℕ → Bool) → ℕ → Bool
passes none x = true
passes (some cond) x = cond x

module _ {S : Type 0} where
  abbrev pub call : {A : Type 0} → Option (A → S → Option S) → A → S → Option S
  call none a s = some s
  call (some f) a s = f a s

  module _ (heap_of : S → Heap) (node_fn : Option (Ptr → S → Option S))
      (elem_fn : Option (ℕ → S → Option S)) (cond : Option (ℕ → Bool)) (reversed : Bool) where
    unfoldable pub visit : Ptr → ℕ → S → Option S
    visit node x s =
        if passes cond x then (call elem_fn x s >>= λ s'. call node_fn node s') else some s

    unfoldable pub traverse_loop : ℕ → Ptr → S → Option S
    traverse_loop zero current s = none
    traverse_loop (suc fuel) none s = some s
    traverse_loop (suc fuel) (some p) s = do
      n ← read (heap_of s) (some p)
      s' ← visit (some p) n.elem s
      traverse_loop fuel (if reversed then n.prev else n.next) s'

    unfoldable pub traverse_nodes : MList → S → Option S
    traverse_nodes l s = traverse_loop (suc l.length) (if reversed then l.tail else l.head) s

unfoldable pub mlist_traverse :
    {S : Type 0} → (S → Heap) → MList → (ℕ → S → Option S) → S → Option S
mlist_traverse heap_of l routine s = traverse_nodes heap_of none (some routine) none false l s

-- A list that a callback builds, in the heap.
abbrev pub Building : Type 0
Building = Heap × MList

abbrev pub building_heap : Building → Heap
building_heap (h, l) = h

abbrev pub append_to : ℕ → Building → Option Building
append_to x (h, l) = mlist_append h l x

-- For two lists that are not the same.
unfoldable pub mlist_extend : Heap → MList → MList → Option (Heap × MList)
mlist_extend h l other = mlist_traverse building_heap other append_to (h, l)

unfoldable pub mlist_copy : Heap → MList → Option (Heap × MList)
mlist_copy h l = mlist_traverse building_heap l append_to (h, mlist_create)

unfoldable pub mlist_reverse : Heap → MList → Option (Heap × MList)
mlist_reverse h l = traverse_nodes building_heap none (some append_to) none true l (h, mlist_create)

abbrev pub append_if : (ℕ → Bool) → ℕ → Building → Option Building
append_if condition x (h, l) = if condition x then mlist_append h l x else some (h, l)

unfoldable pub mlist_filter : Heap → MList → (ℕ → Bool) → Option (Heap × MList)
mlist_filter h l condition = mlist_traverse building_heap l (append_if condition) (h, mlist_create)

abbrev pub append_image : (ℕ → ℕ) → ℕ → Building → Option Building
append_image mapper x (h, l) = mlist_append h l (mapper x)

unfoldable pub mlist_map : Heap → MList → (ℕ → ℕ) → Option (Heap × MList)
mlist_map h l mapper = mlist_traverse building_heap l (append_image mapper) (h, mlist_create)

-- The state of mlist_clone: the copies that malloc will give, and which element each is a copy of.
pub record Cloning : Type 0 where
  pub building : Building
  pub supply : List ℕ
  pub copied : List (ℕ × ℕ)

unfoldable pub append_clone : ℕ → Cloning → Option Cloning
append_clone x c = elim c.supply [
  | [] ↦ none
  | y ∷ ys ↦ do
    b ← append_to y c.building
    some (record { building = b; supply = ys; copied = c.copied ++ ((x, y) ∷ []) })
]

unfoldable pub mlist_clone : Heap → MList → List ℕ → Option Cloning
mlist_clone h l supply =
    mlist_traverse (λ c. building_heap c.building) l append_clone
      (record { building = (h, mlist_create); supply = supply; copied = [] })

abbrev pub count_node : Ptr → Heap × ℕ → Option (Heap × ℕ)
count_node none (h, count) = some (h, count)
count_node (some p) (h, count) = some (h, suc count)

unfoldable pub mlist_count : Heap → MList → (ℕ → Bool) → Option ℕ
mlist_count h l condition = do
  (_, count) ←
      traverse_nodes (λ (s : Heap × ℕ). s.0) (some count_node) none (some condition) false l (h, 0)
  some count

-- The state of mlist_remove and mlist_clear: `elem`, and the elements given to the destroyer.
pub record Removing : Type 0 where
  pub heap : Heap
  pub list : MList
  pub elem : ℕ
  pub destroyed : List ℕ

abbrev pub destroy : ℕ → Removing → Option Removing
destroy x s = some (record s { destroyed = s.destroyed ++ (x ∷ []) })

-- The destroyer, if there is one.
abbrev pub destroyer : Bool → Option (ℕ → Removing → Option Removing)
destroyer true = some destroy
destroyer false = none

unfoldable pub remove_visited : Ptr → Removing → Option Removing
remove_visited node s = do
  (x, h, l) ← remove_node s.heap s.list node
  some (record s { heap = h; list = l; elem = x })

unfoldable pub mlist_remove : Heap → MList → (ℕ → Bool) → Bool → Option Removing
mlist_remove h l condition destroys =
    traverse_nodes (λ s. s.heap) (some remove_visited) (destroyer destroys) (some condition) false l
      (record { heap = h; list = l; elem = null; destroyed = [] })

unfoldable pub free_visited : Ptr → Removing → Option Removing
free_visited node s = do h ← free node s.heap; some (record s { heap = h })

unfoldable pub mlist_clear : Heap → MList → Bool → Option Removing
mlist_clear h l destroys = do
  s ←
      traverse_nodes (λ s. s.heap) (some free_visited) (destroyer destroys) none false l
        (record { heap = h; list = l; elem = null; destroyed = [] })
  some (record s { list = mlist_create })

-- The structure of the list is freed too.
unfoldable pub mlist_destroy : Heap → MList → Bool → Option (Heap × List ℕ)
mlist_destroy h l destroys = do s ← mlist_clear h l destroys; some (s.heap, s.destroyed)
