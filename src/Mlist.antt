-- ===== src/Mlist.antt =====
-- Common/mlist.c: doubly linked lists. A list is its structure `mlist`, and its nodes are in the heap.
-- Elements are pointers that the list does not follow: numbers, of which 0 is NULL. The locks are
-- left out: each function is run by one thread. `none` is a step through NULL or freed memory, or a
-- loop that has run as often as the list is long and has not ended.
pub mod Nodes
pub mod Links
pub mod Relink
pub mod Place
pub mod Insert
pub mod Walk
pub mod Remove
pub mod InsertAt
pub mod Find
pub mod Traverse
pub mod Buffer
use esthe_r.Base.{ℕ, zero, suc, ◌+◌, ◌-◌, ◌/◌, Bool, true, false, not, Option, none, some, ◌>>=◌}
use esthe_r.Base.{List, [], ◌∷◌, ◌++◌, ltb, leb, ◌==◌, if◌then◌else◌}
use esthe_r.Base.Int.{ℤ, pos, negsuc}
use Nodes.{Ptr, same_ptr, Node, Heap, read, malloc, free, set_prev, set_next, set_elem}

pub record MList : Type 0 where
  pub head : Ptr
  pub tail : Ptr
  pub length : ℕ

abbrev pub null : ℕ
null = 0

abbrev pub mlist_create : MList
mlist_create = record { head = none; tail = none; length = 0 }

abbrev pub mlist_empty : MList → Bool
mlist_empty l = l.length == 0

abbrev pub mlist_length : MList → ℕ
mlist_length l = l.length

-- `node->elem`
unfoldable pub elem_of : Heap → Ptr → Option ℕ
elem_of h p = do n ← read h p; some n.elem

unfoldable pub mlist_first : Heap → MList → Option ℕ
unfolding elem_of
mlist_first h l = if mlist_empty l then some null else elem_of h l.head

unfoldable pub mlist_last : Heap → MList → Option ℕ
unfolding elem_of
mlist_last h l = if mlist_empty l then some null else elem_of h l.tail

-- get_elem of a node or NULL
unfoldable pub get_elem : Heap → Ptr → Option ℕ
get_elem h none = some null
get_elem h (some p) = elem_of h (some p)

unfoldable pub create_node : ℕ → Heap → Ptr × Heap
create_node element h = malloc (record { prev = none; next = none; elem = element }) h

-- `length - 1`, of a C int.
abbrev pub before_end : ℕ → ℤ
before_end zero = negsuc 0
before_end (suc n) = pos n

abbrev grown : MList → MList
grown l = record l { length = suc l.length }

unfoldable pub insert_before : Heap → MList → Ptr → Ptr → Option (Heap × MList)
insert_before h l base new =
    if mlist_empty l then some (h, grown (record l { head = new; tail = new })) else (do
      b ← read h base
      h ← set_prev new b.prev h
      h ← set_next new base h
      h ← set_prev base new h
      n ← read h new
      elim n.prev [
        | some q ↦ do h ← set_next (some q) new h; some (h, grown l)
        | none ↦ some (h, grown (record l { head = new }))
      ])

unfoldable pub insert_after : Heap → MList → Ptr → Ptr → Option (Heap × MList)
insert_after h l base new =
    if mlist_empty l then some (h, grown (record l { head = new; tail = new })) else (do
      b ← read h base
      h ← set_next new b.next h
      h ← set_prev new base h
      h ← set_next base new h
      n ← read h new
      elim n.next [
        | some q ↦ do h ← set_prev (some q) new h; some (h, grown l)
        | none ↦ some (h, grown (record l { tail = new }))
      ])

-- while(index-- > 0) node = node->next
unfoldable pub walk_next : Heap → ℕ → Ptr → Option Ptr
walk_next h zero current = some current
walk_next h (suc index) current = do n ← read h current; walk_next h index n.next

-- while(++index < length) node = node->prev
unfoldable pub walk_prev : Heap → ℕ → ℕ → ℕ → Ptr → Option Ptr
walk_prev h zero index length current = none
walk_prev h (suc fuel) index length current =
    if ltb (suc index) length
    then (do n ← read h current; walk_prev h fuel (suc index) length n.prev)
    else some current

unfoldable pub get_node : Heap → MList → ℤ → Option Ptr
get_node h l (negsuc index) = some none
get_node h l (pos index) =
    if leb l.length index
    then some none
    else if leb index (l.length / 2)
    then walk_next h index l.head
    else walk_prev h l.length index l.length l.tail

-- `if(p != NULL) p->next = q;` and its kin
unfoldable pub relink_next : Ptr → Ptr → Heap → Option Heap
relink_next none q h = some h
relink_next (some p) q h = set_next (some p) q h

unfoldable pub relink_prev : Ptr → Ptr → Heap → Option Heap
relink_prev none q h = some h
relink_prev (some p) q h = set_prev (some p) q h

-- The element, the heap without the node, and the list.
unfoldable pub remove_node : Heap → MList → Ptr → Option (ℕ × Heap × MList)
remove_node h l node = do
  n ← read h node
  h ← relink_next n.prev n.next h
  n ← read h node
  h ← relink_prev n.next n.prev h
  n ← read h node
  h' ← free node h
  some (
    n.elem,
    h',
    record {
      head = if same_ptr node l.head then n.next else l.head;
      tail = if same_ptr node l.tail then n.prev else l.tail;
      length = l.length - 1;
    },
  )

unfoldable pub mlist_append : Heap → MList → ℕ → Option (Heap × MList)
mlist_append h l element = let (node, h') = create_node element h in insert_after h' l l.tail node

unfoldable pub mlist_insert : Heap → MList → ℤ → ℕ → Option (Heap × MList)
mlist_insert h l (negsuc index) element = some (h, l)
mlist_insert h l (pos index) element =
    let (new, h') = create_node element h in
    if ltb l.length index
    then some (h, l)
    else if ltb index l.length
    then (do
      base ← if index == 0 then some l.head else get_node h' l (pos index)
      insert_before h' l base new)
    else insert_after h' l l.tail new

unfoldable pub mlist_pop : Heap → MList → ℤ → Option (ℕ × Heap × MList)
mlist_pop h l index = do
  node ← get_node h l index
  elim node [ none ↦ some (null, h, l) | some p ↦ remove_node h l (some p) ]

unfoldable pub mlist_get : Heap → MList → ℤ → Option ℕ
mlist_get h l index = do node ← get_node h l index; get_elem h node

unfoldable pub mlist_replace : Heap → MList → ℤ → ℕ → Option (ℕ × Heap)
mlist_replace h l index element = do
  node ← get_node h l index
  elim node [
    | none ↦ some (null, h)
    | some p ↦ do n ← read h (some p); h ← set_elem (some p) element h; some (n.elem, h)
  ]

-- The loop of mlist_index and mlist_find: the node where it stops, and the rounds before.
unfoldable pub find_loop : ℕ → Heap → (ℕ → Bool) → ℕ → Ptr → Option (ℕ × Ptr)
find_loop zero h cond index current = none
find_loop (suc fuel) h cond index none = some (index, none)
find_loop (suc fuel) h cond index (some p) = do
  n ← read h (some p)
  if cond n.elem then some (index, some p) else find_loop fuel h cond (suc index) n.next

unfoldable pub mlist_index : Heap → MList → (ℕ → Bool) → Option ℤ
mlist_index h l condition = do
  (index, _) ← find_loop (suc l.length) h condition 0 l.head
  some (if ltb index l.length then pos index else negsuc 0)

unfoldable pub mlist_find : Heap → MList → (ℕ → Bool) → Option ℕ
mlist_find h l condition = do
  (_, node) ← find_loop (suc l.length) h condition 0 l.head
  get_elem h node

unfoldable pub mlist_contains : Heap → MList → ℕ → Option Bool
mlist_contains h l element = do
  index ← mlist_index h l (λ current. current == element)
  some (elim index [ pos _ ↦ true | negsuc _ ↦ false ])

unfoldable pub mlist_any : Heap → MList → (ℕ → Bool) → Option Bool
mlist_any h l condition = do elem ← mlist_find h l condition; some (not (elem == null))

unfoldable pub mlist_all : Heap → MList → (ℕ → Bool) → Option Bool
mlist_all h l positive = do any ← mlist_any h l (λ element. not (positive element)); some (not any)
