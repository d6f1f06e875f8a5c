-- ===== src/Mlist/Nodes.antt =====
-- The nodes of Common/mlist.c in memory. malloc gives the address behind all that it gave before; an
-- access through NULL or to memory that is not allocated is `none`.
use esthe_r.Base.{ℕ, suc, Bool, true, false, Option, none, some, ◌>>=◌, ◌==◌, if◌then◌else◌}

-- `none` is NULL.
abbrev pub Ptr : Type 0
Ptr = Option ℕ

abbrev pub same_ptr : Ptr → Ptr → Bool
same_ptr none none = true
same_ptr (some p) (some q) = p == q
same_ptr none (some q) = false
same_ptr (some p) none = false

pub record Node : Type 0 where
  pub prev : Ptr
  pub next : Ptr
  pub elem : ℕ

pub record Heap : Type 0 where
  pub cells : ℕ → Option Node
  pub limit : ℕ

abbrev pub write : ℕ → Option Node → Heap → Heap
write p c h = record h { cells = λ a. if a == p then c else h.cells a }

abbrev pub read : Heap → Ptr → Option Node
read h none = none
read h (some p) = h.cells p

abbrev pub malloc : Node → Heap → Ptr × Heap
malloc n h = (
  some h.limit,
  record { cells = λ a. if a == h.limit then some n else h.cells a; limit = suc h.limit },
)

abbrev pub update : (Node → Option Node) → Ptr → Heap → Option Heap
update f none h = none
update f (some p) h = h.cells p >>= λ n. some (write p (f n) h)

abbrev pub free : Ptr → Heap → Option Heap
free p h = update (λ n. none) p h

abbrev pub set_prev : Ptr → Ptr → Heap → Option Heap
set_prev p q h = update (λ n. some (record n { prev = q })) p h

abbrev pub set_next : Ptr → Ptr → Heap → Option Heap
set_next p q h = update (λ n. some (record n { next = q })) p h

abbrev pub set_elem : Ptr → ℕ → Heap → Option Heap
set_elem p x h = update (λ n. some (record n { elem = x })) p h
