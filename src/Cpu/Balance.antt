-- ===== src/Cpu/Balance.antt =====
-- The stack of a program and its stack pointer, under the primitives of CPU/src/CPU.c.
use esthe_r.Base.{ℕ, zero, suc, ◌+◌, ◌-◌, ◌*◌, ◌≤◌, ◌<◌, ◌≡◌, refl, ap, ◌∙◌, inl, inr, true, false}
use esthe_r.Base.{Option, none, some, List, [], ◌∷◌, ◌++◌, length, get_elem?}
use esthe_r.Base.{leb, ◌==◌, Bool-cases, arith}
use esthe_r.Base.{set, length-append}
use esthe_r.Base.Int.{ltb_ℤ, ℤ, pos, negsuc, ◌+ℤ◌, ◌-ℤ◌}
use esthe_r.Commons.{CommonsList}
use esthe_r.Structures.{MemPos, StackEntry, Pcb}
use esthe_r.Cpu.Primitives.{State, t_stack_create, opened, defined, definir_variable, es_argumento}

abbrev pub count : StackEntry → ℕ
count e = length e.args + length e.vars

-- The number of variables and arguments of all the contexts.
unfoldable pub variables : List StackEntry → ℕ
variables [] = 0
variables (e ∷ es) = count e + variables es

-- The stack pointer stands behind as many variables as the contexts have.
abbrev pub IsBalanced : Pcb → Type 0
IsBalanced pcb = pcb.stack_pointer ≡ pos (4 * variables pcb.stack)

variables-set :
    (es : List StackEntry) (i : ℕ) (e e' : StackEntry)
    → get_elem? es i ≡ some e
    → count e' ≡ suc (count e)
    → variables (set es i e') ≡ suc (variables es)
unfolding variables
variables-set [] i e e' h more = cc
variables-set (x ∷ es) zero e e' h more = let s : x ≡ e = ap (or x) h in rw s (omega (arith, more))
  where
    or : StackEntry → Option StackEntry → StackEntry
    or y none = y
    or y (some z) = z
variables-set (x ∷ es) (suc i) e e' h more = omega (arith, variables-set es i e e' h more)

pub variables-append :
    (es fs : List StackEntry) → variables (es ++ fs) ≡ variables es + variables fs
unfolding variables
variables-append [] fs = omega arith
variables-append (e ∷ es) fs = omega (arith, variables-append es fs)

last_of :
    (es : List StackEntry)
    → 0 < length es
    → (e : StackEntry) × (get_elem? es (length es - 1) ≡ some e)
last_of [] h = absurd (omega arith)
last_of (e ∷ []) h = (e, refl)
last_of (e ∷ f ∷ es) h =
    let (g, found) = last_of (f ∷ es) (omega arith) in
    let i : suc (suc (length es)) - 1 ≡ suc (suc (length es) - 1) = omega arith in (g, rw i found)

pub add_pos : (a b : ℕ) → pos a +ℤ pos b ≡ pos (a + b)
unfolding ◌+ℤ◌
add_pos a b = let t : leb (0 + 0) (a + b) ≡ true = ground arith in rw t (ap pos (omega arith))

pub subtract_pos : (a b : ℕ) → pos (a + b) -ℤ pos b ≡ pos a
unfolding ◌-ℤ◌
subtract_pos a b =
    let t : leb (0 + b) (a + b + 0) ≡ true = ground arith in rw t (ap pos (omega arith))

module _ (lib : CommonsList) where
  open lib use {list_size, list_get, create_lem, add_lem, get_lem, size_lem, remove_lem}

  opened_well :
      (es : List StackEntry)
      → (variables (opened lib es) ≡ variables es) × (0 < length (opened lib es))
  unfolding opened variables t_stack_create
  opened_well [] = rw (size_lem [], add_lem, create_lem) (refl, omega arith)
  opened_well (e ∷ es) =
      let t : (suc (length es) == 0) ≡ false = ground arith in
      rw (size_lem (e ∷ es), t) (refl, omega arith)

  count-defined :
      (unset id : ℤ) (at : MemPos) (e : StackEntry)
      → count (defined lib unset id at e) ≡ suc (count e)
  unfolding defined
  count-defined unset id at e = elim (Bool-cases (es_argumento id)) [
    | inl t ↦ rw (t, add_lem, length-append) (omega arith)
    | inr t ↦ rw (t, add_lem, length-append) (omega arith)
  ]

  -- For a balanced process control block: if a variable of four bytes more fits the stack,
  -- definirVariable returns the stack pointer, and the process control block stays balanced, with
  -- one variable more; otherwise it returns -1, sets the overflow flag and changes nothing else.
  pub definir_variable-IsBalanced :
      (tamanio_pagina stack_size : ℕ) (unset id : ℤ) (c : State)
      → IsBalanced c.pcb_actual
      → (4 * variables c.pcb_actual.stack + 4 ≤ stack_size * tamanio_pagina
          → (c' : State) × (definir_variable lib tamanio_pagina stack_size unset id c
              ≡ some (c.pcb_actual.stack_pointer, c'))
            × IsBalanced c'.pcb_actual
            × (variables c'.pcb_actual.stack ≡ suc (variables c.pcb_actual.stack)))
        × (stack_size * tamanio_pagina < 4 * variables c.pcb_actual.stack + 4
            → definir_variable lib tamanio_pagina stack_size unset id c
              ≡ some (negsuc 0, record c { hubo_stack_over = true }))
  unfolding definir_variable
  definir_variable-IsBalanced page_size stack_size unset id c b = (
    (λ room.
        (let t : ltb_ℤ (pos (stack_size * page_size)) (pos (4 * variables c.pcb_actual.stack + 4))
              ≡ false =
            ground arith in
          let (v, some_entry) = opened_well c.pcb_actual.stack in
          let (e, found) = last_of (opened lib c.pcb_actual.stack) some_entry in
          let more = λ (at : MemPos).
            variables-set (opened lib c.pcb_actual.stack)
              (length (opened lib c.pcb_actual.stack) - 1) e (defined lib unset id at e) found
              (count-defined unset id at e)
            ∙ ap suc v in
          rw (b, add_pos, t, size_lem, get_lem, found)
            (_, refl, ap pos (omega (arith, more _)), more _))),
    (λ full.
        (let t : ltb_ℤ (pos (stack_size * page_size)) (pos (4 * variables c.pcb_actual.stack + 4))
              ≡ true =
            ground arith in
          rw (b, add_pos, t) refl)),
  )
