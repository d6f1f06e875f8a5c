-- ===== src/Cpu/Lookup.antt =====
-- Where the primitives of CPU/src/CPU.c find a variable and a label.
use esthe_r.Base.{ℕ, ◌+◌, ◌-◌, ◌*◌, ◌≤◌, ◌≡◌, refl, ap, ◌∙◌, inl, inr, true, false}
use esthe_r.Base.{none, some, List, [], ◌∷◌, ◌++◌, length, get_elem?}
use esthe_r.Base.{◌==◌, Bool-cases, arith}
use esthe_r.Base.{set, length-append, get_elem?-middle}
use esthe_r.Base.Int.{ℤ, pos, negsuc, eq_ℤ, eq_ℤ_refl, ltb_ℤ, ◌+ℤ◌}
use esthe_r.Commons.{CommonsList}
use esthe_r.Structures.{MemPos, Var, ProgramTag, StackEntry, Pcb}
use esthe_r.Cpu.Primitives.{
  State, definir_variable, obtener_posicion_variable, opened, defined, find_var, es_argumento,
  quotient, remainder, times, busqueda_etiqueta, ir_al_label, equal_texts,
}
use esthe_r.Base.{◌/◌, ◌%◌}
use native.Mathlib.Nat.{mod-add-div'}
use esthe_r.Cpu.Balance.{add_pos}

set-last :
    (es : List StackEntry) (e f : StackEntry) → set (es ++ (e ∷ [])) (length es) f ≡ es ++ (f ∷ [])
set-last [] e f = refl
set-last (d ∷ es) e f = ap (◌∷◌ d) (set-last es e f)

-- The position of the place where the stack pointer stands.
position_again : (m n : ℕ) → times (quotient (pos n) m) m +ℤ remainder (pos n) m ≡ pos n
unfolding times quotient remainder
position_again m n = rw (add_pos (n / m * m) (n % m)) (ap pos (omega (arith, mod-add-div' n m)))

module _ (lib : CommonsList) (tamanio_pagina stack_size : ℕ) where
  open lib use {list_add, add_lem, size_lem, get_lem}

  find_var-new :
      (id : ℤ) (vars : List Var) (at : MemPos)
      → find_var id vars ≡ none
      → find_var id (vars ++ (record { id = id; mempos = at } ∷ [])) ≡ some at
  unfolding find_var
  find_var-new id [] at h = rw (eq_ℤ_refl id) refl
  find_var-new id (v ∷ vars) at h = elim (Bool-cases (eq_ℤ v.id id)) [
    | inl t ↦ let f : some v.mempos ≡ none = rw t at h in cc
    | inr t ↦ rw t (find_var-new id vars at (rw t at h))
  ]

  find_var-defined :
      (unset id : ℤ) (e : StackEntry) (at : MemPos)
      → es_argumento id ≡ false
      → find_var id e.vars ≡ none
      → find_var id (defined lib unset id at e).vars ≡ some at
  unfolding defined
  find_var-defined unset id e at name new = rw (name, add_lem) (find_var-new id e.vars at new)

  end_position : (es : List StackEntry) (e : StackEntry) → length (es ++ (e ∷ [])) - 1 ≡ length es
  end_position es e = rw (length-append es (e ∷ [])) (omega arith)

  opened_already :
      (es : List StackEntry) (e : StackEntry) → opened lib (es ++ (e ∷ [])) ≡ es ++ (e ∷ [])
  unfolding opened
  opened_already es e =
      let t : (length es + 1 == 0) ≡ false = ground arith in
      rw (size_lem, length-append es (e ∷ []), t) refl

  found_last :
      (id : ℤ) (pcb : Pcb) (es : List StackEntry) (f : StackEntry) (at : MemPos)
      → es_argumento id ≡ false
      → pcb.stack ≡ es ++ (f ∷ [])
      → find_var id f.vars ≡ some at
      → obtener_posicion_variable lib tamanio_pagina stack_size id pcb
        ≡ some (times at.page tamanio_pagina +ℤ at.offset)
  unfolding obtener_posicion_variable
  found_last id pcb es f at name s found =
      let i = end_position es f in
      let t : (length (es ++ (f ∷ [])) == 0) ≡ false =
        rw (length-append es (f ∷ [])) (ground arith) in
      rw (s, get_lem, size_lem, t, i, get_elem?-middle es f [], name, found) refl

  -- For a stack with a context, a name that is no digit and not defined in the last context yet,
  -- and a stack pointer behind which a variable fits: definirVariable returns the stack pointer,
  -- and afterwards obtenerPosicionVariable returns the same position for that name.
  pub obtener_posicion-definir_variable :
      (unset id : ℤ) (c : State) (n : ℕ) (es : List StackEntry) (e : StackEntry)
      → es_argumento id ≡ false
      → c.pcb_actual.stack ≡ es ++ (e ∷ [])
      → find_var id e.vars ≡ none
      → c.pcb_actual.stack_pointer ≡ pos n
      → n + 4 ≤ stack_size * tamanio_pagina
      → (c' : State) × (definir_variable lib tamanio_pagina stack_size unset id c
          ≡ some (pos n, c'))
        × (obtener_posicion_variable lib tamanio_pagina stack_size id c'.pcb_actual ≡ some (pos n))
  unfolding definir_variable
  obtener_posicion-definir_variable unset id c n es e name s new sp room =
      let i = end_position es e in
      let u : ltb_ℤ (pos (stack_size * tamanio_pagina)) (pos (n + 4)) ≡ false = ground arith in
      rw
        (
          s,
          sp,
          add_pos,
          u,
          opened_already es e,
          get_lem,
          size_lem,
          i,
          get_elem?-middle es e [],
          set-last es e,
        )
        (
          _,
          refl,
          found_last id _ es _ _ name refl (find_var-defined unset id e _ name new)
              ∙ ap some (position_again tamanio_pagina n),
        )

-- For a first label with another name than the one looked for: even where a later label has that
-- name, the search returns -1 and irAlLabel leaves the instruction counter where it is.
pub ir_al_label-later_tag :
    (etiqueta : List ℕ) (pcb : Pcb) (t u : ProgramTag) (tags : List ProgramTag) (i : ℕ)
    → pcb.index_tag ≡ t ∷ tags
    → equal_texts t.name etiqueta ≡ false
    → get_elem? tags i ≡ some u
    → equal_texts u.name etiqueta ≡ true
    → (busqueda_etiqueta etiqueta pcb.index_tag ≡ negsuc 0) × (ir_al_label etiqueta pcb ≡ pcb)
unfolding busqueda_etiqueta ir_al_label
ir_al_label-later_tag etiqueta pcb t u tags i here differs there same =
    rw (here, differs) (refl, refl)
