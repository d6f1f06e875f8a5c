-- ===== src/Cpu/Calls.antt =====
-- A call and the return from it, by the primitives of CPU/src/CPU.c.
use esthe_r.Base.{ℕ, ◌+◌, ◌-◌, ◌*◌, ◌<◌, ◌≡◌, refl, sym, ap, ◌∙◌, inl, inr, false}
use esthe_r.Base.{some, List, [], ◌∷◌, ◌++◌, length}
use esthe_r.Base.{◌==◌, Bool-cases, arith}
use esthe_r.Base.{length-append, get_elem?-middle}
use esthe_r.Base.Int.{ℤ, pos, negsuc, eq_ℤ}
use esthe_r.Commons.{CommonsList, erase_idx}
use esthe_r.Structures.{MemPos, StackEntry, Pcb}
use esthe_r.Cpu.Primitives.{
  State, ir_al_label, llamar_sin_retorno, llamar_con_retorno, finalizar, released_by,
  busqueda_etiqueta,
}
use esthe_r.Cpu.Balance.{count, variables, variables-append, IsBalanced, subtract_pos}

erase_idx-last :
    (es : List StackEntry) (e : StackEntry) → erase_idx (es ++ (e ∷ [])) (length es) ≡ es
erase_idx-last [] e = refl
erase_idx-last (f ∷ es) e = ap (◌∷◌ f) (erase_idx-last es e)

-- A jump changes the instruction counter only.
ir_al_label-keeps :
    (etiqueta : List ℕ) (pcb : Pcb) → (v : ℤ) × (ir_al_label etiqueta pcb ≡ record pcb { pc = v })
unfolding ir_al_label
ir_al_label-keeps etiqueta pcb =
    elim (Bool-cases (eq_ℤ (busqueda_etiqueta etiqueta pcb.index_tag) (negsuc 0))) [
      | inl t ↦ rw t (pcb.pc, refl)
      | inr t ↦ rw t (_, refl)
    ]

module _ (lib : CommonsList) where
  open lib use {
    list_create, list_add, list_remove, list_size, create_lem, add_lem, size_lem, remove_lem,
  }

  last_taken :
      (es : List StackEntry) (e : StackEntry)
      → list_remove (es ++ (e ∷ [])) (list_size (es ++ (e ∷ [])) - 1) ≡ (some e, es)
  last_taken es e =
      let i : length (es ++ (e ∷ [])) - 1 ≡ length es =
        rw (length-append es (e ∷ [])) (omega arith) in
      rw (size_lem, i, remove_lem, get_elem?-middle es e [], erase_idx-last es e) refl

  pointer_back :
      (pcb : Pcb) (es : List StackEntry) (e : StackEntry)
      → pcb.stack ≡ es ++ (e ∷ [])
      → IsBalanced pcb
      → released_by lib (some e) pcb.stack_pointer ≡ pos (4 * variables es)
  unfolding released_by variables
  pointer_back pcb es e s b =
      let t : 4 * (variables es + (count e + 0)) ≡ 4 * variables es + 4 * count e = omega arith in
      rw (b, s, variables-append es (e ∷ []), size_lem, size_lem, t) (subtract_pos _ _)

  -- For a balanced process control block whose stack has a context below the last: finalizar takes
  -- the last context off, goes on at its return position, and leaves the process control block
  -- balanced.
  pub finalizar-returns :
      (c : State) (es : List StackEntry) (e : StackEntry)
      → c.pcb_actual.stack ≡ es ++ (e ∷ [])
      → 0 < length es
      → IsBalanced c.pcb_actual
      → finalizar lib c
        ≡ some (record c {
          pcb_actual = record c.pcb_actual {
            stack = es;
            stack_pointer = pos (4 * variables es);
            pc = e.ret_pos;
          };
        })
  unfolding finalizar
  finalizar-returns c es e s more b =
      let some_left : (length es == 0) ≡ false = ground arith in
      rw (s, last_taken es e, size_lem es, some_left)
        (ap
          (λ sp. some (record c {
            pcb_actual = record c.pcb_actual { stack = es; stack_pointer = sp; pc = e.ret_pos };
          }))
          (pointer_back c.pcb_actual es e s b))

  -- The entry of a call, without variables yet.
  abbrev fresh : ℤ → MemPos → StackEntry
  fresh ret at = record { args = list_create; vars = list_create; ret_pos = ret; ret_var = at }

  IsBalanced-fresh :
      (pcb : Pcb) (ret : ℤ) (at : MemPos)
      → IsBalanced pcb
      → pcb.stack_pointer ≡ pos (4 * variables (list_add pcb.stack (fresh ret at)))
  unfolding variables
  IsBalanced-fresh pcb ret at b =
      rw (b, add_lem pcb.stack (fresh ret at), variables-append, create_lem) (ap pos (omega arith))

  returns_at_once :
      (c : State) (etiqueta : List ℕ) (at : MemPos)
      → 0 < length c.pcb_actual.stack
      → IsBalanced c.pcb_actual
      → finalizar lib (record c {
        pcb_actual = ir_al_label etiqueta (record c.pcb_actual {
          stack = list_add c.pcb_actual.stack (fresh c.pcb_actual.pc at);
        });
      })
        ≡ some c
  returns_at_once c etiqueta at more b =
      let pcb = c.pcb_actual in
      let nueva = fresh pcb.pc at in
      let (v, jumped) =
        ir_al_label-keeps etiqueta (record pcb { stack = list_add pcb.stack nueva }) in
      rw jumped (
        finalizar-returns
          (record c { pcb_actual = record pcb { stack = list_add pcb.stack nueva; pc = v } })
          pcb.stack nueva (add_lem pcb.stack nueva) more (IsBalanced-fresh pcb pcb.pc at b)
        ∙ ap (λ sp. some (record c { pcb_actual = record pcb { stack_pointer = sp } })) (sym b))

  -- For a process control block that is balanced and whose stack has a context: returning at once from
  -- a call, without or with a place for the result, gives back the state before the call, whatever the
  -- label.
  pub finalizar-llamar :
      (tamanio_pagina stack_size : ℕ) (c : State) (etiqueta : List ℕ) (donde : ℤ)
      → 0 < length c.pcb_actual.stack
      → IsBalanced c.pcb_actual
      → (finalizar lib (record c { pcb_actual = llamar_sin_retorno lib etiqueta c.pcb_actual })
          ≡ some c)
        × (finalizar lib (record c {
          pcb_actual = llamar_con_retorno lib tamanio_pagina stack_size etiqueta donde c.pcb_actual;
        })
            ≡ some c)
  unfolding llamar_sin_retorno llamar_con_retorno
  finalizar-llamar tamanio_pagina stack_size c etiqueta donde more b =
      (returns_at_once c etiqueta _ more b, returns_at_once c etiqueta _ more b)
