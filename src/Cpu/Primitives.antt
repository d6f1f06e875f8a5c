-- ===== src/Cpu/Primitives.antt =====
-- CPU/src/CPU.c: the AnSISOP primitives that work on the process control block. The sizes that the
-- Kernel sends are natural numbers. A position or an instruction number, of an unsigned type, is the
-- integer that an `int` holds after the conversion, so that -1 is written as such. Reading through
-- NULL and writing past a buffer are `none`. Which memory is freed is not modelled.
use esthe_r.Base.{
  ℕ, suc, ◌+◌, ◌-◌, ◌*◌, ◌/◌, ◌%◌, ◌^◌, Bool, true, false, ◌&&◌, Option, none, some, ◌>>=◌,
}
use esthe_r.Base.{List, [], ◌∷◌, ◌++◌, set, ltb, ◌==◌, if◌then◌else◌}
use esthe_r.Base.Int.{ℤ, pos, negsuc, pos_part, to_unsigned, sub_ℕ, ◌+ℤ◌, ◌-ℤ◌, leb_ℤ, ltb_ℤ, eq_ℤ}
use esthe_r.Commons.{CommonsList}
use esthe_r.Structures.{MemPos, Var, ProgramTag, StackEntry, Pcb}
use esthe_r.Serial.PcbPack.{serial_pack_pcb}
use esthe_r.Socket.{Accepted, buffer_capacity}
use esthe_r.Protocol.{protocol_header, protocol_packet, protocol_packet_send}
use esthe_r.Protocol.Opcodes.{cpu, op_cpu_program_end}

-- The globals that the primitives use, and the connection to the Kernel: how it accepts what is
-- sent, and what has been sent.
pub record State : Type 0 where
  pub pcb_actual : Pcb
  pub hubo_stack_over : Bool
  pub fin_programa : Bool
  pub accepted : List Accepted
  pub wire : List ℕ

-- A position as the parser passes it, in the unsigned type `t_puntero` of 32 bits, for a division.
unfoldable pub puntero : ℤ → ℤ
puntero posicion = pos (to_unsigned (2 ^ 32) posicion)

-- sizeof(int)
abbrev pub tamanio_variable : ℕ
tamanio_variable = 4

-- Division of an `int` by a positive size, towards zero, and its remainder.
unfoldable pub quotient : ℤ → ℕ → ℤ
quotient (pos a) b = pos (a / b)
quotient (negsuc a) b = sub_ℕ 0 (suc a / b)

unfoldable pub remainder : ℤ → ℕ → ℤ
remainder (pos a) b = pos (a % b)
remainder (negsuc a) b = sub_ℕ 0 (suc a % b)

unfoldable pub times : ℤ → ℕ → ℤ
times (pos a) b = pos (a * b)
times (negsuc a) b = sub_ℕ 0 (suc a * b)

-- isdigit
unfoldable pub es_argumento : ℤ → Bool
es_argumento id = leb_ℤ (pos 48) id && leb_ℤ id (pos 57)

abbrev pub equal_texts : List ℕ → List ℕ → Bool
equal_texts [] [] = true
equal_texts (a ∷ xs) (b ∷ ys) = (a == b) && equal_texts xs ys
equal_texts _ _ = false

-- The loop returns in its first round, whatever it finds.
unfoldable pub busqueda_etiqueta : List ℕ → List ProgramTag → ℤ
busqueda_etiqueta etiqueta [] = negsuc 0
busqueda_etiqueta etiqueta (t ∷ tags) = if equal_texts t.name etiqueta then t.pc else negsuc 0

unfoldable pub ir_al_label : List ℕ → Pcb → Pcb
ir_al_label etiqueta pcb =
    let numero = busqueda_etiqueta etiqueta pcb.index_tag in
    if eq_ℤ numero (negsuc 0) then pcb else record pcb { pc = numero -ℤ pos 1 }

-- The two flags are tested in this order, and the one that is set is cleared; -1 ends the run.
unfoldable pub verificar_terminar_ejecucion : State → ℤ × State
verificar_terminar_ejecucion c =
    if c.hubo_stack_over
    then (negsuc 0, record c { hubo_stack_over = false })
    else if c.fin_programa
    then (negsuc 0, record c { fin_programa = false })
    else (pos 0, c)

abbrev pub absolute : ℕ → MemPos → ℤ
absolute tamanio_pagina at = times at.page tamanio_pagina +ℤ at.offset

-- The search for a local variable, from one variable on; `none` in the result: not found.
unfoldable pub find_var : ℤ → List Var → Option MemPos
find_var id [] = none
find_var id (v ∷ vars) = if eq_ℤ v.id id then some v.mempos else find_var id vars

module _ (lib : CommonsList) where
  open lib use {list_create, list_add, list_get, list_remove, list_size}

  unfoldable pub t_stack_create : StackEntry
  t_stack_create = record {
    args = list_create;
    vars = list_create;
    ret_pos = negsuc 0;
    ret_var = record { page = pos 0; offset = pos 0; size = pos 0 };
  }

  -- The stack with a first entry if it had none, whose last entry is the context.
  unfoldable pub opened : List StackEntry → List StackEntry
  unfolding t_stack_create
  opened stack = if list_size stack == 0 then list_add stack t_stack_create else stack

  -- The entry with a new variable; the `id` of an argument is not set, and is what the memory of
  -- malloc holds.
  unfoldable pub defined : ℤ → ℤ → MemPos → StackEntry → StackEntry
  defined unset id at linea =
      if es_argumento id
      then record linea { args = list_add linea.args (record { id = unset; mempos = at }) }
      else record linea { vars = list_add linea.vars (record { id = id; mempos = at }) }

  module _ (tamanio_pagina stack_size : ℕ) where
    -- The context is changed in place.
    unfoldable pub definir_variable : ℤ → ℤ → State → Option (ℤ × State)
    definir_variable unset id c =
        let pcb = c.pcb_actual in
        let sp = pcb.stack_pointer in
        let at : MemPos = record {
          page = quotient sp tamanio_pagina;
          offset = remainder sp tamanio_pagina;
          size = pos tamanio_variable;
        } in
        let stack = opened pcb.stack in
        let last = list_size stack - 1 in
        if ltb_ℤ (pos (stack_size * tamanio_pagina)) (sp +ℤ pos 4)
        then some (negsuc 0, record c { hubo_stack_over = true })
        else (list_get stack last >>= λ linea. some (
          sp,
          record c {
            pcb_actual = record pcb {
              stack = set stack last (defined unset id at linea);
              stack_pointer = sp +ℤ pos tamanio_variable;
            };
          },
        ))

    abbrev exit_failure : ℤ
    exit_failure = pos 1

    abbrev position_or_failure : Option MemPos → ℤ
    position_or_failure none = exit_failure
    position_or_failure (some at) = absolute tamanio_pagina at

    -- The position, or 1 on failure, which is a position too.
    unfoldable pub obtener_posicion_variable : ℤ → Pcb → Option ℤ
    obtener_posicion_variable id pcb =
        if list_size pcb.stack == 0
        then some exit_failure
        else (list_get pcb.stack (list_size pcb.stack - 1) >>= λ contexto.
            if es_argumento id
            then if ltb_ℤ (pos (list_size contexto.args)) (id -ℤ pos 48)
              then some exit_failure
              else (list_get contexto.args (pos_part (id -ℤ pos 48)) >>= λ v.
                  some (absolute tamanio_pagina v.mempos))
            else some (position_or_failure (find_var id contexto.vars)))

    unfoldable pub llamar_con_retorno : List ℕ → ℤ → Pcb → Pcb
    unfolding t_stack_create
    llamar_con_retorno etiqueta donde pcb =
        let nueva = record t_stack_create {
          ret_pos = pcb.pc;
          ret_var = record {
            page = quotient (puntero donde) tamanio_pagina;
            offset = remainder (puntero donde) tamanio_pagina;
            size = pos tamanio_variable;
          };
        } in
        ir_al_label etiqueta (record pcb { stack = list_add pcb.stack nueva })

  unfoldable pub llamar_sin_retorno : List ℕ → Pcb → Pcb
  unfolding t_stack_create
  llamar_sin_retorno etiqueta pcb =
      let nueva = record t_stack_create { ret_pos = pcb.pc } in
      ir_al_label etiqueta (record pcb { stack = list_add pcb.stack nueva })

  -- finalizarPor, with a buffer of `buffer_capacity` bytes.
  unfoldable pub finalizar_por : ℕ → State → Option State
  finalizar_por type c = do
    p ← serial_pack_pcb lib c.pcb_actual
    let header = record (protocol_header cpu type 0) { msgsize = p.size }
    if ltb buffer_capacity p.size then none else (do
      sent ← protocol_packet_send (protocol_packet header p.bytes) c.accepted
      some (record c { accepted = sent.env; wire = c.wire ++ sent.wire }))

  -- What is taken off the stack pointer with a context.
  abbrev pub released : StackEntry → ℤ
  released e = pos (tamanio_variable * (list_size e.args + list_size e.vars))

  unfoldable pub released_by : Option StackEntry → ℤ → ℤ
  released_by none sp = sp
  released_by (some e) sp = sp -ℤ released e

  unfoldable pub finalizar : State → Option State
  finalizar c =
      let pcb = c.pcb_actual in
      let (contexto, stack) = list_remove pcb.stack (list_size pcb.stack - 1) in
      let pcb' = record pcb {
        stack = stack;
        stack_pointer = released_by contexto pcb.stack_pointer;
      } in
      if list_size stack == 0
      then finalizar_por op_cpu_program_end (record c { pcb_actual = pcb'; fin_programa = true })
      else (contexto >>= λ e. some (record c { pcb_actual = record pcb' { pc = e.ret_pos } }))
