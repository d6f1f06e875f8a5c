-- ===== src/Cpu/Cycle.antt =====
-- CPU/src/CPU.c: the cycle of instructions of the program that the CPU has. Two functions of
-- libraries are parameters: string_substring of so-commons, and analizadorLinea of the AnSISOP
-- parser, which runs one instruction by calling the primitives.
pub mod Quantum
use esthe_r.Base.{
  ℕ, zero, suc, Bool, true, false, ◌||◌, Option, none, some, ◌>>=◌, List, [], ◌∷◌, ◌++◌,
}
use esthe_r.Base.{get_elem?, leb, ◌==◌, if◌then◌else◌}
use esthe_r.Base.Int.{ℤ, pos, negsuc, ◌+ℤ◌, ◌-ℤ◌, leb_ℤ, eq_ℤ}
use esthe_r.Commons.{CommonsList}
use esthe_r.Structures.{MemPos, Instruction, Pcb}
use esthe_r.Base.{length}
use esthe_r.Socket.{buffer_capacity}
use esthe_r.Protocol.{Packet}
use esthe_r.Protocol.Opcodes.{op_response, op_me_solbytpag, op_cpu_program_end}
use esthe_r.Cpu.Primitives.{State, quotient, remainder, finalizar_por, verificar_terminar_ejecucion}
use esthe_r.Cpu.Messages.{Link, send_place, receive_packet}

-- What the cycle works on: the state of the primitives, the connection to the memory, and
-- `procesoBloqueado`.
pub record Machine : Type 0 where
  pub state : State
  pub memory : Link
  pub proceso_bloqueado : Bool

-- The element of an array at an `int`.
unfoldable pub element_at : {A : Type 0} → List A → ℤ → Option A
element_at xs (pos i) = get_elem? xs i
element_at xs (negsuc i) = none

-- strcpy: the bytes before the first zero; `none` is a read past the end.
unfoldable pub c_string : List ℕ → Option (List ℕ)
c_string [] = none
c_string (b ∷ bs) = if b == 0 then some [] else (c_string bs >>= λ s. some (b ∷ s))

module _ (lib : CommonsList) (string_substring : List ℕ → ℕ → ℤ → List ℕ)
    (analizador_linea : Option (List ℕ) → Machine → Option Machine) (tamanio_pagina : ℕ) where
  -- The place of an instruction in the pages of the code.
  unfoldable pub instruction_place : Instruction → MemPos
  instruction_place i = record {
    page = quotient i.start tamanio_pagina;
    offset = remainder i.start tamanio_pagina;
    size = i.offset;
  }

  -- The text of the next instruction, copied to a buffer of `buffer_capacity` bytes; NULL for any
  -- other answer.
  unfoldable pub answered_instruction : ℤ → Packet → Option (Option (List ℕ))
  answered_instruction size packet =
      if packet.header.opcode == op_response
      then (do
        payload ← packet.payload
        proxima ← c_string payload
        if leb buffer_capacity (length proxima)
            then none
            else some (some (string_substring proxima 0 (size -ℤ pos 1))))
      else some none

  unfoldable pub pedir_proxima_instruccion : Machine → Option (Option (List ℕ) × Machine)
  pedir_proxima_instruccion m = do
    let pcb = m.state.pcb_actual
    instruccion ← element_at pcb.index_code pcb.pc
    l ← send_place op_me_solbytpag pcb (instruction_place instruccion) m.memory
    (packet, l) ← receive_packet l
    text ← answered_instruction instruccion.offset packet
    some (text, record m { memory = l })

  unfoldable pub next_instruction : Pcb → Pcb
  next_instruction pcb = record pcb { pc = pcb.pc +ℤ pos 1 }

  -- What follows the loop.
  unfoldable pub quantum_over : Machine → Option Machine
  quantum_over m =
      if m.proceso_bloqueado
      then some m
      else (finalizar_por lib op_cpu_program_end m.state >>= λ c. some (record m { state = c }))

  unfoldable pub keeps_running : ℕ → Machine → Bool
  keeps_running i m =
      let quantum = m.state.pcb_actual.quantum in leb_ℤ (pos i) quantum || eq_ℤ quantum (pos 0)

  -- An instruction, run; the result says that the run goes on.
  unfoldable pub turn : Machine → Option (Bool × Machine)
  turn m = do
    (proxima, m) ← pedir_proxima_instruccion m
    m ← analizador_linea proxima m
    let (res, c) = verificar_terminar_ejecucion m.state
    if eq_ℤ res (negsuc 0)
        then some (false, record m { state = c })
        else some
            (true, record m { state = record c { pcb_actual = next_instruction c.pcb_actual } })

  -- The loop from round `i` on; `none`, where the fuel is used up.
  unfoldable pub ejecutar_loop : ℕ → ℕ → Machine → Option Machine
  ejecutar_loop zero i m = none
  ejecutar_loop (suc fuel) i m =
      if keeps_running i m
      then (turn m >>= λ (more, m'). if more then ejecutar_loop fuel (suc i) m' else some m')
      else quantum_over m

  unfoldable pub ejecutar_programa : ℕ → Machine → Option Machine
  ejecutar_programa fuel m = ejecutar_loop fuel 1 (record m { proceso_bloqueado = false })
