-- ===== src/Tests/CpuRuns.antt =====
-- The theorems on the CPU's primitives at a program with one context and two labels.
use esthe_r.Base.{
  ◌+◌, ◌*◌, ◌≤◌, ◌<◌, ◌≡◌, refl, true, false, none, some, [], ◌∷◌, suc, codes, arith,
}
use esthe_r.Base.{replicate}
use esthe_r.Base.Int.{to_unsigned, ◌+ℤ◌, pos, negsuc}
use esthe_r.Commons.Instance.{sequences}
use esthe_r.Structures.{ProgramTag, StackEntry, Pcb}
use esthe_r.Cpu.Primitives.{
  puntero, State, definir_variable, obtener_posicion_variable, finalizar, llamar_sin_retorno,
  llamar_con_retorno, es_argumento, find_var,
}
use esthe_r.Cpu.Primitives.{puntero, quotient, remainder}
use esthe_r.Cpu.Messages.{Link, variable_place}
use esthe_r.Socket.{more_than}
use esthe_r.Serial.PcbPack.Encoding.{MemPosFits}
use esthe_r.Cpu.Balance.{IsBalanced, variables, definir_variable-IsBalanced}
use esthe_r.Cpu.Calls.{finalizar-returns, finalizar-llamar}
use esthe_r.Cpu.Lookup.{obtener_posicion-definir_variable}

-- The context of the main program, with the variable `a`.
abbrev main_context : StackEntry
main_context = record {
  args = [];
  vars =
      record { id = pos 97; mempos = record { page = pos 0; offset = pos 0; size = pos 4 } } ∷ [];
  ret_pos = negsuc 0;
  ret_var = record { page = pos 0; offset = pos 0; size = pos 0 };
}

abbrev inner_context : StackEntry
inner_context = record main_context { ret_pos = pos 5 }

abbrev first_tag : ProgramTag
first_tag = record { name = codes "f"; pc = pos 7 }

abbrev second_tag : ProgramTag
second_tag = record { name = codes "g"; pc = pos 9 }

abbrev program : Pcb
program = record {
  id_process = pos 1;
  pc = pos 3;
  quantum = pos 0;
  status = pos 0;
  pages_code = pos 1;
  index_code = [];
  instructions = pos 0;
  index_tag = first_tag ∷ second_tag ∷ [];
  tags = pos 2;
  stack = main_context ∷ [];
  stack_pointer = pos 4;
  exit_code = pos 0;
}

abbrev state : State
state = record {
  pcb_actual = program;
  hubo_stack_over = false;
  fin_programa = false;
  accepted = [];
  wire = [];
}

abbrev inner : State
inner = record state {
  pcb_actual = record program { stack = main_context ∷ inner_context ∷ []; stack_pointer = pos 8 };
}

program-IsBalanced : IsBalanced program
unfolding variables
program-IsBalanced = refl

inner-IsBalanced : IsBalanced inner.pcb_actual
unfolding variables
inner-IsBalanced = refl

definir_variable-IsBalanced_example :
    (4 * variables program.stack + 4 ≤ 2 * 16
      → (c' : State) × (definir_variable sequences 16 2 (pos 0) (pos 98) state ≡ some (pos 4, c'))
        × IsBalanced c'.pcb_actual
        × (variables c'.pcb_actual.stack ≡ suc (variables program.stack)))
    × (2 * 16 < 4 * variables program.stack + 4
        → definir_variable sequences 16 2 (pos 0) (pos 98) state
          ≡ some (negsuc 0, record state { hubo_stack_over = true }))
definir_variable-IsBalanced_example =
    definir_variable-IsBalanced sequences 16 2 (pos 0) (pos 98) state program-IsBalanced

finalizar-returns_example :
    finalizar sequences inner
    ≡ some (record inner {
      pcb_actual = record inner.pcb_actual {
        stack = main_context ∷ [];
        stack_pointer = pos (4 * variables (main_context ∷ []));
        pc = pos 5;
      };
    })
finalizar-returns_example =
    finalizar-returns sequences inner (main_context ∷ []) inner_context refl (omega arith)
      inner-IsBalanced

finalizar-llamar_example :
    (finalizar sequences
        (record state { pcb_actual = llamar_sin_retorno sequences (codes "f") program })
      ≡ some state)
    × (finalizar sequences (record state {
      pcb_actual = llamar_con_retorno sequences 16 2 (codes "f") (pos 0) program;
    })
        ≡ some state)
finalizar-llamar_example =
    finalizar-llamar sequences 16 2 state (codes "f") (pos 0) (omega arith) program-IsBalanced

name_b : es_argumento (pos 98) ≡ false
unfolding es_argumento
name_b = refl

new_b : find_var (pos 98) main_context.vars ≡ none
unfolding find_var
new_b = refl

obtener_posicion-definir_variable_example :
    (c' : State) × (definir_variable sequences 16 2 (pos 0) (pos 98) state ≡ some (pos 4, c'))
    × (obtener_posicion_variable sequences 16 2 (pos 98) c'.pcb_actual ≡ some (pos 4))
obtener_posicion-definir_variable_example =
    obtener_posicion-definir_variable sequences 16 2 (pos 0) (pos 98) state 4 [] main_context name_b
      refl new_b refl (omega arith)

abbrev to_memory : Link
to_memory = record { arriving = []; accepted = replicate 22 (more_than 6); wire = [] }

place_fits : MemPosFits (variable_place 16 (pos 20) program)
unfolding variable_place puntero to_unsigned quotient remainder ◌+ℤ◌
place_fits = omega arith
