-- ===== src/Serial/PcbUnpack.antt =====
-- serial_unpack_pcb, serial_unpack_stack and serial_unpack_vars of Common/serial.c. A read at
-- `buff+tam` takes the list of the bytes from there on, and `tam += n` drops `n` of them.
pub mod Laws
use esthe_r.Base.{ℕ, zero, suc, ◌+◌, Option, none, some, ◌>>=◌, List, [], ◌∷◌, ◌++◌}
use esthe_r.Base.{leb, if◌then◌else◌, take, drop, codes}
use esthe_r.Base.Int.{ℤ, pos, negsuc, pos_part}
use esthe_r.Commons.{CommonsList}
use esthe_r.Structures.{MemPos, Var, ProgramTag, StackEntry, Instruction, Pcb}
use esthe_r.Serial.Format.{Arg, num, text, strlen, serial_unpack}

-- What serial_unpack stores through the pointers that it is given.
abbrev pub one_num : List Arg → Option ℤ
one_num (num v ∷ []) = some v
one_num _ = none

abbrev pub mempos_of : List Arg → Option MemPos
mempos_of (num p ∷ num o ∷ num s ∷ []) = some (record { page = p; offset = o; size = s })
mempos_of _ = none

abbrev pub var_of : List Arg → Option Var
var_of (num c ∷ num p ∷ num o ∷ num s ∷ []) =
    some (record { id = c; mempos = record { page = p; offset = o; size = s } })
var_of _ = none

abbrev pub text_of : List Arg → Option (List ℕ)
text_of (text s ∷ []) = some s
text_of _ = none

-- `serial_unpack(buff+tam, "h", &v); tam += 2;` and its kin.
unfoldable pub read_short : List ℕ → Option (ℤ × List ℕ)
read_short buff = do args ← serial_unpack (codes "h") buff; v ← one_num args; some (v, drop 2 buff)

unfoldable pub read_mempos : List ℕ → Option (MemPos × List ℕ)
read_mempos buff = do
  args ← serial_unpack (codes "hhh") buff
  v ← mempos_of args
  some (v, drop 6 buff)

unfoldable pub read_var : List ℕ → Option (Var × List ℕ)
read_var buff = do args ← serial_unpack (codes "chhh") buff; v ← var_of args; some (v, drop 7 buff)

unfoldable pub read_instruction : List ℕ → Option (Instruction × List ℕ)
read_instruction buff = do
  (start, buff') ← read_short buff
  (offset, rest) ← read_short buff'
  some (record { start = start; offset = offset }, rest)

-- The buffer `tag` has 64 bytes, the terminating zero among them; `none` is a write past its end.
unfoldable pub read_tag : List ℕ → Option (ProgramTag × List ℕ)
read_tag buff = do
  args ← serial_unpack (codes "64s") buff
  tag ← text_of args
  name ← (if leb (suc (strlen tag)) 64 then some (take (strlen tag) tag) else none)
  (pc, rest) ← read_short (drop (strlen tag + 2) buff)
  some (record { name = name; pc = pc }, rest)

-- The loop of `rounds` rounds, which adds each element that it reads.
unfoldable pub read_each :
    {A : Type 0}
    → (List ℕ → Option (A × List ℕ))
    → (List A → A → List A)
    → ℕ
    → List ℕ
    → List A
    → Option (List A × List ℕ)
read_each read add zero buff l = some (l, buff)
read_each read add (suc rounds) buff l = do
  (aux, rest) ← read buff
  read_each read add rounds rest (add l aux)

-- The next cell of an array that is filled from index 0 on.
abbrev pub next_cell : {A : Type 0} → List A → A → List A
next_cell l x = l ++ (x ∷ [])

-- `alloc(n * size)`: the number of elements. A negative `n` makes the size huge, calloc fails, and
-- `alloc` ends the process.
abbrev pub alloc_count : ℤ → Option ℕ
alloc_count (pos n) = some n
alloc_count (negsuc n) = none

module _ (lib : CommonsList) where
  open lib use {list_create, list_add}

  -- The list with the elements added, and `tam`.
  unfoldable pub unpack_vars_loop : ℕ → List ℕ → ℕ → List Var → Option (List Var × ℕ)
  unpack_vars_loop zero buff tam lista = some (lista, tam)
  unpack_vars_loop (suc rounds) buff tam lista = do
    (aux, rest) ← read_var buff
    unpack_vars_loop rounds rest (tam + 7) (list_add lista aux)

  unfoldable pub serial_unpack_vars : List Var → List ℕ → Option (List Var × ℕ)
  serial_unpack_vars lista buff = do
    (cant_elements, rest) ← read_short buff
    unpack_vars_loop (pos_part cant_elements) rest 2 lista

  unfoldable pub read_entry : List ℕ → Option (StackEntry × List ℕ)
  read_entry buff = do
    (ret_pos, buff) ← read_short buff
    (args, tam) ← serial_unpack_vars list_create buff
    (vars, tam') ← serial_unpack_vars list_create (drop tam buff)
    (ret_var, rest) ← read_mempos (drop tam' (drop tam buff))
    some (record { args = args; vars = vars; ret_pos = ret_pos; ret_var = ret_var }, rest)

  unfoldable pub serial_unpack_stack : List StackEntry → List ℕ → Option (List StackEntry)
  serial_unpack_stack stack buff = do
    (cant_elements, buff) ← read_short buff
    (stack, rest) ← read_each read_entry list_add (pos_part cant_elements) buff stack
    some stack

  unfoldable pub serial_unpack_pcb : List ℕ → Option Pcb
  serial_unpack_pcb buff = do
    (id_process, buff) ← read_short buff
    (pc, buff) ← read_short buff
    (quantum, buff) ← read_short buff
    (status, buff) ← read_short buff
    (pages_code, buff) ← read_short buff
    (instructions, buff) ← read_short buff
    (tags, buff) ← read_short buff
    (stack_pointer, buff) ← read_short buff
    (exit_code, buff) ← read_short buff
    code_size ← alloc_count instructions
    (index_code, buff) ← read_each read_instruction next_cell code_size buff []
    tags_size ← alloc_count tags
    (index_tag, buff) ← read_each read_tag next_cell tags_size buff []
    stack ← serial_unpack_stack list_create buff
    some (record {
      id_process = id_process;
      pc = pc;
      quantum = quantum;
      status = status;
      pages_code = pages_code;
      index_code = index_code;
      instructions = instructions;
      index_tag = index_tag;
      tags = tags;
      stack = stack;
      stack_pointer = stack_pointer;
      exit_code = exit_code;
    })
