-- ===== src/Structures.antt =====
-- The records of Common/structures.h. An array with its length, and a `t_list`, is a list; a string
-- is the list of its bytes. A number of an integer type is the integer that it stands for.
use esthe_r.Base.{ℕ, List}
use esthe_r.Base.Int.{ℤ}

pub record MemPos : Type 0 where
  pub page : ℤ
  pub offset : ℤ
  pub size : ℤ

pub record Var : Type 0 where
  pub id : ℤ
  pub mempos : MemPos

pub record ProgramTag : Type 0 where
  pub name : List ℕ
  pub pc : ℤ

pub record StackEntry : Type 0 where
  pub args : List Var
  pub vars : List Var
  pub ret_pos : ℤ
  pub ret_var : MemPos

-- `t_intructions` of the parser library: where an instruction starts, and how long it is.
pub record Instruction : Type 0 where
  pub start : ℤ
  pub offset : ℤ

pub record Pcb : Type 0 where
  pub id_process : ℤ
  pub pc : ℤ
  pub quantum : ℤ
  pub status : ℤ
  pub pages_code : ℤ
  pub index_code : List Instruction
  pub instructions : ℤ
  pub index_tag : List ProgramTag
  pub tags : ℤ
  pub stack : List StackEntry
  pub stack_pointer : ℤ
  pub exit_code : ℤ
