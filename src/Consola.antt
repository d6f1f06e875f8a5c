-- ===== src/Consola.antt =====
-- Consola/src: a console, which runs programs on the Kernel. Its threads are the one of main, which takes
-- the commands, one for each program, and the receiver of what the Kernel sends. A thread stops where
-- another may go on: at a semaphore, and between the calls that change what they share. SIGTERM is
-- handled by signal_dummy_action, which set_current_process installs: it only interrupts a thread that is
-- blocked in sem_wait, whose ptcheck then ends the process. pthread_join fails at once where a thread joins
-- itself or one that joins it, and is undefined of a thread that another joins or has joined. The steps go
-- as far as the call of terminate, by `logout` or by the receiver at the end of its connection; what
-- terminate does is left out. A freed pointer is not given out again. The size of the buffer of a program's file,
-- PROGRAM_SIZE, which no file defines, and strtol are parameters; what is printed is left out.
pub mod Steps
pub mod Run
pub mod Valid
pub mod Goes
pub mod Reach
pub mod Messages
pub mod Killing
pub mod Kill
use esthe_r.Base.{
  ℕ, zero, suc, ◌+◌, ◌-◌, Bool, true, false, Option, none, some, ◌>>=◌, List, [], ◌∷◌, ◌++◌,
}
use esthe_r.Base.{◌==◌, if◌then◌else◌}
use esthe_r.Base.Int.{ℤ, pos, negsuc, eq_ℤ, to_unsigned}
use esthe_r.Protocol.{Header, Packet, protocol_header, protocol_packet}
use esthe_r.Protocol.Opcodes.{console}

pub data ProgramStatus : Type 0 where
  program_active program_ended program_killed : ProgramStatus

pub record Program : Type 0 where
  pub pid : ℤ
  pub tid : ℕ
  pub sem : ℕ
  pub status : ProgramStatus
  pub exitcode : ℤ

-- Where a thread is: main is `idle` at the prompt, and `creating` between thread_create and
-- mlist_append; a handler is `starting`, `looping` before the test of its loop, `at_semaphore`, or `woken` behind it; any of them may
-- be in remove_program, before thread_kill, in the pthread_join of a thread, or behind `free` and before the
-- node is taken out.
pub data Phase : Type 0 where
  absent idle starting returned : Phase
  creating : ℕ → Phase
  looping at_semaphore woken : Option ℕ → Phase
  killing unlinking : ℕ → Phase
  joining : ℕ → ℕ → Phase

-- The receiver is about to free a payload, or receives the next packet.
pub data ReceiverPhase : Type 0 where
  receiving : ReceiverPhase
  freeing : ℕ → ReceiverPhase

-- `console` and the memory that the threads share; main is thread 0. `signalled` are the
-- threads with a signal to handle, `joiner` is the thread that joins another or has joined it.
pub record ConsoleState : Type 0 where
  pub programs : List ℕ
  pub program_at : ℕ → Option Program
  pub limit : ℕ
  pub phases : ℕ → Phase
  pub threads : ℕ
  pub signalled : ℕ → Bool
  pub joiner : ℕ → Option ℕ
  pub receiver : ReceiverPhase
  pub message : Option ℕ
  pub text_at : ℕ → Option (List ℕ)
  pub texts : ℕ
  pub arriving : List Packet
  pub sent : List Packet

-- `waits` is a thread that cannot go on, `broken` is undefined, `over` is the end of the process,
-- `terminating` is the call of terminate.
pub data Outcome : Type 0 where
  waits broken over terminating : Outcome
  goes : ConsoleState → Outcome

abbrev pub max_programs : ℕ
max_programs = 10

abbrev pub put {ℓ} : {A : Type ℓ} → ℕ → A → (ℕ → A) → ℕ → A
put i v f a = if a == i then v else f a

abbrev pub set_phase : ℕ → Phase → ConsoleState → ConsoleState
set_phase i phase s = record s { phases = put i phase s.phases }

abbrev pub set_program : ℕ → Option Program → ConsoleState → ConsoleState
set_program p pr s = record s { program_at = put p pr s.program_at }

abbrev pub set_text : ℕ → Option (List ℕ) → ConsoleState → ConsoleState
set_text t text s = record s { text_at = put t text s.text_at }

-- OP_PROGRAM_KILLED
abbrev pub op_program_killed : ℕ
op_program_killed = 22

unfoldable pub notify_kernel : ℤ → ConsoleState → ConsoleState
notify_kernel pid s =
    let header = record (protocol_header console op_program_killed 0) {
      usrpid = to_unsigned 256 pid;
    } in
    record s { sent = s.sent ++ (protocol_packet header [] ∷ []) }

abbrev pub first_of : List ℕ → Option ℕ
first_of [] = none
first_of (p ∷ ps) = some p

abbrev pub last_of : List ℕ → Option ℕ
last_of [] = none
last_of (p ∷ []) = some p
last_of (p ∷ q ∷ ps) = last_of (q ∷ ps)

abbrev pub unlink : ℕ → List ℕ → List ℕ
unlink p [] = []
unlink p (q ∷ qs) = if q == p then unlink p qs else q ∷ unlink p qs

abbrev pub has_element : ℕ → List ℕ → Bool
has_element p [] = false
has_element p (q ∷ qs) = if p == q then true else has_element p qs

-- get_program, and the search of kill_program: the inner `none` is NULL.
unfoldable pub get_program : ℤ → List ℕ → (ℕ → Option Program) → Option (Option ℕ)
get_program pid [] program_at = some none
get_program pid (p ∷ ps) program_at = do
  element ← program_at p
  let rest = get_program pid ps program_at
  if eq_ℤ element.pid pid then some (some p) else rest
