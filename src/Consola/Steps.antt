-- ===== src/Consola/Steps.antt =====
-- The steps of main and of the threads of the programs in Consola/src: Consola.c, console.c and
-- program_handler.c.
use esthe_r.Base.{ℕ, zero, suc, Bool, true, false, ◌&&◌, Option, none, some, List, [], ◌∷◌, ◌++◌}
use esthe_r.Base.{length, leb, ltb, ◌==◌, if◌then◌else◌}
use esthe_r.Base.Int.{ℤ, pos, negsuc}
use esthe_r.Utils.{strtoi}
use esthe_r.Protocol.{protocol_header, protocol_packet}
use esthe_r.Protocol.Opcodes.{console, op_new_program}
use esthe_r.Consola.{
  Program, ProgramStatus, program_active, program_ended, program_killed, Phase, idle, starting,
  returned, creating, looping, at_semaphore, woken, killing, joining, unlinking, put, ConsoleState,
  Outcome, waits, broken, over, goes, max_programs, set_phase, set_program, set_text, notify_kernel,
  last_of, unlink, has_element, get_program,
}

-- mlist_remove of an element that is in the list, up to thread_kill in destroy_program.
unfoldable pub destroy_program : ℕ → ℕ → Option Program → ConsoleState → Outcome
destroy_program i p none s = broken
destroy_program i p (some program) s = goes (
    set_phase i (killing p) (
      set_program p (some (record program { status = program_killed; sem = suc program.sem }))
        (notify_kernel program.pid s)))

abbrev pub after_removal : ℕ → Phase
after_removal i = if i == 0 then idle else returned

unfoldable pub remove_program : ℕ → ℕ → ConsoleState → Outcome
remove_program i p s =
    if has_element p s.programs
    then destroy_program i p (s.program_at p) s
    else goes (set_phase i (after_removal i) s)

-- thread_sem_destroy and free, behind thread_kill.
abbrev pub free_program : ℕ → ℕ → Option Program → ConsoleState → Outcome
free_program i p none s = broken
free_program i p (some program) s = goes (set_phase i (unlinking p) (set_program p none s))

-- The signal, and the begin of pthread_join, of a thread with no joiner.
abbrev pub begin_join : Option ℕ → ℕ → ℕ → ℕ → ConsoleState → Outcome
begin_join (some j) i p tid s = broken
begin_join none i p tid s = goes (
    set_phase i (joining p tid)
      (record s { signalled = put tid true s.signalled; joiner = put tid (some i) s.joiner }))

abbrev pub is_thread : ℕ → Option ℕ → Bool
is_thread tid none = false
is_thread tid (some j) = j == tid

-- A thread that kills itself, or one that joins it, goes on: the join fails.
unfoldable pub thread_kill : ℕ → ℕ → Option Program → ConsoleState → Outcome
thread_kill i p none s = broken
thread_kill i p (some program) s =
    if program.tid == i
    then free_program i p (some program) s
    else if is_thread program.tid (s.joiner i)
    then free_program i p (some program) s
    else begin_join (s.joiner program.tid) i p program.tid s

-- pthread_join returns when the thread, whose phase is given, has returned.
unfoldable pub join_thread : Phase → ℕ → ℕ → ConsoleState → Outcome
join_thread returned i p s = free_program i p (s.program_at p) s
join_thread _ i p s = waits

abbrev pub is_down : Option Program → Bool
is_down none = false
is_down (some program) = program.sem == 0

-- Whether a thread with this phase would block in sem_wait.
abbrev pub blocks : Phase → (ℕ → Option Program) → Bool
blocks (at_semaphore (some p)) program_at = is_down (program_at p)
blocks _ program_at = false

-- A thread handles a signal: `inside` tells whether it has called sem_wait yet, which returns -1 then.
unfoldable pub signal_dummy_action : ℕ → Bool → ConsoleState → Outcome
signal_dummy_action i inside s =
    if s.signalled i
    then (if inside && blocks (s.phases i) s.program_at
        then over
        else goes (record s { signalled = put i false s.signalled }))
    else waits

-- remove_node
unfoldable pub unlink_program : ℕ → ℕ → ConsoleState → Outcome
unlink_program i p s =
    goes (set_phase i (after_removal i) (record s { programs = unlink p s.programs }))

-- start_program_thread, with the path, up to thread_create.
unfoldable pub start_program_thread : Option (List ℕ) → ConsoleState → Outcome
start_program_thread none s = goes s
start_program_thread (some path) s =
    if leb max_programs (length s.programs)
    then goes s
    else goes (
        set_phase 0 (creating s.threads)
          (set_phase s.threads starting (record s { threads = suc s.threads })))

-- Its end: the semaphore, the status and mlist_append.
unfoldable pub append_program : ℕ → ConsoleState → Outcome
append_program tid s = goes (
    set_phase 0 idle (
      set_program s.limit
        (some (record {
          pid = negsuc 0;
          tid = tid;
          sem = 0;
          status = program_active;
          exitcode = pos 0;
        }))
        (record s { programs = s.programs ++ (s.limit ∷ []); limit = suc s.limit })))

abbrev pub remove_found : Option (Option ℕ) → ConsoleState → Outcome
remove_found none s = broken
remove_found (some none) s = goes s
remove_found (some (some p)) s = remove_program 0 p s

abbrev pub kill_pid : ℤ → ConsoleState → Outcome
kill_pid (pos (suc n)) s = remove_found (get_program (pos (suc n)) s.programs s.program_at) s
kill_pid _ s = goes s

unfoldable pub kill_program : (List ℕ → ℤ × List ℕ) → Option (List ℕ) → ConsoleState → Outcome
kill_program strtol none s = goes s
kill_program strtol (some argument) s = kill_pid (strtoi strtol argument) s

abbrev pub remove_last : ℕ → Option ℕ → ConsoleState → Outcome
remove_last i none s = goes (set_phase i returned s)
remove_last i (some p) s = remove_program i p s

-- mlist_last, then the file of the program: its content, or `none` if it cannot be read.
unfoldable pub begin_handler : ℕ → ℕ → Option (List ℕ) → ConsoleState → Outcome
begin_handler program_size i none s = remove_last i (last_of s.programs) s
begin_handler program_size i (some payload) s =
    if ltb (length payload) program_size
    then goes (
        set_phase i (looping (last_of s.programs)) (record s {
          sent =
              s.sent
              ++ (protocol_packet (protocol_header console op_new_program (length payload)) payload
                  ∷ []);
        }))
    else broken

-- sem_wait, with the value of the semaphore.
abbrev pub sem_wait : ℕ → ℕ → ℕ → Program → ConsoleState → Outcome
sem_wait zero i p program s = waits
sem_wait (suc n) i p program s =
    goes (set_phase i (woken (some p)) (set_program p (some (record program { sem = n })) s))

-- The test of the loop, and what follows the loop.
abbrev pub loop_status : ProgramStatus → ℕ → ℕ → ConsoleState → Outcome
loop_status program_active i p s = goes (set_phase i (at_semaphore (some p)) s)
loop_status program_ended i p s = remove_program i p s
loop_status program_killed i p s = remove_program i p s

unfoldable pub loop_handler : ℕ → ℕ → Option Program → ConsoleState → Outcome
loop_handler i p none s = broken
loop_handler i p (some program) s = loop_status program.status i p s

unfoldable pub wait_handler : ℕ → ℕ → Option Program → ConsoleState → Outcome
wait_handler i p none s = broken
wait_handler i p (some program) s = sem_wait program.sem i p program s

-- print of a message and free, with what is at its pointer.
abbrev pub free_message : Option (List ℕ) → ℕ → ℕ → ℕ → ConsoleState → Outcome
free_message none t i p s = broken
free_message (some text) t i p s = goes (set_phase i (looping (some p)) (set_text t none s))

abbrev pub print_message : Option ℕ → ℕ → ℕ → ConsoleState → Outcome
print_message none i p s = broken
print_message (some t) i p s = free_message (s.text_at t) t i p s

-- The switch behind the semaphore.
abbrev pub wake_status : ProgramStatus → ℕ → ℕ → ConsoleState → Outcome
wake_status program_active i p s = print_message s.message i p s
wake_status program_killed i p s = goes (set_phase i returned s)
wake_status program_ended i p s = goes (set_phase i (looping (some p)) s)

unfoldable pub wake_handler : ℕ → ℕ → Option Program → ConsoleState → Outcome
wake_handler i p none s = broken
wake_handler i p (some program) s = wake_status program.status i p s

-- A thread goes on, from where it is; `content` is that of the file it reads.
unfoldable pub thread_goes : ℕ → ℕ → Option (List ℕ) → Phase → ConsoleState → Outcome
thread_goes program_size i content starting s = begin_handler program_size i content s
thread_goes program_size i content (looping (some p)) s = loop_handler i p (s.program_at p) s
thread_goes program_size i content (at_semaphore (some p)) s = wait_handler i p (s.program_at p) s
thread_goes program_size i content (at_semaphore none) s = broken
thread_goes program_size i content (woken (some p)) s = wake_handler i p (s.program_at p) s
thread_goes program_size i content (looping none) s = broken
thread_goes program_size i content (woken none) s = broken
thread_goes program_size i content (killing p) s = thread_kill i p (s.program_at p) s
thread_goes program_size i content (joining p tid) s = join_thread (s.phases tid) i p s
thread_goes program_size i content (unlinking p) s = unlink_program i p s
thread_goes program_size i content (creating tid) s = append_program tid s
thread_goes program_size i content _ s = waits
