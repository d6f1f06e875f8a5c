-- ===== src/Consola/Goes.antt =====
-- The steps of main and of the threads of the programs lead to valid states.
use esthe_r.Base.{
  ℕ, zero, suc, ◌≡◌, refl, ap, Bool, ◌&&◌, false, Option, none, some, List, length, leb, ltb, ◌==◌,
  Bool-cases, Option-cases, inl, inr,
}
use esthe_r.Base.Int.{ℤ, pos, negsuc}
use esthe_r.Consola.{
  Program, ProgramStatus, program_active, program_ended, program_killed, Phase, absent, idle,
  starting, returned, creating, looping, at_semaphore, woken, killing, joining, unlinking,
  ConsoleState, Outcome, goes, max_programs, set_phase, set_program, set_text, notify_kernel,
  last_of, put, has_element,
}
use esthe_r.Consola.Steps.{
  destroy_program, after_removal, remove_program, free_program, begin_join, is_thread, thread_kill,
  join_thread, blocks, signal_dummy_action, start_program_thread, remove_found, kill_pid,
  kill_program, begin_handler, remove_last, sem_wait, loop_status, loop_handler, wait_handler,
  free_message, print_message, wake_status, wake_handler,
}
use esthe_r.Consola.Valid.{
  ValidState, is_unlinking, is_absent, pending, Valid-live, Valid-phase, Valid-freed, Valid-created,
}

-- If the console goes on, its state is valid.
abbrev pub Goes : Outcome → Type 0
Goes (goes s) = ValidState s
Goes _ = Unit

pub put-live :
    (p : ℕ) (c : Program) (program_at : ℕ → Option Program) (q : ℕ) (d : Program)
    → program_at q ≡ some d
    → (e : Program) × (put p (some c) program_at q ≡ some e)
put-live p c program_at q d e = elim (Bool-cases (q == p)) [
  | inl t ↦ (c, rw t refl)
  | inr t ↦ (d, rw t e)
]

-- A thread that changes a program goes on.
changed :
    (i p : ℕ) (c : Program) (phase : Phase) (s : ConsoleState)
    → ValidState s
    → is_unlinking (s.phases i) ≡ false
    → is_absent (s.phases i) ≡ false
    → pending phase ≡ 0
    → ValidState (set_phase i phase (set_program p (some c) s))
changed i p c phase s v n a e =
    Valid-phase s.programs (put p (some c) s.program_at) s.phases s.threads
      (Valid-live s.programs s.program_at s.phases s.threads v _ (put-live p c s.program_at)) i
      phase n a e

pub pending-after_removal : (i : ℕ) → pending (after_removal i) ≡ 0
pending-after_removal i = elim (Bool-cases (i == 0)) [ inl t ↦ rw t refl | inr t ↦ rw t refl ]

pub remove_program-Goes :
    (i p : ℕ) (s : ConsoleState)
    → ValidState s
    → is_unlinking (s.phases i) ≡ false
    → is_absent (s.phases i) ≡ false
    → Goes (remove_program i p s)
unfolding remove_program destroy_program notify_kernel
remove_program-Goes i p s v n a = elim (Bool-cases (has_element p s.programs)) [
  | inl t ↦ rw t (elim (Option-cases (s.program_at p)) [
    | inl e ↦ rw e tt
    | inr (c, e) ↦ rw e (
        changed i p (record c { status = program_killed; sem = suc c.sem }) (killing p) s v n a
          refl)
  ])
  | inr t ↦ rw t (
      Valid-phase s.programs s.program_at s.phases s.threads v i (after_removal i) n a
        (pending-after_removal i))
]

free_program-Goes :
    (i p : ℕ) (program : Option Program) (s : ConsoleState)
    → ValidState s
    → is_unlinking (s.phases i) ≡ false
    → is_absent (s.phases i) ≡ false
    → Goes (free_program i p program s)
free_program-Goes i p none s v n a = tt
free_program-Goes i p (some program) s v n a =
    Valid-freed s.programs s.program_at s.phases s.threads v i p n a

begin_join-Goes :
    (joiner : Option ℕ) (i p tid : ℕ) (s : ConsoleState)
    → ValidState s
    → s.phases i ≡ killing p
    → Goes (begin_join joiner i p tid s)
begin_join-Goes (some j) i p tid s v e = tt
begin_join-Goes none i p tid s v e =
    Valid-phase s.programs s.program_at s.phases s.threads v i (joining p tid) (ap is_unlinking e)
      (ap is_absent e) refl

pub thread_kill-Goes :
    (i p : ℕ) (program : Option Program) (s : ConsoleState)
    → ValidState s
    → s.phases i ≡ killing p
    → Goes (thread_kill i p program s)
unfolding thread_kill
thread_kill-Goes i p none s v e = tt
thread_kill-Goes i p (some program) s v e =
    let freed = free_program-Goes i p (some program) s v (ap is_unlinking e) (ap is_absent e) in
    elim (Bool-cases (program.tid == i)) [
      | inl t ↦ rw t freed
      | inr t ↦ elim (Bool-cases (is_thread program.tid (s.joiner i))) [
        | inl u ↦ rw (t, u) freed
        | inr u ↦ rw (t, u) (begin_join-Goes (s.joiner program.tid) i p program.tid s v e)
      ]
    ]

pub join_thread-Goes :
    (phase : Phase) (i p tid : ℕ) (s : ConsoleState)
    → ValidState s
    → s.phases i ≡ joining p tid
    → Goes (join_thread phase i p s)
unfolding join_thread
join_thread-Goes returned i p tid s v e =
    free_program-Goes i p (s.program_at p) s v (ap is_unlinking e) (ap is_absent e)
join_thread-Goes absent i p tid s v e = tt
join_thread-Goes idle i p tid s v e = tt
join_thread-Goes starting i p tid s v e = tt
join_thread-Goes (creating t) i p tid s v e = tt
join_thread-Goes (looping q) i p tid s v e = tt
join_thread-Goes (at_semaphore q) i p tid s v e = tt
join_thread-Goes (woken q) i p tid s v e = tt
join_thread-Goes (killing q) i p tid s v e = tt
join_thread-Goes (joining q t) i p tid s v e = tt
join_thread-Goes (unlinking q) i p tid s v e = tt

pub signal_dummy_action-Goes :
    (i : ℕ) (inside : Bool) (s : ConsoleState)
    → ValidState s
    → Goes (signal_dummy_action i inside s)
unfolding signal_dummy_action
signal_dummy_action-Goes i inside s v = elim (Bool-cases (s.signalled i)) [
  | inl t ↦ elim (Bool-cases (inside && blocks (s.phases i) s.program_at)) [
    | inl u ↦ rw (t, u) tt
    | inr u ↦ rw (t, u) v
  ]
  | inr t ↦ rw t tt
]

pub start_program_thread-Goes :
    (path : Option (List ℕ)) (s : ConsoleState)
    → ValidState s
    → s.phases 0 ≡ idle
    → Goes (start_program_thread path s)
unfolding start_program_thread
start_program_thread-Goes none s v e = v
start_program_thread-Goes (some path) s v e =
    elim (Bool-cases (leb max_programs (length s.programs))) [
      | inl t ↦ rw t v
      | inr t ↦ rw t (Valid-created s.programs s.program_at s.phases s.threads v e t)
    ]

remove_found-Goes :
    (found : Option (Option ℕ)) (s : ConsoleState)
    → ValidState s
    → s.phases 0 ≡ idle
    → Goes (remove_found found s)
remove_found-Goes none s v e = tt
remove_found-Goes (some none) s v e = v
remove_found-Goes (some (some p)) s v e =
    remove_program-Goes 0 p s v (ap is_unlinking e) (ap is_absent e)

kill_pid-Goes :
    (pid : ℤ) (s : ConsoleState) → ValidState s → s.phases 0 ≡ idle → Goes (kill_pid pid s)
kill_pid-Goes (pos zero) s v e = v
kill_pid-Goes (pos (suc n)) s v e = remove_found-Goes _ s v e
kill_pid-Goes (negsuc n) s v e = v

pub kill_program-Goes :
    (strtol : List ℕ → ℤ × List ℕ) (argument : Option (List ℕ)) (s : ConsoleState)
    → ValidState s
    → s.phases 0 ≡ idle
    → Goes (kill_program strtol argument s)
unfolding kill_program
kill_program-Goes strtol none s v e = v
kill_program-Goes strtol (some argument) s v e = kill_pid-Goes _ s v e

remove_last-Goes :
    (i : ℕ) (last : Option ℕ) (s : ConsoleState)
    → ValidState s
    → s.phases i ≡ starting
    → Goes (remove_last i last s)
remove_last-Goes i none s v e =
    Valid-phase s.programs s.program_at s.phases s.threads v i returned (ap is_unlinking e)
      (ap is_absent e) refl
remove_last-Goes i (some p) s v e = remove_program-Goes i p s v (ap is_unlinking e) (ap is_absent e)

pub begin_handler-Goes :
    (program_size i : ℕ) (content : Option (List ℕ)) (s : ConsoleState)
    → ValidState s
    → s.phases i ≡ starting
    → Goes (begin_handler program_size i content s)
unfolding begin_handler
begin_handler-Goes program_size i none s v e = remove_last-Goes i (last_of s.programs) s v e
begin_handler-Goes program_size i (some payload) s v e =
    elim (Bool-cases (ltb (length payload) program_size)) [
      | inl t ↦ rw t (
          Valid-phase s.programs s.program_at s.phases s.threads v i (looping (last_of s.programs))
            (ap is_unlinking e) (ap is_absent e) refl)
      | inr t ↦ rw t tt
    ]

sem_wait-Goes :
    (sem i p : ℕ) (program : Program) (s : ConsoleState)
    → ValidState s
    → s.phases i ≡ at_semaphore (some p)
    → Goes (sem_wait sem i p program s)
sem_wait-Goes zero i p program s v e = tt
sem_wait-Goes (suc n) i p program s v e =
    changed i p (record program { sem = n }) (woken (some p)) s v (ap is_unlinking e)
      (ap is_absent e) refl

pub wait_handler-Goes :
    (i p : ℕ) (program : Option Program) (s : ConsoleState)
    → ValidState s
    → s.phases i ≡ at_semaphore (some p)
    → Goes (wait_handler i p program s)
unfolding wait_handler
wait_handler-Goes i p none s v e = tt
wait_handler-Goes i p (some program) s v e = sem_wait-Goes program.sem i p program s v e

loop_status-Goes :
    (status : ProgramStatus) (i p : ℕ) (s : ConsoleState)
    → ValidState s
    → s.phases i ≡ looping (some p)
    → Goes (loop_status status i p s)
loop_status-Goes program_active i p s v e =
    Valid-phase s.programs s.program_at s.phases s.threads v i (at_semaphore (some p))
      (ap is_unlinking e) (ap is_absent e) refl
loop_status-Goes program_ended i p s v e =
    remove_program-Goes i p s v (ap is_unlinking e) (ap is_absent e)
loop_status-Goes program_killed i p s v e =
    remove_program-Goes i p s v (ap is_unlinking e) (ap is_absent e)

pub loop_handler-Goes :
    (i p : ℕ) (program : Option Program) (s : ConsoleState)
    → ValidState s
    → s.phases i ≡ looping (some p)
    → Goes (loop_handler i p program s)
unfolding loop_handler
loop_handler-Goes i p none s v e = tt
loop_handler-Goes i p (some program) s v e = loop_status-Goes program.status i p s v e

-- A handler that was woken goes on.
woken_on :
    (i p : ℕ) (phase : Phase) (s : ConsoleState)
    → ValidState s
    → s.phases i ≡ woken (some p)
    → pending phase ≡ 0
    → ValidState (set_phase i phase s)
woken_on i p phase s v e f =
    Valid-phase s.programs s.program_at s.phases s.threads v i phase (ap is_unlinking e)
      (ap is_absent e) f

print_message-Goes :
    (message : Option ℕ) (i p : ℕ) (s : ConsoleState)
    → ValidState s
    → s.phases i ≡ woken (some p)
    → Goes (print_message message i p s)
print_message-Goes none i p s v e = tt
print_message-Goes (some t) i p s v e = freed (s.text_at t)
  where
    freed : (text : Option (List ℕ)) → Goes (free_message text t i p s)
    freed none = tt
    freed (some text) = woken_on i p (looping (some p)) (set_text t none s) v e refl

wake_status-Goes :
    (status : ProgramStatus) (i p : ℕ) (s : ConsoleState)
    → ValidState s
    → s.phases i ≡ woken (some p)
    → Goes (wake_status status i p s)
wake_status-Goes program_active i p s v e = print_message-Goes s.message i p s v e
wake_status-Goes program_ended i p s v e = woken_on i p (looping (some p)) s v e refl
wake_status-Goes program_killed i p s v e = woken_on i p returned s v e refl

pub wake_handler-Goes :
    (i p : ℕ) (program : Option Program) (s : ConsoleState)
    → ValidState s
    → s.phases i ≡ woken (some p)
    → Goes (wake_handler i p program s)
unfolding wake_handler
wake_handler-Goes i p none s v e = tt
wake_handler-Goes i p (some program) s v e = wake_status-Goes program.status i p s v e
