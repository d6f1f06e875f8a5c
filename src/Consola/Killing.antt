-- ===== src/Consola/Killing.antt =====
-- Runs of the threads of Consola/src: `kill`, step by step.
use esthe_r.Base.{
  ℕ, suc, ◌≡◌, refl, sym, Bool, ◌&&◌, true, false, Option, none, some, List, [], ◌∷◌, ◌++◌, ◌==◌,
  arith, Bool-cases, Option-cases, inl, inr, ==_iff, some-injective,
}
use esthe_r.Base.Int.{ℤ, pos, eq_ℤ}
use esthe_r.Utils.{strtoi}
use esthe_r.Consola.{
  Program, program_killed, idle, returned, looping, at_semaphore, woken, killing, joining,
  unlinking, ConsoleState, goes, put, unlink, has_element, get_program, notify_kernel, set_phase,
  set_program,
}
use esthe_r.Consola.Steps.{
  destroy_program, remove_program, thread_kill, join_thread, is_thread, signal_dummy_action,
  unlink_program, after_removal, kill_program, loop_handler, wait_handler, wake_handler,
  thread_goes,
}
use esthe_r.Consola.Run.{Action, kill, goes_on, takes_signal, step}
use esthe_r.Consola.Messages.{run_all}

pub get_program-has_element :
    (pid : ℤ) (ps : List ℕ) (program_at : ℕ → Option Program) (p : ℕ)
    → get_program pid ps program_at ≡ some (some p)
    → has_element p ps ≡ true
unfolding get_program
get_program-has_element pid [] program_at p e =
    absurd (let f : none ≡ some p = some-injective none (some p) e in cc)
get_program-has_element pid (q ∷ ps) program_at p e = elim (Option-cases (program_at q)) [
  | inl f ↦ absurd (let g : none ≡ some (some p) = rw f at e in cc)
  | inr (c, f) ↦ elim (Bool-cases (eq_ℤ c.pid pid)) [
    | inl t ↦
        let g : some q ≡ some p = some-injective (some q) (some p) (rw (f, t) at e) in
        let h : (p == q) ≡ true = (==_iff p q).1 (sym (some-injective q p g)) in rw h refl
    | inr t ↦
        let g = get_program-has_element pid ps program_at p (rw (f, t) at e) in
        elim (Bool-cases (p == q)) [ inl h ↦ rw h refl | inr h ↦ rw h g ]
  ]
]

-- Steps that go from one state to another.
pub data Runs (strtol : List ℕ → ℤ × List ℕ) (program_size : ℕ)
    : List Action → ConsoleState → ConsoleState → Type 0 where
  done : (s : ConsoleState) → Runs strtol program_size [] s s
  next :
      {a : Action} {more : List Action} {s u : ConsoleState} (t : ConsoleState)
      → step strtol program_size a s ≡ goes t
      → Runs strtol program_size more t u
      → Runs strtol program_size (a ∷ more) s u

pub run_all-Runs :
    (strtol : List ℕ → ℤ × List ℕ) (program_size : ℕ) (later : List Action) {now : List Action}
    {s u : ConsoleState}
    → Runs strtol program_size now s u
    → run_all strtol program_size (now ++ later) s ≡ run_all strtol program_size later u
unfolding run_all
run_all-Runs strtol program_size later (done s) = refl
run_all-Runs strtol program_size later (next t e r) =
    rw e (run_all-Runs strtol program_size later r)

-- The program that is killed, with its semaphore raised.
abbrev pub marked_program : Program → Program
marked_program program = record program { status = program_killed; sem = suc program.sem }

-- The state after the first part of remove_program, by the thread i.
abbrev pub marked : ℕ → ℕ → Program → ConsoleState → ConsoleState
marked i p program s =
    set_phase i (killing p)
      (set_program p (some (marked_program program)) (notify_kernel program.pid s))

-- The thread i joins the thread of the program.
abbrev pub joining_state : ℕ → ℕ → ConsoleState → ConsoleState
joining_state p tid s =
    set_phase 0 (joining p tid)
      (record s { signalled = put tid true s.signalled; joiner = put tid (some 0) s.joiner })

abbrev pub woken_state : ℕ → ℕ → ConsoleState → ConsoleState
woken_state p tid s = set_phase tid (woken (some p)) s

abbrev pub freed_state : ℕ → ℕ → ConsoleState → ConsoleState
freed_state i p s = set_phase i (unlinking p) (set_program p none s)

abbrev pub unlinked_state : ℕ → ℕ → ConsoleState → ConsoleState
unlinked_state i p s = set_phase i (after_removal i) (record s { programs = unlink p s.programs })

module _ (strtol : List ℕ → ℤ × List ℕ) (program_size : ℕ) (p : ℕ) (program : Program) where
  pub kill_step :
      (s : ConsoleState) (n : ℕ) (argument : List ℕ)
      → s.phases 0 ≡ idle
      → strtoi strtol argument ≡ pos (suc n)
      → get_program (pos (suc n)) s.programs s.program_at ≡ some (some p)
      → s.program_at p ≡ some program
      → step strtol program_size (kill (some argument)) s ≡ goes (marked 0 p program s)
  unfolding step kill_program remove_program destroy_program
  kill_step s n argument prompt asked found here =
      let listed = get_program-has_element (pos (suc n)) s.programs s.program_at p found in
      rw (prompt, asked, found, listed, here) refl

  pub loop_step :
      (s : ConsoleState) (i : ℕ) (c : Option (List ℕ))
      → s.phases i ≡ looping (some p)
      → s.program_at p ≡ some program
      → program.status ≡ program_killed
      → has_element p s.programs ≡ true
      → step strtol program_size (goes_on i c) s ≡ goes (marked i p program s)
  unfolding step thread_goes loop_handler remove_program destroy_program
  loop_step s i c at here killed listed = rw (at, here, killed, listed, here) refl

  pub wait_step :
      (s : ConsoleState) (i n : ℕ) (c : Option (List ℕ))
      → s.phases i ≡ at_semaphore (some p)
      → s.program_at p ≡ some program
      → program.sem ≡ suc n
      → step strtol program_size (goes_on i c) s
        ≡ goes (woken_state p i (set_program p (some (record program { sem = n })) s))
  unfolding step thread_goes wait_handler
  wait_step s i n c at here raised = rw (at, here, raised) refl

  pub return_step :
      (s : ConsoleState) (i : ℕ) (c : Option (List ℕ))
      → s.phases i ≡ woken (some p)
      → s.program_at p ≡ some program
      → program.status ≡ program_killed
      → step strtol program_size (goes_on i c) s ≡ goes (set_phase i returned s)
  unfolding step thread_goes wake_handler
  return_step s i c at here killed = rw (at, here, killed) refl

  pub join_step :
      (s : ConsoleState) (c : Option (List ℕ))
      → s.phases 0 ≡ killing p
      → s.program_at p ≡ some program
      → (program.tid == 0) ≡ false
      → is_thread program.tid (s.joiner 0) ≡ false
      → s.joiner program.tid ≡ none
      → step strtol program_size (goes_on 0 c) s ≡ goes (joining_state p program.tid s)
  unfolding step thread_goes thread_kill
  join_step s c at here apart free alone = rw (at, here, apart, free, alone) refl

  -- A thread that kills itself goes on at once.
  pub self_step :
      (s : ConsoleState) (c : Option (List ℕ))
      → s.phases program.tid ≡ killing p
      → s.program_at p ≡ some program
      → step strtol program_size (goes_on program.tid c) s ≡ goes (freed_state program.tid p s)
  unfolding step thread_goes thread_kill
  self_step s c at here =
      let t : (program.tid == program.tid) ≡ true = (==_iff program.tid program.tid).1 refl in
      rw (at, here, t) refl

  -- The signal finds the semaphore raised.
  pub signal_step :
      (s : ConsoleState) (i n : ℕ) (inside : Bool)
      → s.signalled i ≡ true
      → s.phases i ≡ at_semaphore (some p)
      → s.program_at p ≡ some program
      → program.sem ≡ suc n
      → step strtol program_size (takes_signal i inside) s
        ≡ goes (record s { signalled = put i false s.signalled })
  unfolding step signal_dummy_action
  signal_step s i n inside signalled at here raised =
      let t : (suc n == 0) ≡ false = ground arith in
      let u : (inside && false) ≡ false = ground arith in
      rw (signalled, at, here, raised, t, u) refl

  pub joined_step :
      (s : ConsoleState) (tid : ℕ) (c : Option (List ℕ))
      → s.phases 0 ≡ joining p tid
      → s.phases tid ≡ returned
      → s.program_at p ≡ some program
      → step strtol program_size (goes_on 0 c) s ≡ goes (freed_state 0 p s)
  unfolding step thread_goes join_thread
  joined_step s tid c at ended here = rw (at, ended, here) refl

  pub unlink_step :
      (s : ConsoleState) (i : ℕ) (c : Option (List ℕ))
      → s.phases i ≡ unlinking p
      → step strtol program_size (goes_on i c) s ≡ goes (unlinked_state i p s)
  unfolding step thread_goes unlink_program
  unlink_step s i c at = rw at refl
