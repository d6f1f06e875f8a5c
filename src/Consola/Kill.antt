-- ===== src/Consola/Kill.antt =====
-- Runs of the threads of Consola/src: `kill`.
use esthe_r.Base.{
  ℕ, suc, ◌≡◌, refl, ◌∙◌, Bool, true, false, Option, none, some, List, [], ◌∷◌, ◌==◌, arith, ==_iff,
}
use esthe_r.Base.Int.{ℤ, pos}
use esthe_r.Utils.{strtoi}
use esthe_r.Consola.{
  Program, program_killed, idle, returned, looping, at_semaphore, ConsoleState, waits, broken, goes,
  put, unlink, get_program, notify_kernel, set_phase, set_program,
}
use esthe_r.Consola.Steps.{is_thread, join_thread, thread_goes}
use esthe_r.Consola.Run.{kill, goes_on, takes_signal, step}
use esthe_r.Consola.Messages.{run_all}
use esthe_r.Consola.Killing.{
  get_program-has_element, Runs, done, next, run_all-Runs, marked_program, marked, joining_state,
  woken_state, freed_state, unlinked_state, kill_step, loop_step, wait_step, return_step, join_step,
  self_step, signal_step, joined_step, unlink_step,
}

-- The Kernel has been told of the program, it is freed and out of the list, and main is at the prompt.
pub record Removed (p : ℕ) (program : Program) (s t : ConsoleState) : Type 0 where
  pub unlinked : t.programs ≡ unlink p s.programs
  pub freed : t.program_at p ≡ none
  pub told : t.sent ≡ (notify_kernel program.pid s).sent
  pub at_prompt : t.phases 0 ≡ idle

-- The program when its thread has waited.
abbrev waited : Program → Program
waited program = record program { status = program_killed }

-- The steps behind the wait of the thread.
abbrev thread_done : ℕ → Program → ConsoleState → ConsoleState
thread_done p program s =
    set_phase program.tid returned
      (woken_state p program.tid (set_program p (some (waited program)) s))

abbrev main_done : ℕ → ConsoleState → ConsoleState
main_done p s = unlinked_state 0 p (freed_state 0 p s)

-- The program is not that of main, and nothing joins its thread.
module _ (strtol : List ℕ → ℤ × List ℕ) (program_size : ℕ) (s : ConsoleState) (p n : ℕ)
    (program : Program) (argument : List ℕ) (prompt : s.phases 0 ≡ idle)
    (asked : strtoi strtol argument ≡ pos (suc n))
    (found : get_program (pos (suc n)) s.programs s.program_at ≡ some (some p))
    (here : s.program_at p ≡ some program) (handler : (program.tid == 0) ≡ false)
    (free : is_thread program.tid (s.joiner 0) ≡ false) (alone : s.joiner program.tid ≡ none) where
  main_apart : (0 == program.tid) ≡ false
  main_apart = ground (arith, handler)

  same_thread : (program.tid == program.tid) ≡ true
  same_thread = (==_iff program.tid program.tid).1 refl

  same_program : (p == p) ≡ true
  same_program = (==_iff p p).1 refl

  asked_kill : step strtol program_size (kill (some argument)) s ≡ goes (marked 0 p program s)
  asked_kill = kill_step strtol program_size p program s n argument prompt asked found here

  module _ (waiting : s.phases program.tid ≡ at_semaphore (some p)) where
    -- Main joins first, and waits.
    abbrev joined_first : ConsoleState
    joined_first = joining_state p program.tid (marked 0 p program s)

    abbrev handled : ConsoleState
    handled = record joined_first { signalled = put program.tid false joined_first.signalled }

    first_join :
        (c : Option (List ℕ))
        → step strtol program_size (goes_on 0 c) (marked 0 p program s) ≡ goes joined_first
    unfolding notify_kernel
    first_join c =
        join_step strtol program_size p (marked_program program) (marked 0 p program s) c refl
          (rw same_program refl) handler free alone

    main_waits : (c : Option (List ℕ)) → step strtol program_size (goes_on 0 c) joined_first ≡ waits
    unfolding step thread_goes join_thread notify_kernel
    main_waits c = rw (handler, waiting) refl

    main_first :
        (inside : Bool) (c d e f g : Option (List ℕ))
        → Runs strtol program_size
            (kill (some argument)
              ∷ goes_on 0 c
              ∷ takes_signal program.tid inside
              ∷ goes_on program.tid d
              ∷ goes_on program.tid e
              ∷ goes_on 0 f
              ∷ goes_on 0 g
              ∷ [])
            s
            (main_done p (thread_done p program handled))
    unfolding notify_kernel
    main_first inside c d e f g =
        let ended = thread_done p program handled in
        next (marked 0 p program s) asked_kill (
          next joined_first (first_join c) (
            next handled
              (signal_step strtol program_size p (marked_program program) joined_first program.tid
                program.sem inside (rw same_thread refl) (rw handler waiting) (rw same_program refl)
                refl)
              (next (woken_state p program.tid (set_program p (some (waited program)) handled))
                (wait_step strtol program_size p (marked_program program) handled program.tid
                  program.sem d (rw handler waiting) (rw same_program refl) refl)
                (next ended
                  (return_step strtol program_size p (waited program) _ program.tid e
                    (rw same_thread refl) (rw same_program refl) refl)
                  (next (freed_state 0 p ended)
                    (joined_step strtol program_size p (waited program) ended program.tid f
                      (rw main_apart refl) (rw same_thread refl) (rw same_program refl))
                    (next (main_done p ended)
                      (unlink_step strtol program_size p (waited program) _ 0 g refl)
                      (done (main_done p ended))))))))

    -- The thread returns first.
    abbrev returned_first : ConsoleState
    returned_first = thread_done p program (marked 0 p program s)

    thread_first :
        (c d e f g : Option (List ℕ))
        → Runs strtol program_size
            (kill (some argument)
              ∷ goes_on program.tid c
              ∷ goes_on program.tid d
              ∷ goes_on 0 e
              ∷ goes_on 0 f
              ∷ goes_on 0 g
              ∷ [])
            s
            (main_done p (joining_state p program.tid returned_first))
    unfolding notify_kernel
    thread_first c d e f g =
        let k1 = marked 0 p program s in
        let k4 = joining_state p program.tid returned_first in
        next k1 asked_kill (
          next (woken_state p program.tid (set_program p (some (waited program)) k1))
            (wait_step strtol program_size p (marked_program program) k1 program.tid program.sem c
              (rw handler waiting) (rw same_program refl) refl)
            (next returned_first
              (return_step strtol program_size p (waited program) _ program.tid d
                (rw same_thread refl) (rw same_program refl) refl)
              (next k4
                (join_step strtol program_size p (waited program) returned_first e
                  (rw main_apart refl) (rw same_program refl) handler free alone)
                (next (freed_state 0 p k4)
                  (joined_step strtol program_size p (waited program) k4 program.tid f refl
                    (rw (handler, same_thread) refl) (rw same_program refl))
                  (next (main_done p k4)
                    (unlink_step strtol program_size p (waited program) _ 0 g refl)
                    (done (main_done p k4)))))))

    -- For `kill` at the prompt with the number of a program whose thread waits at its semaphore, and is
    -- joined by no thread: main waits in its join until that thread has returned; if main joins first, the
    -- thread handles the signal and then goes on until it returns, or if the thread returns before
    -- main joins it, then main goes on, the Kernel has been told of the program, the program is freed and
    -- out of the list, and main is at the prompt again.
    pub kill-Removed :
        (inside : Bool) (c d e f g : Option (List ℕ))
        → (run_all strtol program_size (kill (some argument) ∷ goes_on 0 c ∷ goes_on 0 d ∷ []) s
            ≡ waits)
          × ((t : ConsoleState) × (run_all strtol program_size
                  (kill (some argument)
                    ∷ goes_on 0 c
                    ∷ takes_signal program.tid inside
                    ∷ goes_on program.tid d
                    ∷ goes_on program.tid e
                    ∷ goes_on 0 f
                    ∷ goes_on 0 g
                    ∷ [])
                  s
                ≡ goes t)
              × Removed p program s t)
          × ((t : ConsoleState) × (run_all strtol program_size
                  (kill (some argument)
                    ∷ goes_on program.tid c
                    ∷ goes_on program.tid d
                    ∷ goes_on 0 e
                    ∷ goes_on 0 f
                    ∷ goes_on 0 g
                    ∷ [])
                  s
                ≡ goes t)
              × Removed p program s t)
    unfolding run_all notify_kernel
    kill-Removed inside c d e f g = (
      rw (asked_kill, first_join c, main_waits d) refl,
      (
        main_done p (thread_done p program handled),
        run_all-Runs strtol program_size [] (main_first inside c d e f g),
        record { unlinked = refl; freed = rw same_program refl; told = refl; at_prompt = refl },
      ),
      (
        main_done p (joining_state p program.tid returned_first),
        run_all-Runs strtol program_size [] (thread_first c d e f g),
        record { unlinked = refl; freed = rw same_program refl; told = refl; at_prompt = refl },
      ),
    )

  module _ (testing : s.phases program.tid ≡ looping (some p)) where
    -- The thread is about to remove the program too.
    abbrev both : ConsoleState
    both =
        marked program.tid p (marked_program program)
          (joining_state p program.tid (marked 0 p program s))

    -- The thread has removed the program, and returned.
    abbrev removed_first : ConsoleState
    removed_first = unlinked_state program.tid p (freed_state program.tid p both)

    both_remove :
        (c d e f : Option (List ℕ))
        → Runs strtol program_size
            (kill (some argument)
              ∷ goes_on 0 c
              ∷ goes_on program.tid d
              ∷ goes_on program.tid e
              ∷ goes_on program.tid f
              ∷ [])
            s
            removed_first
    unfolding notify_kernel
    both_remove c d e f =
        let k1 = marked 0 p program s in
        let k2 = joining_state p program.tid k1 in
        let listed = get_program-has_element (pos (suc n)) s.programs s.program_at p found in
        next k1 asked_kill (
          next k2
            (join_step strtol program_size p (marked_program program) k1 c refl
              (rw same_program refl) handler free alone)
            (next both
              (loop_step strtol program_size p (marked_program program) k2 program.tid d
                (rw handler testing) (rw same_program refl) refl listed)
              (next (freed_state program.tid p both)
                (self_step strtol program_size p (marked_program (marked_program program)) both e
                  (rw same_thread refl) (rw same_program refl))
                (next removed_first
                  (unlink_step strtol program_size p program (freed_state program.tid p both)
                    program.tid f (rw same_thread refl))
                  (done removed_first)))))

    breaks : (c : Option (List ℕ)) → step strtol program_size (goes_on 0 c) removed_first ≡ broken
    unfolding step thread_goes join_thread notify_kernel
    breaks c = rw (main_apart, handler, same_thread, same_program) refl

    -- For `kill` at the prompt with the number of a program whose thread is about to test its loop, and is
    -- joined by no thread: when main has joined the thread, the thread removes the program too, frees
    -- it and returns; what main does then is undefined, for the program is freed twice.
    pub kill-broken :
        (c d e f g : Option (List ℕ))
        → run_all strtol program_size
            (kill (some argument)
              ∷ goes_on 0 c
              ∷ goes_on program.tid d
              ∷ goes_on program.tid e
              ∷ goes_on program.tid f
              ∷ goes_on 0 g
              ∷ [])
            s
          ≡ broken
    unfolding run_all
    kill-broken c d e f g =
        run_all-Runs strtol program_size (goes_on 0 g ∷ []) (both_remove c d e f)
        ∙ rw (breaks g) refl
