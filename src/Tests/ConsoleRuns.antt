-- ===== src/Tests/ConsoleRuns.antt =====
-- The theorems on the threads of a console at a console with one program.
use esthe_r.Base.{ℕ, ◌≡◌, refl, true, false, none, some, List, [], ◌∷◌, ◌==◌, if◌then◌else◌, codes}
use esthe_r.Base.Int.{ℤ, pos, to_unsigned}
use esthe_r.Protocol.{Packet}
use esthe_r.Consola.{
  Program, program_active, idle, absent, at_semaphore, receiving, ConsoleState, Outcome, goes,
  broken, waits, looping, get_program,
}
use esthe_r.Consola.Run.{step, start, run, kill, goes_on, takes_signal, receiver_goes}
use esthe_r.Consola.Messages.{run_all, text-broken}
use esthe_r.Consola.Kill.{Removed, kill-Removed, kill-broken}
use esthe_r.Utils.{strtoi, to_int}

-- Every text is the number five.
abbrev five : List ℕ → ℤ × List ℕ
five text = (pos 5, [])

abbrev small : ℕ
small = 100

abbrev pub text_packet : Packet
text_packet = record {
  header = record { syspid = 0; usrpid = 5; opcode = 99; msgsize = 2 };
  payload = some (codes "ab");
}

abbrev pub running : Program
running = record { pid = pos 5; tid = 1; sem = 0; status = program_active; exitcode = pos 0 }

-- The thread of program 5 waits at its semaphore, and a text of it is to arrive.
abbrev pub one_program : ConsoleState
one_program = record {
  programs = 0 ∷ [];
  program_at = λ p. if p == 0 then some running else none;
  limit = 1;
  phases = λ i. if i == 0 then idle else if i == 1 then at_semaphore (some 0) else absent;
  threads = 2;
  signalled = λ i. false;
  joiner = λ i. none;
  receiver = receiving;
  message = none;
  text_at = λ t. none;
  texts = 0;
  arriving = text_packet ∷ [];
  sent = [];
}

text-broken_example :
    (run_all five small
        (receiver_goes ∷ receiver_goes ∷ goes_on 1 none ∷ goes_on 1 none ∷ [])
        one_program
      ≡ broken)
    × (run_all five small
          (receiver_goes ∷ goes_on 1 none ∷ receiver_goes ∷ goes_on 1 none ∷ [])
          one_program
        ≡ broken)
    × (run_all five small
          (receiver_goes ∷ goes_on 1 none ∷ goes_on 1 none ∷ receiver_goes ∷ [])
          one_program
        ≡ broken)
unfolding get_program
text-broken_example =
    text-broken five small one_program 1 0 running refl refl refl text_packet [] (codes "ab") refl
      refl refl refl refl refl refl none none

asked_five : strtoi five (codes "5") ≡ pos 5
unfolding strtoi to_int to_unsigned
asked_five = refl

found_five : get_program (pos 5) one_program.programs one_program.program_at ≡ some (some 0)
unfolding get_program
found_five = refl

kill-Removed_example :
    (run_all five small (kill (some (codes "5")) ∷ goes_on 0 none ∷ goes_on 0 none ∷ []) one_program
      ≡ waits)
    × ((t : ConsoleState) × (run_all five small
            (kill (some (codes "5"))
              ∷ goes_on 0 none
              ∷ takes_signal 1 true
              ∷ goes_on 1 none
              ∷ goes_on 1 none
              ∷ goes_on 0 none
              ∷ goes_on 0 none
              ∷ [])
            one_program
          ≡ goes t)
        × Removed 0 running one_program t)
    × ((t : ConsoleState) × (run_all five small
            (kill (some (codes "5"))
              ∷ goes_on 1 none
              ∷ goes_on 1 none
              ∷ goes_on 0 none
              ∷ goes_on 0 none
              ∷ goes_on 0 none
              ∷ [])
            one_program
          ≡ goes t)
        × Removed 0 running one_program t)
kill-Removed_example =
    kill-Removed five small one_program 0 4 running (codes "5") refl asked_five found_five refl refl
      refl refl refl true none none none none none

-- The thread of the program is about to test its loop.
abbrev testing : ConsoleState
testing = record one_program {
  phases = λ i. if i == 0 then idle else if i == 1 then looping (some 0) else absent;
}

found_testing : get_program (pos 5) testing.programs testing.program_at ≡ some (some 0)
unfolding get_program
found_testing = refl

kill-broken_example :
    run_all five small
      (kill (some (codes "5"))
        ∷ goes_on 0 none
        ∷ goes_on 1 none
        ∷ goes_on 1 none
        ∷ goes_on 1 none
        ∷ goes_on 0 none
        ∷ [])
      testing
    ≡ broken
kill-broken_example =
    kill-broken five small testing 0 4 running (codes "5") refl asked_five found_testing refl refl
      refl refl refl none none none none none

abbrev state_of : Outcome → ConsoleState
state_of (goes s) = s
state_of _ = one_program

-- A console that has at_start a program.
abbrev created : ConsoleState
created = state_of (step five small (run (some (codes "p"))) (start []))
