-- ===== src/Tests/TerminalRuns.antt =====
-- The theorems on the terminal of the Kernel, and on the functions of Common/utils.c.
use esthe_r.Base.{ℕ, suc, ◌≡◌, refl, some, [], ◌∷◌, ◌++◌, codes, true, false, arith}
use esthe_r.Base.Int.{pos}
use esthe_r.Kernel.{KernelState}
use esthe_r.Kernel.Terminal.{kill_loop}
use esthe_r.Kernel.Terminal.Ends.{waits, Moved, kill_loop-Killed}
use esthe_r.Utils.{input, space, newline}
use esthe_r.Utils.Lines.{input-line}
use esthe_r.Tests.KernelRuns.{two_ready, program_of}

-- The server does nothing between two rounds.
abbrev quiet : ℕ → KernelState → KernelState
quiet rounds k = k

kill_loop-Killed_example :
    (waits (pos 2) two_ready ≡ true
      → (rounds : ℕ)
      → (k' : KernelState) × (kill_loop (suc rounds) quiet (pos 2) two_ready ≡ some (some k'))
        × Moved (pos 2) two_ready k')
    × (waits (pos 2) two_ready ≡ false
        → (rounds : ℕ)
        → kill_loop (suc rounds) quiet (pos 2) two_ready ≡ kill_loop rounds quiet (pos 2) two_ready)
kill_loop-Killed_example =
    kill_loop-Killed (pos 2) two_ready quiet tt tt
      ((program_of (pos 1), refl), ((program_of (pos 2), refl), tt))

-- A program that does not exist.
unknown_waits : waits (pos 7) two_ready ≡ false
unknown_waits = refl

input-line_example :
    input [] ((codes "kill" ++ (space ∷ codes "12")) ++ (newline ∷ codes "list"))
    ≡ record { command = codes "kill"; argument = some (codes "12"); stdin = codes "list" }
input-line_example =
    input-line [] (codes "kill") (codes "12") (codes "list")
      ((refl, refl), ((refl, refl), ((refl, refl), ((refl, refl), tt)))) (refl, (refl, tt))
      (omega arith)
