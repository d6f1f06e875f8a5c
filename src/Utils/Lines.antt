-- ===== src/Utils/Lines.antt =====
-- input of Common/utils.c: a command and its argument are read back from the line that has them.
use esthe_r.Base.{
  ℕ, zero, suc, ◌+◌, ◌-◌, ◌<◌, ◌≡◌, refl, ap, false, some, List, [], ◌∷◌, ◌++◌, All, length, ◌==◌,
  arith, length-append,
}
use esthe_r.Socket.{buffer_capacity}
use esthe_r.Utils.{newline, space, before, read_line, cut_at_space, after_fgets, ends_line, input}

-- A character that ends neither a line nor a text.
abbrev pub IsText : ℕ → Type 0
IsText c = ends_line c ≡ false

-- A character of a command.
abbrev pub IsWord : ℕ → Type 0
IsWord c = (ends_line c ≡ false) × ((c == space) ≡ false)

read_line-text :
    (n : ℕ) (text more : List ℕ)
    → All IsText text
    → length text < n
    → read_line n (text ++ (newline ∷ more)) ≡ (text ++ (newline ∷ []), more)
unfolding read_line
read_line-text zero text more a h = absurd (omega arith)
read_line-text (suc n) [] more a h = refl
read_line-text (suc n) (c ∷ text) more (t, a) h =
    let e : (c == newline) ≡ false = ground (arith, t) in
    rw (e, read_line-text n text more a (omega arith)) refl

before-text : (text : List ℕ) → All IsText text → before ends_line (text ++ (newline ∷ [])) ≡ text
before-text [] a = refl
before-text (c ∷ text) (t, a) = rw t (ap (◌∷◌ c) (before-text text a))

cut_at_space-word :
    (command argument : List ℕ)
    → All IsWord command
    → cut_at_space (command ++ (space ∷ argument)) ≡ (command, some argument)
unfolding cut_at_space
cut_at_space-word [] argument a = refl
cut_at_space-word (c ∷ command) argument ((_, s), a) =
    rw (s, cut_at_space-word command argument a) refl

words_are-IsText :
    (command argument : List ℕ)
    → All IsWord command
    → All IsText argument
    → All IsText (command ++ (space ∷ argument))
words_are-IsText [] argument a b = (refl, b)
words_are-IsText (c ∷ command) argument ((t, _), a) b = (t, words_are-IsText command argument a b)

after_fgets-text :
    (buffer text more : List ℕ)
    → All IsText text
    → length text < buffer_capacity - 1
    → after_fgets buffer (text ++ (newline ∷ more)) ≡ (text ++ (newline ∷ []), more)
after_fgets-text buffer [] more a h = read_line-text (buffer_capacity - 1) [] more a h
after_fgets-text buffer (c ∷ text) more a h =
    read_line-text (buffer_capacity - 1) (c ∷ text) more a h

-- For a command without spaces and an argument, neither with a newline or a zero, that fit in 1022
-- characters with the space between them: of the line that has them, whatever was in the buffer, input
-- returns the argument, leaves the command in the buffer, and the rest of stdin is still to be read.
pub input-line :
    (buffer command argument more : List ℕ)
    → All IsWord command
    → All IsText argument
    → length command + length argument < buffer_capacity - 2
    → input buffer ((command ++ (space ∷ argument)) ++ (newline ∷ more))
      ≡ record { command = command; argument = some argument; stdin = more }
unfolding input
input-line buffer command argument more a b fits =
    let t = words_are-IsText command argument a b in
    let l = length-append command (space ∷ argument) in
    rw
      (
        after_fgets-text buffer (command ++ (space ∷ argument)) more t (omega (arith, l)),
        before-text (command ++ (space ∷ argument)) t,
        cut_at_space-word command argument a,
      )
      refl
