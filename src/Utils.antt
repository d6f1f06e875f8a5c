-- ===== src/Utils.antt =====
-- Common/utils.c: the functions on text and time. A text is its characters, without the closing zero,
-- and NULL is `none`. strtol in base 10 (the value and what is left), string_trim and difftime are
-- parameters.
pub mod Lines
pub mod Time
use esthe_r.Base.{
  ℕ, zero, suc, ◌+◌, ◌-◌, ◌*◌, ◌%◌, ◌/◌, ◌^◌, Bool, true, false, ◌||◌, Option, none, some, List, [],
  ◌∷◌,
}
use esthe_r.Base.{ltb, ◌==◌, if◌then◌else◌}
use esthe_r.Base.Int.{ℤ, pos, negsuc, to_unsigned}
use esthe_r.Socket.{buffer_capacity}

abbrev pub newline : ℕ
newline = 10

abbrev pub space : ℕ
space = 32

-- The characters before the first that stops.
abbrev pub before : (ℕ → Bool) → List ℕ → List ℕ
before stops [] = []
before stops (c ∷ cs) = if stops c then [] else c ∷ before stops cs

-- fgets: at most so many characters, up to a newline, and what is left of stdin.
unfoldable pub read_line : ℕ → List ℕ → List ℕ × List ℕ
read_line zero stdin = ([], stdin)
read_line (suc n) [] = ([], [])
read_line (suc n) (c ∷ stdin) =
    let (line, rest) = read_line n stdin in
    if c == newline then (c ∷ [], stdin) else (c ∷ line, rest)

-- strchr of a space, where the text is cut.
unfoldable pub cut_at_space : List ℕ → List ℕ × Option (List ℕ)
cut_at_space [] = ([], none)
cut_at_space (c ∷ cs) =
    let (command, argument) = cut_at_space cs in
    if c == space then ([], some cs) else (c ∷ command, argument)

-- The buffer of the command, the argument that is returned, and what is left of stdin.
pub record Input : Type 0 where
  pub command : List ℕ
  pub argument : Option (List ℕ)
  pub stdin : List ℕ

-- At the end of stdin, fgets leaves the buffer as it is.
abbrev pub after_fgets : List ℕ → List ℕ → List ℕ × List ℕ
after_fgets buffer [] = (buffer, [])
after_fgets buffer (c ∷ stdin) = read_line (buffer_capacity - 1) (c ∷ stdin)

abbrev pub ends_line : ℕ → Bool
ends_line c = (c == newline) || (c == 0)

unfoldable pub input : List ℕ → List ℕ → Input
input buffer stdin =
    let (read, rest) = after_fgets buffer stdin in
    let (command, argument) = cut_at_space (before ends_line read) in
    record { command = command; argument = argument; stdin = rest }

-- The value if nothing is left of the text.
abbrev pub whole_or_failed : ℤ → List ℕ → ℤ
whole_or_failed res [] = res
whole_or_failed res (c ∷ p) = negsuc 0

-- `(int)` of a long: its low 32 bits, in two's complement.
unfoldable pub to_int : ℤ → ℤ
to_int v =
    let n = to_unsigned (2 ^ 32) v in if ltb n (2 ^ 31) then pos n else negsuc (2 ^ 32 - 1 - n)

module _ (strtol : List ℕ → ℤ × List ℕ) where
  unfoldable pub strtoi : List ℕ → ℤ
  strtoi text = let (res, p) = strtol text in whole_or_failed (to_int res) p

module _ (string_trim : List ℕ → List ℕ) where
  abbrev pub is_nil : List ℕ → Bool
  is_nil [] = true
  is_nil (c ∷ cs) = false

  unfoldable pub is_empty : Option (List ℕ) → Bool
  is_empty none = true
  is_empty (some text) = is_nil (string_trim text)

-- What timediff prints.
pub record Clock : Type 0 where
  pub hours : ℕ
  pub minutes : ℕ
  pub seconds : ℕ

unfoldable pub magnitude : ℤ → ℕ
magnitude (pos n) = n
magnitude (negsuc n) = suc n

-- For a difference of times that is an int.
unfoldable pub timediff : ℤ → Clock
timediff difference =
    let duration = magnitude difference in
    let seconds = duration % 60 in
    let minutes = duration / 60 in
    let hours = minutes / 60 in record { hours = hours; minutes = minutes; seconds = seconds }
