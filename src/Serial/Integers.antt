-- ===== src/Serial/Integers.antt =====
-- The integer fields of Common/serial.c (packi16 to unpacku64). A buffer is the list of bytes from
-- the pointer on; a write through `*buf++` gives the bytes it stores, in order. `long` has 64 bits.
pub mod Laws
use esthe_r.Base.{ℕ, ◌+◌, ◌-◌, ◌*◌, ◌/◌, ◌%◌, ◌^◌, bit_or, Option, none, some, ◌>>=◌, List, [], ◌∷◌}
use esthe_r.Base.{leb, if◌then◌else◌, get_elem?}
use esthe_r.Base.Int.{ℤ, pos, negsuc}

-- A store through `unsigned char *` keeps the low eight bits.
abbrev pub to_byte : ℕ → ℕ
to_byte i = i % 2 ^ 8

unfoldable pub packi16 : ℕ → List ℕ
packi16 i = to_byte (i / 2 ^ 8) ∷ to_byte i ∷ []

unfoldable pub packi32 : ℕ → List ℕ
packi32 i = to_byte (i / 2 ^ 24) ∷ to_byte (i / 2 ^ 16) ∷ to_byte (i / 2 ^ 8) ∷ to_byte i ∷ []

unfoldable pub packi64 : ℕ → List ℕ
packi64 i =
    to_byte (i / 2 ^ 56)
    ∷ to_byte (i / 2 ^ 48)
    ∷ to_byte (i / 2 ^ 40)
    ∷ to_byte (i / 2 ^ 32)
    ∷ to_byte (i / 2 ^ 24)
    ∷ to_byte (i / 2 ^ 16)
    ∷ to_byte (i / 2 ^ 8)
    ∷ to_byte i
    ∷ []

unfoldable pub unpacku16 : List ℕ → Option ℕ
unpacku16 buf = do b0 ← get_elem? buf 0; b1 ← get_elem? buf 1; some (bit_or (b0 * 2 ^ 8) b1)

unfoldable pub unpacku32 : List ℕ → Option ℕ
unpacku32 buf = do
  b0 ← get_elem? buf 0
  b1 ← get_elem? buf 1
  b2 ← get_elem? buf 2
  b3 ← get_elem? buf 3
  some (bit_or (bit_or (bit_or (b0 * 2 ^ 24) (b1 * 2 ^ 16)) (b2 * 2 ^ 8)) b3)

abbrev high_half : ℕ → ℕ → ℕ → ℕ → ℕ
high_half b0 b1 b2 b3 =
    bit_or (bit_or (bit_or (b0 * 2 ^ 56) (b1 * 2 ^ 48)) (b2 * 2 ^ 40)) (b3 * 2 ^ 32)

unfoldable pub unpacku64 : List ℕ → Option ℕ
unpacku64 buf = do
  b0 ← get_elem? buf 0
  b1 ← get_elem? buf 1
  b2 ← get_elem? buf 2
  b3 ← get_elem? buf 3
  b4 ← get_elem? buf 4
  b5 ← get_elem? buf 5
  b6 ← get_elem? buf 6
  b7 ← get_elem? buf 7
  let high = high_half b0 b1 b2 b3
  some (bit_or (bit_or (bit_or (bit_or high (b4 * 2 ^ 24)) (b5 * 2 ^ 16)) (b6 * 2 ^ 8)) b7)

-- "change unsigned numbers to signed": `-1 - (max - i2)` above the largest signed number.
abbrev pub re_sign : ℕ → ℕ → ℤ
re_sign max i2 = if leb i2 (max / 2) then pos i2 else negsuc (max - i2)

unfoldable pub unpacki16 : List ℕ → Option ℤ
unpacki16 buf = do i2 ← unpacku16 buf; some (re_sign 0xffff i2)

unfoldable pub unpacki32 : List ℕ → Option ℤ
unpacki32 buf = do i2 ← unpacku32 buf; some (re_sign 0xffff_ffff i2)

unfoldable pub unpacki64 : List ℕ → Option ℤ
unpacki64 buf = do i2 ← unpacku64 buf; some (re_sign 0xffff_ffff_ffff_ffff i2)
