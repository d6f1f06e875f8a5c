-- ===== src/Serial/Integers/Laws.antt =====
-- What the integer fields of Common/serial.c read back.
use esthe_r.Base.{ℕ, ◌+◌, ◌*◌, ◌/◌, ◌%◌, ◌^◌, ◌<◌, bit_or, ◌≡◌, refl, arith, some, ap, ◌∙◌}
use esthe_r.Base.{List, ◌++◌, length, drop, bit_or_multiple}
use esthe_r.Base.Int.{ℤ, pos, negsuc, to_unsigned, InRange}
use esthe_r.Serial.Integers.{packi16, packi32, packi64, unpacku16, unpacku32, unpacku64}
use esthe_r.Serial.Integers.{unpacki16, unpacki32, unpacki64, to_byte, high_half}

pub unpacku16-packi16 : (i : ℕ) (rest : List ℕ) → unpacku16 (packi16 i ++ rest) ≡ some (i % 2 ^ 16)
unfolding packi16 unpacku16
unpacku16-packi16 i rest = ap some (
    omega (
      arith,
      bit_or_multiple 8 (i / 2 ^ 8 % 2 ^ 8) (i / 2 ^ 8 % 2 ^ 8 * 2 ^ 8) (i % 2 ^ 8) (omega arith)
          (omega arith),
    ))

join4 :
    (b0 b1 b2 b3 : ℕ)
    → b0 < 2 ^ 8
    → b1 < 2 ^ 8
    → b2 < 2 ^ 8
    → b3 < 2 ^ 8
    → bit_or (bit_or (bit_or (b0 * 2 ^ 24) (b1 * 2 ^ 16)) (b2 * 2 ^ 8)) b3
      ≡ b0 * 2 ^ 24 + b1 * 2 ^ 16 + b2 * 2 ^ 8 + b3
join4 b0 b1 b2 b3 h0 h1 h2 h3 =
    let e1 = bit_or_multiple 24 b0 (b0 * 2 ^ 24) (b1 * 2 ^ 16) (omega arith) (omega arith) in
    let a1 = bit_or (b0 * 2 ^ 24) (b1 * 2 ^ 16) in
    let e2 = bit_or_multiple 16 (b0 * 2 ^ 8 + b1) a1 (b2 * 2 ^ 8) (omega arith) (omega arith) in
    let a2 = bit_or a1 (b2 * 2 ^ 8) in
    let e3 = bit_or_multiple 8 (b0 * 2 ^ 16 + b1 * 2 ^ 8 + b2) a2 b3 (omega arith) (omega arith) in
    omega arith

pub unpacku32-packi32 : (i : ℕ) (rest : List ℕ) → unpacku32 (packi32 i ++ rest) ≡ some (i % 2 ^ 32)
unfolding packi32 unpacku32
unpacku32-packi32 i rest = ap some (
    omega (
      arith,
      join4 (to_byte (i / 2 ^ 24)) (to_byte (i / 2 ^ 16)) (to_byte (i / 2 ^ 8)) (to_byte i)
          (omega arith) (omega arith) (omega arith) (omega arith),
    ))

join_high :
    (b0 b1 b2 b3 : ℕ)
    → b0 < 2 ^ 8
    → b1 < 2 ^ 8
    → b2 < 2 ^ 8
    → b3 < 2 ^ 8
    → high_half b0 b1 b2 b3 ≡ b0 * 2 ^ 56 + b1 * 2 ^ 48 + b2 * 2 ^ 40 + b3 * 2 ^ 32
join_high b0 b1 b2 b3 h0 h1 h2 h3 =
    let e1 = bit_or_multiple 56 b0 (b0 * 2 ^ 56) (b1 * 2 ^ 48) (omega arith) (omega arith) in
    let a1 = bit_or (b0 * 2 ^ 56) (b1 * 2 ^ 48) in
    let e2 = bit_or_multiple 48 (b0 * 2 ^ 8 + b1) a1 (b2 * 2 ^ 40) (omega arith) (omega arith) in
    let a2 = bit_or a1 (b2 * 2 ^ 40) in
    let e3 =
      bit_or_multiple 40 (b0 * 2 ^ 16 + b1 * 2 ^ 8 + b2) a2 (b3 * 2 ^ 32) (omega arith)
        (omega arith) in
    omega arith

-- Four more bytes under a number that is a multiple of 2 ^ 32.
join_low :
    (q b4 b5 b6 b7 : ℕ)
    → b4 < 2 ^ 8
    → b5 < 2 ^ 8
    → b6 < 2 ^ 8
    → b7 < 2 ^ 8
    → bit_or (bit_or (bit_or (bit_or (q * 2 ^ 32) (b4 * 2 ^ 24)) (b5 * 2 ^ 16)) (b6 * 2 ^ 8)) b7
      ≡ q * 2 ^ 32 + b4 * 2 ^ 24 + b5 * 2 ^ 16 + b6 * 2 ^ 8 + b7
join_low q b4 b5 b6 b7 h4 h5 h6 h7 =
    let e1 = bit_or_multiple 32 q (q * 2 ^ 32) (b4 * 2 ^ 24) (omega arith) (omega arith) in
    let a1 = bit_or (q * 2 ^ 32) (b4 * 2 ^ 24) in
    let e2 = bit_or_multiple 24 (q * 2 ^ 8 + b4) a1 (b5 * 2 ^ 16) (omega arith) (omega arith) in
    let a2 = bit_or a1 (b5 * 2 ^ 16) in
    let e3 =
      bit_or_multiple 16 (q * 2 ^ 16 + b4 * 2 ^ 8 + b5) a2 (b6 * 2 ^ 8) (omega arith)
        (omega arith) in
    let a3 = bit_or a2 (b6 * 2 ^ 8) in
    let e4 =
      bit_or_multiple 8 (q * 2 ^ 24 + b4 * 2 ^ 16 + b5 * 2 ^ 8 + b6) a3 b7 (omega arith)
        (omega arith) in
    omega arith

abbrev quad : ℕ → ℕ → ℕ
quad i s =
    to_byte (i / 2 ^ (s + 24)) * 2 ^ 24
    + to_byte (i / 2 ^ (s + 16)) * 2 ^ 16
    + to_byte (i / 2 ^ (s + 8)) * 2 ^ 8
    + to_byte (i / 2 ^ s)

join_all :
    (i : ℕ)
    → quad i 32 * 2 ^ 32
        + to_byte (i / 2 ^ 24) * 2 ^ 24
        + to_byte (i / 2 ^ 16) * 2 ^ 16
        + to_byte (i / 2 ^ 8) * 2 ^ 8
        + to_byte i
      ≡ i % 2 ^ 64
join_all i = omega arith

pub unpacku64-packi64 : (i : ℕ) (rest : List ℕ) → unpacku64 (packi64 i ++ rest) ≡ some (i % 2 ^ 64)
unfolding packi64 unpacku64
unpacku64-packi64 i rest = ap some (
    rw joined_high (
      join_low (quad i 32) (to_byte (i / 2 ^ 24)) (to_byte (i / 2 ^ 16)) (to_byte (i / 2 ^ 8))
        (to_byte i) (omega arith) (omega arith) (omega arith) (omega arith)
      ∙ join_all i))
  where
    joined_high :
        high_half
          (to_byte (i / 2 ^ 56))
          (to_byte (i / 2 ^ 48))
          (to_byte (i / 2 ^ 40))
          (to_byte (i / 2 ^ 32))
        ≡ quad i 32 * 2 ^ 32
    joined_high = omega (
      arith,
      join_high (to_byte (i / 2 ^ 56)) (to_byte (i / 2 ^ 48)) (to_byte (i / 2 ^ 40))
          (to_byte (i / 2 ^ 32)) (omega arith) (omega arith) (omega arith) (omega arith),
    )

-- A number in the range of the field is read back as it was, whatever wider type carried it.
pub unpacki16-packi16 :
    (v : ℤ) (rest : List ℕ)
    → InRange (2 ^ 15) v
    → unpacki16 (packi16 (to_unsigned (2 ^ 32) v) ++ rest) ≡ some v
unfolding unpacki16 to_unsigned
unpacki16-packi16 (pos n) rest h = rw unpacku16-packi16 (ground arith)
unpacki16-packi16 (negsuc n) rest h = rw unpacku16-packi16 (ground arith)

pub unpacki32-packi32 :
    (v : ℤ) (rest : List ℕ)
    → InRange (2 ^ 31) v
    → unpacki32 (packi32 (to_unsigned (2 ^ 64) v) ++ rest) ≡ some v
unfolding unpacki32 to_unsigned
unpacki32-packi32 (pos n) rest h = rw unpacku32-packi32 (ground arith)
unpacki32-packi32 (negsuc n) rest h = rw unpacku32-packi32 (ground arith)

pub unpacki64-packi64 :
    (v : ℤ) (rest : List ℕ)
    → InRange (2 ^ 63) v
    → unpacki64 (packi64 (to_unsigned (2 ^ 64) v) ++ rest) ≡ some v
unfolding unpacki64 to_unsigned
unpacki64-packi64 (pos n) rest h = rw unpacku64-packi64 (ground arith)
unpacki64-packi64 (negsuc n) rest h = rw unpacku64-packi64 (ground arith)

pub drop-packi16 : (i : ℕ) (rest : List ℕ) → drop 2 (packi16 i ++ rest) ≡ rest
unfolding packi16
drop-packi16 i rest = refl

pub drop-packi32 : (i : ℕ) (rest : List ℕ) → drop 4 (packi32 i ++ rest) ≡ rest
unfolding packi32
drop-packi32 i rest = refl

pub drop-packi64 : (i : ℕ) (rest : List ℕ) → drop 8 (packi64 i ++ rest) ≡ rest
unfolding packi64
drop-packi64 i rest = refl

pub length-packi16 : (i : ℕ) → length (packi16 i) ≡ 2
unfolding packi16
length-packi16 i = refl

pub length-packi32 : (i : ℕ) → length (packi32 i) ≡ 4
unfolding packi32
length-packi32 i = refl

pub length-packi64 : (i : ℕ) → length (packi64 i) ≡ 8
unfolding packi64
length-packi64 i = refl
