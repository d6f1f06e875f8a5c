-- ===== src/Serial/Format/Fields.antt =====
-- The encoding that Common/serial.h's table promises, one field at a time, and that the bodies of
-- the two loops write and read it.
use esthe_r.Base.{ℕ, ◌+◌, ◌%◌, ◌^◌, ◌≤◌, ◌<◌, ◌≢◌, ◌≡◌, refl, some, true, ap, arith}
use esthe_r.Base.{List, [], ◌∷◌, ◌++◌, length, All, take, append_assoc, length-append, leb}
use esthe_r.Base.{take_all-append, drop_all-append}
use native.Mathlib.Nat.{add_comm, mod-eq_of_lt}
use esthe_r.Base.Int.{ℤ, pos, negsuc, to_unsigned, InRange}
use esthe_r.Serial.Integers.{packi16, packi32, packi64}
use esthe_r.Serial.Integers.Laws.{length-packi16, length-packi32, length-packi64}
use esthe_r.Serial.Integers.Laws.{drop-packi16, drop-packi32, drop-packi64}
use esthe_r.Serial.Integers.Laws.{unpacki16-packi16, unpacki32-packi32, unpacki64-packi64}
use esthe_r.Serial.Integers.Laws.{unpacku16-packi16, unpacku32-packi32, unpacku64-packi64}
use esthe_r.Serial.Format.{
  Arg, num, text, Packed, Reader, pack_conv, unpack_conv, strlen, read_text,
}
use esthe_r.Serial.Format.{string_count}
use esthe_r.Serial.Integers.{re_sign}

pub data Field : Type 0 where
  int8 uint8 int16 uint16 int32 uint32 int64 uint64 string : Field

abbrev pub field_code : Field → ℕ
field_code int8 = b'c'
field_code uint8 = b'C'
field_code int16 = b'h'
field_code uint16 = b'H'
field_code int32 = b'l'
field_code uint32 = b'L'
field_code int64 = b'q'
field_code uint64 = b'Q'
field_code string = b's'

abbrev pub Below : ℕ → ℤ → Type 0
Below m (pos n) = n < m
Below m (negsuc n) = ⊥

-- The range of each field. A string has no zero byte, and a length of 16 bits.
abbrev pub NumFits : Field → ℤ → Type 0
NumFits int8 v = InRange (2 ^ 7) v
NumFits uint8 v = Below (2 ^ 8) v
NumFits int16 v = InRange (2 ^ 15) v
NumFits uint16 v = Below (2 ^ 16) v
NumFits int32 v = InRange (2 ^ 31) v
NumFits uint32 v = Below (2 ^ 32) v
NumFits int64 v = InRange (2 ^ 63) v
NumFits uint64 v = Below (2 ^ 64) v
NumFits string v = ⊥

abbrev pub TextFits : Field → List ℕ → Type 0
TextFits string s = (length s < 2 ^ 16) × All (λ b. b ≢ 0) s
TextFits _ s = ⊥

abbrev pub Fits : Field → Arg → Type 0
Fits f (num v) = NumFits f v
Fits f (text s) = TextFits f s

abbrev pub encode : Field → Arg → List ℕ
encode int8 (num v) = to_unsigned (2 ^ 8) v ∷ []
encode uint8 (num v) = to_unsigned (2 ^ 8) v ∷ []
encode int16 (num v) = packi16 (to_unsigned (2 ^ 32) v)
encode uint16 (num v) = packi16 (to_unsigned (2 ^ 32) v)
encode int32 (num v) = packi32 (to_unsigned (2 ^ 64) v)
encode uint32 (num v) = packi32 (to_unsigned (2 ^ 64) v)
encode int64 (num v) = packi64 (to_unsigned (2 ^ 64) v)
encode uint64 (num v) = packi64 (to_unsigned (2 ^ 64) v)
encode string (num v) = []
encode _ (text s) = packi16 (length s) ++ s

pub strlen-length : (s : List ℕ) → All (λ b. b ≢ 0) s → strlen s ≡ length s
unfolding strlen
strlen-length [] h = refl
strlen-length (b ∷ s) h = ground (arith, strlen-length s)

pub take-length : (s : List ℕ) → take (length s) s ≡ s
take-length [] = refl
take-length (b ∷ s) = ap (◌∷◌ b) (take-length s)

unfoldable pub stored : Packed → List ℕ → Packed
stored p bs = record { size = p.size + length bs; bytes = p.bytes ++ bs }

module _ (args : List Arg) (p : Packed) where
  pack_text :
      (s : List ℕ)
      → TextFits string s
      → pack_conv b's' (text s ∷ args) p ≡ some (args, stored p (encode string (text s)))
  unfolding pack_conv stored
  pack_text s h =
      let e : strlen s % 2 ^ 32 ≡ length s = omega (arith, strlen-length s h.1) in
      rw (e, take-length s, length-append, length-packi16, add_comm 2 (length s))

  pub pack_conv-encode :
      (f : Field) (a : Arg)
      → Fits f a
      → pack_conv (field_code f) (a ∷ args) p ≡ some (args, stored p (encode f a))
  unfolding pack_conv stored
  pack_conv-encode int8 (num v) h = refl
  pack_conv-encode uint8 (num v) h = refl
  pack_conv-encode int16 (num v) h = rw length-packi16
  pack_conv-encode uint16 (num v) h = rw length-packi16
  pack_conv-encode int32 (num v) h = rw length-packi32
  pack_conv-encode uint32 (num v) h = rw length-packi32
  pack_conv-encode int64 (num v) h = rw length-packi64
  pack_conv-encode uint64 (num v) h = rw length-packi64
  pack_conv-encode string (text s) h = pack_text s h
  pack_conv-encode string (num v) h = absurd h
  pack_conv-encode _ (text s) h = absurd h

abbrev pub reader : List ℕ → ℕ → List Arg → Reader
reader b m o = record { buf = b; maxstrlen = m; out = o }

byte_value : (v : ℤ) → InRange (2 ^ 7) v → re_sign 0xff (to_unsigned (2 ^ 8) v) ≡ v
unfolding to_unsigned
byte_value (pos n) h = ground arith
byte_value (negsuc n) h = ground arith

unsigned_value : (m : ℕ) (v : ℤ) → Below m v → pos (to_unsigned m v) ≡ v
unfolding to_unsigned
unsigned_value m (pos n) h = ap pos (mod-eq_of_lt h)
unsigned_value m (negsuc n) h = absurd h

narrowed : (m k : ℕ) (v : ℤ) → m ≤ k → Below m v → pos (to_unsigned k v % m) ≡ v
unfolding to_unsigned
narrowed m k (pos n) le h =
    rw (mod-eq_of_lt (let r : n < k = omega arith in r), mod-eq_of_lt h) refl
narrowed m k (negsuc n) le h = absurd h

module _ (rest : List ℕ) (out : List Arg) where
  -- Behind the length, as many bytes are copied as there are, if the limit does not cut them.
  pub unpack_text :
      (m : ℕ) (s : List ℕ)
      → length s < 2 ^ 16
      → string_count m (length s) ≡ length s
      → read_text (reader (encode string (text s) ++ rest) m out)
        ≡ some (reader rest 0 (out ++ (text s ∷ [])))
  unfolding read_text
  unpack_text m s h whole =
      let e : length s % 2 ^ 16 ≡ length s = omega arith in
      let long : length s ≤ length (s ++ rest) = omega (arith, length-append s rest) in
      let room : leb (length s) (length (s ++ rest)) ≡ true = ground arith in
      rw (
        append_assoc, unpacku16-packi16, e, drop-packi16, whole, room, take_all-append,
        drop_all-append,
      )

  unlimited : (n : ℕ) → string_count 0 n ≡ n
  unfolding string_count
  unlimited n = refl

  pub unpack_conv-encode :
      (f : Field) (a : Arg)
      → Fits f a
      → unpack_conv (field_code f) (reader (encode f a ++ rest) 0 out)
        ≡ some (reader rest 0 (out ++ (a ∷ [])))
  unfolding unpack_conv
  unpack_conv-encode int8 (num v) h = rw (byte_value v h)
  unpack_conv-encode uint8 (num v) h = rw (unsigned_value (2 ^ 8) v h)
  unpack_conv-encode int16 (num v) h = rw (unpacki16-packi16 v rest h, drop-packi16)
  unpack_conv-encode uint16 (num v) h =
      rw (unpacku16-packi16, drop-packi16, narrowed (2 ^ 16) (2 ^ 32) v (omega arith) h)
  unpack_conv-encode int32 (num v) h = rw (unpacki32-packi32 v rest h, drop-packi32)
  unpack_conv-encode uint32 (num v) h =
      rw (unpacku32-packi32, drop-packi32, narrowed (2 ^ 32) (2 ^ 64) v (omega arith) h)
  unpack_conv-encode int64 (num v) h = rw (unpacki64-packi64 v rest h, drop-packi64)
  unpack_conv-encode uint64 (num v) h =
      rw (unpacku64-packi64, drop-packi64, narrowed (2 ^ 64) (2 ^ 64) v (omega arith) h)
  unpack_conv-encode string (text s) h = unpack_text 0 s h.0 (unlimited (length s))
  unpack_conv-encode string (num v) h = absurd h
  unpack_conv-encode _ (text s) h = absurd h
