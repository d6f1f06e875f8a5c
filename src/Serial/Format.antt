-- ===== src/Serial/Format.antt =====
-- serial_pack_va and serial_unpack_va of Common/serial.c: the loops over a format string. A format
-- is the list of its bytes. The float conversions f, d and g are outside the model (`none`), as is
-- an argument of the wrong type.
pub mod Fields
pub mod RoundTrip
pub mod Strings
use esthe_r.Base.{ℕ, suc, ◌+◌, ◌-◌, ◌*◌, ◌%◌, ◌^◌, Bool, ◌&&◌, Option, none, some, ◌>>=◌}
use esthe_r.Base.{List, [], ◌∷◌, ◌++◌, ltb, leb, ◌==◌, if◌then◌else◌, get_elem?, length, take, drop}
use esthe_r.Base.Int.{ℤ, pos, to_unsigned}
use esthe_r.Serial.Integers.{packi16, packi32, packi64, re_sign}
use esthe_r.Serial.Integers.{unpacki16, unpacku16, unpacki32, unpacku32, unpacki64, unpacku64}

-- An argument of the variable list: a number of any integer type, or a pointer to a string.
pub data Arg : Type 0 where
  num : ℤ → Arg
  text : List ℕ → Arg

-- `size`, and the bytes stored from `buf` on.
pub record Packed : Type 0 where
  pub size : ℕ
  pub bytes : List ℕ

unfoldable pub strlen : List ℕ → ℕ
strlen [] = 0
strlen (b ∷ s) = if b == 0 then 0 else suc (strlen s)

-- One integer conversion: `size += n`, the next argument, its bytes.
unfoldable pub store_num : ℕ → (ℤ → List ℕ) → List Arg → Packed → Option (List Arg × Packed)
store_num n f (num v ∷ args) p = some (args, record { size = p.size + n; bytes = p.bytes ++ f v })
store_num n f (text s ∷ args) p = none
store_num n f [] p = none

unfoldable pub store_text : List Arg → Packed → Option (List Arg × Packed)
unfolding strlen
store_text (text s ∷ args) p =
    let len = strlen s % 2 ^ 32 in
    some
      (args, record { size = p.size + (len + 2); bytes = p.bytes ++ (packi16 len ++ take len s) })
store_text (num v ∷ args) p = none
store_text [] p = none

-- The body of the loop of serial_pack_va.
unfoldable pub pack_conv : ℕ → List Arg → Packed → Option (List Arg × Packed)
unfolding store_num store_text
pack_conv c args p =
    if c == b'c'
    then store_num 1 (λ v. to_unsigned (2 ^ 8) v ∷ []) args p
    else if c == b'C'
    then store_num 1 (λ v. to_unsigned (2 ^ 8) v ∷ []) args p
    else if c == b'h'
    then store_num 2 (λ v. packi16 (to_unsigned (2 ^ 32) v)) args p
    else if c == b'H'
    then store_num 2 (λ v. packi16 (to_unsigned (2 ^ 32) v)) args p
    else if c == b'l'
    then store_num 4 (λ v. packi32 (to_unsigned (2 ^ 64) v)) args p
    else if c == b'L'
    then store_num 4 (λ v. packi32 (to_unsigned (2 ^ 64) v)) args p
    else if c == b'q'
    then store_num 8 (λ v. packi64 (to_unsigned (2 ^ 64) v)) args p
    else if c == b'Q'
    then store_num 8 (λ v. packi64 (to_unsigned (2 ^ 64) v)) args p
    else if c == b'f'
    then none
    else if c == b'd'
    then none
    else if c == b'g'
    then none
    else if c == b's'
    then store_text args p
    else some (args, p)

unfoldable pub serial_pack_va : List ℕ → List Arg → Packed → Option Packed
serial_pack_va [] args p = some p
serial_pack_va (c ∷ format) args p = do
  (args', p') ← pack_conv c args p
  serial_pack_va format args' p'

unfoldable pub serial_pack : List ℕ → List Arg → Option Packed
serial_pack format args = serial_pack_va format args (record { size = 0; bytes = [] })

-- The state of serial_unpack_va: the bytes from `buf` on, `maxstrlen`, and what has been stored
-- through the pointers of the variable list, in order.
pub record Reader : Type 0 where
  pub buf : List ℕ
  pub maxstrlen : ℕ
  pub out : List Arg

-- One integer conversion: the value read, and `buf += n`.
unfoldable pub read_num : ℕ → (List ℕ → Option ℤ) → Reader → Option Reader
read_num n f r = do
  v ← f r.buf
  some (record { buf = drop n r.buf; maxstrlen = 0; out = r.out ++ (num v ∷ []) })

abbrev unsigned : (List ℕ → Option ℕ) → List ℕ → Option ℤ
unsigned f buf = do n ← f buf; some (pos n)

-- `memcpy` of `count` bytes.
unfoldable pub copy_bytes : ℕ → List ℕ → Option (List ℕ)
copy_bytes count buf = if leb count (length buf) then some (take count buf) else none

-- How many bytes of a string of `len` bytes are copied under the limit `maxstrlen`.
unfoldable pub string_count : ℕ → ℕ → ℕ
string_count maxstrlen len = if ltb 0 maxstrlen && ltb maxstrlen len then maxstrlen - 1 else len

unfoldable pub read_text : Reader → Option Reader
unfolding copy_bytes
read_text r = do
  len ← unpacku16 r.buf
  s ← copy_bytes (string_count r.maxstrlen len) (drop 2 r.buf)
  some (record { buf = drop len (drop 2 r.buf); maxstrlen = 0; out = r.out ++ (text s ∷ []) })

unfoldable pub isdigit : ℕ → Bool
isdigit c = leb b'0' c && leb c b'9'

-- The body of the loop of serial_unpack_va.
unfoldable pub unpack_conv : ℕ → Reader → Option Reader
unfolding read_num read_text isdigit
unpack_conv c r =
    if c == b'c'
    then read_num 1 (λ buf. do b ← get_elem? buf 0; some (re_sign 0xff b)) r
    else if c == b'C'
    then read_num 1 (unsigned (λ buf. get_elem? buf 0)) r
    else if c == b'h'
    then read_num 2 unpacki16 r
    else if c == b'H'
    then read_num 2 (unsigned unpacku16) r
    else if c == b'l'
    then read_num 4 unpacki32 r
    else if c == b'L'
    then read_num 4 (unsigned unpacku32) r
    else if c == b'q'
    then read_num 8 unpacki64 r
    else if c == b'Q'
    then read_num 8 (unsigned unpacku64) r
    else if c == b'f'
    then none
    else if c == b'd'
    then none
    else if c == b'g'
    then none
    else if c == b's'
    then read_text r
    else if isdigit c
    then some (record r { maxstrlen = (r.maxstrlen * 10 + (c - b'0')) % 2 ^ 32 })
    else some (record r { maxstrlen = 0 })

unfoldable pub serial_unpack_va : List ℕ → Reader → Option Reader
serial_unpack_va [] r = some r
serial_unpack_va (c ∷ format) r = do r' ← unpack_conv c r; serial_unpack_va format r'

unfoldable pub serial_unpack : List ℕ → List ℕ → Option (List Arg)
serial_unpack format buf = do
  r ← serial_unpack_va format (record { buf = buf; maxstrlen = 0; out = [] })
  some r.out
