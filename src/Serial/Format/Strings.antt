-- ===== src/Serial/Format/Strings.antt =====
-- The conversion s with a maximum length before it (serial_unpack_va in Common/serial.c).
use esthe_r.Base.{ℕ, ◌+◌, ◌≤◌, ◌<◌, ◌≡◌, ◌≢◌, ◌↔◌, some, arith}
use esthe_r.Base.{List, [], ◌∷◌, ◌++◌, length, codes}
use esthe_r.Serial.Format.{Arg, text, string_count, unpack_conv, serial_unpack_va}
use esthe_r.Serial.Format.Fields.{reader, encode, string, unpack_text}

-- With a limit above 0, the bytes copied and the terminating zero together fit into a destination
-- of that many bytes exactly when the stored length is not the limit itself.
pub string_count-fits_iff :
    (maxstrlen len : ℕ)
    → 0 < maxstrlen
    → (string_count maxstrlen len + 1 ≤ maxstrlen) ↔ (len ≢ maxstrlen)
unfolding string_count
string_count-fits_iff maxstrlen len h = (λ le. ground arith, λ ne. ground arith)

whole_of_le : (m n : ℕ) → n ≤ m → string_count m n ≡ n
unfolding string_count
whole_of_le m n h = ground arith

-- A string of at most 64 bytes is read whole by "64s".
pub unpack_64s :
    (s rest : List ℕ) (out : List Arg)
    → length s ≤ 64
    → serial_unpack_va (codes "64s") (reader (encode string (text s) ++ rest) 0 out)
      ≡ some (reader rest 0 (out ++ (text s ∷ [])))
unfolding serial_unpack_va unpack_conv
unpack_64s s rest out h = rw (unpack_text rest out 64 s (omega arith) (whole_of_le 64 (length s) h))
