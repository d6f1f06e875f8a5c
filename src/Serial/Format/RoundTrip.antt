-- ===== src/Serial/Format/RoundTrip.antt =====
-- Whole format strings of serial_pack and serial_unpack in Common/serial.c.
use esthe_r.Base.{ℕ, ◌≡◌, refl, some, arith, ap, ◌∙◌}
use esthe_r.Base.{List, [], ◌∷◌, ◌++◌, length, length-append, append_assoc, append-nil}
use native.Mathlib.Nat.{add_assoc, zero-add}
use esthe_r.Serial.Format.{
  Arg, Packed, serial_pack_va, serial_pack, serial_unpack_va, serial_unpack,
}
use esthe_r.Serial.Format.Fields.{Field, field_code, Fits, encode, stored, reader}
use esthe_r.Serial.Format.Fields.{pack_conv-encode, unpack_conv-encode}

-- The format string of a list of fields.
abbrev pub format : List Field → List ℕ
format [] = []
format (f ∷ fs) = field_code f ∷ format fs

-- One argument for each field, in its range.
abbrev pub AllFit : List Field → List Arg → Type 0
AllFit [] [] = Unit {0}
AllFit (f ∷ fs) (a ∷ args) = Fits f a × AllFit fs args
AllFit _ _ = ⊥

abbrev pub encoding : List Field → List Arg → List ℕ
encoding (f ∷ fs) (a ∷ args) = encode f a ++ encoding fs args
encoding _ _ = []

pub stored-append : (p : Packed) (xs ys : List ℕ) → stored (stored p xs) ys ≡ stored p (xs ++ ys)
unfolding stored
stored-append p xs ys = rw (length-append, append_assoc, add_assoc)

pack_va-encoding :
    (fs : List Field) (args : List Arg) (p : Packed)
    → AllFit fs args
    → serial_pack_va (format fs) args p ≡ some (stored p (encoding fs args))
unfolding serial_pack_va
pack_va-encoding [] [] p h =
    unfold stored in
    rw append-nil (ap some (ap (λ n. record { size = n; bytes = p.bytes }) (omega arith)))
pack_va-encoding (f ∷ fs) (a ∷ args) p h =
    rw (pack_conv-encode args p f a h.0, ← stored-append p (encode f a) (encoding fs args))
      (pack_va-encoding fs args _ h.1)
pack_va-encoding [] (a ∷ args) p h = absurd h
pack_va-encoding (f ∷ fs) [] p h = absurd h

-- serial_pack writes the encoding, and returns its length.
pub serial_pack-encoding :
    (fs : List Field) (args : List Arg)
    → AllFit fs args
    → serial_pack (format fs) args
      ≡ some (record { size = length (encoding fs args); bytes = encoding fs args })
unfolding serial_pack stored
serial_pack-encoding fs args h =
    pack_va-encoding fs args (record { size = 0; bytes = [] }) h
    ∙ ap (λ n. some (record { size = n; bytes = encoding fs args }))
        (zero-add (length (encoding fs args)))

-- serial_unpack_va reads the encoding, and stops behind it.
pub unpack_va-encoding :
    (fs : List Field) (args : List Arg) (rest : List ℕ) (out : List Arg)
    → AllFit fs args
    → serial_unpack_va (format fs) (reader (encoding fs args ++ rest) 0 out)
      ≡ some (reader rest 0 (out ++ args))
unfolding serial_unpack_va
unpack_va-encoding [] [] rest out h = rw append-nil
unpack_va-encoding (f ∷ fs) (a ∷ args) rest out h = rw (
  append_assoc,
  unpack_conv-encode (encoding fs args ++ rest) out f a h.0,
  unpack_va-encoding fs args rest (out ++ (a ∷ [])) h.1,
  append_assoc,
)
unpack_va-encoding [] (a ∷ args) rest out h = absurd h
unpack_va-encoding (f ∷ fs) [] rest out h = absurd h

pub serial_unpack-encoding :
    (fs : List Field) (args : List Arg) (rest : List ℕ)
    → AllFit fs args
    → serial_unpack (format fs) (encoding fs args ++ rest) ≡ some args
unfolding serial_unpack
serial_unpack-encoding fs args rest h = rw (unpack_va-encoding fs args rest [] h)

-- For every format string over the integer and string conversions, and arguments in the ranges of
-- its fields: serial_pack returns a result, the size that it returns is the number of bytes that it
-- wrote, and serial_unpack with the same format reads the arguments back from those bytes, whatever
-- follows them in the buffer.
pub serial_unpack-serial_pack :
    (fs : List Field) (args : List Arg) (rest : List ℕ)
    → AllFit fs args
    → (p : Packed) × (serial_pack (format fs) args ≡ some p)
      × (p.size ≡ length p.bytes)
      × (serial_unpack (format fs) (p.bytes ++ rest) ≡ some args)
serial_unpack-serial_pack fs args rest h =
    (_, serial_pack-encoding fs args h, refl, serial_unpack-encoding fs args rest h)
