-- ===== src/Tests/SerialRuns.antt =====
-- Common/serial.c at concrete inputs.
use esthe_r.Base.{
  ℕ, ◌+◌, ◌≤◌, ◌<◌, ◌≡◌, ◌≢◌, ◌↔◌, refl, some, arith, [], ◌∷◌, ◌++◌, length, codes, replicate,
  All-replicate,
}
use esthe_r.Base.Int.{pos, negsuc, to_unsigned}
use esthe_r.Commons.Instance.{sequences}
use esthe_r.Structures.{MemPos, StackEntry, Pcb}
use esthe_r.Serial.Integers.{packi16, packi32, unpacki16, unpacku16}
use esthe_r.Serial.Format.{num, text, Packed, serial_pack_va, pack_conv, serial_pack}
use esthe_r.Serial.Format.{serial_unpack_va, unpack_conv, serial_unpack, string_count}
use esthe_r.Serial.Format.Fields.{int8, int16, uint32, string}
use esthe_r.Serial.Format.RoundTrip.{serial_unpack-serial_pack}
use esthe_r.Serial.Format.Strings.{string_count-fits_iff}
use esthe_r.Serial.PcbPack.{serial_pack_pcb}
use esthe_r.Serial.PcbPack.Encoding.{IsSerializable, InstructionFits}
use esthe_r.Serial.PcbUnpack.{serial_unpack_pcb}
use esthe_r.Serial.PcbRoundTrip.{serial_unpack_pcb-serial_pack_pcb}
use esthe_r.Serial.PcbRoundTrip.{serial_pack_pcb_overflows}

pack_mixed :
    serial_pack (codes "chL") (num (negsuc 1) ∷ num (pos 300) ∷ num (pos 70000) ∷ [])
    ≡ some (record { size = 7; bytes = 254 ∷ 1 ∷ 44 ∷ 0 ∷ 1 ∷ 17 ∷ 112 ∷ [] })
unfolding serial_pack serial_pack_va pack_conv packi16 packi32 to_unsigned
pack_mixed = refl

-- 40000 does not fit a signed field of two bytes, and comes back as -25536.
short_wraps : unpacki16 (packi16 40000) ≡ some (negsuc 25535)
unfolding unpacki16 unpacku16 packi16
short_wraps = refl

unpack_cut : serial_unpack (codes "2s") (0 ∷ 3 ∷ 65 ∷ 66 ∷ 67 ∷ []) ≡ some (text (65 ∷ []) ∷ [])
unfolding serial_unpack serial_unpack_va unpack_conv unpacku16 string_count
unpack_cut = refl

serial_unpack-serial_pack_example :
    (p : Packed) × (serial_pack
        (codes "chLs")
        (num (negsuc 1) ∷ num (pos 300) ∷ num (pos 70000) ∷ text (65 ∷ []) ∷ [])
      ≡ some p)
    × (p.size ≡ length p.bytes)
    × (serial_unpack (codes "chLs") (p.bytes ++ (7 ∷ []))
        ≡ some (num (negsuc 1) ∷ num (pos 300) ∷ num (pos 70000) ∷ text (65 ∷ []) ∷ []))
serial_unpack-serial_pack_example =
    serial_unpack-serial_pack (int8 ∷ int16 ∷ uint32 ∷ string ∷ [])
      (num (negsuc 1) ∷ num (pos 300) ∷ num (pos 70000) ∷ text (65 ∷ []) ∷ []) (7 ∷ [])
      (omega arith)

string_count-fits_iff_example : (string_count 64 64 + 1 ≤ 64) ↔ (◌≢◌ {A = ℕ} 64 64)
string_count-fits_iff_example = string_count-fits_iff 64 64 (omega arith)

abbrev some_pos : MemPos
some_pos = record { page = pos 1; offset = pos 8; size = pos 4 }

abbrev some_entry : StackEntry
some_entry = record {
  args = [];
  vars = record { id = pos 97; mempos = some_pos } ∷ [];
  ret_pos = negsuc 0;
  ret_var = some_pos;
}

abbrev some_pcb : Pcb
some_pcb = record {
  id_process = pos 1;
  pc = pos 0;
  quantum = pos 3;
  status = pos 0;
  pages_code = pos 1;
  index_code =
      record { start = pos 0; offset = pos 5 } ∷ record { start = pos 5; offset = pos 9 } ∷ [];
  instructions = pos 2;
  index_tag = record { name = 102 ∷ 49 ∷ []; pc = pos 1 } ∷ [];
  tags = pos 1;
  stack = some_entry ∷ [];
  stack_pointer = pos 12;
  exit_code = negsuc 5;
}

some_pcb-IsSerializable : IsSerializable some_pcb
some_pcb-IsSerializable = record {
  id_process = omega arith;
  pc = omega arith;
  quantum = omega arith;
  status = omega arith;
  pages_code = omega arith;
  instructions = refl;
  tags = refl;
  stack_pointer = omega arith;
  exit_code = omega arith;
  code = omega arith;
  names = omega arith;
  stack = omega arith;
}

serial_unpack_pcb-serial_pack_pcb_example :
    (p : Packed) × (serial_pack_pcb sequences some_pcb ≡ some p)
    × (p.size ≡ length p.bytes)
    × (serial_unpack_pcb sequences (p.bytes ++ []) ≡ some some_pcb)
serial_unpack_pcb-serial_pack_pcb_example =
    serial_unpack_pcb-serial_pack_pcb sequences some_pcb [] some_pcb-IsSerializable

abbrev long_pcb : Pcb
long_pcb = record some_pcb {
  index_code = replicate 252 (record { start = pos 0; offset = pos 5 });
  instructions = pos 252;
}

long_pcb-IsSerializable : IsSerializable long_pcb
long_pcb-IsSerializable = record {
  id_process = omega arith;
  pc = omega arith;
  quantum = omega arith;
  status = omega arith;
  pages_code = omega arith;
  tags = refl;
  stack_pointer = omega arith;
  exit_code = omega arith;
  names = omega arith;
  stack = omega arith;
  instructions = refl;
  code = (
    omega arith,
    All-replicate InstructionFits 252 (record { start = pos 0; offset = pos 5 }) (omega arith),
  );
}

serial_pack_pcb_overflows_example :
    (p : Packed) × (serial_pack_pcb sequences long_pcb ≡ some p) × (1024 < length p.bytes)
serial_pack_pcb_overflows_example =
    serial_pack_pcb_overflows sequences long_pcb long_pcb-IsSerializable (omega arith)
