-- ===== src/Serial/PcbRoundTrip.antt =====
-- serial_pack_pcb and serial_unpack_pcb of Common/serial.c together.
use esthe_r.Base.{ℕ, ◌≤◌, ◌<◌, ◌≡◌, refl, some, ap, arith, List, [], ◌++◌, length, append_assoc}
use esthe_r.Commons.{CommonsList}
use esthe_r.Structures.{Pcb}
use esthe_r.Serial.Format.{Packed}
use esthe_r.Serial.PcbPack.{serial_pack_pcb}
use esthe_r.Serial.PcbPack.Encoding.{Short, IsSerializable, pcb_bytes, InstructionFits}
use esthe_r.Serial.PcbPack.Encoding.{instruction_bytes, TagFits, tag_bytes}
use esthe_r.Serial.PcbPack.Laws.{serial_pack_pcb-bytes}
use esthe_r.Serial.PcbPack.Sizes.{pcb_size, length-pcb_bytes}
use esthe_r.Serial.PcbUnpack.{serial_unpack_pcb, read_instruction, read_tag, next_cell, alloc_count}
use esthe_r.Serial.PcbUnpack.Laws.{read_short-bytes, read_instruction-bytes, read_tag-bytes}
use esthe_r.Serial.PcbUnpack.Laws.{read_each-bytes, serial_unpack_stack-bytes}

module _ (lib : CommonsList) where
  serial_unpack_pcb-bytes :
      (pcb : Pcb) (rest : List ℕ)
      → IsSerializable pcb
      → serial_unpack_pcb lib (pcb_bytes pcb ++ rest) ≡ some pcb
  unfolding serial_unpack_pcb pcb_bytes
  serial_unpack_pcb-bytes pcb rest h =
      let hi : Short pcb.instructions = rw h.instructions h.code.0 in
      let ht : Short pcb.tags = rw h.tags h.names.0 in
      let ei : alloc_count pcb.instructions ≡ some (length pcb.index_code) =
        ap alloc_count h.instructions in
      let et : alloc_count pcb.tags ≡ some (length pcb.index_tag) = ap alloc_count h.tags in
      simp append_assoc (
        rw (
          read_short-bytes pcb.id_process,
          h.id_process,
          read_short-bytes pcb.pc,
          h.pc,
          read_short-bytes pcb.quantum,
          h.quantum,
          read_short-bytes pcb.status,
          h.status,
          read_short-bytes pcb.pages_code,
          h.pages_code,
          read_short-bytes pcb.instructions,
          hi,
          read_short-bytes pcb.tags,
          ht,
          read_short-bytes pcb.stack_pointer,
          h.stack_pointer,
          read_short-bytes pcb.exit_code,
          h.exit_code,
          ei,
          read_each-bytes InstructionFits instruction_bytes read_instruction next_cell
              read_instruction-bytes (λ l x. refl) [] pcb.index_code,
          h.code.1,
          et,
          read_each-bytes TagFits tag_bytes read_tag next_cell read_tag-bytes (λ l x. refl) []
              pcb.index_tag,
          h.names.1,
          serial_unpack_stack-bytes lib pcb.stack rest h.stack,
        ))

  -- For a pcb whose numbers fit two signed bytes, whose counts are those of its arrays, and whose
  -- tag names have at most 63 bytes and no zero byte: serial_pack_pcb returns a result, its size is
  -- the number of bytes that it wrote, and serial_unpack_pcb reads the same pcb back from them,
  -- whatever follows.
  pub serial_unpack_pcb-serial_pack_pcb :
      (pcb : Pcb) (rest : List ℕ)
      → IsSerializable pcb
      → (p : Packed) × (serial_pack_pcb lib pcb ≡ some p)
        × (p.size ≡ length p.bytes)
        × (serial_unpack_pcb lib (p.bytes ++ rest) ≡ some pcb)
  serial_unpack_pcb-serial_pack_pcb pcb rest h =
      (_, serial_pack_pcb-bytes lib pcb h, refl, serial_unpack_pcb-bytes pcb rest h)

  -- For such a pcb the size is 20 bytes, 4 for each instruction, for each tag 4 and the length of
  -- its name, and for each entry of the stack 12 and 7 for each of its arguments and variables.
  pub serial_pack_pcb_size :
      (pcb : Pcb)
      → IsSerializable pcb
      → (p : Packed) × (serial_pack_pcb lib pcb ≡ some p) × (p.size ≡ pcb_size pcb)
  serial_pack_pcb_size pcb h = (_, serial_pack_pcb-bytes lib pcb h, length-pcb_bytes pcb)

  -- Such a pcb with 252 instructions or more is written over the end of a buffer of
  -- BUFFER_CAPACITY, 1024 bytes, which is what every caller passes.
  pub serial_pack_pcb_overflows :
      (pcb : Pcb)
      → IsSerializable pcb
      → 252 ≤ length pcb.index_code
      → (p : Packed) × (serial_pack_pcb lib pcb ≡ some p) × (1024 < length p.bytes)
  serial_pack_pcb_overflows pcb h many =
      (_, serial_pack_pcb-bytes lib pcb h, unfold pcb_size in omega (arith, length-pcb_bytes pcb))
