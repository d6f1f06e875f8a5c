-- ===== src/Cpu/Messages/Wire.antt =====
-- What the CPU of CPU/src/CPU.c puts on its connections.
use esthe_r.Base.{ℕ, ◌+◌, ◌≤◌, ◌<◌, ◌≡◌, refl, ap, ◌∙◌}
use esthe_r.Base.{some, List, [], ◌∷◌, ◌++◌, length}
use esthe_r.Base.{arith}
use esthe_r.Base.{codes}
use esthe_r.Base.Int.{ℤ, pos, negsuc, to_unsigned}
use esthe_r.Structures.{MemPos, Pcb}
use esthe_r.Serial.Format.{num, serial_pack}
use esthe_r.Serial.Format.Fields.{int16}
use esthe_r.Serial.Format.RoundTrip.{serial_pack-encoding}
use esthe_r.Serial.PcbPack.Encoding.{Short, short_bytes, MemPosFits, mempos_bytes}
use esthe_r.Serial.PcbPack.Sizes.{length-short_bytes, length-mempos_bytes}
use esthe_r.Socket.Send.{Accepts}
use esthe_r.Protocol.{Header, protocol_header}
use esthe_r.Protocol.Opcodes.{op_me_almbytpag}
use esthe_r.Protocol.RoundTrip.{IsValid, header_bytes, protocol_packet_send-Wrote}
use esthe_r.Cpu.Messages.{Link, send_packet, user_header, variable_place, send_place, send_value}

to_unsigned_bound : (v : ℤ) → to_unsigned 256 v < 256
unfolding to_unsigned
to_unsigned_bound (pos n) = omega arith
to_unsigned_bound (negsuc n) = omega arith

user_header-IsValid : (pcb : Pcb) (n : ℕ) → n < 1024 → IsValid (user_header op_me_almbytpag pcb n)
unfolding user_header protocol_header
user_header-IsValid pcb n h = record {
  syspid = omega arith;
  usrpid = to_unsigned_bound pcb.id_process;
  opcode = omega arith;
  msgsize = omega arith;
  defined = omega arith;
}

packed_place :
    (at : MemPos)
    → MemPosFits at
    → serial_pack (codes "hhh") (num at.page ∷ num at.offset ∷ num at.size ∷ [])
      ≡ some (record { size = 6; bytes = mempos_bytes at })
unfolding mempos_bytes
packed_place at f = rw (← length-mempos_bytes at) (
    serial_pack-encoding (int16 ∷ int16 ∷ int16 ∷ [])
      (num at.page ∷ num at.offset ∷ num at.size ∷ []) (f.0, (f.1, (f.2, tt))))

packed-Short :
    (v : ℤ)
    → Short v
    → serial_pack (codes "h") (num v ∷ []) ≡ some (record { size = 2; bytes = short_bytes v })
unfolding short_bytes
packed-Short v f =
    rw (← length-short_bytes v) (serial_pack-encoding (int16 ∷ []) (num v ∷ []) (f, tt))

-- The connection after a packet: what it has sent, and calls that will not fail.
abbrev Sends : Header → List ℕ → Link → Type 0
Sends h bs l =
    (l' : Link) × (send_packet h bs l ≡ some l')
    × (l'.wire ≡ l.wire ++ (header_bytes h ++ bs))
    × Accepts l'.accepted
    × (length l.accepted ≤ length l'.accepted + (7 + length bs))

send_packet-wire :
    (h : Header) (bs : List ℕ) (l : Link)
    → IsValid h
    → length bs ≡ h.msgsize
    → Accepts l.accepted
    → 7 + length bs ≤ length l.accepted
    → Sends h bs l
unfolding send_packet
send_packet-wire h bs l v size ok enough =
    let (r, e, (w, ok', calls)) = protocol_packet_send-Wrote h v bs l.accepted size ok enough in
    rw e (_, refl, ap (λ xs. l.wire ++ xs) w, ok', calls)

user_header_size : (op n : ℕ) (pcb : Pcb) → n ≡ (user_header op pcb n).msgsize
unfolding user_header
user_header_size op n pcb = refl

-- For a place and a value that fit 16-bit fields, on a connection whose sends succeed: asignar
-- sends first the place, with a size of four bytes, and then the value, in two bytes.
pub send_value-wire :
    (tamanio_pagina : ℕ) (direccion valor : ℤ) (pcb : Pcb) (l : Link)
    → MemPosFits (variable_place tamanio_pagina direccion pcb)
    → Short valor
    → Accepts l.accepted
    → 22 ≤ length l.accepted
    → (l' : Link) × (send_value tamanio_pagina direccion valor pcb l ≡ some l')
      × (l'.wire
          ≡ (l.wire
              ++ (header_bytes (user_header op_me_almbytpag pcb 6)
                  ++ mempos_bytes (variable_place tamanio_pagina direccion pcb)))
            ++ (header_bytes (user_header op_me_almbytpag pcb 2) ++ short_bytes valor))
      × ((variable_place tamanio_pagina direccion pcb).size ≡ pos 4)
      × (length (short_bytes valor) ≡ 2)
unfolding send_value send_place variable_place
send_value-wire tamanio_pagina direccion valor pcb l place short ok enough =
    let at = variable_place tamanio_pagina direccion pcb in
    let n : length (mempos_bytes at) ≡ 6 = length-mempos_bytes at in
    let m : length (short_bytes valor) ≡ 2 = length-short_bytes valor in
    let (l1, e1, w1, ok1, calls1) =
      send_packet-wire (user_header op_me_almbytpag pcb 6) (mempos_bytes at) l
        (user_header-IsValid pcb 6 (omega arith)) (n ∙ user_header_size op_me_almbytpag 6 pcb) ok
        (omega arith) in
    let (l2, e2, w2, _, _) =
      send_packet-wire (user_header op_me_almbytpag pcb 2) (short_bytes valor) l1
        (user_header-IsValid pcb 2 (omega arith)) (m ∙ user_header_size op_me_almbytpag 2 pcb) ok1
        (omega arith) in
    rw (packed_place at place, e1, packed-Short valor short, e2)
      (
        l2,
        refl,
        w2
            ∙ ap
                (λ xs.
                  xs ++ (header_bytes (user_header op_me_almbytpag pcb 2) ++ short_bytes valor))
                w1,
        refl,
        m,
      )
