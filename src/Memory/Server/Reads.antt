-- ===== src/Memory/Server/Reads.antt =====
-- The requests of bytes that the thread of Memoria/src/server.c serves.
use esthe_r.Base.{ℕ, ◌+◌, ◌*◌, ◌≤◌, ◌<◌, ◌≡◌, refl, ap, true, false}
use esthe_r.Base.{none, some, List, [], ◌++◌, length, take, drop}
use esthe_r.Base.{ltb, arith}
use esthe_r.Base.{append-nil, length-take, length-drop}
use esthe_r.Base.Int.{ℤ, pos}
use esthe_r.Structures.{MemPos}
use esthe_r.Serial.PcbPack.Encoding.{MemPosFits, mempos_bytes}
use esthe_r.Serial.PcbUnpack.Laws.{read_mempos-bytes}
use esthe_r.Socket.Send.{Accepts}
use esthe_r.Protocol.{Header, Packet, protocol_header_response}
use esthe_r.Protocol.RoundTrip.{IsValid, header_bytes, protocol_packet_send-wire}
use esthe_r.Protocol.Opcodes.{memory, op_me_solbytpag}
use esthe_r.Memory.PageTable.{find_frame, get_frame}
use esthe_r.Memory.PageTable.Lookup.{get_frame-missing}
use esthe_r.Memory.PageTable.Bytes.{read_by}
use esthe_r.Memory.Server.{Client, respond, answer_bytes, request_bytes, serve}

-- The place of `s` bytes from `o` on in a page.
abbrev pub place : ℤ → ℕ → ℕ → MemPos
place page o s = record { page = page; offset = pos o; size = pos s }

-- A request of bytes from a process of the system, for a program.
abbrev pub request : ℕ → ℕ → MemPos → Packet
request syspid usrpid at = record {
  header = record { syspid = syspid; usrpid = usrpid; opcode = op_me_solbytpag; msgsize = 6 };
  payload = some (mempos_bytes at);
}

response_size : (h : Header) (n : ℕ) → n ≡ (protocol_header_response memory h n).msgsize
unfolding protocol_header_response
response_size h n = refl

pub respond-wire :
    (c : Client) (bytes : List ℕ)
    → IsValid (protocol_header_response memory c.header (length bytes))
    → Accepts c.accepted
    → 7 + length bytes ≤ length c.accepted
    → (c' : Client) × (respond (length bytes) bytes c ≡ some c')
      × (c'.shared ≡ c.shared)
      × (c'.wire
          ≡ c.wire
            ++ (header_bytes (protocol_header_response memory c.header (length bytes)) ++ bytes))
unfolding respond
respond-wire c bytes valid ok enough =
    let h = protocol_header_response memory c.header (length bytes) in
    let (r, e, w) =
      protocol_packet_send-wire h valid bytes c.accepted (response_size c.header (length bytes)) ok
        enough in
    rw e (_, refl, refl, ap (λ xs. c.wire ++ xs) w)

module _ (m : ℕ) (c : Client) (syspid p o s : ℕ) (page : ℤ) (short : MemPosFits (place page o s))
    (some_byte : 0 < s) (small : s ≤ 1024)
    (valid : IsValid (protocol_header_response memory c.header s)) (ok : Accepts c.accepted)
    (enough : 7 + s ≤ length c.accepted) where
  answered :
      (bytes : List ℕ)
      → length bytes ≡ s
      → (c' : Client) × (answer_bytes (pos s) (pos 1, bytes) c ≡ some c')
        × (c'.shared ≡ c.shared)
        × (c'.wire ≡ c.wire ++ (header_bytes (protocol_header_response memory c.header s) ++ bytes))
  unfolding answer_bytes
  answered bytes l =
      let t : ltb 1024 (length bytes) ≡ false = rw l (ground arith) in
      rw (← l) (rw t (respond-wire c bytes (rw l valid) ok (rw l enough)))

  -- A request of bytes that is well-formed, of at most 1024 bytes that lie in the memory, on a
  -- connection whose sends succeed: the thread goes on, the memory is as it was, and what it sends
  -- is the header of the answer and the bytes from the offset on in the frame of get_frame.
  pub serve-request :
      get_frame c.shared.page_table (pos p) page * m + o + s ≤ length c.shared.main
      → (c' : Client) × (serve m (request syspid p (place page o s)) c ≡ some (c', true))
        × (c'.shared ≡ c.shared)
        × (c'.wire
            ≡ c.wire
              ++ (header_bytes (protocol_header_response memory c.header s)
                  ++ take s
                      (drop (get_frame c.shared.page_table (pos p) page * m + o) c.shared.main)))
  unfolding serve request_bytes
  serve-request inside =
      let f = get_frame c.shared.page_table (pos p) page in
      let l : length (take s (drop (f * m + o) c.shared.main)) ≡ s =
        length-take s (drop (f * m + o) c.shared.main)
          (rw (length-drop (f * m + o) c.shared.main) (omega arith)) in
      let (c', e, same, sent) = answered (take s (drop (f * m + o) c.shared.main)) l in
      rw
        (
          ← append-nil (mempos_bytes (place page o s)),
          read_mempos-bytes (place page o s) [] short,
          read_by m c.shared.main f o s some_byte inside,
          e,
        )
        (c', refl, same, sent)

  -- Such a request for a page that is not in the table: the answer holds bytes of frame 0, to
  -- whichever program that frame belongs.
  pub serve-request_unowned :
      find_frame (pos p) page c.shared.page_table ≡ none
      → o + s ≤ length c.shared.main
      → (c' : Client) × (serve m (request syspid p (place page o s)) c ≡ some (c', true))
        × (c'.shared ≡ c.shared)
        × (c'.wire
            ≡ c.wire
              ++ (header_bytes (protocol_header_response memory c.header s)
                  ++ take s (drop o c.shared.main)))
  serve-request_unowned missing inside =
      let z : get_frame c.shared.page_table (pos p) page * m + o ≡ o =
        rw (get_frame-missing c.shared.page_table (pos p) page missing) (omega arith) in
      rw z at (serve-request (rw z inside))
