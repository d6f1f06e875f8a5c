-- ===== src/Dialog/Pages.antt =====
-- The request of pages for a program: request_pages of Kernel/src/Kernel.c, the thread of the Kernel in
-- Memoria/src/server.c, and the answer that planificacion reads.
use esthe_r.Base.{
  ℕ, ◌%◌, ◌≤◌, ◌≡◌, ◌≢◌, refl, sym, ap, ◌∙◌, true, some, List, [], ◌∷◌, ◌++◌, length, arith, codes,
  append-nil, Bool-cases, inl, inr,
}
use esthe_r.Base.Int.{ℤ, pos, leb_ℤ, ltb_ℤ, to_unsigned}
use esthe_r.Serial.Format.{num, serial_pack, copy_bytes}
use esthe_r.Serial.Format.Fields.{int16}
use esthe_r.Serial.Format.RoundTrip.{serial_pack-encoding}
use esthe_r.Serial.PcbPack.Encoding.{short_bytes, Short}
use esthe_r.Serial.PcbPack.Sizes.{length-short_bytes}
use esthe_r.Serial.PcbUnpack.{read_short}
use esthe_r.Serial.PcbUnpack.Laws.{read_short-bytes}
use esthe_r.Socket.{Arrival, buffer_capacity}
use esthe_r.Socket.Send.{Accepts}
use esthe_r.Socket.Receive.{Flows, bytes_of}
use esthe_r.Protocol.{
  Packet, protocol_packet, protocol_header, protocol_header_response, protocol_packet_receive,
  pointed,
}
use esthe_r.Protocol.RoundTrip.{IsValid, header_bytes, copy_all, protocol_packet_receive-wire}
use esthe_r.Protocol.Opcodes.{memory, op_me_inipro}
use esthe_r.Memory.PageTable.{Row, free_rows, set_pages}
use esthe_r.Memory.Server.{Client, respond, serve, init_program, respond_result}
use esthe_r.Memory.Server.Reads.{respond-wire}
use esthe_r.Kernel.{
  KernelState, send, receive, program_header, buffered, take_packet, set_connection,
}
use esthe_r.Kernel.Planning.{request_pages, receive_result}
use esthe_r.Dialog.{arrived}

-- The packet of the Kernel that asks for pages.
abbrev pub pages_packet : ℤ → ℕ → Packet
pages_packet pid pages =
    protocol_packet (program_header op_me_inipro 2 pid) (short_bytes (pos pages))

-- What the memory does with it: the process of a packet is one byte.
abbrev pub granted_pages : Client → ℕ → ℕ → ℤ × List Row
granted_pages c p n = set_pages c.shared.page_table (pos (p % 256)) (pos n)

-- The answer of the memory, as it is received.
abbrev pub answer_packet : Client → ℤ → Packet
answer_packet c res = record {
  header = protocol_header_response memory c.header 2;
  payload = some (short_bytes res);
}

pub packs-Short :
    (v : ℤ)
    → Short v
    → serial_pack (codes "h") (num v ∷ []) ≡ some (record { size = 2; bytes = short_bytes v })
packs-Short v h =
    let e = serial_pack-encoding (int16 ∷ []) (num v ∷ []) (h, tt) in
    let l = length-short_bytes v in
    unfold short_bytes in e ∙ ap (λ n. some (record { size = n; bytes = short_bytes v })) l

sends_pages :
    (mem p n : ℕ) (k : KernelState)
    → Short (pos n)
    → request_pages mem (pos p) n k ≡ some (send (pages_packet (pos p) n) mem k)
unfolding request_pages buffered
sends_pages mem p n k h = rw (packs-Short (pos n) h) refl

arrived-pages_packet :
    (p n : ℕ) → (arrived (pages_packet (pos p) n)).payload ≡ some (short_bytes (pos n))
unfolding protocol_packet protocol_header program_header pointed
arrived-pages_packet p n =
    let l = length-short_bytes (pos n) in
    ap (λ m. copy_bytes m (short_bytes (pos n))) (sym l) ∙ copy_all (short_bytes (pos n))

pages_opcode : (p n : ℕ) → (arrived (pages_packet (pos p) n)).header.opcode ≡ op_me_inipro
unfolding protocol_packet protocol_header program_header
pages_opcode p n = refl

pages_program : (p n : ℕ) → (arrived (pages_packet (pos p) n)).header.usrpid ≡ p % 256
unfolding protocol_packet protocol_header program_header to_unsigned
pages_program p n = refl

pub reads-Short : (v : ℤ) → Short v → read_short (short_bytes v) ≡ some (v, [])
reads-Short v h = ap read_short (sym (append-nil (short_bytes v))) ∙ read_short-bytes v [] h

set_pages-Short : (table : List Row) (pid pages : ℤ) → Short (set_pages table pid pages).0
unfolding set_pages
set_pages-Short table pid pages = elim (Bool-cases (leb_ℤ pid (pos 0))) [
  | inl a ↦ rw a (omega arith)
  | inr a ↦ elim (Bool-cases (leb_ℤ pages (pos 0))) [
    | inl b ↦ rw (a, b) (omega arith)
    | inr b ↦ elim (Bool-cases (ltb_ℤ (pos (free_rows table)) pages)) [
      | inl c ↦ rw (a, b, c) (omega arith)
      | inr c ↦ rw (a, b, c) (omega arith)
    ]
  ]
]

pub responds :
    (c : Client) (res : ℤ)
    → Short res
    → IsValid (protocol_header_response memory c.header 2)
    → Accepts c.accepted
    → 9 ≤ length c.accepted
    → (c' : Client) × (respond_result res c ≡ some c')
      × (c'.shared ≡ c.shared)
      × (c'.wire
          ≡ c.wire
            ++ (header_bytes (protocol_header_response memory c.header 2) ++ short_bytes res))
unfolding respond_result
responds c res h valid ok enough =
    let l = length-short_bytes res in
    let (c', e, same, sent) = respond-wire c (short_bytes res) (rw l valid) ok (omega (arith, l)) in
    (
      c',
      rw (packs-Short res h) (ap (λ n. respond n (short_bytes res) c) (sym l) ∙ e),
      same,
      sent
          ∙ ap
              (λ n.
                c.wire
                ++ (header_bytes (protocol_header_response memory c.header n) ++ short_bytes res))
              l,
    )

serves_pages :
    (m p n : ℕ) (c : Client)
    → Short (pos n)
    → IsValid (protocol_header_response memory c.header 2)
    → Accepts c.accepted
    → 9 ≤ length c.accepted
    → (c' : Client) × (serve m (arrived (pages_packet (pos p) n)) c ≡ some (c', true))
      × (c'.shared.page_table ≡ (granted_pages c p n).1)
      × (c'.wire
          ≡ c.wire
            ++ (header_bytes (protocol_header_response memory c.header 2)
                ++ short_bytes (granted_pages c p n).0))
unfolding serve init_program
serves_pages m p n c h valid ok enough =
    let table = (granted_pages c p n).1 in
    let (c', e, same, sent) =
      responds (record c { shared = record c.shared { page_table = table } })
        (granted_pages c p n).0 (set_pages-Short c.shared.page_table (pos (p % 256)) (pos n)) valid
        ok enough in
    (
      c',
      rw (pages_opcode p n, pages_program p n, arrived-pages_packet p n, reads-Short (pos n) h, e)
          refl,
      ap (λ d. d.page_table) same,
      sent,
    )

answer_size : (c : Client) → (protocol_header_response memory c.header 2).msgsize ≡ 2
unfolding protocol_header_response
answer_size c = refl

answer_small : (c : Client) → (protocol_header_response memory c.header 2).msgsize ≢ buffer_capacity
answer_small c e = omega (arith, answer_size c, e)

-- The connection to the memory after a packet is taken from it.
received_answer :
    (mem : ℕ) (k : KernelState) (c : Client) (res : ℤ) (more : List Packet)
    → Short res
    → (k.connection mem).arriving ≡ answer_packet c res ∷ more
    → (k' : KernelState) × (receive_result mem k ≡ some (res, k'))
unfolding receive_result receive take_packet
received_answer mem k c res more h e = (
  set_connection mem (record (k.connection mem) { arriving = more }) k,
  rw (e, reads-Short res h) refl,
)

module _ (mem m p n : ℕ) (k : KernelState) (c : Client) (short : Short (pos n))
    (valid : IsValid (protocol_header_response memory c.header 2)) (ok : Accepts c.accepted)
    (enough : 9 ≤ length c.accepted) where
  -- For a number of pages below 2 ^ 15, a thread of the memory whose header can be answered, and a
  -- connection whose sends succeed: the Kernel sends the request; the memory grants the pages to the
  -- program, modulo 256, as set_pages does, and puts the header and the result of set_pages on the wire;
  -- in whatever pieces those bytes arrive, they are received as the packet of the answer; and when it is
  -- the first to arrive at the Kernel, receive_result returns the result of set_pages.
  pub request_pages-set_pages :
      (request_pages mem (pos p) n k ≡ some (send (pages_packet (pos p) n) mem k))
      × ((c' : Client) × (serve m (arrived (pages_packet (pos p) n)) c ≡ some (c', true))
          × (c'.shared.page_table ≡ (granted_pages c p n).1)
          × (c'.wire
              ≡ c.wire
                ++ (header_bytes (protocol_header_response memory c.header 2)
                    ++ short_bytes (granted_pages c p n).0)))
      × ((s : List Arrival) (rest : List ℕ)
          → Flows s
          → bytes_of s
            ≡ header_bytes (protocol_header_response memory c.header 2)
              ++ (short_bytes (granted_pages c p n).0 ++ rest)
          → (s' : List Arrival) × (protocol_packet_receive s
              ≡ some (answer_packet c (granted_pages c p n).0, s')))
      × ((k1 : KernelState) (more : List Packet)
          → (k1.connection mem).arriving ≡ answer_packet c (granted_pages c p n).0 ∷ more
          → (k' : KernelState) × (receive_result mem k1 ≡ some ((granted_pages c p n).0, k')))
  request_pages-set_pages =
      let res = (granted_pages c p n).0 in
      let h = set_pages-Short c.shared.page_table (pos (p % 256)) (pos n) in
      (
        sends_pages mem p n k short,
        serves_pages m p n c short valid ok enough,
        (λ s rest flows e.
            let (s', r, _) =
              protocol_packet_receive-wire (protocol_header_response memory c.header 2) valid
                (short_bytes res) rest s (length-short_bytes res ∙ sym (answer_size c))
                (λ f. answer_small c f) flows e in
            (s', r)),
        (λ k1 more e. received_answer mem k1 c res more h e),
      )
