-- ===== src/Protocol/RoundTrip.antt =====
-- A packet that protocol_packet_send puts on a connection, and protocol_packet_receive takes off it.
use esthe_r.Base.{ℕ, ◌+◌, ◌^◌, ◌≤◌, ◌<◌, ◌≡◌, ◌≢◌, refl, true, false, some, ap, ◌∙◌, arith}
use esthe_r.Base.{
  List, [], ◌∷◌, ◌++◌, length, length-append, append-nil, codes, take, drop, leb, ◌==◌,
}
use esthe_r.Base.{take_all-append, drop_all-append, take-length_le}
use esthe_r.Base.Int.{pos}
use esthe_r.Serial.Format.{Arg, num, serial_pack, serial_unpack, copy_bytes}
use esthe_r.Serial.Format.Fields.{Field, uint8, uint32}
use esthe_r.Serial.Format.RoundTrip.{AllFit, encoding, serial_pack-encoding, serial_unpack-encoding}
use esthe_r.Serial.Integers.Laws.{length-packi32}
use esthe_r.Socket.{buffer_capacity, Accepted, Sent, Arrival, socket_receive_bytes}
use esthe_r.Socket.Send.{Accepts, socket_send_bytes-wire}
use esthe_r.Socket.Receive.{Flows, bytes_of, socket_receive_bytes-take}
use esthe_r.Protocol.{Header, pointed, send_header, receive_header, protocol_packet}
use esthe_r.Protocol.{protocol_packet_send, protocol_packet_receive}
use esthe_r.Protocol.Opcodes.{op_undefined}

-- The fields lie in the ranges of their types on the wire, and the operation is not the undefined
-- one.
pub record IsValid (h : Header) : Type 0 where
  pub syspid : h.syspid < 2 ^ 8
  pub usrpid : h.usrpid < 2 ^ 8
  pub opcode : h.opcode < 2 ^ 8
  pub msgsize : h.msgsize < 2 ^ 32
  pub defined : h.opcode ≢ op_undefined

abbrev fields : List Field
fields = uint8 ∷ uint8 ∷ uint8 ∷ uint32 ∷ []

abbrev header_args : Header → List Arg
header_args h =
    num (pos h.syspid) ∷ num (pos h.usrpid) ∷ num (pos h.opcode) ∷ num (pos h.msgsize) ∷ []

-- The seven bytes of a header.
unfoldable pub header_bytes : Header → List ℕ
header_bytes h = encoding fields (header_args h)

length-header_bytes : (h : Header) → length (header_bytes h) ≡ 7
unfolding header_bytes
length-header_bytes h = simp (length-append, length-packi32)

module _ (h : Header) (v : IsValid h) where
  fit : AllFit fields (header_args h)
  fit = (v.syspid, (v.usrpid, (v.opcode, (v.msgsize, tt))))

  packed :
      serial_pack (codes "CCCL") (header_args h)
      ≡ some (record { size = length (header_bytes h); bytes = header_bytes h })
  unfolding header_bytes
  packed = serial_pack-encoding fields (header_args h) fit

  unpacked : serial_unpack (codes "CCCL") (header_bytes h) ≡ some (header_args h)
  unpacked =
      rw (← append-nil (header_bytes h))
        (unfold header_bytes in serial_unpack-encoding fields (header_args h) [] fit)

pub copy_all : (bs : List ℕ) → copy_bytes (length bs) bs ≡ some bs
unfolding copy_bytes
copy_all bs =
    let t : leb (length bs) (length bs) ≡ true = ground arith in
    rw (t, take-length_le (length bs) bs (omega arith))

-- What a successful run of sends leaves: the bytes on the wire, and calls that will not fail.
abbrev pub Wrote : ℕ → List ℕ → List Accepted → Sent → Type 0
Wrote n bs env r = (r.wire ≡ bs) × Accepts r.env × (length env ≤ length r.env + n)

-- `bs` has been taken from the connection `s`, and `rest` is to come on `s'`.
abbrev pub Read : List ℕ → List Arrival → Type 0
Read rest s' = Flows s' × (bytes_of s' ≡ rest)

whole_chunk :
    (n : ℕ) (bs rest : List ℕ) (s : List Arrival)
    → n ≢ buffer_capacity
    → length bs ≡ n
    → Flows s
    → bytes_of s ≡ bs ++ rest
    → (s' : List Arrival) × (socket_receive_bytes n s
        ≡ some (record { count = pos n; bytes = bs; rest = s' }))
      × Read rest s'
whole_chunk n bs rest s plain size f e =
    let (s', got, t) =
      socket_receive_bytes-take n plain s f (rw e (omega (arith, length-append bs rest))) in
    (
      s',
      got ∙ ap (λ xs. some (record { count = pos n; bytes = xs; rest = s' })) front,
      (t.flows, t.rest ∙ behind),
    )
  where
    front : take n (bytes_of s) ≡ bs
    front = rw (e, ← size) (take_all-append bs rest)

    behind : drop n (bytes_of s) ≡ rest
    behind = rw (e, ← size) (drop_all-append bs rest)

payload_pointed :
    (h : Header) (bs : List ℕ)
    → length bs ≡ h.msgsize
    → pointed (protocol_packet h bs).payload h.msgsize ≡ some bs
unfolding protocol_packet pointed
payload_pointed h [] size = let t : (h.msgsize == 0) ≡ true = ground arith in rw (t, pointed) (rw t)
payload_pointed h (b ∷ bs) size =
    let t : (h.msgsize == 0) ≡ false = ground arith in rw (t, ← size) (copy_all (b ∷ bs))

module _ (h : Header) (v : IsValid h) where
  send_header-wire :
      (env : List Accepted)
      → Accepts env
      → 7 ≤ length env
      → (r : Sent) × (send_header h env ≡ some r) × Wrote 7 (header_bytes h) env r
  unfolding send_header
  send_header-wire env ok enough =
      let size = length-header_bytes h in
      let (r, e, (_, wire, fine, calls)) =
        socket_send_bytes-wire (header_bytes h) env ok (omega arith) in
      rw (packed h v, copy_all) (r, e, (wire, fine, omega arith))

  receive_header-wire :
      (s : List Arrival) (rest : List ℕ)
      → Flows s
      → bytes_of s ≡ header_bytes h ++ rest
      → (s' : List Arrival) × (receive_header s ≡ some (h, s')) × Read rest s'
  unfolding receive_header
  receive_header-wire s rest f e =
      let (s', got, r) =
        whole_chunk 7 (header_bytes h) rest s (omega arith) (length-header_bytes h) f e in
      (s', rw (got, unpacked h v), r)

  pub protocol_packet_send-Wrote :
      (bs : List ℕ) (env : List Accepted)
      → length bs ≡ h.msgsize
      → Accepts env
      → 7 + length bs ≤ length env
      → (r : Sent) × (protocol_packet_send (protocol_packet h bs) env ≡ some r)
        × Wrote (7 + length bs) (header_bytes h ++ bs) env r
  unfolding protocol_packet_send protocol_packet
  protocol_packet_send-Wrote bs env size ok enough =
      let (r1, e1, (wire1, ok1, calls1)) = send_header-wire env ok (omega arith) in
      let (r2, e2, (_, wire2, ok2, calls2)) = socket_send_bytes-wire bs r1.env ok1 (omega arith) in
      rw (e1, payload_pointed h bs size, e2) (_, refl, (rw (wire1, wire2) refl, ok2, omega arith))

  -- For a header whose fields are in range and whose operation is defined, and a payload of the
  -- size that it states. If no `send` fails and there are calls enough, protocol_packet_send
  -- returns, and puts the header and the payload on the wire.
  pub protocol_packet_send-wire :
      (bs : List ℕ) (env : List Accepted)
      → length bs ≡ h.msgsize
      → Accepts env
      → 7 + length bs ≤ length env
      → (r : Sent) × (protocol_packet_send (protocol_packet h bs) env ≡ some r)
        × (r.wire ≡ header_bytes h ++ bs)
  protocol_packet_send-wire bs env size ok enough =
      let (r, e, (wire, _, _)) = protocol_packet_send-Wrote bs env size ok enough in (r, e, wire)

  -- For a header whose fields are in range, whose operation is defined and whose size is not 1024, and
  -- a payload of the size that it states: in whatever pieces their bytes arrive on a connection that
  -- does not fail, protocol_packet_receive returns the header and the payload, and leaves what follows.
  pub protocol_packet_receive-wire :
      (bs rest : List ℕ) (s : List Arrival)
      → length bs ≡ h.msgsize
      → h.msgsize ≢ buffer_capacity
      → Flows s
      → bytes_of s ≡ header_bytes h ++ (bs ++ rest)
      → (s' : List Arrival) × (protocol_packet_receive s
          ≡ some (record { header = h; payload = some bs }, s'))
        × Read rest s'
  unfolding protocol_packet_receive
  protocol_packet_receive-wire bs rest s size plain f e =
      let (s1, got, (f1, e1)) = receive_header-wire s (bs ++ rest) f e in
      let (s2, got2, r) = whole_chunk h.msgsize bs rest s1 plain size f1 e1 in
      let t : (h.opcode == op_undefined) ≡ false = ground (arith, v.defined) in
      rw (got, t, got2) (s2, refl, r)
