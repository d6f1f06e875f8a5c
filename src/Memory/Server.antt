-- ===== src/Memory/Server.antt =====
-- Memoria/src/server.c: what the thread of one client does with the requests that arrive. What is
-- undefined, and what ends the process, is `none`. The size of a frame is `marco_size`.
pub mod Reads
pub mod Stores
use esthe_r.Base.{ℕ, zero, suc, Bool, true, false, Option, none, some, ◌>>=◌, List, [], ◌∷◌, ◌++◌}
use esthe_r.Base.{codes, ltb, ◌==◌, if◌then◌else◌}
use esthe_r.Base.Int.{ℤ, pos, pos_part, eq_ℤ}
use esthe_r.Serial.Format.{num, serial_pack}
use esthe_r.Serial.PcbUnpack.{read_short, read_mempos}
use esthe_r.Structures.{MemPos}
use esthe_r.Socket.{Accepted, Arrival, buffer_capacity}
use esthe_r.Protocol.{
  Header, Packet, protocol_header_response, protocol_packet, protocol_packet_send,
  protocol_packet_receive, protocol_handshake_receive,
}
use esthe_r.Protocol.Opcodes.{
  memory, kernel, process_id, op_me_inipro, op_me_solbytpag, op_me_almbytpag, op_me_asipagpro,
  op_me_finpro,
}
use esthe_r.Memory.PageTable.{Row, set_pages, clear_pages, get_frame, get_bytes, set_bytes}

pub record MemoryData : Type 0 where
  pub page_table : List Row
  pub main : List ℕ

-- The state of one client's thread: its `header`, the memory, what is to arrive on its socket, how
-- that accepts what is sent, and what has been sent.
pub record Client : Type 0 where
  pub header : Header
  pub shared : MemoryData
  pub arriving : List Arrival
  pub accepted : List Accepted
  pub wire : List ℕ

-- The new `header`, and the packet with it and `buffer`, sent.
unfoldable pub respond : ℕ → List ℕ → Client → Option Client
respond size buffer c =
    let header = protocol_header_response memory c.header size in
    (protocol_packet_send (protocol_packet header buffer) c.accepted >>= λ sent.
    some (record c { header = header; accepted = sent.env; wire = c.wire ++ sent.wire }))

unfoldable pub respond_result : ℤ → Client → Option Client
respond_result res c = do p ← serial_pack (codes "h") (num res ∷ []); respond p.size p.bytes c

-- The bytes that the payload points to; it is not set in an undefined packet.
abbrev pub payload_of : Packet → Option (List ℕ)
payload_of p = p.payload

-- case OP_ME_INIPRO
unfoldable pub init_program : Packet → Client → Option Client
init_program packet c = do
  payload ← payload_of packet
  (pages, _) ← read_short payload
  let (res, table) = set_pages c.shared.page_table (pos packet.header.usrpid) pages
  respond_result res (record c { shared = record c.shared { page_table = table } })

-- The answer to a request of bytes; they are copied to a buffer of `buffer_capacity` bytes.
unfoldable pub answer_bytes : ℤ → ℤ × List ℕ → Client → Option Client
answer_bytes size (ok, bytes) c =
    if eq_ℤ ok (pos 0)
    then respond 0 [] c
    else if ltb buffer_capacity (pos_part size)
    then none
    else respond (pos_part size) bytes c

-- case OP_ME_SOLBYTPAG
unfoldable pub request_bytes : ℕ → Packet → Client → Option Client
request_bytes marco_size packet c = do
  payload ← payload_of packet
  (at, _) ← read_mempos payload
  let frame = get_frame c.shared.page_table (pos packet.header.usrpid) at.page
  got ← get_bytes marco_size c.shared.main frame at.offset at.size
  answer_bytes at.size got c

unfoldable pub answer_store : ℤ × List ℕ → Client → Option Client
answer_store (ok, main) c =
    let c' = record c { shared = record c.shared { main = main } } in
    if eq_ℤ ok (pos 0) then respond 0 [] c' else respond_result (pos 1) c'

-- case OP_ME_ALMBYTPAG: the bytes come in a packet of their own, whose process is the one meant.
unfoldable pub store_bytes : ℕ → Packet → Client → Option Client
store_bytes marco_size request c = do
  place ← payload_of request
  (at, _) ← read_mempos place
  (packet, s) ← protocol_packet_receive c.arriving
  let frame = get_frame c.shared.page_table (pos packet.header.usrpid) at.page
  payload ← payload_of packet
  stored ← set_bytes marco_size c.shared.main frame at.offset at.size payload
  answer_store stored (record c { arriving = s })

-- case OP_ME_FINPRO
unfoldable pub finish_program : Packet → Client → Option Client
finish_program packet c =
    let (res, table) = clear_pages c.shared.page_table (pos packet.header.usrpid) in
    respond_result res (record c { shared = record c.shared { page_table = table } })

-- The switch of cli_thread; `false` when the thread returns.
unfoldable pub serve : ℕ → Packet → Client → Option (Client × Bool)
serve marco_size packet c =
    let op = packet.header.opcode in
    if op == op_me_inipro
    then (init_program packet c >>= λ c'. some (c', true))
    else if op == op_me_solbytpag
    then (request_bytes marco_size packet c >>= λ c'. some (c', true))
    else if op == op_me_almbytpag
    then (store_bytes marco_size packet c >>= λ c'. some (c', true))
    else if op == op_me_asipagpro
    then some (c, true)
    else if op == op_me_finpro
    then (finish_program packet c >>= λ c'. some (c', true))
    else some (c, false)

-- At most so many rounds of the loop of cli_thread.
unfoldable pub cli_rounds : ℕ → ℕ → Client → Option (Client × Bool)
cli_rounds zero marco_size c = some (c, true)
cli_rounds (suc n) marco_size c = do
  (packet, s) ← protocol_packet_receive c.arriving
  (c', more) ← serve marco_size packet (record c { arriving = s })
  if more then cli_rounds n marco_size c' else some (c', false)

-- The handshake, and the answer to the Kernel, with which cli_thread begins.
unfoldable pub greet : ℕ → Client → Option Client
greet marco_size c = do
  (header, s) ← protocol_handshake_receive c.arriving
  let c' = record c { header = header; arriving = s }
  if header.syspid == process_id kernel then respond_result (pos marco_size) c' else some c'
