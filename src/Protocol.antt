-- ===== src/Protocol.antt =====
-- Common/protocol.c: packets, a header of seven bytes and a payload, over a connection.
pub mod Opcodes
pub mod RoundTrip
use Opcodes.{Process, process_id, op_undefined, op_handshake, op_response}
use esthe_r.Base.{
  ℕ, ◌%◌, ◌^◌, Bool, true, false, not, Option, none, some, ◌>>=◌, List, [], ◌∷◌, ◌++◌,
}
use esthe_r.Base.{codes, take, ◌==◌, if◌then◌else◌}
use esthe_r.Base.Int.{ℤ, pos, negsuc, leb_ℤ}
use esthe_r.Serial.Format.{Arg, num, text, serial_pack, serial_unpack, copy_bytes}
use esthe_r.Socket.{Accepted, Sent, socket_send_bytes, Arrival, socket_receive_bytes}

pub record Header : Type 0 where
  pub syspid : ℕ
  pub usrpid : ℕ
  pub opcode : ℕ
  pub msgsize : ℕ

pub record Packet : Type 0 where
  pub header : Header
  pub payload : Option (List ℕ)

abbrev pub header_size : ℕ
header_size = 7

abbrev pub zero_header : Header
zero_header = record { syspid = 0; usrpid = 0; opcode = 0; msgsize = 0 }

-- `current` is get_current_process().
unfoldable pub protocol_header : Process → ℕ → ℕ → Header
protocol_header current opcode msgsize = record zero_header {
  syspid = process_id current;
  opcode = opcode % 2 ^ 8;
  msgsize = msgsize;
}

unfoldable pub protocol_header_response : Process → Header → ℕ → Header
unfolding protocol_header
protocol_header_response current header msgsize =
    record (protocol_header current op_response msgsize) {
      syspid = header.syspid;
      usrpid = header.usrpid;
    }

unfoldable pub send_header : Header → List Accepted → Option Sent
send_header header env = do
  p ← serial_pack (codes "CCCL") (
      num (pos header.syspid)
      ∷ num (pos header.usrpid)
      ∷ num (pos header.opcode)
      ∷ num (pos header.msgsize)
      ∷ [])
  message ← copy_bytes p.size p.bytes
  socket_send_bytes message env

abbrev pub header_of : List Arg → Option Header
header_of (num (pos s) ∷ num (pos u) ∷ num (pos o) ∷ num (pos m) ∷ []) =
    some (record { syspid = s; usrpid = u; opcode = o; msgsize = m })
header_of _ = none

unfoldable pub receive_header : List Arrival → Option (Header × List Arrival)
receive_header s = do
  r ← socket_receive_bytes header_size s
  if leb_ℤ r.count (pos 0) then some (zero_header, r.rest) else (do
    args ← serial_unpack (codes "CCCL") r.bytes
    header ← header_of args
    some (header, r.rest))

unfoldable pub protocol_packet : Header → List ℕ → Packet
protocol_packet header payload = record {
  header = header;
  payload = if header.msgsize == 0 then none else some payload;
}

-- The `size` bytes that the pointer gives; `none` is a read through NULL or past the end.
unfoldable pub pointed : Option (List ℕ) → ℕ → Option (List ℕ)
pointed none size = if size == 0 then some [] else none
pointed (some payload) size = copy_bytes size payload

unfoldable pub protocol_packet_send : Packet → List Accepted → Option Sent
protocol_packet_send packet env = do
  h ← send_header packet.header env
  message ← pointed packet.payload packet.header.msgsize
  b ← socket_send_bytes message h.env
  some (record b { wire = h.wire ++ b.wire })

-- The result of socket_receive_bytes is not looked at: the payload is what has arrived of it. The
-- payload of an undefined packet is not set.
unfoldable pub protocol_packet_receive : List Arrival → Option (Packet × List Arrival)
protocol_packet_receive s = do
  (header, s') ← receive_header s
  if not (header.opcode == op_undefined)
      then (do
        r ← socket_receive_bytes header.msgsize s'
        some (record { header = header; payload = some r.bytes }, r.rest))
      else some (record { header = header; payload = none }, s')

unfoldable pub protocol_handshake_send : Process → List Accepted → Option Sent
unfolding send_header protocol_header
protocol_handshake_send current env = send_header (protocol_header current op_handshake 0) env

-- What is received is returned, whatever it is; the two branches only write to the log.
unfoldable pub protocol_handshake_receive : List Arrival → Option (Header × List Arrival)
unfolding receive_header
protocol_handshake_receive s = receive_header s
