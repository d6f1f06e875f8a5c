-- ===== src/Tests/SocketRuns.antt =====
-- Common/socket.c and Common/protocol.c at concrete inputs.
use esthe_r.Base.{◌≡◌, refl, some, arith, List, [], ◌∷◌}
use esthe_r.Base.Int.{pos, to_unsigned}
use esthe_r.Serial.Integers.{packi32}
use esthe_r.Socket.{
  Accepted, more_than, Sent, socket_send_bytes, Arrival, piece, socket_receive_bytes,
}
use esthe_r.Socket.Send.{AllSent, socket_send_bytes-wire}
use esthe_r.Socket.Receive.{Taken, socket_receive_bytes-take}
use esthe_r.Protocol.{Header, protocol_packet_receive}
use esthe_r.Protocol.RoundTrip.{IsValid, header_bytes, Read}
use esthe_r.Protocol.RoundTrip.{protocol_packet_receive-wire}

socket_send_bytes-wire_example :
    (r : Sent) × (socket_send_bytes (5 ∷ 6 ∷ 7 ∷ []) (more_than 0 ∷ more_than 1 ∷ more_than 0 ∷ [])
      ≡ some r)
    × AllSent 3 (5 ∷ 6 ∷ 7 ∷ []) (more_than 0 ∷ more_than 1 ∷ more_than 0 ∷ []) r
socket_send_bytes-wire_example =
    socket_send_bytes-wire (5 ∷ 6 ∷ 7 ∷ []) (more_than 0 ∷ more_than 1 ∷ more_than 0 ∷ []) tt
      (omega arith)

abbrev stream : List Arrival
stream = piece (5 ∷ []) ∷ piece (6 ∷ 7 ∷ 8 ∷ []) ∷ []

socket_receive_bytes-take_example :
    (s' : List Arrival) × (socket_receive_bytes 3 stream
      ≡ some (record { count = pos 3; bytes = 5 ∷ 6 ∷ 7 ∷ []; rest = s' }))
    × Taken 3 stream s'
socket_receive_bytes-take_example =
    socket_receive_bytes-take 3 (omega arith) stream (omega arith) (omega arith)

abbrev header : Header
header = record { syspid = 1; usrpid = 2; opcode = 2; msgsize = 2 }

header-IsValid : IsValid header
header-IsValid = record {
  syspid = omega arith;
  usrpid = omega arith;
  opcode = omega arith;
  msgsize = omega arith;
  defined = omega arith;
}

abbrev nine : List Accepted
nine =
    more_than 0
    ∷ more_than 0
    ∷ more_than 0
    ∷ more_than 0
    ∷ more_than 0
    ∷ more_than 0
    ∷ more_than 0
    ∷ more_than 0
    ∷ more_than 0
    ∷ []

protocol_packet_receive-wire_example :
    (s' : List Arrival) × (protocol_packet_receive
        (piece (1 ∷ 2 ∷ []) ∷ piece (2 ∷ 0 ∷ 0 ∷ 0 ∷ 2 ∷ 3 ∷ []) ∷ piece (4 ∷ 5 ∷ []) ∷ [])
      ≡ some (record { header = header; payload = some (3 ∷ 4 ∷ []) }, s'))
    × Read (5 ∷ []) s'
unfolding header_bytes packi32 to_unsigned
protocol_packet_receive-wire_example =
    protocol_packet_receive-wire header header-IsValid (3 ∷ 4 ∷ []) (5 ∷ []) _ refl (omega arith)
      (omega arith) refl
