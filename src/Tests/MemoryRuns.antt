-- ===== src/Tests/MemoryRuns.antt =====
-- The theorems on the memory process at concrete tables and requests.
use esthe_r.Memory.Server.Stores.{store_request, serve-store_short}
use esthe_r.Serial.Format.{serial_unpack, serial_unpack_va, unpack_conv}
use esthe_r.Serial.Integers.{unpacku32}
use esthe_r.Base.{
  ℕ, ◌+◌, ◌*◌, ◌≤◌, ◌<◌, ◌≡◌, ◌≢◌, refl, none, some, List, [], ◌∷◌, ◌++◌, length, get_elem?, take,
  drop, replicate, arith, true,
}
use esthe_r.Base.Int.{ℤ, pos}
use esthe_r.Socket.{
  Arrival, piece, socket_receive_bytes, recvall, recv_loop, recv, after_recv, more_than,
}
use esthe_r.Protocol.{
  Packet, protocol_packet_receive, receive_header, Header, protocol_header_response,
}
use esthe_r.Protocol.Opcodes.{memory}
use esthe_r.Protocol.RoundTrip.{IsValid, header_bytes}
use esthe_r.Memory.PageTable.{
  Row, free_row, free_rows, set_pages, clear_pages, find_frame, get_frame, get_bytes, set_bytes,
}
use esthe_r.Memory.PageTable.Assign.{Unowned, get_frame-set_pages_own, get_frame-set_pages_other}
use esthe_r.Memory.PageTable.Clear.{Tidy, clear_pages-set_pages}
use esthe_r.Memory.PageTable.Bytes.{get_bytes-set_bytes_other}
use esthe_r.Memory.Server.{Client, serve}
use esthe_r.Memory.Server.Reads.{request, serve-request}

-- Four frames, the first of them with page 0 of program 7.
abbrev pub table : List Row
table = record { owner = pos 7; page = pos 0 } ∷ free_row ∷ free_row ∷ free_row ∷ []

table-Unowned : Unowned (pos 2) table
table-Unowned = (
  (λ e. ground (arith, e)),
  ((λ e. ground (arith, e)), ((λ e. ground (arith, e)), ((λ e. ground (arith, e)), tt))),
)

table-Tidy : Tidy table
table-Tidy = ((λ e. ground (arith, e)), ((λ e. refl), ((λ e. refl), ((λ e. refl), tt))))

three_free : 2 ≤ free_rows table
unfolding free_rows
three_free = omega arith

get_frame-set_pages_own_example :
    ((set_pages table (pos 2) (pos 2)).0 ≡ pos 1)
    × ((k : ℕ)
        → k < 2
        → (r : Row) × (get_elem? table
              (get_frame (set_pages table (pos 2) (pos 2)).1 (pos 2) (pos k))
            ≡ some r)
          × (r.owner ≡ pos 0)
          × (get_elem?
                (set_pages table (pos 2) (pos 2)).1
                (get_frame (set_pages table (pos 2) (pos 2)).1 (pos 2) (pos k))
              ≡ some (record { owner = pos 2; page = pos k })))
get_frame-set_pages_own_example =
    get_frame-set_pages_own table 1 2 (omega arith) three_free table-Unowned

get_frame-set_pages_other_example :
    ((q page : ℤ)
      → q ≢ pos 2
      → get_frame (set_pages table (pos 2) (pos 2)).1 q page ≡ get_frame table q page)
    × (free_rows (set_pages table (pos 2) (pos 2)).1 + 2 ≡ free_rows table)
get_frame-set_pages_other_example = get_frame-set_pages_other table 1 2 (omega arith) three_free

clear_pages-set_pages_example :
    clear_pages (set_pages table (pos 2) (pos 2)).1 (pos 2) ≡ (pos 1, table)
clear_pages-set_pages_example =
    clear_pages-set_pages table 1 2 table-Tidy table-Unowned (omega arith) three_free

-- Four frames of four bytes.
abbrev pub main : List ℕ
main = replicate 16 9

get_bytes-set_bytes_other_example :
    (after : List ℕ) × (set_bytes 4 main 2 (pos 1) (pos 2) (5 ∷ 6 ∷ 7 ∷ []) ≡ some (pos 1, after))
    × (get_bytes 4 after 1 (pos 2) (pos 2) ≡ get_bytes 4 main 1 (pos 2) (pos 2))
get_bytes-set_bytes_other_example =
    get_bytes-set_bytes_other 4 main (5 ∷ 6 ∷ 7 ∷ []) 2 1 2 (omega arith) (omega arith)
      (omega arith) 1 2 2 (omega arith) (omega arith) (omega arith) (omega arith) (omega arith)

abbrev pub from_cpu : Header
from_cpu = record { syspid = 3; usrpid = 0; opcode = 1; msgsize = 0 }

abbrev pub client : Client
client = record {
  header = from_cpu;
  shared = record { page_table = table; main = main };
  arriving = [];
  accepted = replicate 12 (more_than 2);
  wire = [];
}

pub answer-IsValid : IsValid (protocol_header_response memory from_cpu 2)
unfolding protocol_header_response
answer-IsValid = record {
  syspid = omega arith;
  usrpid = omega arith;
  opcode = omega arith;
  msgsize = omega arith;
  defined = omega arith;
}

page_inside : get_frame table (pos 7) (pos 0) * 4 + 1 + 2 ≤ length main
unfolding get_frame find_frame
page_inside = omega arith

not_there : find_frame (pos 2) (pos 5) table ≡ none
unfolding find_frame
not_there = refl

serve-request_example :
    (c' : Client) × (serve 4
        (request 3 7 (record { page = pos 0; offset = pos 1; size = pos 2 }))
        client
      ≡ some (c', true))
    × (c'.shared ≡ client.shared)
    × (c'.wire
        ≡ client.wire
          ++ (header_bytes (protocol_header_response memory from_cpu 2)
              ++ take 2 (drop (get_frame table (pos 7) (pos 0) * 4 + 1) main)))
serve-request_example =
    serve-request 4 client 3 7 1 2 (pos 0) (omega arith) (omega arith) (omega arith) answer-IsValid
      (omega arith) (omega arith) page_inside

-- The value of asignar: a packet of two bytes, for a place of four.
abbrev value_link : List Arrival
value_link = piece (3 ∷ 7 ∷ 5 ∷ 0 ∷ 0 ∷ 0 ∷ 2 ∷ []) ∷ piece (0 ∷ 9 ∷ []) ∷ []

abbrev value_packet : Packet
value_packet = record {
  header = record { syspid = 3; usrpid = 7; opcode = 5; msgsize = 2 };
  payload = some (0 ∷ 9 ∷ []);
}

value-IsValid : IsValid value_packet.header
value-IsValid = record {
  syspid = omega arith;
  usrpid = omega arith;
  opcode = omega arith;
  msgsize = omega arith;
  defined = omega arith;
}

value_received : protocol_packet_receive value_link ≡ some (value_packet, [])
unfolding protocol_packet_receive receive_header socket_receive_bytes serial_unpack serial_unpack_va
    unpack_conv recvall recv_loop recv after_recv unpacku32
value_received = refl

serve-store_short_example :
    serve 4
      (store_request 3 7 (record { page = pos 0; offset = pos 0; size = pos 4 }))
      (record client { arriving = value_link })
    ≡ none
serve-store_short_example =
    serve-store_short 4 (record client { arriving = value_link }) 3 7 0 4 (pos 0) value_packet
      (0 ∷ 9 ∷ []) [] (omega arith) value_received refl (omega arith)
