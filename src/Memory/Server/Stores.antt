-- ===== src/Memory/Server/Stores.antt =====
-- The requests to store bytes that the thread of Memoria/src/server.c serves.
use esthe_r.Base.{ℕ, ◌+◌, ◌<◌, ◌≡◌, refl, false}
use esthe_r.Base.{none, some, List, [], length}
use esthe_r.Base.{ltb, leb, arith}
use esthe_r.Base.{append-nil}
use esthe_r.Structures.{MemPos}
use esthe_r.Base.Int.{ℤ, pos}
use esthe_r.Serial.PcbPack.Encoding.{MemPosFits, mempos_bytes}
use esthe_r.Serial.PcbUnpack.Laws.{read_mempos-bytes}
use esthe_r.Socket.{Arrival}
use esthe_r.Protocol.{Packet, protocol_packet_receive}
use esthe_r.Memory.PageTable.{set_bytes, get_frame}
use esthe_r.Memory.Server.{Client, serve, store_bytes}
use esthe_r.Memory.Server.Reads.{place}
use esthe_r.Protocol.Opcodes.{op_me_almbytpag}

-- A request to store bytes from a process of the system, for a program.
abbrev pub store_request : ℕ → ℕ → MemPos → Packet
store_request syspid usrpid at = record {
  header = record { syspid = syspid; usrpid = usrpid; opcode = op_me_almbytpag; msgsize = 6 };
  payload = some (mempos_bytes at);
}

set_bytes-short :
    (m : ℕ) (main bytes : List ℕ) (f o s : ℕ)
    → length bytes < s
    → set_bytes m main f (pos o) (pos s) bytes ≡ none
unfolding set_bytes
set_bytes-short m main bytes f o s few =
    let a : ltb (o + 0) (0 + 0) ≡ false = ground arith in
    let b : leb (s + 0) (0 + 0) ≡ false = ground arith in
    let c : leb s (length bytes) ≡ false = ground arith in rw (a, b, c) refl

-- For a request to store more bytes than the packet that follows it holds: the result of the
-- thread is undefined, since it reads past the end of the payload.
pub serve-store_short :
    (m : ℕ) (c : Client) (syspid p o s : ℕ) (page : ℤ) (packet : Packet) (bytes : List ℕ)
    (rest : List Arrival)
    → MemPosFits (place page o s)
    → protocol_packet_receive c.arriving ≡ some (packet, rest)
    → packet.payload ≡ some bytes
    → length bytes < s
    → serve m (store_request syspid p (place page o s)) c ≡ none
unfolding serve store_bytes
serve-store_short m c syspid p o s page packet bytes rest fits received payload few =
    rw
      (
        ← append-nil (mempos_bytes (place page o s)),
        read_mempos-bytes (place page o s) [] fits,
        received,
        payload,
        set_bytes-short m c.shared.main bytes
            (get_frame c.shared.page_table (pos packet.header.usrpid) page) o s few,
      )
      refl
