-- ===== src/Socket.antt =====
-- The byte transfers of Common/socket.c: sendall, recvall, and the public functions over them. The
-- system calls are their documented behaviour under a choice of the environment: which part of the
-- bytes one `send` accepts, and how the bytes are cut that arrive at `recv`.
pub mod Send
pub mod Receive
use esthe_r.Base.{ℕ, zero, suc, ◌+◌, ◌-◌, min, Bool, true, false, ◌&&◌, Option, none, some, ◌>>=◌}
use esthe_r.Base.{List, [], ◌∷◌, ◌++◌, length, get_elem?, take, drop, leb, ◌==◌, if◌then◌else◌}
use esthe_r.Base.Int.{ℤ, pos, negsuc}

abbrev pub buffer_capacity : ℕ
buffer_capacity = 1024

-- What one `send` does with the bytes it is given: it fails, or accepts some of them, at least one.
pub data Accepted : Type 0 where
  failed : Accepted
  more_than : ℕ → Accepted

-- How many of `n` bytes are accepted; `none` is -1.
abbrev pub send : Accepted → ℕ → Option ℕ
send failed n = none
send (more_than a) n = some (min (suc a) n)

-- What has gone out, and the choices of the environment that are left.
pub record Sent : Type 0 where
  pub bytes_sent : ℕ
  pub wire : List ℕ
  pub env : List Accepted

-- The loop of sendall over the choices of the environment. `none`: an error, on which fdcheck ends
-- the process, or a call that does not return, where no choice is left.
unfoldable pub sendall : List ℕ → ℕ → List ℕ → List Accepted → Option Sent
sendall buf bytes_sent wire [] =
    if leb (length buf) bytes_sent
    then some (record { bytes_sent = bytes_sent; wire = wire; env = [] })
    else none
sendall buf bytes_sent wire (a ∷ env) =
    let again =
      λ (n : ℕ). sendall buf (bytes_sent + n) (wire ++ take n (drop bytes_sent buf)) env in
    if leb (length buf) bytes_sent
    then some (record { bytes_sent = bytes_sent; wire = wire; env = a ∷ env })
    else (send a (length buf - bytes_sent) >>= again)

unfoldable pub socket_send_bytes : List ℕ → List Accepted → Option Sent
socket_send_bytes message env = sendall message 0 [] env

-- What arrives: bytes, in pieces, or an error. The end of the list is the end of the connection.
pub data Arrival : Type 0 where
  piece : List ℕ → Arrival
  error : Arrival

-- `recv` for at most `n` bytes: what it stores, `none` for -1, and what is still to come.
unfoldable pub recv : ℕ → List Arrival → Option (List ℕ) × List Arrival
recv n [] = (some [], [])
recv n (error ∷ s) = (none, s)
recv n (piece c ∷ s) =
    if leb (length c) n then (some c, s) else (some (take n c), piece (drop n c) ∷ s)

-- The result of recvall, the bytes in the buffer, and what is still to come.
pub record Received : Type 0 where
  pub count : ℤ
  pub bytes : List ℕ
  pub rest : List Arrival

abbrev last_is_zero : List ℕ → Bool
last_is_zero [] = false
last_is_zero (b ∷ []) = b == 0
last_is_zero (b ∷ c ∷ bs) = last_is_zero (c ∷ bs)

-- What recvall does with the result of one `recv`, and how it goes on.
unfoldable pub after_recv :
    ℕ
    → List ℕ
    → (List ℕ → List Arrival → Option Received)
    → Option (List ℕ) × List Arrival
    → Option Received
after_recv len buf again (none, s) = some (record { count = negsuc 0; bytes = buf; rest = s })
after_recv len buf again (some [], s) = some (record { count = pos 0; bytes = buf; rest = s })
after_recv len buf again (some (b ∷ bs), s) =
    let buf' = buf ++ (b ∷ bs) in
    if len == buffer_capacity && last_is_zero buf'
    then some (record { count = pos (length buf'); bytes = buf'; rest = s })
    else again buf' s

-- The loop of recvall; `none` means that the fuel ran out.
unfoldable pub recv_loop : ℕ → ℕ → List ℕ → List Arrival → Option Received
unfolding after_recv
recv_loop zero len buf s = none
recv_loop (suc fuel) len buf s =
    if leb len (length buf)
    then some (record { count = pos (length buf); bytes = buf; rest = s })
    else after_recv len buf (recv_loop fuel len) (recv (len - length buf) s)

-- Every round but the last adds a byte, so `len + 1` rounds are enough.
unfoldable pub recvall : List Arrival → ℕ → Option Received
unfolding recv_loop
recvall s len = recv_loop (len + 1) len [] s

unfoldable pub socket_receive_bytes : ℕ → List Arrival → Option Received
unfolding recvall
socket_receive_bytes size s = recvall s size
