-- ===== src/Socket/Send.antt =====
-- What sendall of Common/socket.c puts on the wire, however `send` cuts it.
use esthe_r.Base.{ℕ, suc, ◌+◌, ◌-◌, ◌≤◌, ◌≡◌, refl, true, false, some, min, arith}
use esthe_r.Base.{List, [], ◌∷◌, length, take, take-take-drop, take-length_le, leb}
use native.Mathlib.Decide.{dec_le}
use esthe_r.Socket.{Accepted, failed, more_than, Sent, sendall, socket_send_bytes}

-- No `send` fails.
abbrev pub Accepts : List Accepted → Type 0
Accepts [] = Unit {0}
Accepts (failed ∷ env) = ⊥
Accepts (more_than a ∷ env) = Accepts env

-- `buf` is out, after at most `n` calls, and the later calls will not fail either.
abbrev pub AllSent : ℕ → List ℕ → List Accepted → Sent → Type 0
AllSent n buf env r =
    (r.bytes_sent ≡ length buf) × (r.wire ≡ buf) × Accepts r.env × (length env ≤ length r.env + n)

module _ (buf : List ℕ) where
  sendall-wire :
      (env : List Accepted) (sent : ℕ)
      → Accepts env
      → sent ≤ length buf
      → length buf - sent ≤ length env
      → (r : Sent) × (sendall buf sent (take sent buf) env ≡ some r)
        × AllSent (length buf - sent) buf env r
  unfolding sendall
  sendall-wire [] sent ok le enough =
      let t : leb (length buf) sent ≡ true = ground arith in
      rw t (_, refl, (omega arith, take-length_le sent buf (omega arith), tt, omega arith))
  sendall-wire (failed ∷ env) sent ok le enough = absurd ok
  sendall-wire (more_than a ∷ env) sent ok le enough = elim (dec_le (length buf) sent) [
    | yes done ↦
        let t : leb (length buf) sent ≡ true = ground arith in
        rw t (_, refl, (omega arith, take-length_le sent buf (omega arith), ok, omega arith))
    | no more ↦
        let t : leb (length buf) sent ≡ false = ground arith in
        let n = min (suc a) (length buf - sent) in
        let (r, e, (count, wire, fine, calls)) =
          sendall-wire env (sent + n) ok (omega arith) (omega arith) in
        rw (t, ← take-take-drop sent n buf) (r, e, (count, wire, fine, omega arith))
  ]

  -- If no call of `send` fails and there are as many of them as bytes: socket_send_bytes returns
  -- the number of bytes, and what goes out is the message, in order and once, however few bytes
  -- each call accepts.
  pub socket_send_bytes-wire :
      (env : List Accepted)
      → Accepts env
      → length buf ≤ length env
      → (r : Sent) × (socket_send_bytes buf env ≡ some r) × AllSent (length buf) buf env r
  unfolding socket_send_bytes
  socket_send_bytes-wire env ok enough =
      let z : length buf - 0 ≡ length buf = omega arith in
      rw z at (sendall-wire env 0 ok (omega arith) (omega arith))
