-- ===== src/Socket/Receive.antt =====
-- What recvall of Common/socket.c reads, however the bytes are cut that arrive.
use esthe_r.Base.{
  ℕ, zero, suc, ◌+◌, ◌-◌, ◌≤◌, ◌<◌, ◌≡◌, ◌≢◌, refl, true, false, some, ap, sym, ◌∙◌, arith,
}
use esthe_r.Base.{List, [], ◌∷◌, ◌++◌, append-nil, append_assoc, length, length-append, take, drop}
use esthe_r.Base.{
  take-append_long, drop-append_long, take-append_short, drop-append_short, length-take,
  length-drop,
}
use esthe_r.Base.{leb, ◌==◌}
use esthe_r.Base.Int.{pos}
use native.Mathlib.Decide.{dec_lt, dec_le}
use esthe_r.Socket.{buffer_capacity, Arrival, piece, error, recv, recv_loop}
use esthe_r.Socket.{socket_receive_bytes, last_is_zero}

-- The bytes of a connection on which no error arrives, and no piece is empty.
abbrev pub Flows : List Arrival → Type 0
Flows [] = Unit {0}
Flows (error ∷ s) = ⊥
Flows (piece c ∷ s) = (0 < length c) × Flows s

abbrev pub bytes_of : List Arrival → List ℕ
bytes_of [] = []
bytes_of (error ∷ s) = []
bytes_of (piece c ∷ s) = c ++ bytes_of s

-- `n` bytes have been taken from `s`, and `s'` is left.
pub record Taken (n : ℕ) (s s' : List Arrival) : Type 0 where
  pub flows : Flows s'
  pub rest : bytes_of s' ≡ drop n (bytes_of s)

module _ (len : ℕ) (plain : len ≢ buffer_capacity) where
  -- A round that stores something and does not finish.
  recv_again :
      (fuel : ℕ) (buf : List ℕ) (s s' : List Arrival) (x : ℕ) (xs : List ℕ)
      → length buf < len
      → recv (len - length buf) s ≡ (some (x ∷ xs), s')
      → recv_loop (suc fuel) len buf s ≡ recv_loop fuel len (buf ++ (x ∷ xs)) s'
  unfolding recv_loop
  recv_again fuel buf s s' x xs more e =
      let t : leb len (length buf) ≡ false = ground arith in
      let u : (len == buffer_capacity) ≡ false = ground arith in rw (t, e, u)

  recv_whole :
      (n : ℕ) (c : List ℕ) (s : List Arrival) → length c ≤ n → recv n (piece c ∷ s) ≡ (some c, s)
  unfolding recv
  recv_whole n c s h = let t : leb (length c) n ≡ true = ground arith in rw t

  recv_part :
      (n : ℕ) (c : List ℕ) (s : List Arrival)
      → n < length c
      → recv n (piece c ∷ s) ≡ (some (take n c), piece (drop n c) ∷ s)
  unfolding recv
  recv_part n c s h = let t : leb (length c) n ≡ false = ground arith in rw t

  abbrev Takes : ℕ → List ℕ → List Arrival → Type 0
  Takes fuel buf s =
      (s' : List Arrival) × (recv_loop fuel len buf s
        ≡ some (record {
          count = pos len;
          bytes = buf ++ take (len - length buf) (bytes_of s);
          rest = s';
        }))
      × Taken (len - length buf) s s'

  recv_done :
      (fuel : ℕ) (buf : List ℕ) (s : List Arrival)
      → length buf ≡ len
      → recv_loop (suc fuel) len buf s ≡ some (record { count = pos len; bytes = buf; rest = s })
  unfolding recv_loop
  recv_done fuel buf s e = let t : leb len (length buf) ≡ true = ground arith in rw (t, e)

  recv_loop-all :
      (fuel : ℕ) (buf : List ℕ) (s : List Arrival)
      → Flows s
      → length buf ≡ len
      → Takes (suc fuel) buf s
  recv_loop-all fuel buf s f e =
      let z : len - length buf ≡ 0 = omega arith in
      rw z (s, rw append-nil (recv_done fuel buf s e), record { flows = f; rest = refl })

  recv_loop-whole :
      (fuel : ℕ) (buf : List ℕ) (x : ℕ) (xs : List ℕ) (s : List Arrival)
      → length buf < len
      → length (x ∷ xs) ≤ len - length buf
      → Takes fuel (buf ++ (x ∷ xs)) s
      → Takes (suc fuel) buf (piece (x ∷ xs) ∷ s)
  recv_loop-whole fuel buf x xs s more fits (s', e, t) = (
    s',
    recv_again fuel buf _ s x xs more (recv_whole _ (x ∷ xs) s fits)
        ∙ rw (take-append_long _ (x ∷ xs) (bytes_of s) fits, ← append_assoc, ← left) e,
    record {
      flows = t.flows;
      rest = rw (drop-append_long _ (x ∷ xs) (bytes_of s) fits, ← left) t.rest;
    },
  )
    where
      left : len - length (buf ++ (x ∷ xs)) ≡ len - length buf - length (x ∷ xs)
      left = omega (arith, length-append buf (x ∷ xs))

  recv_loop-part :
      (fuel : ℕ) (buf : List ℕ) (x : ℕ) (xs : List ℕ) (s : List Arrival)
      → Flows s
      → length buf < len
      → len - length buf < length (x ∷ xs)
      → Takes (suc (suc fuel)) buf (piece (x ∷ xs) ∷ s)
  recv_loop-part fuel buf x xs s f more long = (
    piece (drop k (x ∷ xs)) ∷ s,
    recv_again (suc fuel) buf _ _ x (take (k - 1) xs) more
          (recv_part k (x ∷ xs) s long ∙ ap (λ bs. (some bs, piece (drop k (x ∷ xs)) ∷ s)) front)
        ∙ recv_done fuel _ _ full
        ∙ rw (take-append_short k (x ∷ xs) (bytes_of s) (omega arith), front),
    record {
      flows = (omega (arith, length-drop k (x ∷ xs)), f);
      rest = sym (drop-append_short k (x ∷ xs) (bytes_of s) (omega arith));
    },
  )
    where
      k : ℕ
      k = len - length buf

      front : take k (x ∷ xs) ≡ x ∷ take (k - 1) xs
      front = ap (λ n. take n (x ∷ xs)) (let e : k ≡ suc (k - 1) = omega arith in e)

      full : length (buf ++ (x ∷ take (k - 1) xs)) ≡ len
      full =
          omega
            (arith, length-append buf (x ∷ take (k - 1) xs), length-take (k - 1) xs (omega arith))

  recv_loop-take :
      (fuel : ℕ) (buf : List ℕ) (s : List Arrival)
      → Flows s
      → length buf ≤ len
      → len - length buf ≤ length (bytes_of s)
      → len - length buf < fuel
      → Takes fuel buf s
  recv_loop-take zero buf s f h enough rounds = absurd (omega arith)
  recv_loop-take (suc fuel) buf [] f h enough rounds = recv_loop-all fuel buf [] f (omega arith)
  recv_loop-take (suc fuel) buf (error ∷ s) f h enough rounds = absurd f
  recv_loop-take (suc fuel) buf (piece [] ∷ s) f h enough rounds = absurd (omega arith)
  recv_loop-take (suc zero) buf (piece (x ∷ xs) ∷ s) f h enough rounds =
      recv_loop-all zero buf _ f (omega arith)
  recv_loop-take (suc (suc fuel)) buf (piece (x ∷ xs) ∷ s) f h enough rounds =
      elim (dec_lt (length buf) len) [
        | no full ↦ recv_loop-all (suc fuel) buf _ f (omega arith)
        | yes more ↦ elim (dec_le (length (x ∷ xs)) (len - length buf)) [
          | no long ↦ recv_loop-part fuel buf x xs s f.1 more (omega arith)
          | yes fits ↦ recv_loop-whole (suc fuel) buf x xs s more fits (
              recv_loop-take (suc fuel) (buf ++ (x ∷ xs)) s f.1 (omega (arith, size))
                (omega (arith, size, length-append (x ∷ xs) (bytes_of s))) (omega (arith, size)))
        ]
      ]
    where
      size : length (buf ++ (x ∷ xs)) ≡ length buf + length (x ∷ xs)
      size = length-append buf (x ∷ xs)

  -- For a size other than BUFFER_CAPACITY, if as many bytes arrive without an error, in whatever
  -- non-empty pieces: socket_receive_bytes returns the size, the buffer holds exactly the first
  -- bytes that arrive, and the bytes after them are still to come.
  pub socket_receive_bytes-take :
      (s : List Arrival)
      → Flows s
      → len ≤ length (bytes_of s)
      → (s' : List Arrival) × (socket_receive_bytes len s
          ≡ some (record { count = pos len; bytes = take len (bytes_of s); rest = s' }))
        × Taken len s s'
  unfolding socket_receive_bytes
  socket_receive_bytes-take s f enough =
      let z : len - 0 ≡ len = omega arith in
      rw z at (recv_loop-take (len + 1) [] s f (omega arith) (omega arith) (omega arith))

-- For the size BUFFER_CAPACITY, 1024, a first piece of fewer bytes that ends in a zero byte is all
-- that socket_receive_bytes reads: it returns that piece's length, and leaves the rest of the 1024
-- bytes to come.
pub socket_receive_bytes_stops :
    (c : List ℕ) (s : List Arrival)
    → length c < buffer_capacity
    → last_is_zero c ≡ true
    → socket_receive_bytes buffer_capacity (piece c ∷ s)
      ≡ some (record { count = pos (length c); bytes = c; rest = s })
unfolding socket_receive_bytes recv_loop recv
socket_receive_bytes_stops [] s h z = cc
socket_receive_bytes_stops (x ∷ xs) s h z =
    let t : leb (length (x ∷ xs)) 1024 ≡ true = ground arith in rw (t, z)
