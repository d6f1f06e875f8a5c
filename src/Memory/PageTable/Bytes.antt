-- ===== src/Memory/PageTable/Bytes.antt =====
-- What get_bytes and set_bytes of Memoria/src/page_table.c do to the bytes of the frames.
use esthe_r.Base.{ℕ, zero, suc, ◌+◌, ◌-◌, ◌*◌, ◌≤◌, ◌<◌, ◌≡◌, refl, sym, ap, ◌∙◌, true, false}
use esthe_r.Base.{some, List, [], ◌∷◌, ◌++◌, length, take, drop}
use esthe_r.Base.{ltb, leb, arith}
use esthe_r.Base.{
  length-append, length-take, length-drop, take-append_short, drop-append_short, drop-append_long,
  take-append-drop, take_all-append,
}
use esthe_r.Base.Int.{pos}
use esthe_r.Base.{◌≢◌}
use native.Mathlib.Decide.{dec_lt}
use native.Mathlib.Nat.{mul-le-mul_right}
use esthe_r.Memory.PageTable.{read_from, write_at, get_bytes, set_bytes}

drop_nil : {A : Type 0} (j : ℕ) → drop {A = A} j [] ≡ []
drop_nil zero = refl
drop_nil (suc j) = refl

drop-drop : {A : Type 0} (i j : ℕ) (xs : List A) → drop j (drop i xs) ≡ drop (i + j) xs
drop-drop zero j xs = let e : 0 + j ≡ j = omega arith in rw e refl
drop-drop (suc i) j [] = drop_nil j ∙ sym (drop_nil (suc i + j))
drop-drop (suc i) j (x ∷ xs) =
    let e : suc i + j ≡ suc (i + j) = omega arith in rw e (drop-drop i j xs)

-- The memory after a write at `b`.
abbrev written : List ℕ → ℕ → List ℕ → List ℕ
written main b bytes = take b main ++ (bytes ++ drop (b + length bytes) main)

module _ (main bytes : List ℕ) (b : ℕ) (fits : b + length bytes ≤ length main) where
  length-written : length (written main b bytes) ≡ length main
  length-written =
      rw
        (
          length-append (take b main) (bytes ++ drop (b + length bytes) main),
          length-append bytes (drop (b + length bytes) main),
          length-take b main (omega arith),
          length-drop (b + length bytes) main,
        )
        (omega arith)

  written_here : take (length bytes) (drop b (written main b bytes)) ≡ bytes
  written_here =
      let t : length (take b main) ≤ b = rw (length-take b main (omega arith)) (omega arith) in
      let z : b - length (take b main) ≡ 0 = rw (length-take b main (omega arith)) (omega arith) in
      rw (drop-append_long b (take b main) (bytes ++ drop (b + length bytes) main) t, z)
        (take_all-append bytes (drop (b + length bytes) main))

  written_before :
      (c n : ℕ) → c + n ≤ b → take n (drop c (written main b bytes)) ≡ take n (drop c main)
  written_before c n h =
      let l : length (take b main) ≡ b = length-take b main (omega arith) in
      let m : length (drop c (take b main)) ≡ b - c =
        length-drop c (take b main) ∙ ap (λ k. k - c) l in
      let short : (xs : List ℕ)
          → take n (drop c (take b main ++ xs)) ≡ take n (drop c (take b main)) =
        λ xs.
          rw
            (
              drop-append_short c (take b main) xs (rw l (omega arith)),
              take-append_short n (drop c (take b main)) xs (rw m (omega arith)),
            )
            refl in
      short _ ∙ sym (short (drop b main)) ∙ ap (λ xs. take n (drop c xs)) (take-append-drop b main)

  written_behind : (c : ℕ) → b + length bytes ≤ c → drop c (written main b bytes) ≡ drop c main
  written_behind c h =
      let l : length (take b main) ≡ b = length-take b main (omega arith) in
      rw
        (
          drop-append_long c (take b main) (bytes ++ drop (b + length bytes) main)
              (rw l (omega arith)),
          l,
          drop-append_long (c - b) bytes (drop (b + length bytes) main) (omega arith),
          drop-drop (b + length bytes) (c - b - length bytes) main,
        )
        (ap (λ k. drop k main) (omega arith))

pub written_by :
    (m : ℕ) (main bytes : List ℕ) (f o s : ℕ)
    → 0 < s
    → s ≤ length bytes
    → f * m + o + s ≤ length main
    → set_bytes m main f (pos o) (pos s) bytes
      ≡ some (pos 1, written main (f * m + o) (take s bytes))
unfolding set_bytes write_at
written_by m main bytes f o s some_byte enough inside =
    let a : ltb (o + 0) (0 + 0) ≡ false = ground arith in
    let b : leb (s + 0) (0 + 0) ≡ false = ground arith in
    let c : leb s (length bytes) ≡ true = ground arith in
    let d : leb (f * m + o + length (take s bytes)) (length main) ≡ true =
      rw (length-take s bytes enough) (ground arith) in
    rw (a, b, c, d) refl

pub read_by :
    (m : ℕ) (main : List ℕ) (f o s : ℕ)
    → 0 < s
    → f * m + o + s ≤ length main
    → get_bytes m main f (pos o) (pos s) ≡ some (pos 1, take s (drop (f * m + o) main))
unfolding get_bytes read_from
read_by m main f o s some_byte inside =
    let a : ltb (o + 0) (0 + 0) ≡ false = ground arith in
    let b : leb (s + 0) (0 + 0) ≡ false = ground arith in
    let d : leb (f * m + o + s) (length main) ≡ true = ground arith in rw (a, b, d) refl

frames_apart : (m f g o s : ℕ) → f < g → o + s ≤ m → f * m + o + s ≤ g * m
frames_apart m f g o s before inside =
    let step : suc f * m ≤ g * m = mul-le-mul_right m before in omega (arith, step)

module _ (m : ℕ) (main bytes : List ℕ) (f o s : ℕ) (some_byte : 0 < s) (enough : s ≤ length bytes)
    (inside : f * m + o + s ≤ length main) where
  -- For a non-negative offset and a positive size within the memory and the bytes given: set_bytes
  -- returns 1 and a memory of the same length, from which get_bytes with the same frame, offset and
  -- size returns 1 and the first `size` of those bytes.
  pub get_bytes-set_bytes :
      (after : List ℕ) × (set_bytes m main f (pos o) (pos s) bytes ≡ some (pos 1, after))
      × (length after ≡ length main)
      × (get_bytes m after f (pos o) (pos s) ≡ some (pos 1, take s bytes))
  get_bytes-set_bytes =
      let l : length (take s bytes) ≡ s = length-take s bytes enough in
      let fits : f * m + o + length (take s bytes) ≤ length main = rw l inside in
      let size = length-written main (take s bytes) (f * m + o) fits in
      let here : take s (drop (f * m + o) (written main (f * m + o) (take s bytes)))
          ≡ take s bytes =
        ap (λ k. take k (drop (f * m + o) (written main (f * m + o) (take s bytes)))) (sym l)
        ∙ written_here main (take s bytes) (f * m + o) fits in
      (
        written main (f * m + o) (take s bytes),
        written_by m main bytes f o s some_byte enough inside,
        size,
        read_by m _ f o s some_byte (rw size inside) ∙ ap (λ xs. some (pos 1, xs)) here,
      )

  -- If the place written lies in its frame: what get_bytes returns from a place in another frame
  -- is the same before and after set_bytes, which returns 1.
  pub get_bytes-set_bytes_other :
      (g o' s' : ℕ)
      → g ≢ f
      → o + s ≤ m
      → o' + s' ≤ m
      → 0 < s'
      → g * m + o' + s' ≤ length main
      → (after : List ℕ) × (set_bytes m main f (pos o) (pos s) bytes ≡ some (pos 1, after))
        × (get_bytes m after g (pos o') (pos s') ≡ get_bytes m main g (pos o') (pos s'))
  get_bytes-set_bytes_other g o' s' other in_frame in_frame' some_byte' inside' =
      let l : length (take s bytes) ≡ s = length-take s bytes enough in
      let fits : f * m + o + length (take s bytes) ≤ length main = rw l inside in
      let size = length-written main (take s bytes) (f * m + o) fits in
      (
        written main (f * m + o) (take s bytes),
        written_by m main bytes f o s some_byte enough inside,
        read_by m _ g o' s' some_byte' (rw size inside')
            ∙ ap (λ xs. some (pos 1, xs)) (same fits l)
            ∙ sym (read_by m main g o' s' some_byte' inside'),
      )
    where
      same :
          f * m + o + length (take s bytes) ≤ length main
          → length (take s bytes) ≡ s
          → take s' (drop (g * m + o') (written main (f * m + o) (take s bytes)))
            ≡ take s' (drop (g * m + o') main)
      same fits l = elim (dec_lt g f) [
        | yes before ↦
            written_before main (take s bytes) (f * m + o) fits (g * m + o') s'
              (omega (arith, frames_apart m g f o' s' before in_frame'))
        | no not_before ↦ ap (take s') (
            written_behind main (take s bytes) (f * m + o) fits (g * m + o')
              (rw l (omega (arith, frames_apart m f g o s (omega (arith, other)) in_frame))))
      ]
