-- ===== src/Base/Words.antt =====
-- The bitwise or of the C code: a sum, where the bits of its two sides do not meet.
use Prim.Native.Nat.{ℕ, zero, suc, ◌+◌, ◌*◌, ◌/◌, ◌%◌, ◌^◌, ◌≤◌, ◌<◌}
use Prim.Native.Nat.{max, bit_or, digits, bit_or-bitwise}
use mathlib.Core.Path.{◌≡◌, refl, ap}
use native.Mathlib.Omega.{arith}
use native.Mathlib.Nat.{pow-suc}

abbrev or_digits : ℕ → ℕ → ℕ → ℕ
or_digits = digits (λ y. y) max

-- More rounds than the first number needs change nothing.
or_digits_rounds : (n m a b : ℕ) → a ≤ n → a ≤ m → or_digits n a b ≡ or_digits m a b
or_digits_rounds zero zero a b p q = refl
or_digits_rounds zero (suc m) zero b p q = refl
or_digits_rounds zero (suc m) (suc a) b p q = absurd (omega arith)
or_digits_rounds (suc n) zero zero b p q = refl
or_digits_rounds (suc n) zero (suc a) b p q = absurd (omega arith)
or_digits_rounds (suc n) (suc m) zero b p q = refl
or_digits_rounds (suc n) (suc m) (suc a) b p q =
    omega (arith, or_digits_rounds n m (suc a / 2) (b / 2) (omega arith) (omega arith))

zero-bit_or : (b : ℕ) → bit_or 0 b ≡ b
zero-bit_or b = bit_or-bitwise 0 b

bit_or_lowest : (a b : ℕ) → bit_or a b ≡ bit_or (a / 2) (b / 2) * 2 + max (a % 2) (b % 2)
bit_or_lowest zero b = omega (arith, zero-bit_or b, zero-bit_or (b / 2))
bit_or_lowest (suc a) b = omega (
  arith,
  bit_or-bitwise (suc a) b,
  bit_or-bitwise (suc a / 2) (b / 2),
  or_digits_rounds a (suc a / 2) (suc a / 2) (b / 2) (omega arith) (omega arith),
)

bit_or-zero_below : (n a : ℕ) → a ≤ n → bit_or a 0 ≡ a
bit_or-zero_below zero zero h = zero-bit_or 0
bit_or-zero_below (suc n) zero h = zero-bit_or 0
bit_or-zero_below zero (suc a) h = absurd (omega arith)
bit_or-zero_below (suc n) (suc a) h =
    omega (arith, bit_or_lowest (suc a) 0, bit_or-zero_below n (suc a / 2) (omega arith))

double_shift : (q k : ℕ) → q * 2 ^ suc k ≡ 2 * (q * 2 ^ k)
double_shift q k = omega (arith, ap (λ (t : ℕ). q * t) (pow-suc 2 k))

-- A field of `k` bits under a shifted number is added to it.
pub bit_or_shifted : (k q r : ℕ) → r < 2 ^ k → bit_or (q * 2 ^ k) r ≡ q * 2 ^ k + r
bit_or_shifted zero q r h = ground (arith, bit_or-zero_below q q (omega arith))
bit_or_shifted (suc k) q r h = ground (
  arith,
  bit_or_lowest (q * 2 ^ suc k) r,
  double_shift q k,
  bit_or_shifted k q (r / 2) (omega arith),
)

-- The same, for a number that is known to be a multiple of `2 ^ k`.
pub bit_or_multiple : (k q a r : ℕ) → a ≡ q * 2 ^ k → r < 2 ^ k → bit_or a r ≡ a + r
bit_or_multiple k q a r e h = rw e (bit_or_shifted k q r h)
