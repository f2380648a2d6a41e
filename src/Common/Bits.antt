-- ===== src/Common/Bits.antt =====
-- `128 | v`: the law of the lowest digit for `bit_or`, and what setting the eighth bit does to a byte.
use Prim.Native.Nat.{ℕ, zero, suc, ◌+◌, ◌*◌, ◌/◌, ◌%◌, ◌≤◌, max, bit_or, digits, bit_or-bitwise}
use mathlib.Core.Path.{◌≡◌, refl}
use native.Mathlib.Omega.{arith}

abbrev or_digits : ℕ → ℕ → ℕ → ℕ
or_digits n a b = digits (λ b. b) max n a b

or_digits-fuel : (n m a b : ℕ) → a ≤ n → a ≤ m → or_digits n a b ≡ or_digits m a b
or_digits-fuel zero zero a b p q = refl
or_digits-fuel zero (suc m) zero b p q = refl
or_digits-fuel zero (suc m) (suc a) b p q = absurd (omega arith)
or_digits-fuel (suc n) zero zero b p q = refl
or_digits-fuel (suc n) zero (suc a) b p q = absurd (omega arith)
or_digits-fuel (suc n) (suc m) zero b p q = refl
or_digits-fuel (suc n) (suc m) (suc a) b p q =
    omega (arith, or_digits-fuel n m (suc a / 2) (b / 2) (omega arith) (omega arith))

zero-bit_or : (b : ℕ) → bit_or 0 b ≡ b
zero-bit_or b = bit_or-bitwise 0 b

bit_or_step : (a b : ℕ) → bit_or a b ≡ bit_or (a / 2) (b / 2) * 2 + max (a % 2) (b % 2)
bit_or_step zero b = omega (arith, zero-bit_or b, zero-bit_or (b / 2))
bit_or_step (suc a) b = omega (
  arith,
  bit_or-bitwise (suc a) b,
  bit_or-bitwise (suc a / 2) (b / 2),
  or_digits-fuel a (suc a / 2) (suc a / 2) (b / 2) (omega arith) (omega arith),
)

bit_or_even : (a b : ℕ) → bit_or (a * 2) b ≡ bit_or a (b / 2) * 2 + b % 2
bit_or_even a b =
    let half : a * 2 / 2 ≡ a = omega arith in
    let rest : a * 2 % 2 ≡ 0 = omega arith in
    let step : bit_or (a * 2) b ≡ bit_or a (b / 2) * 2 + max 0 (b % 2) =
      rw (half, rest) at (bit_or_step (a * 2) b) in
    omega (arith, step)

bit_or_one : (b : ℕ) → bit_or 1 b ≡ b / 2 * 2 + 1
bit_or_one b = omega (arith, bit_or_step 1 b, zero-bit_or (b / 2))

-- The low eight bits of `128 | v`.
pub bit_or_high : (v : ℕ) → bit_or 128 v % 256 ≡ 128 + v % 128
bit_or_high v = omega (
  arith,
  bit_or_even 64 v,
  bit_or_even 32 (v / 2),
  bit_or_even 16 (v / 2 / 2),
  bit_or_even 8 (v / 2 / 2 / 2),
  bit_or_even 4 (v / 2 / 2 / 2 / 2),
  bit_or_even 2 (v / 2 / 2 / 2 / 2 / 2),
  bit_or_even 1 (v / 2 / 2 / 2 / 2 / 2 / 2),
  bit_or_one (v / 2 / 2 / 2 / 2 / 2 / 2 / 2),
)
