-- ===== src/Common/Bits.antt =====
-- Python's `(a << k) | b` for a b of k bits.
use Prim.Native.Nat.{
  ℕ, zero, suc, ◌+◌, ◌*◌, ◌/◌, ◌%◌, ◌≤◌, ◌<◌, max, bit_or, digits, bit_or-bitwise,
}
use mathlib.Core.Path.{◌≡◌, refl, ap}
use native.Mathlib.Omega.{arith}

abbrev or_digits : ℕ → ℕ → ℕ → ℕ
or_digits n a b = digits (λ b. b) max n a b

-- The count of digits does not matter once it is large enough.
or_digits_enough : (n m a b : ℕ) → a ≤ n → a ≤ m → or_digits n a b ≡ or_digits m a b
or_digits_enough zero zero a b p q = refl
or_digits_enough zero (suc m) zero b p q = refl
or_digits_enough zero (suc m) (suc a) b p q = absurd (omega arith)
or_digits_enough (suc n) zero zero b p q = refl
or_digits_enough (suc n) zero (suc a) b p q = absurd (omega arith)
or_digits_enough (suc n) (suc m) zero b p q = refl
or_digits_enough (suc n) (suc m) (suc a) b p q =
    omega (arith, or_digits_enough n m (suc a / 2) (b / 2) (omega arith) (omega arith))

zero-bit_or : (b : ℕ) → bit_or 0 b ≡ b
zero-bit_or b = bit_or-bitwise 0 b

pub bit_or_step : (a b : ℕ) → bit_or a b ≡ bit_or (a / 2) (b / 2) * 2 + max (a % 2) (b % 2)
bit_or_step zero b = omega (arith, zero-bit_or b, zero-bit_or (b / 2))
bit_or_step (suc a) b = omega (
  arith,
  bit_or-bitwise (suc a) b,
  bit_or-bitwise (suc a / 2) (b / 2),
  or_digits_enough a (suc a / 2) (suc a / 2) (b / 2) (omega arith) (omega arith),
)

bit_or-zero_below : (n a : ℕ) → a ≤ n → bit_or a 0 ≡ a
bit_or-zero_below n zero h = refl
bit_or-zero_below zero (suc a) h = absurd (omega arith)
bit_or-zero_below (suc n) (suc a) h =
    omega (arith, bit_or_step (suc a) 0, bit_or-zero_below n (suc a / 2) (omega arith))

pub bit_or-zero : (a : ℕ) → bit_or a 0 ≡ a
bit_or-zero a = bit_or-zero_below a a (omega arith)

double-bit_or : (a b : ℕ) → bit_or (2 * a) b ≡ bit_or a (b / 2) * 2 + b % 2
double-bit_or a b =
    let half : 2 * a / 2 ≡ a = omega arith in
    omega (arith, bit_or_step (2 * a) b, ap (λ x. bit_or x (b / 2)) half)

-- `a << k`
unfoldable pub shift : ℕ → ℕ → ℕ
shift a zero = a
shift a (suc k) = 2 * shift a k

-- The bits of the two parts do not meet, so that the bitwise or is a sum.
pub shift-bit_or : (k a b : ℕ) → b < shift 1 k → bit_or (shift a k) b ≡ shift a k + b
unfolding shift
shift-bit_or zero a b h = let e : b ≡ 0 = omega arith in rw e (omega (arith, bit_or-zero a))
shift-bit_or (suc k) a b h =
    omega (arith, double-bit_or (shift a k) b, shift-bit_or k a (b / 2) (omega arith))

pub shift_sixteen : (a : ℕ) → shift a 16 ≡ 65536 * a
unfolding shift
shift_sixteen a = omega arith
