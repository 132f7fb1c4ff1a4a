-- ===== src/Base/Bits.antt =====
-- The | of C joins words by addition where their fields lie apart.
use Prim.Native.Nat.{max, digits, bit_or-bitwise}
use mathlib.Core.Path.{◌≡◌, refl, ap}
use Prim.Native.Nat.{ℕ, zero, suc, ◌+◌, ◌*◌, ◌/◌, ◌%◌, ◌≤◌, ◌<◌, bit_or}
use native.Mathlib.Omega.{arith}

-- The digits of `a | b`; the count of rounds matters only while digits are left.
or_digits : (n a b : ℕ) → ℕ
or_digits n a b = digits (λ y. y) max n a b

or_digits-enough : (n m a b : ℕ) → a ≤ n → a ≤ m → or_digits n a b ≡ or_digits m a b
unfolding or_digits
or_digits-enough zero zero a b p q = refl
or_digits-enough zero (suc m) zero b p q = refl
or_digits-enough (suc n) zero zero b p q = refl
or_digits-enough (suc n) (suc m) zero b p q = refl
or_digits-enough zero m (suc a) b p q = absurd (omega arith)
or_digits-enough (suc n) zero (suc a) b p q = absurd (omega arith)
or_digits-enough (suc n) (suc m) (suc a) b p q =
    rw (or_digits-enough n m (suc a / 2) (b / 2) (omega arith) (omega arith)) refl

lowest_digit : (a b : ℕ) → bit_or a b ≡ bit_or (a / 2) (b / 2) * 2 + max (a % 2) (b % 2)
unfolding or_digits
lowest_digit zero b = omega (arith, bit_or-bitwise 0 b, bit_or-bitwise 0 (b / 2))
lowest_digit (suc a) b = omega (
  arith,
  bit_or-bitwise (suc a) b,
  bit_or-bitwise (suc a / 2) (b / 2),
  or_digits-enough a (suc a / 2) (suc a / 2) (b / 2) (omega arith) (omega arith),
)

-- `b` moved up by `k` bits, and the first number that does not fit in `k` bits.
abbrev shifted : (b k : ℕ) → ℕ
shifted b zero = b
shifted b (suc k) = shifted b k * 2

abbrev limit : ℕ → ℕ
limit zero = 1
limit (suc k) = limit k * 2

half : (x : ℕ) → x * 2 / 2 ≡ x
half x = omega arith

or_apart : (k a b : ℕ) → a < limit k → bit_or a (shifted b k) ≡ a + shifted b k
or_apart zero zero b h = omega (arith, bit_or-bitwise 0 b)
or_apart zero (suc a) b h = absurd (omega arith)
or_apart (suc k) a b h = omega (
  arith,
  lowest_digit a (shifted b k * 2),
  ap (λ y. bit_or (a / 2) y) (half (shifted b k)),
  or_apart k (a / 2) b (omega arith),
)

-- A field `w` that starts at bit `k`, and a number of `k` bits.
pub bit_or-field : (k a b w : ℕ) → a < limit k → w ≡ shifted b k → bit_or a w ≡ a + w
bit_or-field k a b w h e = omega (arith, ap (λ y. bit_or a y) e, or_apart k a b h)
