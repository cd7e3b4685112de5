-- ===== src/Prelude/Or.antt =====
-- `|` on numbers at variables: with 1, and of a multiple of a power of two with smaller bits.
use Prim.Native.Nat.{
  ℕ, zero, suc, ◌+◌, ◌*◌, ◌/◌, ◌%◌, ◌^◌, ◌≤◌, ◌<◌, max, bit_or, bit_or-bitwise, digits,
}
use mathlib.Core.Path.{◌≡◌, refl, ap, sym, ◌∙◌}
use native.Mathlib.Nat.{pow-zero, pow-suc, mul_assoc}
use native.Mathlib.Omega.{arith}

-- The digits that the native operation stands for; any fuel from the first number on is enough.
or_digits : ℕ → ℕ → ℕ → ℕ
or_digits n a b = digits (λ b. b) max n a b

or_digits_enough : (n m a b : ℕ) → a ≤ n → a ≤ m → or_digits n a b ≡ or_digits m a b
unfolding or_digits
or_digits_enough zero zero a b hn hm = refl
or_digits_enough zero (suc m) zero b hn hm = refl
or_digits_enough zero (suc m) (suc a) b hn hm = absurd (omega arith)
or_digits_enough (suc n) zero zero b hn hm = refl
or_digits_enough (suc n) zero (suc a) b hn hm = absurd (omega arith)
or_digits_enough (suc n) (suc m) zero b hn hm = refl
or_digits_enough (suc n) (suc m) (suc a) b hn hm =
    omega (arith, or_digits_enough n m (suc a / 2) (b / 2) (omega arith) (omega arith))

zero-bit_or : (b : ℕ) → bit_or 0 b ≡ b
zero-bit_or b = bit_or-bitwise 0 b

bit_or_step : (a b : ℕ) → bit_or a b ≡ bit_or (a / 2) (b / 2) * 2 + max (a % 2) (b % 2)
unfolding or_digits
bit_or_step zero b = omega (arith, zero-bit_or b, zero-bit_or (b / 2))
bit_or_step (suc a) b = omega (
  arith,
  bit_or-bitwise (suc a) b,
  bit_or-bitwise (suc a / 2) (b / 2),
  or_digits_enough a (suc a / 2) (suc a / 2) (b / 2) (omega arith) (omega arith),
)

bit_or-zero_below : (n a : ℕ) → a ≤ n → bit_or a 0 ≡ a
bit_or-zero_below n zero h = zero-bit_or 0
bit_or-zero_below zero (suc a) h = absurd (omega arith)
bit_or-zero_below (suc n) (suc a) h =
    omega (arith, bit_or_step (suc a) 0, bit_or-zero_below n (suc a / 2) (omega arith))

bit_or-zero : (a : ℕ) → bit_or a 0 ≡ a
bit_or-zero a = bit_or-zero_below a a (omega arith)

-- `a | 1`
pub bit_or-one : (a : ℕ) → bit_or a 1 ≡ a / 2 * 2 + 1
bit_or-one a = omega (arith, bit_or_step a 1, bit_or-zero (a / 2))

-- Where the numbers share no bit, `|` is `+`.
pub bit_or_disjoint : (k c b : ℕ) → b < 2 ^ k → bit_or (c * 2 ^ k) b ≡ c * 2 ^ k + b
bit_or_disjoint zero c b h =
    let none_left : b ≡ 0 = omega (arith, pow-zero 2) in
    let whole : c * 2 ^ 0 ≡ c = omega (arith, pow-zero 2) in
    rw (whole, none_left) (omega (arith, bit_or-zero c))
bit_or_disjoint (suc k) c b h =
    let p = pow-suc 2 k in
    let twice : c * 2 ^ suc k ≡ c * 2 ^ k * 2 = ap (λ n. c * n) p ∙ sym (mul_assoc c (2 ^ k) 2) in
    let half : c * 2 ^ k * 2 / 2 ≡ c * 2 ^ k = omega arith in
    let step = bit_or_step (c * 2 ^ k * 2) b in
    let rest = bit_or_disjoint k c (b / 2) (omega arith) in
    rw twice (omega (arith, step, rest, ap (λ n. bit_or n (b / 2)) half))
