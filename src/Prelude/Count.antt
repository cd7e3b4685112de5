-- ===== src/Prelude/Count.antt =====
-- How many indices below `n` pass a test, and what one change of the test does to that number.
use Prim.Native.Nat.{ℕ, zero, suc, ◌+◌, ◌≤◌, ◌<◌}
use mathlib.Core.Path.{◌≡◌, refl}
use mathlib.Core.Logic.{◌≢◌}
use mathlib.Core.Bool.{Bool, true, false}
use native.Mathlib.Omega.{arith}
use native.Mathlib.Decide.{ℕ_discrete}
use sudo_os.Prelude.Tests.{if◌then◌else◌}

unfoldable pub count_below : (ℕ → Bool) → ℕ → ℕ
count_below f zero = 0
count_below f (suc n) = count_below f n + (if f n then 1 else 0)

pub count_below-le : (f : ℕ → Bool) (n : ℕ) → count_below f n ≤ n
unfolding count_below
count_below-le f zero = omega arith
count_below-le f (suc n) = ground (arith, count_below-le f n)

pub count_below_congr :
    (f g : ℕ → Bool) (n : ℕ) → ((j : ℕ) → j < n → f j ≡ g j) → count_below f n ≡ count_below g n
unfolding count_below
count_below_congr f g zero same = refl
count_below_congr f g (suc n) same =
    ground (arith, same n (omega arith), count_below_congr f g n (λ j h. same j (omega arith)))

-- One index below `n` turns from failing to passing.
pub count_below_flip :
    (f g : ℕ → Bool) (i n : ℕ)
    → i < n
    → f i ≡ false
    → g i ≡ true
    → ((j : ℕ) → j < n → i ≢ j → f j ≡ g j)
    → count_below g n ≡ count_below f n + 1
unfolding count_below
count_below_flip f g i zero h fi gi same = absurd (omega arith)
count_below_flip f g i (suc n) h fi gi same = elim (ℕ_discrete i n) [
  | yes e ↦
      let rest : count_below f n ≡ count_below g n =
        count_below_congr f g n (λ j lt. same j (omega arith) (omega arith)) in
      ground arith
  | no ne ↦ ground (
    arith,
    same n (omega arith) ne,
    count_below_flip f g i n (omega arith) fi gi (λ j lt. same j (omega arith)),
  )
]

-- If any index passes, the number is positive.
pub count_below_pos : (f : ℕ → Bool) (i n : ℕ) → i < n → f i ≡ true → 0 < count_below f n
unfolding count_below
count_below_pos f i zero h fi = absurd (omega arith)
count_below_pos f i (suc n) h fi = elim (ℕ_discrete i n) [
  | yes e ↦ ground arith
  | no ne ↦ omega (arith, count_below_pos f i n (omega arith) fi)
]

-- If no index passes, the number is 0.
pub count_below_none :
    (f : ℕ → Bool) (n : ℕ) → ((j : ℕ) → j < n → f j ≡ false) → count_below f n ≡ 0
unfolding count_below
count_below_none f zero h = refl
count_below_none f (suc n) h =
    ground (arith, h n (omega arith), count_below_none f n (λ j lt. h j (omega arith)))
