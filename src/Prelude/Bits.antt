-- ===== src/Prelude/Bits.antt =====
-- The bits of a byte by table: testing, setting and clearing bit `k` by the masks that the C code
-- writes, `1 << k` and `~(1 << k)`.
use Prim.Native.Nat.{ℕ, zero, suc, ◌-◌, ◌%◌, ◌^◌, ◌<◌, bit_and, bit_or}
use mathlib.Core.Path.{◌≡◌, refl}
use mathlib.Core.Bool.{Bool, true, false, not}
use native.Mathlib.Omega.{arith}
use sudo_os.Prelude.Tests.{ltb, ◌==◌, if◌then◌else◌}

-- `(bool)(x & (1 << k))`
unfoldable pub byte_test : ℕ → ℕ → Bool
byte_test x k = not (bit_and x (2 ^ k) == 0)

-- `x |= (1 << k)` on a `uint8_t`
unfoldable pub byte_set : ℕ → ℕ → ℕ
byte_set x k = bit_or x (2 ^ k) % 256

-- `x &= ~(1 << k)` on a `uint8_t`: the mask's low byte is `255 - 2 ^ k`
unfoldable pub byte_unset : ℕ → ℕ → ℕ
byte_unset x k = bit_and x (255 - 2 ^ k)

-- A test passes everywhere below a bound; on a small range this evaluates.
unfoldable pub all_below : ℕ → (ℕ → Bool) → Bool
all_below zero test = true
all_below (suc top) test = if test top then all_below top test else false

pub all_below_sound :
    (bound : ℕ) (test : ℕ → Bool) (k : ℕ) → all_below bound test ≡ true → k < bound → test k ≡ true
unfolding all_below
all_below_sound zero test k passed below = absurd (omega arith)
all_below_sound (suc top) test k passed below =
    let lower = all_below_sound top test k in ground (arith, lower)

bool_eq : Bool → Bool → Bool
bool_eq true b = b
bool_eq false b = not b

bool_eq_sound : (a b : Bool) → bool_eq a b ≡ true → a ≡ b
unfolding bool_eq
bool_eq_sound true b h = ground arith
bool_eq_sound false b h = ground arith

set_row : ℕ → ℕ → ℕ → Bool
set_row x k j = bool_eq (byte_test (byte_set x k) j) (if k == j then true else byte_test x j)

unset_row : ℕ → ℕ → ℕ → Bool
unset_row x k j = bool_eq (byte_test (byte_unset x k) j) (if k == j then false else byte_test x j)

set_table : all_below 256 (λ x. all_below 8 (λ k. all_below 8 (set_row x k))) ≡ true
unfolding all_below set_row bool_eq byte_test byte_set
set_table = refl

unset_table : all_below 256 (λ x. all_below 8 (λ k. all_below 8 (unset_row x k))) ≡ true
unfolding all_below unset_row bool_eq byte_test byte_unset
unset_table = refl

unset_range_table : all_below 256 (λ x. all_below 8 (λ k. ltb (byte_unset x k) 256)) ≡ true
unfolding all_below byte_unset
unset_range_table = refl

ones_table : all_below 8 (λ k. byte_test 255 k) ≡ true
unfolding all_below byte_test
ones_table = refl

module _ (x k : ℕ) (hx : x < 256) (hk : k < 8) where
  pub byte_test-byte_set :
      (j : ℕ) → j < 8 → byte_test (byte_set x k) j ≡ (if k == j then true else byte_test x j)
  unfolding set_row
  byte_test-byte_set j hj = bool_eq_sound _ _ (
      all_below_sound 8 (set_row x k) j
        (all_below_sound 8 (λ k. all_below 8 (set_row x k)) k
          (all_below_sound 256 (λ x. all_below 8 (λ k. all_below 8 (set_row x k))) x set_table hx)
          hk)
        hj)

  pub byte_test-byte_unset :
      (j : ℕ) → j < 8 → byte_test (byte_unset x k) j ≡ (if k == j then false else byte_test x j)
  unfolding unset_row
  byte_test-byte_unset j hj = bool_eq_sound _ _ (
      all_below_sound 8 (unset_row x k) j
        (all_below_sound 8 (λ k. all_below 8 (unset_row x k)) k
          (all_below_sound 256 (λ x. all_below 8 (λ k. all_below 8 (unset_row x k))) x unset_table
            hx)
          hk)
        hj)

  pub byte_unset-lt : byte_unset x k < 256
  byte_unset-lt =
      let h : ltb (byte_unset x k) 256 ≡ true =
        all_below_sound 8 (λ k. ltb (byte_unset x k) 256) k
          (all_below_sound 256 (λ x. all_below 8 (λ k. ltb (byte_unset x k) 256)) x
            unset_range_table hx)
          hk in
      ground arith

pub byte_set-lt : (x k : ℕ) → byte_set x k < 256
unfolding byte_set
byte_set-lt x k = omega arith

pub byte_test-ones : (k : ℕ) → k < 8 → byte_test 255 k ≡ true
byte_test-ones k h = all_below_sound 8 (λ k. byte_test 255 k) k ones_table h
