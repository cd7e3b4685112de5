-- ===== src/Mm/Pmm/Bitmap.antt =====
-- The bitmap of kernel/src/mm/pmm.c as a set of pages: what setting or clearing one bit does to every
-- bit.
use sudo_os.Prelude.{
  ℕ, ◌/◌, ◌%◌, ◌<◌, ◌≡◌, true, false, arith, ◌==◌, if◌then◌else◌, length, get_or, get_or-set_self,
  get_or-set_ne,
}
use native.Mathlib.Decide.{ℕ_discrete}
use sudo_os.Prelude.Bits.{
  byte_set, byte_unset, byte_test-byte_set, byte_test-byte_unset, byte_set-lt, byte_unset-lt,
}
use sudo_os.Mm.Pmm.{Pmm, bit_test, bit_set, bit_unset}

-- Each element of the bitmap is a byte.
abbrev pub Bytes : Pmm → Type 0
Bytes p = (i : ℕ) → get_or p.bitmap i 0 < 256

module _ (p : Pmm) (bytes : Bytes p) (i : ℕ) (room : i / 8 < length p.bitmap) where
  pub bit_test-bit_set :
      (j : ℕ) → bit_test (bit_set p i) j ≡ (if i == j then true else bit_test p j)
  unfolding bit_test bit_set
  bit_test-bit_set j = elim (ℕ_discrete (i / 8) (j / 8)) [
    | yes e ↦
        rw
          (
            ← e,
            get_or-set_self p.bitmap (i / 8) (byte_set (get_or p.bitmap (i / 8) 0) (i % 8)) 0 room,
            byte_test-byte_set (get_or p.bitmap (i / 8) 0) (i % 8) (bytes (i / 8)) (omega arith)
                (j % 8) (omega arith),
          )
          (ground arith)
    | no ne ↦
        rw (get_or-set_ne p.bitmap (byte_set (get_or p.bitmap (i / 8) 0) (i % 8)) 0 ne)
          (ground arith)
  ]

  pub bit_test-bit_unset :
      (j : ℕ) → bit_test (bit_unset p i) j ≡ (if i == j then false else bit_test p j)
  unfolding bit_test bit_unset
  bit_test-bit_unset j = elim (ℕ_discrete (i / 8) (j / 8)) [
    | yes e ↦
        rw
          (
            ← e,
            get_or-set_self p.bitmap (i / 8) (byte_unset (get_or p.bitmap (i / 8) 0) (i % 8)) 0
                room,
            byte_test-byte_unset (get_or p.bitmap (i / 8) 0) (i % 8) (bytes (i / 8)) (omega arith)
                (j % 8) (omega arith),
          )
          (ground arith)
    | no ne ↦
        rw (get_or-set_ne p.bitmap (byte_unset (get_or p.bitmap (i / 8) 0) (i % 8)) 0 ne)
          (ground arith)
  ]

  pub bit_set-Bytes : Bytes (bit_set p i)
  unfolding bit_set
  bit_set-Bytes j = elim (ℕ_discrete (i / 8) j) [
    | yes e ↦
        rw
          (
            ← e,
            get_or-set_self p.bitmap (i / 8) (byte_set (get_or p.bitmap (i / 8) 0) (i % 8)) 0 room,
          )
          (byte_set-lt (get_or p.bitmap (i / 8) 0) (i % 8))
    | no ne ↦
        rw (get_or-set_ne p.bitmap (byte_set (get_or p.bitmap (i / 8) 0) (i % 8)) 0 ne) (bytes j)
  ]

  pub bit_unset-Bytes : Bytes (bit_unset p i)
  unfolding bit_unset
  bit_unset-Bytes j = elim (ℕ_discrete (i / 8) j) [
    | yes e ↦
        rw
          (
            ← e,
            get_or-set_self p.bitmap (i / 8) (byte_unset (get_or p.bitmap (i / 8) 0) (i % 8)) 0
                room,
          )
          (byte_unset-lt (get_or p.bitmap (i / 8) 0) (i % 8) (bytes (i / 8)) (omega arith))
    | no ne ↦
        rw (get_or-set_ne p.bitmap (byte_unset (get_or p.bitmap (i / 8) 0) (i % 8)) 0 ne) (bytes j)
  ]
