-- ===== src/Prelude/Words.antt =====
-- Unsigned 64-bit arithmetic (`size_t`, `uint64_t`, `uintptr_t`) with its wrap-around, the page
-- size, and the rounding macros of mm/pmm.h.
use Prim.Native.Nat.{ℕ, ◌+◌, ◌-◌, ◌*◌, ◌/◌, ◌%◌, ◌^◌}
use sudo_os.Prelude.Int.{ℤ, pos, negsuc}
use sudo_os.Prelude.Tests.{ltb, if◌then◌else◌}

abbrev pub u64 : ℕ → ℕ
u64 a = a % 2 ^ 64

abbrev pub add64 : ℕ → ℕ → ℕ
add64 a b = (a + b) % 2 ^ 64

-- `a - b` on 64 bits, for operands below `2 ^ 64`.
abbrev pub sub64 : ℕ → ℕ → ℕ
sub64 a b = (a + 2 ^ 64 - b) % 2 ^ 64

abbrev pub mul64 : ℕ → ℕ → ℕ
mul64 a b = a * b % 2 ^ 64

abbrev pub page_size : ℕ
page_size = 4096

-- `x & ~(align - 1)` for an alignment that is a power of two: the low bits are dropped.
abbrev pub align_down : ℕ → ℕ → ℕ
align_down x align = x / align * align

-- `(x + align - 1) & ~(align - 1)`; the sum wraps.
abbrev pub align_up : ℕ → ℕ → ℕ
align_up x align = align_down ((x + align - 1) % 2 ^ 64) align

-- `(int)x` for a 64-bit `x`.
abbrev pub to_int : ℕ → ℤ
to_int x = if ltb (x % 2 ^ 32) (2 ^ 31) then pos (x % 2 ^ 32) else negsuc (2 ^ 32 - 1 - x % 2 ^ 32)
