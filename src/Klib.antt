-- ===== src/Klib.antt =====
-- The string routines of kernel/src/lib/string.c, which the user library repeats in usr/lib/string.c.
-- A C string is the list of its bytes up to the terminating 0, so a list holds no 0; `TextOf` says so.
-- A buffer of `n` bytes is a list of length `n`. `strcpy` into a large enough buffer is the list itself
-- and has no function here.
mod Tests
pub mod Tokens
pub mod Compare
pub mod Digits
pub mod Links
use sudo_os.Prelude.{
  ◌^◌, ◌++◌, replicate, ℕ, zero, suc, ◌+◌, ◌-◌, ◌*◌, ◌/◌, ◌%◌, ◌<◌, ◌≢◌, Bool, true, false, ◌||◌,
  ◌&&◌, Option, none, some, List, [], ◌∷◌, ltb, leb, ◌==◌, if◌then◌else◌, length, take, get_or,
}
use sudo_os.Prelude.Int.{ℤ, pos, negsuc}

-- A list of bytes with no 0 in it.
abbrev pub TextOf : List ℕ → Type 0
TextOf [] = Unit
TextOf (c ∷ s) = (c ≢ 0) × (c < 256) × TextOf s

-- `strlen`: the index of the first 0.
abbrev pub strlen : List ℕ → ℕ
strlen s = length s

-- The difference of two bytes, as an `int`.
abbrev pub byte_diff : ℕ → ℕ → ℤ
byte_diff a b = if leb b a then pos (a - b) else negsuc (b - a - 1)

-- `strcmp`; past its end a string has the byte 0.
unfoldable pub strcmp : List ℕ → List ℕ → ℤ
strcmp [] [] = byte_diff 0 0
strcmp [] (b ∷ t) = byte_diff 0 b
strcmp (a ∷ s) [] = byte_diff a 0
strcmp (a ∷ s) (b ∷ t) = if a == b then strcmp s t else byte_diff a b

-- `memcmp` over `n` bytes; the lists hold at least `n`.
unfoldable pub memcmp : List ℕ → List ℕ → ℕ → ℤ
memcmp x y zero = pos 0
memcmp [] y (suc n) = pos 0
memcmp (a ∷ x) [] (suc n) = pos 0
memcmp (a ∷ x) (b ∷ y) (suc n) = if a == b then memcmp x y n else byte_diff a b

-- `memcpy` of `n` bytes from `src` over the start of `dst`.
unfoldable pub memcpy : List ℕ → List ℕ → ℕ → List ℕ
memcpy dst src zero = dst
memcpy [] src (suc n) = []
memcpy (d ∷ dst) [] (suc n) = d ∷ dst
memcpy (d ∷ dst) (s ∷ src) (suc n) = s ∷ memcpy dst src n

-- `memset` of the first `n` bytes.
unfoldable pub memset : List ℕ → ℕ → ℕ → List ℕ
memset dst value zero = dst
memset [] value (suc n) = []
memset (d ∷ dst) value (suc n) = value % 256 ∷ memset dst value n

-- The inner loop over `delim`.
unfoldable pub is_delim : ℕ → List ℕ → Bool
is_delim c [] = false
is_delim c (d ∷ delim) = c == d || is_delim c delim

-- Part 1 of `strtok_r`: the delimiters in front are skipped.
unfoldable pub skip_delims : List ℕ → List ℕ → List ℕ
skip_delims delim [] = []
skip_delims delim (c ∷ s) = if is_delim c delim then skip_delims delim s else c ∷ s

-- Part 3: the token up to the next delimiter, and what stands behind that.
unfoldable pub scan_token : List ℕ → List ℕ → List ℕ × List ℕ
scan_token delim [] = ([], [])
scan_token delim (c ∷ s) =
    let (token, rest) = scan_token delim s in
    if is_delim c delim then ([], s) else (c ∷ token, rest)

-- `strtok_r` from `str`: the token, `none` for NULL, and the string at `*saveptr`.
unfoldable pub strtok_r : List ℕ → List ℕ → Option (List ℕ) × List ℕ
strtok_r delim str = elim (skip_delims delim str) [
  | [] ↦ (none, [])
  | c ∷ s ↦ let (token, rest) = scan_token delim (c ∷ s) in (some token, rest)
]

-- `"0123456789ABCDEF"`
abbrev pub digits : List ℕ
digits =
    b'0' ∷ b'1' ∷ b'2' ∷ b'3' ∷ b'4' ∷ b'5' ∷ b'6' ∷ b'7' ∷ b'8' ∷ b'9' ∷ b'A' ∷ b'B' ∷ b'C' ∷ b'D'
    ∷ b'E' ∷ b'F' ∷ []

-- The loop of `itoa_uint64` that writes the digits, the last one first; `fuel` bounds the rounds.
unfoldable pub digit_loop : ℕ → ℕ → ℕ → List ℕ
digit_loop zero value base = []
digit_loop (suc fuel) value base =
    let rest = digit_loop fuel (value / base) base in
    if value == 0 then [] else get_or digits (value % base) 0 ∷ rest

-- The loop that copies `temp` into the buffer backwards.
unfoldable pub copy_back : List ℕ → List ℕ → List ℕ
copy_back [] out = out
copy_back (c ∷ temp) out = copy_back temp (c ∷ out)

-- `itoa_uint64`: `value` is unsigned, so the branch for negative numbers is never taken. A value below
-- `2 ^ 64` has at most 64 digits, the size of `temp`.
unfoldable pub itoa_uint64 : ℕ → ℕ → List ℕ
itoa_uint64 value base =
    if ltb base 2 || ltb 16 base
    then []
    else (if value == 0 then b'0' ∷ [] else copy_back (digit_loop 64 value base) [])

-- `itoa`; `none` where the negation of the least `int` overflows, and where C reads outside of `digits`, since
-- the remainders of a negative value are negative and only base 10 takes the absolute value.
unfoldable pub itoa : ℤ → ℕ → Option (List ℕ)
itoa (pos n) base =
    if ltb base 2 || ltb 16 base
    then some []
    else (if n == 0 then some (b'0' ∷ []) else some (copy_back (digit_loop 32 n base) []))
itoa (negsuc n) base =
    if ltb base 2 || ltb 16 base
    then some []
    else (if base == 10 && ltb n (2 ^ 31 - 1)
        then some (copy_back (digit_loop 32 (suc n) base ++ (b'-' ∷ [])) [])
        else none)

-- The end of `strncmp`, at two bytes with `n` bytes left behind them: `(int)n < 0` gives 0.
abbrev pub strncmp_end : ℕ → ℕ → ℕ → ℤ
strncmp_end n a b = if leb (2 ^ 31) (n % 2 ^ 32) then pos 0 else byte_diff a b

unfoldable pub strncmp : List ℕ → List ℕ → ℕ → ℤ
strncmp s t zero = pos 0
strncmp [] [] (suc n) = strncmp_end n 0 0
strncmp [] (b ∷ t) (suc n) = strncmp_end n 0 b
strncmp (a ∷ s) [] (suc n) = strncmp_end n a 0
strncmp (a ∷ s) (b ∷ t) (suc n) =
    let rest = strncmp s t n in if a == b then rest else strncmp_end n a b

-- The bytes that `strncpy` writes from `dst` on. The copy of the 0 is not counted in `n`.
unfoldable pub strncpy : List ℕ → ℕ → List ℕ
strncpy src zero = []
strncpy [] (suc n) = 0 ∷ replicate (suc n) 0
strncpy (c ∷ src) (suc n) = c ∷ strncpy src n
