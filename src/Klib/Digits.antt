-- ===== src/Klib/Digits.antt =====
-- The numbers that `itoa_uint64` of kernel/src/lib/string.c prints, read back.
use sudo_os.Prelude.{
  ◌++◌, sym, some, ℕ, zero, suc, ◌+◌, ◌-◌, ◌*◌, ◌/◌, ◌%◌, ◌^◌, ◌≤◌, ◌<◌, ◌≡◌, Bool, true, false,
  ◌||◌, refl, ap, ◌∙◌, arith, List, [], ◌∷◌, ◌==◌, ltb, leb, if◌then◌else◌, get_or,
}
use native.Mathlib.Decide.{ℕ_discrete}
use native.Mathlib.Nat.{mod-add-div', mod-lt, div-lt_iff_lt-mul, mul-le-mul_left}
use sudo_os.Prelude.Bits.{all_below, all_below_sound}
use sudo_os.Prelude.Int.{pos, negsuc}
use sudo_os.Klib.{itoa, digits, digit_loop, copy_back, itoa_uint64}

-- The value of a digit, and of a number written with the most significant digit first.
unfoldable pub digit_value : ℕ → ℕ
digit_value c = if leb c b'9' then c - b'0' else c - b'A' + 10

unfoldable pub parse : ℕ → ℕ → List ℕ → ℕ
parse base acc [] = acc
parse base acc (c ∷ s) = parse base (acc * base + digit_value c) s

digit_row : ℕ → Bool
digit_row d = digit_value (get_or digits d 0) == d

digit_table : all_below 16 digit_row ≡ true
unfolding all_below digit_row digit_value
digit_table = refl

digit_value-digits : (d : ℕ) → d < 16 → digit_value (get_or digits d 0) ≡ d
unfolding digit_row
digit_value-digits d h = let row = all_below_sound 16 digit_row d digit_table h in ground arith

-- The value of digits written with the least significant one first.
abbrev value_rev : ℕ → List ℕ → ℕ
value_rev base [] = 0
value_rev base (c ∷ s) = digit_value c + value_rev base s * base

parse-copy_back :
    (base : ℕ) (temp out : List ℕ)
    → parse base 0 (copy_back temp out) ≡ parse base (value_rev base temp) out
unfolding copy_back parse
parse-copy_back base [] out = refl
parse-copy_back base (c ∷ temp) out =
    parse-copy_back base temp (c ∷ out) ∙ ap (λ a. parse base a out) (omega arith)

value_rev-digit_loop :
    (fuel value base : ℕ)
    → 2 ≤ base
    → base ≤ 16
    → value < 2 ^ fuel
    → value_rev base (digit_loop fuel value base) ≡ value
unfolding digit_loop
value_rev-digit_loop zero value base lo hi h = omega arith
value_rev-digit_loop (suc fuel) value base lo hi h = elim (ℕ_discrete value 0) [
  | yes e ↦ rw e
  | no ne ↦
      let miss : (value == 0) ≡ false = ground arith in
      let below : value % base < base = mod-lt value (omega arith) in
      let wide : 2 ^ fuel * 2 ≤ 2 ^ fuel * base = mul-le-mul_left (2 ^ fuel) lo in
      let rest =
        value_rev-digit_loop fuel (value / base) base lo hi (
          (div-lt_iff_lt-mul {k = base} {x = value} {y = 2 ^ fuel} (omega arith)).1
            (omega arith)) in
      rw (miss, digit_value-digits (value % base) (omega arith), rest) (mod-add-div' value base)
]

pub parse-decimal : (n : ℕ) → n < 2 ^ 32 → parse 10 0 (copy_back (digit_loop 32 n 10) []) ≡ n
unfolding parse
parse-decimal n h =
    parse-copy_back 10 (digit_loop 32 n 10) []
    ∙ value_rev-digit_loop 32 n 10 (omega arith) (omega arith) h

-- Every 64-bit value that `itoa_uint64` prints in a base from 2 to 16 is read back as itself: the 64
-- bytes of `temp` hold all its digits, and the backwards copy puts them in order.
pub parse-itoa_uint64 :
    (value base : ℕ)
    → 2 ≤ base
    → base ≤ 16
    → value < 2 ^ 64
    → parse base 0 (itoa_uint64 value base) ≡ value
unfolding itoa_uint64 parse digit_value
parse-itoa_uint64 value base lo hi h =
    let ok : (ltb base 2 || ltb 16 base) ≡ false = ground arith in
    elim (ℕ_discrete value 0) [
      | yes e ↦ let hit : (value == 0) ≡ true = ground arith in rw (ok, hit) (omega arith)
      | no ne ↦
          let miss : (value == 0) ≡ false = ground arith in
          rw (ok, miss)
            (parse-copy_back base (digit_loop 64 value base) []
              ∙ value_rev-digit_loop 64 value base lo hi h)
    ]

zero_digit : (base : ℕ) → parse base 0 (b'0' ∷ []) ≡ 0
unfolding parse digit_value
zero_digit base = omega arith

pub copy_back-append :
    (temp out : List ℕ) (c : ℕ) → copy_back (temp ++ (c ∷ [])) out ≡ c ∷ copy_back temp out
unfolding copy_back
copy_back-append [] out c = refl
copy_back-append (d ∷ temp) out c = copy_back-append temp (d ∷ out) c

-- `itoa` prints every `int` that is not negative in any base from 2 to 16, and every negative one but
-- the least in base 10 with a sign in front, so that its digits are read back as its absolute value.
parse-itoa :
    (n base : ℕ)
    → 2 ≤ base
    → base ≤ 16
    → n + 1 < 2 ^ 31
    → ((text : List ℕ) × (itoa (pos n) base ≡ some text) × (parse base 0 text ≡ n))
      × ((text : List ℕ) × (itoa (negsuc n) 10 ≡ some (b'-' ∷ text)) × (parse 10 0 text ≡ suc n))
unfolding itoa parse
parse-itoa n base lo hi h = (positive, negative)
  where
    positive : (text : List ℕ) × (itoa (pos n) base ≡ some text) × (parse base 0 text ≡ n)
    positive =
        let ok : (ltb base 2 || ltb 16 base) ≡ false = ground arith in
        elim (ℕ_discrete n 0) [
          | yes e ↦
              let hit : (n == 0) ≡ true = ground arith in
              (b'0' ∷ [], rw (ok, hit), zero_digit base ∙ sym e)
          | no ne ↦
              let miss : (n == 0) ≡ false = ground arith in
              (
                copy_back (digit_loop 32 n base) [],
                rw (ok, miss),
                parse-copy_back base (digit_loop 32 n base) []
                    ∙ value_rev-digit_loop 32 n base lo hi (omega arith),
              )
        ]

    negative :
        (text : List ℕ) × (itoa (negsuc n) 10 ≡ some (b'-' ∷ text)) × (parse 10 0 text ≡ suc n)
    negative =
        let fits : ltb n (2 ^ 31 - 1) ≡ true = ground arith in
        (
          copy_back (digit_loop 32 (suc n) 10) [],
          rw fits (ap (λ t. some t) (copy_back-append (digit_loop 32 (suc n) 10) [] b'-')),
          parse-copy_back 10 (digit_loop 32 (suc n) 10) []
              ∙ value_rev-digit_loop 32 (suc n) 10 (omega arith) (omega arith) (omega arith),
        )
