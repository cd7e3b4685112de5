-- ===== src/Usr/Atoi.antt =====
-- `atoi` of usr/lib/stdlib.c. `none` stands for an `int` that overflows, which C leaves undefined.
use sudo_os.Prelude.{
  ltb, ℕ, zero, suc, ◌+◌, ◌-◌, ◌*◌, ◌/◌, ◌%◌, ◌^◌, ◌≤◌, ◌<◌, ◌≡◌, ◌∙◌, refl, ap, arith, Bool, true,
  false, ◌&&◌, Option, none, some, List, [], ◌∷◌, ◌==◌, leb, if◌then◌else◌, get_or, Bool-cases, inl,
  inr,
}
use sudo_os.Prelude.Bits.{all_below, all_below_sound}
use sudo_os.Prelude.Int.{ℤ, pos, negsuc}
use sudo_os.Klib.{digits, digit_loop, copy_back}
use sudo_os.Klib.Digits.{digit_value, parse, parse-decimal}
use sudo_os.Usr.Stdio.{itoa_decimal, flipped, write_digits}
use sudo_os.Usr.Stdio.Same.{flipped-digits, zero_text}

abbrev pub is_digit : ℕ → Bool
is_digit c = leb b'0' c && leb c b'9'

-- The loop; `res * 10 + str[i]` is computed before `'0'` is taken away.
unfoldable pub atoi_loop : ℕ → List ℕ → Option ℕ
atoi_loop res [] = some res
atoi_loop res (c ∷ s) =
    let next : ℕ = if is_digit c then res * 10 + c - b'0' else res in
    let rest = atoi_loop next s in if is_digit c && leb (2 ^ 31) (res * 10 + c) then none else rest

-- `sign * res`
abbrev pub negate : ℕ → ℤ
negate zero = pos zero
negate (suc n) = negsuc n

unfoldable pub atoi : List ℕ → Option ℤ
atoi [] = some (pos 0)
atoi (c ∷ s) =
    if c == b'-'
    then (elim (atoi_loop 0 s) [ none ↦ none | some res ↦ some (negate res) ])
    else (elim (atoi_loop 0 (c ∷ s)) [ none ↦ none | some res ↦ some (pos res) ])

abbrev AllDigits : List ℕ → Type 0
AllDigits [] = Unit
AllDigits (c ∷ s) = (is_digit c ≡ true) × AllDigits s

parse-ge : (s : List ℕ) (acc : ℕ) → acc ≤ parse 10 acc s
unfolding parse
parse-ge [] acc = omega arith
parse-ge (c ∷ s) acc = omega (arith, parse-ge s (acc * 10 + digit_value c))

atoi_loop-parse :
    (s : List ℕ) (acc : ℕ)
    → AllDigits s
    → parse 10 acc s + 48 < 2 ^ 31
    → atoi_loop acc s ≡ some (parse 10 acc s)
unfolding atoi_loop parse digit_value
atoi_loop-parse [] acc all small = refl
atoi_loop-parse (c ∷ s) acc (d, all) small =
    let value : digit_value c ≡ c - b'0' = ground arith in
    let grows = parse-ge s (acc * 10 + digit_value c) in
    let fits : leb (2 ^ 31) (acc * 10 + c) ≡ false = ground arith in
    let same : acc * 10 + c - b'0' ≡ acc * 10 + digit_value c = ground arith in
    rw (d, fits, same) (atoi_loop-parse s (acc * 10 + digit_value c) all small)

digit_row : ℕ → Bool
digit_row r = is_digit (get_or digits r 0)

digit_table : all_below 10 digit_row ≡ true
unfolding all_below digit_row
digit_table = refl

digit_loop-AllDigits : (fuel v : ℕ) → AllDigits (digit_loop fuel v 10)
unfolding digit_loop digit_row
digit_loop-AllDigits zero v = tt
digit_loop-AllDigits (suc fuel) v = elim (Bool-cases (v == 0)) [
  | inl z ↦ rw z tt
  | inr nz ↦ rw nz (
    all_below_sound 10 digit_row (v % 10) digit_table (omega arith),
    digit_loop-AllDigits fuel (v / 10),
  )
]

copy_back-AllDigits :
    (temp out : List ℕ) → AllDigits temp → AllDigits out → AllDigits (copy_back temp out)
unfolding copy_back
copy_back-AllDigits [] out all behind = behind
copy_back-AllDigits (c ∷ temp) out (d, all) behind =
    copy_back-AllDigits temp (c ∷ out) all (d, behind)

-- The text of a number other than 0.
abbrev decimal : ℕ → List ℕ
decimal n = copy_back (digit_loop 32 n 10) []

decimal-read : (n : ℕ) → n + 48 < 2 ^ 31 → atoi_loop 0 (decimal n) ≡ some n
decimal-read n small =
    let back = parse-decimal n (omega arith) in
    atoi_loop-parse (decimal n) 0
      (copy_back-AllDigits (digit_loop 32 n 10) [] (digit_loop-AllDigits 32 n) tt)
      (omega (arith, back))
    ∙ ap (λ k. some k) back

-- A text of digits has no sign.
atoi-digits : (s : List ℕ) (n : ℕ) → AllDigits s → atoi_loop 0 s ≡ some n → atoi s ≡ some (pos n)
unfolding atoi atoi_loop
atoi-digits [] n all e = ap (λ o. elim o [ none ↦ none | some k ↦ some (pos k) ]) e
atoi-digits (c ∷ s) n (d, all) e =
    let plain : (c == b'-') ≡ false = ground arith in rw (plain, e) refl

-- `atoi` reads back what the user library's `itoa` writes for an `int` in base 10, but for those within 48 of the
-- largest or the least.
pub atoi-itoa_decimal :
    (n : ℕ)
    → n + 49 < 2 ^ 31
    → ((t : List ℕ) × (itoa_decimal (pos n) ≡ some t) × (atoi t ≡ some (pos n)))
      × ((t : List ℕ) × (itoa_decimal (negsuc n) ≡ some t) × (atoi t ≡ some (negsuc n)))
unfolding itoa_decimal atoi atoi_loop
atoi-itoa_decimal n small = (
  (flipped (write_digits 32 n 10), refl, positive n small),
  (b'-' ∷ flipped (write_digits 32 (suc n) 10), written, negative),
)
  where
    positive : (n : ℕ) → n + 49 < 2 ^ 31 → atoi (flipped (write_digits 32 n 10)) ≡ some (pos n)
    positive zero small = rw zero_text refl
    positive (suc n) small = rw (flipped-digits (suc n) (omega arith)) (
        atoi-digits (decimal (suc n)) (suc n)
          (copy_back-AllDigits (digit_loop 32 (suc n) 10) [] (digit_loop-AllDigits 32 (suc n)) tt)
          (decimal-read (suc n) (omega arith)))

    written : itoa_decimal (negsuc n) ≡ some (b'-' ∷ flipped (write_digits 32 (suc n) 10))
    written = let fits : ltb n (2 ^ 31 - 1) ≡ true = ground arith in rw (fits, itoa_decimal) refl

    negative : atoi (b'-' ∷ flipped (write_digits 32 (suc n) 10)) ≡ some (negsuc n)
    negative = rw (flipped-digits (suc n) (omega arith), decimal-read (suc n) (omega arith)) refl
