-- ===== src/Usr/Stdio/Same.antt =====
-- `printf` of usr/lib/stdio.c against `kprintf` of kernel/src/drivers/console.c.
use sudo_os.Prelude.{
  ltb, ◌-◌, ◌^◌, ℕ, zero, suc, ◌/◌, ◌%◌, ◌<◌, ◌≡◌, ◌≢◌, ◌∙◌, refl, sym, ap, arith, Bool, true,
  false, ◌||◌, Option, none, some, List, [], ◌∷◌, ◌==◌, get_or, Bool-cases, inl, inr,
}
use sudo_os.Prelude.Bits.{all_below, all_below_sound}
use sudo_os.Prelude.Int.{ℤ, pos, negsuc}
use sudo_os.Klib.{itoa, digits, digit_loop, copy_back}
use sudo_os.Klib.Digits.{copy_back-append}
use sudo_os.Drivers.Console.Format.{
  Arg, int, word, text, int_text, Mode, plain, directive, format_text, with_text, as_int, as_text,
  char_of,
}
use sudo_os.Drivers.Console.Format.{convert as kernel_convert}
use sudo_os.Usr.Stdio.{digit_char, write_digits, flipped, itoa_decimal, itoa_hex, convert, printf}
use sudo_os.Usr.Stdio.Flip.{flipped-copy_back}

same_digit : ℕ → Bool
same_digit r = digit_char r == get_or digits r 0

same_digits : all_below 10 same_digit ≡ true
unfolding all_below same_digit
same_digits = refl

digit_char-digits : (r : ℕ) → r < 10 → digit_char r ≡ get_or digits r 0
unfolding same_digit
digit_char-digits r lt = let row = all_below_sound 10 same_digit r same_digits lt in ground arith

-- The two loops write the same digits of a number other than 0.
write_digits-digit_loop : (fuel v : ℕ) → v ≢ 0 → write_digits fuel v 10 ≡ digit_loop fuel v 10
unfolding write_digits digit_loop
write_digits-digit_loop zero v ne = refl
write_digits-digit_loop (suc fuel) v ne =
    let more : (v == 0) ≡ false = ground arith in
    elim (Bool-cases (v / 10 == 0)) [
      | inl stop ↦
          let e : v / 10 ≡ 0 = ground arith in
          rw (more, stop, digit_char-digits (v % 10) (omega arith), e)
            (ap (λ l. get_or digits (v % 10) 0 ∷ l) (sym (digit_loop-zero fuel)))
      | inr on ↦
          rw (more, on, digit_char-digits (v % 10) (omega arith))
            (ap (λ l. get_or digits (v % 10) 0 ∷ l)
              (write_digits-digit_loop fuel (v / 10) (ground arith)))
    ]
  where
    digit_loop-zero : (n : ℕ) → digit_loop n 0 10 ≡ []
    digit_loop-zero zero = refl
    digit_loop-zero (suc n) = refl

-- The text of a number other than 0.
pub flipped-digits :
    (v : ℕ) → v ≢ 0 → flipped (write_digits 32 v 10) ≡ copy_back (digit_loop 32 v 10) []
flipped-digits v ne =
    flipped-copy_back (write_digits 32 v 10)
    ∙ ap (λ l. copy_back l []) (write_digits-digit_loop 32 v ne)

pub zero_text : flipped (write_digits 32 0 10) ≡ b'0' ∷ []
unfolding write_digits sudo_os.Usr.Stdio.flip
zero_text = refl

-- The `itoa` of the user library writes in base 10 what that of the kernel writes.
pub itoa_decimal-itoa : (v : ℤ) → itoa v 10 ≡ itoa_decimal v
unfolding itoa itoa_decimal
itoa_decimal-itoa (pos zero) = ap (λ l. some l) (sym zero_text)
itoa_decimal-itoa (pos (suc n)) =
    let ne : (suc n == 0) ≡ false = ground arith in
    rw ne (ap (λ l. some l) (sym (flipped-digits (suc n) (omega arith))))
itoa_decimal-itoa (negsuc n) = elim (Bool-cases (ltb n (2 ^ 31 - 1))) [
  | inl e ↦ rw e (
      ap (λ l. some l)
        (copy_back-append (digit_loop 32 (suc n) 10) [] b'-'
          ∙ ap (λ l. b'-' ∷ l) (sym (flipped-digits (suc n) (omega arith)))))
  | inr e ↦ rw e refl
]

as_int-same : (args : List Arg) → as_int args int_text ≡ as_int args itoa_decimal
as_int-same [] = refl
as_int-same (int v ∷ args) = rw (itoa_decimal-itoa v, as_int) refl
as_int-same (word n ∷ args) = refl
as_int-same (text t ∷ args) = refl

-- The characters that only `kprintf` knows behind `%`, and `x`, whose argument and digits differ.
abbrev pub is_other : ℕ → Bool
is_other p = p == b'i' || p == b'u' || p == b'x' || p == b'p' || p == b'l' || p == b'%'

convert-same :
    (p : ℕ) (args : List Arg) → is_other p ≡ false → convert p args ≡ kernel_convert p args
unfolding convert sudo_os.Drivers.Console.Format.convert
convert-same p args h = elim (Bool-cases (p == b'd')) [
  | inl d ↦ let at : p ≡ b'd' = ground arith in rw at (sym (as_int-same args))
  | inr nd ↦ elim (Bool-cases (p == b'c')) [
    | inl c ↦ let at : p ≡ b'c' = ground arith in rw at refl
    | inr nc ↦ elim (Bool-cases (p == b's')) [
      | inl s ↦ let at : p ≡ b's' = ground arith in rw at refl
      | inr ns ↦ ground arith
    ]
  ]
]

with_text-same :
    (o : Option (List ℕ × List Arg)) (f g : List Arg → Option (List ℕ))
    → ((args : List Arg) → f args ≡ g args)
    → with_text o f ≡ with_text o g
with_text-same none f g h = refl
with_text-same (some (t, args)) f g h = rw (h args, with_text) refl

-- A format that does not end behind `%` and has none of those characters behind `%`.
pub data Shared : List ℕ → Type 0 where
  ended : Shared []
  plain_char : (c : ℕ) (format : List ℕ) → c ≢ b'%' → Shared format → Shared (c ∷ format)
  converted :
      (c p : ℕ) (format : List ℕ)
      → c ≡ b'%'
      → is_other p ≡ false
      → Shared format
      → Shared (c ∷ p ∷ format)

-- For a format that does not end behind `%` and in which none of the characters `i u x p l %` stands behind
-- `%`, `printf` of the user library writes what `kprintf` of the kernel prints, and is undefined for the same arguments.
pub printf-kprintf :
    {format : List ℕ}
    → Shared format
    → (args : List Arg) → printf format args ≡ format_text plain format args
unfolding printf format_text
printf-kprintf ended args = refl
printf-kprintf (plain_char c [] ne s) args = let e : (c == b'%') ≡ false = ground arith in rw e
printf-kprintf (plain_char c (p ∷ format) ne s) args =
    let e : (c == b'%') ≡ false = ground arith in
    rw e (
      with_text-same (some (c ∷ [], args)) (printf (p ∷ format)) (format_text plain (p ∷ format))
        (printf-kprintf s))
printf-kprintf (converted c p format e h s) args =
    let at : (c == b'%') ≡ true = ground arith in
    let short : (p == b'l') ≡ false = ground arith in
    rw (at, short, convert-same p args h)
      (with_text-same (kernel_convert p args) (printf format) (format_text plain format)
        (printf-kprintf s))
