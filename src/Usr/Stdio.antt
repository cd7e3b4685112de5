-- ===== src/Usr/Stdio.antt =====
-- `itoa`, `puts` and `printf` of usr/lib/stdio.c: the bytes that they write to descriptor 1. `none` stands for
-- what C leaves undefined: an argument that is missing or of another type, the least `int` for `%d`, and a format that ends behind
-- `%`.
pub mod Flip
pub mod Same
use sudo_os.Prelude.{
  ℕ, zero, suc, ◌+◌, ◌-◌, ◌/◌, ◌%◌, ◌^◌, Option, none, some, List, [], ◌∷◌, ◌++◌, ◌==◌, ltb,
  if◌then◌else◌, length, get_or, set,
}
use sudo_os.Prelude.Int.{ℤ, pos, negsuc}
use sudo_os.Drivers.Console.Format.{Arg, int, word, text, as_int, as_text, with_text, char_of}

-- A remainder as a digit.
abbrev pub digit_char : ℕ → ℕ
digit_char r = if ltb r 10 then r + b'0' else r + b'a' - 10

-- The loop that writes the digits, the last one first; a number of 64 bits has at most 20 of them.
unfoldable pub write_digits : ℕ → ℕ → ℕ → List ℕ
write_digits zero ud divisor = []
write_digits (suc fuel) ud divisor =
    let rest = write_digits fuel (ud / divisor) divisor in
    digit_char (ud % divisor) ∷ (if ud / divisor == 0 then [] else rest)

-- `tmp = *p1; *p1 = *p2; *p2 = tmp`
abbrev pub swap : List ℕ → ℕ → ℕ → List ℕ
swap buf i j = set (set buf i (get_or buf j 0)) j (get_or buf i 0)

-- The loop that turns the digits round in the buffer.
unfoldable pub flip : ℕ → List ℕ → ℕ → ℕ → List ℕ
flip zero buf p1 p2 = buf
flip (suc fuel) buf p1 p2 =
    let rest = flip fuel (swap buf p1 p2) (p1 + 1) (p2 - 1) in if ltb p1 p2 then rest else buf

abbrev pub flipped : List ℕ → List ℕ
flipped buf = flip (length buf) buf 0 (length buf - 1)

-- `itoa` in base 10; `none` where the negation of the least `int` overflows.
unfoldable pub itoa_decimal : ℤ → Option (List ℕ)
itoa_decimal (pos n) = some (flipped (write_digits 32 n 10))
itoa_decimal (negsuc n) =
    if ltb n (2 ^ 31 - 1) then some (b'-' ∷ flipped (write_digits 32 (suc n) 10)) else none

-- `itoa` in base 16, where a negative value becomes an `unsigned long`.
unfoldable pub itoa_hex : ℤ → List ℕ
itoa_hex (pos n) = flipped (write_digits 32 n 16)
itoa_hex (negsuc n) = flipped (write_digits 32 (2 ^ 64 - suc n) 16)

-- The `switch` on the character behind `%`.
unfoldable pub convert : ℕ → List Arg → Option (List ℕ × List Arg)
convert p args =
    if p == b'c'
    then as_int args (λ v. some (char_of v ∷ []))
    else (if p == b's'
        then as_text args
        else (if p == b'd'
            then as_int args itoa_decimal
            else (if p == b'x'
                then as_int args (λ v. some (itoa_hex v))
                else some (b'%' ∷ p ∷ [], args))))

-- The loop of `printf`; a string prints up to its end.
unfoldable pub printf : List ℕ → List Arg → Option (List ℕ)
printf [] args = some []
printf (c ∷ []) args = if c == b'%' then none else some (c ∷ [])
printf (c ∷ p ∷ format) args =
    let plain = with_text (some (c ∷ [], args)) (printf (p ∷ format)) in
    let directive = with_text (convert p args) (printf format) in
    if c == b'%' then directive else plain

unfoldable pub puts : List ℕ → List ℕ
puts s = s ++ b'\n' ∷ []
