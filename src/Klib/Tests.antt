-- ===== src/Klib/Tests.antt =====
-- Concrete runs of kernel/src/lib/string.c.
use sudo_os.Prelude.{ℕ, ◌≡◌, ◌⊎◌, arith, none, some, List, [], ◌∷◌}
use sudo_os.Klib.{TextOf, strtok_r, itoa_uint64}
use sudo_os.Klib.Tokens.{AllDelims, FirstToken, strtok_r-FirstToken}
use sudo_os.Klib.Digits.{parse, parse-itoa_uint64}

abbrev usr : List ℕ
usr = b'u' ∷ b's' ∷ b'r' ∷ []

usr-TextOf : TextOf usr
usr-TextOf = (
  (λ e. absurd (omega arith)),
  omega arith,
  ((λ e. absurd (omega arith)), omega arith, ((λ e. absurd (omega arith)), omega arith, tt)),
)

-- `//usr/lib`
abbrev path : List ℕ
path = b'/' ∷ b'/' ∷ b'u' ∷ b's' ∷ b'r' ∷ b'/' ∷ b'l' ∷ b'i' ∷ b'b' ∷ []

strtok_r-FirstToken_example :
    let (t, rest) = strtok_r (b'/' ∷ []) path in
    (AllDelims (b'/' ∷ []) path × (t ≡ none) × (rest ≡ []))
    ⊎ ((token : List ℕ) × (t ≡ some token) × FirstToken (b'/' ∷ []) path token rest)
strtok_r-FirstToken_example = strtok_r-FirstToken (b'/' ∷ []) path

parse-itoa_uint64_example : parse 16 0 (itoa_uint64 48879 16) ≡ 48879
parse-itoa_uint64_example = parse-itoa_uint64 48879 16 (omega arith) (omega arith) (omega arith)
