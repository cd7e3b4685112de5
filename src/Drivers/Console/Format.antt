-- ===== src/Drivers/Console/Format.antt =====
-- `kprintf` of kernel/src/drivers/console.c and the functions that it prints numbers with. The arguments
-- are a list; `none` stands for what C leaves undefined: an argument that is missing or of another type,
-- a format that ends within a directive, and what `itoa` leaves undefined.
use sudo_os.Prelude.{
  ℕ, ◌-◌, ◌%◌, ◌||◌, Option, none, some, List, [], ◌∷◌, ◌++◌, ◌==◌, if◌then◌else◌,
}
use sudo_os.Prelude.Int.{ℤ, pos, negsuc}
use sudo_os.Klib.{itoa, itoa_uint64, digit_loop, copy_back}
use sudo_os.Drivers.Console.{Console, kprint}

-- An argument: an `int`, a 64-bit word, a string or NULL.
pub data Arg : Type 0 where
  int : ℤ → Arg
  word : ℕ → Arg
  text : Option (List ℕ) → Arg

-- `kprint_int`, `kprint_uint64` and `kprint_hex`: the text that they print.
abbrev pub int_text : ℤ → Option (List ℕ)
int_text val = itoa val 10

abbrev pub uint64_text : ℕ → List ℕ
uint64_text val = itoa_uint64 val 10

unfoldable pub hex_text : ℕ → List ℕ
hex_text n = if n == 0 then b'0' ∷ [] else copy_back (digit_loop 16 n 16) []

abbrev pub kprint_hex : Console → ℕ → Console
kprint_hex c n = kprint c (hex_text n)

-- `(char)val`
abbrev pub char_of : ℤ → ℕ
char_of (pos n) = n % 256
char_of (negsuc n) = 255 - n % 256

-- `(null)`
abbrev pub null_text : List ℕ
null_text = b'(' ∷ b'n' ∷ b'u' ∷ b'l' ∷ b'l' ∷ b')' ∷ []

abbrev pub as_int : List Arg → (ℤ → Option (List ℕ)) → Option (List ℕ × List Arg)
as_int (int v ∷ args) f = elim (f v) [ none ↦ none | some t ↦ some (t, args) ]
as_int (word n ∷ args) f = none
as_int (text t ∷ args) f = none
as_int [] f = none

abbrev pub as_word : List Arg → (ℕ → List ℕ) → Option (List ℕ × List Arg)
as_word (int v ∷ args) f = none
as_word (word n ∷ args) f = some (f n, args)
as_word (text t ∷ args) f = none
as_word [] f = none

abbrev pub as_text : List Arg → Option (List ℕ × List Arg)
as_text (int v ∷ args) = none
as_text (word n ∷ args) = none
as_text (text none ∷ args) = some (null_text, args)
as_text (text (some t) ∷ args) = some (t, args)
as_text [] = none

-- The `switch` on the character behind `%`, all but `l`: the text, and the arguments that are left.
unfoldable pub convert : ℕ → List Arg → Option (List ℕ × List Arg)
convert p args =
    if p == b'd' || p == b'i' || p == b'u'
    then as_int args int_text
    else (if p == b'c'
        then as_int args (λ v. some (char_of v ∷ []))
        else (if p == b's'
            then as_text args
            else (if p == b'x'
                then as_word args hex_text
                else (if p == b'p'
                    then as_word args (λ n. b'0' ∷ b'x' ∷ hex_text n)
                    else (if p == b'%'
                        then some (b'%' ∷ [], args)
                        else some (b'%' ∷ p ∷ [], args))))))

-- The character behind `%l`.
unfoldable pub convert_long : ℕ → List Arg → Option (List ℕ × List Arg)
convert_long p args =
    if p == b'u' || p == b'd'
    then as_word args uint64_text
    else (if p == b'x' then as_word args hex_text else some ([], args))

-- Where the loop stands: in plain text, behind `%`, behind `%l`.
pub data Mode : Type 0 where
  plain directive long_directive : Mode

abbrev pub with_text : Option (List ℕ × List Arg) → (List Arg → Option (List ℕ)) → Option (List ℕ)
with_text none go = none
with_text (some (t, args)) go = elim (go args) [ none ↦ none | some rest ↦ some (t ++ rest) ]

-- The text that the loop of `kprintf` prints.
unfoldable pub format_text : Mode → List ℕ → List Arg → Option (List ℕ)
format_text plain [] args = some []
format_text directive [] args = none
format_text long_directive [] args = none
format_text plain (p ∷ format) args =
    if p == b'%'
    then format_text directive format args
    else with_text (some (p ∷ [], args)) (format_text plain format)
format_text directive (p ∷ format) args =
    if p == b'l'
    then format_text long_directive format args
    else with_text (convert p args) (format_text plain format)
format_text long_directive (p ∷ format) args =
    with_text (convert_long p args) (format_text plain format)

unfoldable pub kprintf : Console → List ℕ → List Arg → Option Console
kprintf c format args = elim (format_text plain format args) [
  | none ↦ none
  | some t ↦ some (kprint c t)
]
