-- ===== src/Drivers/Console/Typed.antt =====
-- Formats and their arguments for `kprintf` of kernel/src/drivers/console.c, and numbers in base 16.
use mathlib.Core.Option.{some-injective}
use sudo_os.Prelude.{
  ℕ, zero, suc, ◌-◌, ltb, ◌/◌, ◌^◌, ◌<◌, ◌≡◌, refl, arith, true, ◌||◌, Option, none, some, List, [],
  ◌∷◌, ◌++◌, ◌==◌, if◌then◌else◌, Bool-cases, Option-cases, subst, sym, inl, inr,
}
use sudo_os.Prelude.Int.{ℤ, pos, negsuc}
use sudo_os.Klib.{itoa, itoa_uint64, digit_loop, copy_back}
use sudo_os.Drivers.Console.{Console, kprint}
use sudo_os.Drivers.Console.History.{IsValid, kprint-IsValid}
use sudo_os.Drivers.Console.Format.{
  Arg, int, word, text, int_text, uint64_text, hex_text, Mode, plain, directive, long_directive,
  convert, convert_long, format_text, kprintf, with_text, as_int, as_word, as_text, char_of,
}

digit_loop-enough :
    (n m value : ℕ)
    → value < 16 ^ n
    → value < 16 ^ m
    → digit_loop n value 16 ≡ digit_loop m value 16
unfolding digit_loop
digit_loop-enough zero zero value h g = refl
digit_loop-enough zero (suc m) value h g = let z : (value == 0) ≡ true = ground arith in rw z
digit_loop-enough (suc n) zero value h g = let z : (value == 0) ≡ true = ground arith in rw z
digit_loop-enough (suc n) (suc m) value h g =
    rw (digit_loop-enough n m (value / 16) (omega arith) (omega arith))

-- `kprint_hex` prints the text that `itoa_uint64` writes in base 16, for every 64-bit value.
pub hex_text-itoa_uint64 : (n : ℕ) → n < 2 ^ 64 → hex_text n ≡ itoa_uint64 n 16
unfolding hex_text itoa_uint64
hex_text-itoa_uint64 n h = rw (digit_loop-enough 16 64 n (omega arith) (omega arith))

-- What an argument has to be; `a_number` is an `int` that `itoa` can negate.
pub data Kind : Type 0 where
  an_int a_number a_word a_text : Kind

-- The argument that a character behind `%` asks for, if any, and the one behind `%l`.
abbrev pub kind_of : ℕ → List Kind
kind_of p =
    if p == b'd' || p == b'i' || p == b'u'
    then a_number ∷ []
    else (if p == b'c'
        then an_int ∷ []
        else (if p == b's'
            then a_text ∷ []
            else (if p == b'x' then a_word ∷ [] else (if p == b'p' then a_word ∷ [] else []))))

abbrev pub long_kind_of : ℕ → List Kind
long_kind_of p =
    if p == b'u' || p == b'd' then a_word ∷ [] else (if p == b'x' then a_word ∷ [] else [])

-- The arguments that a format asks for; `none` if it ends within a directive.
unfoldable pub asks : Mode → List ℕ → Option (List Kind)
asks plain [] = some []
asks directive [] = none
asks long_directive [] = none
asks plain (p ∷ format) = if p == b'%' then asks directive format else asks plain format
asks directive (p ∷ format) =
    if p == b'l'
    then asks long_directive format
    else elim (asks plain format) [ none ↦ none | some ks ↦ some (kind_of p ++ ks) ]
asks long_directive (p ∷ format) = elim (asks plain format) [
  | none ↦ none
  | some ks ↦ some (long_kind_of p ++ ks)
]

-- Every `int` but the least, whose negation overflows.
abbrev pub Negatable : ℤ → Type 0
Negatable (pos n) = Unit
Negatable (negsuc n) = n < 2 ^ 31 - 1

-- The arguments are of these kinds, in order; there may be more of them.
abbrev pub Fit : List Kind → List Arg → Type 0
Fit [] args = Unit
Fit (k ∷ ks) [] = ⊥
Fit (an_int ∷ ks) (int v ∷ args) = Fit ks args
Fit (an_int ∷ ks) (word n ∷ args) = ⊥
Fit (an_int ∷ ks) (text t ∷ args) = ⊥
Fit (a_number ∷ ks) (int v ∷ args) = Negatable v × Fit ks args
Fit (a_number ∷ ks) (word n ∷ args) = ⊥
Fit (a_number ∷ ks) (text t ∷ args) = ⊥
Fit (a_word ∷ ks) (word n ∷ args) = Fit ks args
Fit (a_word ∷ ks) (int n ∷ args) = ⊥
Fit (a_word ∷ ks) (text t ∷ args) = ⊥
Fit (a_text ∷ ks) (text t ∷ args) = Fit ks args
Fit (a_text ∷ ks) (int n ∷ args) = ⊥
Fit (a_text ∷ ks) (word t ∷ args) = ⊥

-- A conversion that succeeds, with arguments left that fit the rest.
abbrev Converts : Option (List ℕ × List Arg) → List Kind → Type 0
Converts o ks = (t : List ℕ) × (args' : List Arg) × (o ≡ some (t, args')) × Fit ks args'

int_text-some : (v : ℤ) → Negatable v → (t : List ℕ) × (int_text v ≡ some t)
unfolding itoa
int_text-some (pos n) h = elim (Bool-cases (n == 0)) [
  | inl z ↦ (b'0' ∷ [], rw z refl)
  | inr nz ↦ (copy_back (digit_loop 32 n 10) [], rw nz refl)
]
int_text-some (negsuc n) h =
    let fits : ltb n (2 ^ 31 - 1) ≡ true = ground arith in
    (copy_back (digit_loop 32 (suc n) 10 ++ b'-' ∷ []) [], rw fits refl)

as_int-Converts :
    (f : ℤ → Option (List ℕ)) (ks : List Kind) (args : List Arg)
    → ((v : ℤ) → (t : List ℕ) × (f v ≡ some t))
    → Fit (an_int ∷ ks) args
    → Converts (as_int args f) ks
as_int-Converts f ks [] total h = absurd h
as_int-Converts f ks (int v ∷ args) total h =
    let (t, e) = total v in (t, args, rw (e, as_int) refl, h)
as_int-Converts f ks (word n ∷ args) total h = absurd h
as_int-Converts f ks (text t ∷ args) total h = absurd h

as_number-Converts :
    (ks : List Kind) (args : List Arg)
    → Fit (a_number ∷ ks) args
    → Converts (as_int args int_text) ks
as_number-Converts ks [] h = absurd h
as_number-Converts ks (int v ∷ args) (ok, h) =
    let (t, e) = int_text-some v ok in (t, args, rw (e, as_int) refl, h)
as_number-Converts ks (word n ∷ args) h = absurd h
as_number-Converts ks (text t ∷ args) h = absurd h

as_word-Converts :
    (f : ℕ → List ℕ) (ks : List Kind) (args : List Arg)
    → Fit (a_word ∷ ks) args
    → Converts (as_word args f) ks
as_word-Converts f ks [] h = absurd h
as_word-Converts f ks (int v ∷ args) h = absurd h
as_word-Converts f ks (word n ∷ args) h = (f n, args, refl, h)
as_word-Converts f ks (text t ∷ args) h = absurd h

as_text-Converts :
    (ks : List Kind) (args : List Arg) → Fit (a_text ∷ ks) args → Converts (as_text args) ks
as_text-Converts ks [] h = absurd h
as_text-Converts ks (int v ∷ args) h = absurd h
as_text-Converts ks (word n ∷ args) h = absurd h
as_text-Converts ks (text none ∷ args) h = (_, args, refl, h)
as_text-Converts ks (text (some t) ∷ args) h = (t, args, refl, h)

convert-Converts :
    (p : ℕ) (ks : List Kind) (args : List Arg)
    → Fit (kind_of p ++ ks) args
    → Converts (convert p args) ks
unfolding convert
convert-Converts p ks args h = elim (Bool-cases (p == b'd' || p == b'i' || p == b'u')) [
  | inl e1 ↦ rw e1 (as_number-Converts ks args (rw e1 at h))
  | inr e1 ↦ elim (Bool-cases (p == b'c')) [
    | inl e2 ↦
        rw (e1, e2)
          (as_int-Converts (λ v. some (char_of v ∷ [])) ks args (λ v. (_, refl)) (rw (e1, e2) at h))
    | inr e2 ↦ elim (Bool-cases (p == b's')) [
      | inl e3 ↦ rw (e1, e2, e3) (as_text-Converts ks args (rw (e1, e2, e3) at h))
      | inr e3 ↦ elim (Bool-cases (p == b'x')) [
        | inl e4 ↦
            rw (e1, e2, e3, e4) (as_word-Converts hex_text ks args (rw (e1, e2, e3, e4) at h))
        | inr e4 ↦ elim (Bool-cases (p == b'p')) [
          | inl e5 ↦
              rw (e1, e2, e3, e4, e5)
                (as_word-Converts (λ n. b'0' ∷ b'x' ∷ hex_text n) ks args
                  (rw (e1, e2, e3, e4, e5) at h))
          | inr e5 ↦ elim (Bool-cases (p == b'%')) [
            | inl e6 ↦ rw (e1, e2, e3, e4, e5, e6) (_, args, refl, rw (e1, e2, e3, e4, e5) at h)
            | inr e6 ↦ rw (e1, e2, e3, e4, e5, e6) (_, args, refl, rw (e1, e2, e3, e4, e5) at h)
          ]
        ]
      ]
    ]
  ]
]

convert_long-Converts :
    (p : ℕ) (ks : List Kind) (args : List Arg)
    → Fit (long_kind_of p ++ ks) args
    → Converts (convert_long p args) ks
unfolding convert_long
convert_long-Converts p ks args h = elim (Bool-cases (p == b'u' || p == b'd')) [
  | inl e1 ↦ rw e1 (as_word-Converts uint64_text ks args (rw e1 at h))
  | inr e1 ↦ elim (Bool-cases (p == b'x')) [
    | inl e2 ↦ rw (e1, e2) (as_word-Converts hex_text ks args (rw (e1, e2) at h))
    | inr e2 ↦ rw (e1, e2) (_, args, refl, rw (e1, e2) at h)
  ]
]

-- What follows a conversion that succeeds.
with_text-some :
    {o : Option (List ℕ × List Arg)} (ks : List Kind) (go : List Arg → Option (List ℕ))
    → Converts o ks
    → ((args : List Arg) → Fit ks args → (t : List ℕ) × (go args ≡ some t))
    → (t : List ℕ) × (with_text o go ≡ some t)
with_text-some ks go (t, args, e, h) rest =
    let (u, f) = rest args h in (t ++ u, rw (e, with_text) (rw f refl))

pub format_text-some :
    (mode : Mode) (format : List ℕ) (ks : List Kind) (args : List Arg)
    → asks mode format ≡ some ks
    → Fit ks args
    → (t : List ℕ) × (format_text mode format args ≡ some t)
unfolding format_text asks
format_text-some plain [] ks args e h = ([], refl)
format_text-some directive [] ks args e h = ground arith
format_text-some long_directive [] ks args e h = ground arith
format_text-some plain (p ∷ format) ks args e h = elim (Bool-cases (p == b'%')) [
  | inl d ↦ rw d (format_text-some directive format ks args (rw d at e) h)
  | inr d ↦ rw d (
      with_text-some ks (format_text plain format) (p ∷ [], args, refl, h)
        λ args' h'. format_text-some plain format ks args' (rw d at e) h')
]
format_text-some directive (p ∷ format) ks args e h = elim (Bool-cases (p == b'l')) [
  | inl l ↦ rw l (format_text-some long_directive format ks args (rw l at e) h)
  | inr l ↦ elim (Option-cases (asks plain format)) [
    | inl f ↦ let bad : Path (Option (List Kind)) none (some ks) = rw (l, f) at e in ground arith
    | inr (rest, f) ↦
        let same : Path (Option (List Kind)) (some (kind_of p ++ rest)) (some ks) =
          rw (l, f) at e in
        let c =
          convert-Converts p rest args
            (subst (λ k. Fit k args) (sym (some-injective _ _ same)) h) in
        rw l (
          with_text-some rest (format_text plain format) c
            λ args' h'. format_text-some plain format rest args' f h')
  ]
]
format_text-some long_directive (p ∷ format) ks args e h = elim (Option-cases (asks plain format)) [
  | inl f ↦ let bad : Path (Option (List Kind)) none (some ks) = rw f at e in ground arith
  | inr (rest, f) ↦
      let same : Path (Option (List Kind)) (some (long_kind_of p ++ rest)) (some ks) = rw f at e in
      let c =
        convert_long-Converts p rest args
          (subst (λ k. Fit k args) (sym (some-injective _ _ same)) h) in
      with_text-some rest (format_text plain format) c
        λ args' h'. format_text-some plain format rest args' f h'
]

-- With arguments of the kinds that the format asks for, in order, `kprintf` prints: no directive finds
-- its argument missing or of another type, and a valid console stays valid. The arguments of `%d`, `%i`
-- and `%u` are any `int` but the least.
pub kprintf-IsValid :
    (c : Console) (format : List ℕ) (ks : List Kind) (args : List Arg)
    → asks plain format ≡ some ks
    → Fit ks args
    → IsValid c
    → (c' : Console) × (kprintf c format args ≡ some c') × IsValid c'
unfolding kprintf
kprintf-IsValid c format ks args e h v =
    let (t, f) = format_text-some plain format ks args e h in
    (kprint c t, rw (f, kprintf) refl, kprint-IsValid t v)
