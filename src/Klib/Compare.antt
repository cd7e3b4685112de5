-- ===== src/Klib/Compare.antt =====
-- What the comparing and copying routines of kernel/src/lib/string.c do to whole strings and buffers.
use sudo_os.Prelude.{
  ◌^◌, ◌<◌, ◌+◌, zero, suc, take, ltb, leb, if◌then◌else◌, length-replicate, ℕ, ◌≡◌, ◌↔◌, true,
  false, refl, ap, sym, ◌∙◌, arith, List, [], ◌∷◌, ◌++◌, ◌==◌, length, ◌%◌, replicate,
}
use native.Mathlib.Decide.{ℕ_discrete}
use sudo_os.Prelude.Int.{pos}
use sudo_os.Klib.{strncmp, strncmp_end, strncpy, TextOf, byte_diff, strcmp, memcpy, memset}

byte_diff_zero : (a b : ℕ) → byte_diff a b ≡ pos 0 → a ≡ b
byte_diff_zero a b e = ground arith

strcmp_self : (s : List ℕ) → strcmp s s ≡ pos 0
unfolding strcmp
strcmp_self [] = refl
strcmp_self (a ∷ s) = let hit : (a == a) ≡ true = ground arith in rw hit (strcmp_self s)

strcmp_zero : (s t : List ℕ) → TextOf s → TextOf t → strcmp s t ≡ pos 0 → s ≡ t
unfolding strcmp
strcmp_zero [] [] hs ht e = refl
strcmp_zero [] (b ∷ t) hs ht e =
    let z : 0 ≡ b = byte_diff_zero 0 b e in let nz = ht.0 in absurd (nz (omega arith))
strcmp_zero (a ∷ s) [] hs ht e = let z : a ≡ 0 = byte_diff_zero a 0 e in absurd (hs.0 z)
strcmp_zero (a ∷ s) (b ∷ t) hs ht e = elim (ℕ_discrete a b) [
  | yes q ↦
      let hit : (a == b) ≡ true = ground arith in
      let rest : s ≡ t = strcmp_zero s t hs.2 ht.2 (rw hit at e) in λ i. q i ∷ rest i
  | no ne ↦
      let miss : (a == b) ≡ false = ground arith in absurd (ne (byte_diff_zero a b (rw miss at e)))
]

-- `strcmp` gives 0 for two C strings exactly when they are the same.
pub strcmp-zero_iff : (s t : List ℕ) → TextOf s → TextOf t → (strcmp s t ≡ pos 0) ↔ (s ≡ t)
strcmp-zero_iff s t hs ht =
    (strcmp_zero s t hs ht, λ e. ap (λ u. strcmp s u) (sym e) ∙ strcmp_self s)

-- `memcpy` of a whole source over the start of a buffer that is at least as long leaves the source's
-- bytes and then the rest of the buffer.
pub memcpy-append :
    (dst rest src : List ℕ)
    → length dst ≡ length src
    → memcpy (dst ++ rest) src (length src) ≡ src ++ rest
unfolding memcpy
memcpy-append [] rest [] e = refl
memcpy-append [] rest (s ∷ src) e = absurd (omega arith)
memcpy-append (d ∷ dst) rest [] e = absurd (omega arith)
memcpy-append (d ∷ dst) rest (s ∷ src) e =
    ap (λ l. s ∷ l) (memcpy-append dst rest src (omega arith))

-- `memset` of the first bytes of a buffer fills them with the low byte of the value.
pub memset-append :
    (dst rest : List ℕ) (value : ℕ)
    → memset (dst ++ rest) value (length dst) ≡ replicate (length dst) (value % 256) ++ rest
unfolding memset
memset-append [] rest value = refl
memset-append (d ∷ dst) rest value = ap (λ l. value % 256 ∷ l) (memset-append dst rest value)

strncmp_self : (n : ℕ) (s t : List ℕ) → take n s ≡ take n t → strncmp s t n ≡ pos 0
unfolding strncmp
strncmp_self zero s t e = refl
strncmp_self (suc n) [] [] e = ground arith
strncmp_self (suc n) [] (b ∷ t) e = absurd (ground arith)
strncmp_self (suc n) (a ∷ s) [] e = absurd (ground arith)
strncmp_self (suc n) (a ∷ s) (b ∷ t) e =
    let q : a ≡ b = ground arith in
    let rest : take n s ≡ take n t = ground arith in
    let hit : (a == b) ≡ true = ground arith in rw hit (strncmp_self n s t rest)

strncmp_end_zero : (n a b : ℕ) → n < 2 ^ 31 → strncmp_end n a b ≡ pos 0 → a ≡ b
strncmp_end_zero n a b h e =
    let int : leb (2 ^ 31) (n % 2 ^ 32) ≡ false = ground arith in byte_diff_zero a b (rw int at e)

strncmp_zero :
    (n : ℕ) (s t : List ℕ)
    → TextOf s
    → TextOf t
    → n < 2 ^ 31
    → strncmp s t n ≡ pos 0
    → take n s ≡ take n t
unfolding strncmp
strncmp_zero zero s t hs ht h e = refl
strncmp_zero (suc n) [] [] hs ht h e = refl
strncmp_zero (suc n) [] (b ∷ t) hs ht h e =
    let z : 0 ≡ b = strncmp_end_zero n 0 b (omega arith) e in
    let nz = ht.0 in absurd (nz (omega arith))
strncmp_zero (suc n) (a ∷ s) [] hs ht h e =
    let z : a ≡ 0 = strncmp_end_zero n a 0 (omega arith) e in absurd (hs.0 z)
strncmp_zero (suc n) (a ∷ s) (b ∷ t) hs ht h e = elim (ℕ_discrete a b) [
  | yes q ↦
      let hit : (a == b) ≡ true = ground arith in
      let rest : take n s ≡ take n t = strncmp_zero n s t hs.2 ht.2 (omega arith) (rw hit at e) in
      λ i. q i ∷ rest i
  | no ne ↦
      let miss : (a == b) ≡ false = ground arith in
      absurd (ne (strncmp_end_zero n a b (omega arith) (rw miss at e)))
]

-- `strncmp` of two C strings with a limit that is an `int` gives 0 exactly when they agree up to the
-- limit.
strncmp-zero_iff :
    (n : ℕ) (s t : List ℕ)
    → TextOf s
    → TextOf t
    → n < 2 ^ 31
    → (strncmp s t n ≡ pos 0) ↔ (take n s ≡ take n t)
strncmp-zero_iff n s t hs ht h = (strncmp_zero n s t hs ht h, strncmp_self n s t)

-- `strncpy` writes `n` bytes if the source is at least that long, and else one byte more than `n`: the
-- source, its 0, and as many further 0 as if that 0 had not been written.
length-strncpy :
    (src : List ℕ) (n : ℕ) → length (strncpy src n) ≡ (if ltb (length src) n then n + 1 else n)
unfolding strncpy
length-strncpy src zero = ground arith
length-strncpy [] (suc n) = let len = length-replicate {A = ℕ} (suc n) 0 in ground arith
length-strncpy (c ∷ src) (suc n) = ground (arith, length-strncpy src n)
