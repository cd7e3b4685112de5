-- ===== src/Usr/Strtok.antt =====
-- `strtok` of usr/lib/string.c. The argument and `strtok_backup` are `none` for NULL, otherwise the string from there
-- on.
use sudo_os.Prelude.{
  ℕ, zero, suc, ◌≡◌, inl, inr, refl, ap, Option, none, some, List, [], ◌∷◌, ◌++◌, if◌then◌else◌,
  take, Bool-cases,
}
use sudo_os.Klib.{is_delim, skip_delims}
use sudo_os.Klib.Tokens.{skip_delims-head}

-- Part 2: the token up to the next delimiter, and what stands behind that.
unfoldable pub scan : List ℕ → List ℕ → List ℕ × Option (List ℕ)
scan delim [] = ([], none)
scan delim (c ∷ s) =
    let (token, rest) = scan delim s in if is_delim c delim then ([], some s) else (c ∷ token, rest)

unfoldable pub strtok_from : List ℕ → List ℕ → Option (List ℕ) × Option (List ℕ)
strtok_from delim str = elim (skip_delims delim str) [
  | [] ↦ (none, none)
  | c ∷ s ↦ let (token, rest) = scan delim (c ∷ s) in (some token, rest)
]

-- The token, and the new `strtok_backup`.
unfoldable pub strtok :
    Option (List ℕ) → List ℕ → Option (List ℕ) → Option (List ℕ) × Option (List ℕ)
strtok (some str) delim backup = strtok_from delim str
strtok none delim none = (none, none)
strtok none delim (some str) = strtok_from delim str

-- The loop of the shell that collects tokens, from the token that it has, with room for so many.
unfoldable pub collect : ℕ → List ℕ → Option (List ℕ) × Option (List ℕ) → List (List ℕ)
collect zero delim r = []
collect (suc room) delim (none, backup) = []
collect (suc room) delim (some token, backup) =
    token ∷ collect room delim (strtok none delim backup)

-- The maximal runs of bytes that are no delimiters, one after the other, where `cur` stands in front of the text.
abbrev pub flush : List ℕ → List (List ℕ)
flush [] = []
flush (c ∷ cur) = (c ∷ cur) ∷ []

abbrev pub words : List ℕ → List ℕ → List ℕ → List (List ℕ)
words delim cur [] = flush cur
words delim cur (c ∷ s) =
    if is_delim c delim then flush cur ++ words delim [] s else words delim (cur ++ c ∷ []) s

skip_delims-words : (delim s : List ℕ) → words delim [] (skip_delims delim s) ≡ words delim [] s
unfolding skip_delims
skip_delims-words delim [] = refl
skip_delims-words delim (c ∷ s) = elim (Bool-cases (is_delim c delim)) [
  | inl d ↦ rw d (skip_delims-words delim s)
  | inr n ↦
      let same : skip_delims delim (c ∷ s) ≡ c ∷ s = rw n refl in ap (λ l. words delim [] l) same
]

-- The words behind a token.
abbrev behind : List ℕ → Option (List ℕ) → List (List ℕ)
behind delim none = []
behind delim (some s) = words delim [] s

++-nil : {A : Type 0} (l : List A) → l ++ [] ≡ l
++-nil [] = refl
++-nil (c ∷ l) = ap (λ k. c ∷ k) (++-nil l)

++-one : (l m : List ℕ) (c : ℕ) → (l ++ c ∷ []) ++ m ≡ l ++ c ∷ m
++-one [] m c = refl
++-one (b ∷ l) m c = ap (λ k. b ∷ k) (++-one l m c)

scan-words :
    (delim s cur : List ℕ)
    → words delim cur s ≡ flush (cur ++ (scan delim s).0) ++ behind delim (scan delim s).1
unfolding scan
scan-words delim [] cur = rw (++-nil cur, ++-nil (flush cur)) refl
scan-words delim (c ∷ s) cur = elim (Bool-cases (is_delim c delim)) [
  | inl d ↦ rw (d, ++-nil cur) refl
  | inr n ↦ rw (n, scan-words delim s (cur ++ c ∷ []), ++-one cur (scan delim s).0 c) refl
]

collect-behind :
    (room : ℕ) (delim : List ℕ) (backup : Option (List ℕ))
    → ((s : List ℕ) → collect room delim (strtok_from delim s) ≡ take room (words delim [] s))
    → collect room delim (strtok none delim backup) ≡ take room (behind delim backup)
unfolding strtok collect
collect-behind zero delim none rec = refl
collect-behind (suc room) delim none rec = refl
collect-behind room delim (some s) rec = rec s

-- What the loop collects from a text, from its first token on, are the first words of the text, as many as there
-- is room for.
pub collect-words :
    (room : ℕ) (delim s : List ℕ)
    → collect room delim (strtok_from delim s) ≡ take room (words delim [] s)
unfolding collect scan strtok_from skip_delims
collect-words zero delim s = refl
collect-words (suc room) delim s = at_left (collect-words room delim) (skip_delims delim s) refl
  where
    at_left :
        ((r : List ℕ) → collect room delim (strtok_from delim r) ≡ take room (words delim [] r))
        → (left : List ℕ) → skip_delims delim s ≡ left
        → collect (suc room) delim (elim left [
          | [] ↦ (none, none)
          | c ∷ t ↦ let (token, rest) = scan delim (c ∷ t) in (some token, rest)
        ])
          ≡ take (suc room) (words delim [] s)
    at_left rec [] e = rw (← skip_delims-words delim s, e) refl
    at_left rec (c ∷ t) e =
        let n = skip_delims-head delim s e in
        rw (← skip_delims-words delim s, e, n, scan-words delim t (c ∷ []))
          (ap (λ l. (c ∷ (scan delim t).0) ∷ l) (collect-behind room delim (scan delim t).1 rec))
