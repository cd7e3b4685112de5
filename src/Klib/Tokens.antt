-- ===== src/Klib/Tokens.antt =====
-- What `strtok_r` of kernel/src/lib/string.c gives, and what it leaves for the next call.
use sudo_os.Prelude.{
  ℕ, ◌≡◌, ◌⊎◌, true, false, ◌≢◌, refl, sym, subst, ap, arith, some, none, List, [], ◌∷◌, ◌++◌,
  Bool-cases, inl, inr, ◌∙◌,
}
use sudo_os.Klib.{is_delim, skip_delims, scan_token, strtok_r}

-- Every byte is a delimiter, or none is.
abbrev pub AllDelims : List ℕ → List ℕ → Type 0
AllDelims delim [] = Unit
AllDelims delim (c ∷ s) = (is_delim c delim ≡ true) × AllDelims delim s

abbrev pub NoDelims : List ℕ → List ℕ → Type 0
NoDelims delim [] = Unit
NoDelims delim (c ∷ s) = (is_delim c delim ≡ false) × NoDelims delim s

-- The text behind a token: the end, or a delimiter and what is left for the next call.
abbrev pub Behind : List ℕ → List ℕ → List ℕ → Type 0
Behind delim tail rest =
    ((tail ≡ []) × (rest ≡ [])) ⊎ ((d : ℕ) × (is_delim d delim ≡ true) × (tail ≡ d ∷ rest))

-- What the skip of the delimiters in front leaves.
record Skipped (delim str left : List ℕ) : Type 0 where
  front : List ℕ
  split : str ≡ front ++ left
  all_delims : AllDelims delim front

skip_delims-Skipped : (delim str : List ℕ) → Skipped delim str (skip_delims delim str)
unfolding skip_delims
skip_delims-Skipped delim [] = record { front = []; split = refl; all_delims = tt }
skip_delims-Skipped delim (c ∷ s) = elim (Bool-cases (is_delim c delim)) [
  | inl h ↦
      let r = skip_delims-Skipped delim s in
      rw h (record {
        front = c ∷ r.front;
        split = ap (λ l. c ∷ l) r.split;
        all_delims = (h, r.all_delims);
      })
  | inr h ↦ rw h (record { front = []; split = refl; all_delims = tt })
]

pub skip_delims-head :
    (delim str : List ℕ) {c : ℕ} {s : List ℕ}
    → skip_delims delim str ≡ c ∷ s
    → is_delim c delim ≡ false
unfolding skip_delims
skip_delims-head delim [] e = absurd (ground arith)
skip_delims-head delim (b ∷ str) {c} {s} e = elim (Bool-cases (is_delim b delim)) [
  | inl h ↦ skip_delims-head delim str (rw h at e)
  | inr h ↦ let e' : b ∷ str ≡ c ∷ s = rw h at e in let q : b ≡ c = ground arith in rw q at h
]

-- What the scan of a token gives.
record Scanned (delim str token rest : List ℕ) : Type 0 where
  tail : List ℕ
  split : str ≡ token ++ tail
  no_delims : NoDelims delim token
  behind : Behind delim tail rest

scan_token-Scanned :
    (delim str : List ℕ) → Scanned delim str (scan_token delim str).0 (scan_token delim str).1
unfolding scan_token
scan_token-Scanned delim [] = record {
  tail = [];
  split = refl;
  no_delims = tt;
  behind = inl (refl, refl);
}
scan_token-Scanned delim (c ∷ s) = elim (Bool-cases (is_delim c delim)) [
  | inl h ↦ rw h (record { tail = c ∷ s; split = refl; no_delims = tt; behind = inr (c, h, refl) })
  | inr h ↦
      let r = scan_token-Scanned delim s in
      rw h (record {
        tail = r.tail;
        split = ap (λ l. c ∷ l) r.split;
        no_delims = (h, r.no_delims);
        behind = r.behind;
      })
]

-- The first token of a string: delimiters, the token, and what is behind it.
pub record FirstToken (delim str token rest : List ℕ) : Type 0 where
  pub front : List ℕ
  pub tail : List ℕ
  pub split : str ≡ front ++ (token ++ tail)
  pub all_delims : AllDelims delim front
  pub no_delims : NoDelims delim token
  pub nonempty : token ≢ []
  pub behind : Behind delim tail rest

scan_token-nonempty :
    (delim : List ℕ) (c : ℕ) (s : List ℕ)
    → is_delim c delim ≡ false
    → (scan_token delim (c ∷ s)).0 ≢ []
unfolding scan_token
scan_token-nonempty delim c s h e =
    let e' : c ∷ (scan_token delim s).0 ≡ [] = rw h at e in ground arith

append_nil : (l : List ℕ) → l ++ [] ≡ l
append_nil [] = refl
append_nil (c ∷ l) = ap (λ r. c ∷ r) (append_nil l)

strtok_r-of :
    (delim str left : List ℕ)
    → skip_delims delim str ≡ left
    → Skipped delim str left
    → let (t, rest) = strtok_r delim str in
      (AllDelims delim str × (t ≡ none) × (rest ≡ []))
      ⊎ ((token : List ℕ) × (t ≡ some token) × FirstToken delim str token rest)
unfolding strtok_r
strtok_r-of delim str [] e k =
    rw (e, strtok_r)
      (inl (
        subst (λ l. AllDelims delim l) (sym (k.split ∙ append_nil k.front)) k.all_delims,
        refl,
        refl,
      ))
strtok_r-of delim str (c ∷ s) e k =
    let r = scan_token-Scanned delim (c ∷ s) in
    let head = skip_delims-head delim str e in
    rw (e, strtok_r)
      (inr (
        (scan_token delim (c ∷ s)).0,
        refl,
        record {
          front = k.front;
          tail = r.tail;
          split = k.split ∙ ap (λ l. k.front ++ l) r.split;
          all_delims = k.all_delims;
          no_delims = r.no_delims;
          nonempty = scan_token-nonempty delim c s head;
          behind = r.behind;
        },
      ))

-- `strtok_r` gives NULL exactly on a string of delimiters only, and then leaves nothing; else it gives
-- the first run of bytes that are no delimiters, which is not empty and has only delimiters in front of
-- it, and leaves what stands behind the one delimiter that ends it, if there is one.
pub strtok_r-FirstToken :
    (delim str : List ℕ)
    → let (t, rest) = strtok_r delim str in
      (AllDelims delim str × (t ≡ none) × (rest ≡ []))
      ⊎ ((token : List ℕ) × (t ≡ some token) × FirstToken delim str token rest)
strtok_r-FirstToken delim str =
    strtok_r-of delim str (skip_delims delim str) refl (skip_delims-Skipped delim str)
