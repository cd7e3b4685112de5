-- ===== src/Fs/Ramfs/Fuel.antt =====
-- The rounds of the loop of `resolve_path` of kernel/src/fs/ramfs.c.
use sudo_os.Prelude.{
  Bool, false, ◌⊎◌, ◌==◌, if◌then◌else◌, Bool-cases, Option-cases, ℕ, zero, suc, ◌+◌, ◌<◌, ◌≡◌, ◌≢◌,
  refl, ap, sym, ◌∙◌, arith, none, some, List, [], ◌∷◌, ◌++◌, inl, inr, length, length-append, take,
  length-take,
}
use sudo_os.Klib.{strtok_r}
use sudo_os.Klib.Tokens.{FirstToken, strtok_r-FirstToken}
use sudo_os.Fs.Ramfs.{
  Fs, Resolved, Walk, go_on, stop, resolved, component, is_nonempty, walk, slash, node_at,
  resolve_path,
}

length_pos : (l : List ℕ) → l ≢ [] → 0 < length l
length_pos [] ne = absurd (ne refl)
length_pos (c ∷ l) ne = omega arith

-- What a token leaves is shorter.
FirstToken-shorter :
    {delim str token rest : List ℕ} → FirstToken delim str token rest → length rest < length str
FirstToken-shorter {delim} {str} {token} {rest} f =
    let whole : length str ≡ length f.front + (length token + length f.tail) =
      ap length f.split
      ∙ length-append f.front (token ++ f.tail)
      ∙ ap (λ n. length f.front + n) (length-append token f.tail) in
    let some_bytes = length_pos token f.nonempty in
    elim f.behind [
      | inl (_, none_left) ↦ let z : length rest ≡ 0 = ap length none_left in omega arith
      | inr (d, _, e) ↦ let z : length f.tail ≡ suc (length rest) = ap length e in omega arith
    ]

strtok_r-shorter :
    (delim str : List ℕ) {token : List ℕ}
    → (strtok_r delim str).0 ≡ some token
    → length (strtok_r delim str).1 < length str
strtok_r-shorter delim str {token} e = elim (strtok_r-FirstToken delim str) [
  | inl (_, n, _) ↦ absurd (cc (sym e ∙ n))
  | inr (t, _, f) ↦ FirstToken-shorter f
]

-- The loop of `resolve_path` at the node `curr`, with the text `path` left, ends with the result `r`: there is no
-- token left, or the round for the token returns, or it goes on from another node and the loop ends from there.
pub data Walks (fs : Fs) : ℕ → List ℕ → Resolved → Type 0 where
  at_end :
      (curr : ℕ) (path : List ℕ)
      → (strtok_r (slash ∷ []) path).0 ≡ none
      → Walks fs curr path (resolved (some curr) (node_at fs curr).parent_idx none)
  returns :
      (curr : ℕ) (path token : List ℕ) (r : Resolved)
      → (strtok_r (slash ∷ []) path).0 ≡ some token
      → component fs curr token (is_nonempty (strtok_r (slash ∷ []) path).1) ≡ stop r
      → Walks fs curr path r
  continues :
      (curr : ℕ) (path token : List ℕ) (next : ℕ) (r : Resolved)
      → (strtok_r (slash ∷ []) path).0 ≡ some token
      → component fs curr token (is_nonempty (strtok_r (slash ∷ []) path).1) ≡ go_on next
      → Walks fs next (strtok_r (slash ∷ []) path).1 r
      → Walks fs curr path r

-- What a round does.
Walk-cases : (w : Walk) → ((next : ℕ) × (w ≡ go_on next)) ⊎ ((r : Resolved) × (w ≡ stop r))
Walk-cases (go_on next) = inl (next, refl)
Walk-cases (stop r) = inr (r, refl)

-- Fuel above the length of the path is enough for the loop to end.
walk-Walks :
    (n : ℕ) (fs : Fs) (curr : ℕ) (path : List ℕ)
    → length path < n
    → Walks fs curr path (walk n fs curr path)
unfolding walk
walk-Walks zero fs curr path lt = absurd (omega arith)
walk-Walks (suc n) fs curr path lt =
    let rest = (strtok_r (slash ∷ []) path).1 in
    elim (Option-cases (strtok_r (slash ∷ []) path).0) [
      | inl e ↦
          let ended : walk (suc n) fs curr path
              ≡ resolved (some curr) (node_at fs curr).parent_idx none =
            rw (e, walk) refl in
          rw ended (at_end curr path e)
      | inr (token, e) ↦ elim (Walk-cases (component fs curr token (is_nonempty rest))) [
        | inr (r, c) ↦
            let stopped : walk (suc n) fs curr path ≡ r = rw (e, walk) (rw c refl) in
            rw stopped (returns curr path token r e c)
        | inl (next, c) ↦
            let goes : walk (suc n) fs curr path ≡ walk n fs next rest = rw (e, walk) (rw c refl) in
            let less = strtok_r-shorter (slash ∷ []) path e in
            rw goes (
              continues curr path token next (walk n fs next rest) e c
                (walk-Walks n fs next rest (omega arith)))
      ]
    ]

abbrev pub begins_at_root : List ℕ → Bool
begins_at_root [] = false
begins_at_root (c ∷ path) = c == slash

-- The node where the walk along a path starts, and the text of it that is read.
abbrev pub start_of : Fs → List ℕ → ℕ
start_of fs path = if begins_at_root path then 0 else (if fs.has_proc then fs.cwd_inode else 0)

abbrev pub text_read : List ℕ → List ℕ
text_read [] = []
text_read (c ∷ path) = if c == slash then take 127 path else take 127 (c ∷ path)

-- On every path, the loop of `resolve_path` ends after finitely many rounds, each of which finds a token, from the
-- root or the working directory and on at most 127 bytes of the path; the result of `resolve_path` is the one
-- with which it ends.
pub resolve_path-Walks :
    (fs : Fs) (path : List ℕ) → Walks fs (start_of fs path) (text_read path) (resolve_path fs path)
unfolding resolve_path
resolve_path-Walks fs [] =
    walk-Walks 128 fs (if fs.has_proc then fs.cwd_inode else 0) [] (omega arith)
resolve_path-Walks fs (c ∷ path) = elim (Bool-cases (c == slash)) [
  | inl e ↦
      let len = length-take {A = ℕ} 127 path in
      rw e (walk-Walks 128 fs 0 (take 127 path) (omega arith))
  | inr e ↦
      let len = length-take {A = ℕ} 127 (c ∷ path) in
      rw e (
        walk-Walks 128 fs (if fs.has_proc then fs.cwd_inode else 0) (take 127 (c ∷ path))
          (omega arith))
]
