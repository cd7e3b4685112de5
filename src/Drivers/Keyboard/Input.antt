-- ===== src/Drivers/Keyboard/Input.antt =====
-- `kinput` of kernel/src/drivers/keyboard.c, and the loop that `getline` of usr/shell.c has too: the line that is
-- typed is edited in a buffer with an index. The list of keys is what the rounds read one after the
-- other, 0 in a round that finds none; `none` means that the loop still waits.
use sudo_os.Prelude.{
  ℕ, zero, suc, ◌+◌, ◌-◌, ◌≤◌, ◌<◌, ◌≡◌, ◌⊎◌, ◌∙◌, inl, inr, refl, sym, ap, arith, Bool, Option,
  none, some, List, [], ◌∷◌, ◌++◌, ◌==◌, ltb, if◌then◌else◌, length, get_or, set, take, length-set,
  length-append, get_or-set_self, get_or-set_ne, Bool-cases,
}
use sudo_os.Drivers.Console.{Console, kprint}

-- Which keys end the line and which erase a character, and what is shown then.
pub record LineKeys : Type 0 where
  pub ends : ℕ → Bool
  pub erases : ℕ → Bool
  pub erased : List ℕ

-- A key that does not end the line, on the buffer, the index and what was shown.
unfoldable pub edit_key : LineKeys → ℕ → List ℕ × ℕ × List ℕ → List ℕ × ℕ × List ℕ
edit_key ks c (buf, idx, out) =
    if c == 0
    then (buf, idx, out)
    else (if ks.erases c
        then (if ltb 0 idx then (buf, idx - 1, out ++ ks.erased) else (buf, idx, out))
        else (set buf idx c, idx + 1, out ++ c ∷ []))

-- `while (idx < max_len - 1)`: the buffer, what was shown, and the keys that are left.
unfoldable pub edit_loop :
    LineKeys → ℕ → List ℕ → List ℕ × ℕ × List ℕ → Option (List ℕ × List ℕ × List ℕ)
edit_loop ks max_len [] (buf, idx, out) =
    if ltb idx (max_len - 1) then none else some (set buf idx 0, out, [])
edit_loop ks max_len (c ∷ keys) (buf, idx, out) =
    let rest = edit_loop ks max_len keys (edit_key ks c (buf, idx, out)) in
    if ltb idx (max_len - 1)
    then (if ks.ends c then some (set buf idx 0, out ++ b'\n' ∷ [], keys) else rest)
    else some (set buf idx 0, out, c ∷ keys)

abbrev pub kinput_keys : LineKeys
kinput_keys = record { ends = λ c. c == b'\n'; erases = λ c. c == 8; erased = 8 ∷ [] }

-- `kinput`: the buffer, the console, and the keys that are left.
unfoldable pub kinput : Console → List ℕ → ℕ → List ℕ → Option (List ℕ × Console × List ℕ)
kinput c buffer max_len keys = elim (edit_loop kinput_keys max_len keys (buffer, 0, [])) [
  | none ↦ none
  | some (buf, out, rest) ↦ some (buf, kprint c out, rest)
]

-- The same on the line alone, without a buffer: a line with `room` characters is full.
abbrev pub typed : LineKeys → ℕ → List ℕ → List ℕ → Option (List ℕ × List ℕ)
typed ks room [] line = if ltb (length line) room then none else some (line, [])
typed ks room (c ∷ keys) line =
    let rest = typed ks room keys (
      if c == 0
      then line
      else (if ks.erases c then take (length line - 1) line else line ++ c ∷ [])) in
    if ltb (length line) room
    then (if ks.ends c then some (line, keys) else rest)
    else some (line, c ∷ keys)

-- The buffer holds the line in front of the index, and is `buf` from `max_len` on.
pub record Holds (max_len : ℕ) (buf buf' line : List ℕ) : Type 0 where
  pub text : take (length line) buf' ≡ line
  pub inside : length line < max_len
  pub size : length buf' ≡ length buf
  pub behind : (j : ℕ) → max_len ≤ j → get_or buf' j 0 ≡ get_or buf j 0

take-set :
    (n k : ℕ) (buf : List ℕ) (c : ℕ)
    → k ≡ suc n
    → n < length buf
    → take k (set buf n c) ≡ take n buf ++ c ∷ []
take-set n k buf c e h = rw e (at_suc n buf h)
  where
    at_suc :
        (n : ℕ) (buf : List ℕ) → n < length buf → take (suc n) (set buf n c) ≡ take n buf ++ c ∷ []
    at_suc n [] h = absurd (omega arith)
    at_suc zero (b ∷ buf) h = refl
    at_suc (suc n) (b ∷ buf) h = ap (λ l. b ∷ l) (at_suc n buf (omega arith))

take-set_same : (n : ℕ) (buf : List ℕ) (c : ℕ) → take n (set buf n c) ≡ take n buf
take-set_same zero buf c = refl
take-set_same (suc n) [] c = refl
take-set_same (suc n) (b ∷ buf) c = ap (λ l. b ∷ l) (take-set_same n buf c)

take-take : (m n : ℕ) (xs : List ℕ) → m ≤ n → take m (take n xs) ≡ take m xs
take-take zero n xs h = refl
take-take (suc m) zero xs h = absurd (omega arith)
take-take (suc m) (suc n) [] h = refl
take-take (suc m) (suc n) (x ∷ xs) h = ap (λ l. x ∷ l) (take-take m n xs (omega arith))

length-take_le : (m : ℕ) (xs : List ℕ) → m ≤ length xs → length (take m xs) ≡ m
length-take_le zero xs h = refl
length-take_le (suc m) [] h = absurd (omega arith)
length-take_le (suc m) (x ∷ xs) h = ap suc (length-take_le m xs (omega arith))

-- The line after a key that does not end it.
abbrev next_line : LineKeys → ℕ → List ℕ → List ℕ
next_line ks c line =
    if c == 0 then line else (if ks.erases c then take (length line - 1) line else line ++ c ∷ [])

module _ (ks : LineKeys) (max_len : ℕ) (buf : List ℕ) (fits : max_len ≤ length buf) where
  Holds-set :
      (cur line : List ℕ) (c : ℕ)
      → Holds max_len buf cur line
      → Holds max_len buf (set cur (length line) c) line
  Holds-set cur line c h = record {
    text = take-set_same (length line) cur c ∙ h.text;
    inside = h.inside;
    size = length-set cur (length line) c ∙ h.size;
    behind =
        λ j far. get_or-set_ne cur c 0 (λ e. absurd (omega (arith, h.inside))) ∙ h.behind j far;
  }

  Holds-put :
      (cur line : List ℕ) (c : ℕ)
      → Holds max_len buf cur line
      → length line < max_len - 1
      → Holds max_len buf (set cur (length line) c) (line ++ c ∷ [])
  Holds-put cur line c h room =
      let s = Holds-set cur line c h in
      let longer = length-append line (c ∷ []) in
      record {
        text =
            take-set (length line) (length (line ++ c ∷ [])) cur c (omega arith)
              (omega (arith, h.size))
            ∙ ap (λ l. l ++ c ∷ []) h.text;
        inside = omega arith;
        size = s.size;
        behind = s.behind;
      }

  Holds-erase :
      (cur line : List ℕ)
      → Holds max_len buf cur line
      → Holds max_len buf cur (take (length line - 1) line)
  Holds-erase cur line h =
      let shorter = length-take_le (length line - 1) line (omega arith) in
      record {
        text = rw shorter (
            sym (take-take (length line - 1) (length line) cur (omega arith))
            ∙ ap (λ l. take (length line - 1) l) h.text);
        inside = omega (arith, h.inside);
        size = h.size;
        behind = h.behind;
      }

  -- What a key leaves of a line that is not full.
  abbrev Keyed : ℕ → List ℕ → List ℕ × ℕ × List ℕ → Type 0
  Keyed c line r =
      (cur : List ℕ) × (out : List ℕ) × (r ≡ (cur, length (next_line ks c line), out))
      × Holds max_len buf cur (next_line ks c line)

  edit_key-Keyed :
      (c : ℕ) (cur line out : List ℕ)
      → Holds max_len buf cur line
      → length line < max_len - 1
      → Keyed c line (edit_key ks c (cur, length line, out))
  unfolding edit_key
  edit_key-Keyed c cur line out h room = elim (Bool-cases (c == 0)) [
    | inl z ↦ rw z (cur, out, refl, h)
    | inr nz ↦ elim (Bool-cases (ks.erases c)) [
      | inl er ↦ elim (Bool-cases (ltb 0 (length line))) [
        | inl some_left ↦
            let shorter = length-take_le (length line - 1) line (omega arith) in
            rw (nz, er, some_left)
              (
                cur,
                out ++ ks.erased,
                ap (λ k. (cur, k, out ++ ks.erased)) (sym shorter),
                Holds-erase cur line h,
              )
        | inr empty ↦
            let shorter = length-take_le (length line - 1) line (omega arith) in
            let same : length line ≡ length (take (length line - 1) line) =
              ground (arith, shorter) in
            rw (nz, er, empty) (cur, out, ap (λ k. (cur, k, out)) same, Holds-erase cur line h)
      ]
      | inr keep ↦
          let longer = length-append line (c ∷ []) in
          let same : length line + 1 ≡ length (line ++ c ∷ []) = omega (arith, longer) in
          rw (nz, keep)
            (
              set cur (length line) c,
              out ++ c ∷ [],
              ap (λ k. (set cur (length line) c, k, out ++ c ∷ [])) same,
              Holds-put cur line c h room,
            )
    ]
  ]

  -- The loop with the buffer against the line alone.
  abbrev pub Edited : Option (List ℕ × List ℕ × List ℕ) → Option (List ℕ × List ℕ) → Type 0
  Edited o s =
      ((o ≡ none) × (s ≡ none))
      ⊎ ((cur : List ℕ) × (out : List ℕ) × (line : List ℕ) × (rest : List ℕ) × (o
            ≡ some (cur, out, rest))
          × (s ≡ some (line, rest))
          × Holds max_len buf cur line
          × (get_or cur (length line) 0 ≡ 0))

  ended :
      (cur line out rest : List ℕ)
      → Holds max_len buf cur line
      → Edited (some (set cur (length line) 0, out, rest)) (some (line, rest))
  ended cur line out rest h = inr (
    set cur (length line) 0,
    out,
    line,
    rest,
    refl,
    refl,
    Holds-set cur line 0 h,
    get_or-set_self cur (length line) 0 0 (omega (arith, h.size, h.inside)),
  )

  pub edit_loop-Edited :
      (keys cur line out : List ℕ)
      → Holds max_len buf cur line
      → Edited
          (edit_loop ks max_len keys (cur, length line, out))
          (typed ks (max_len - 1) keys line)
  unfolding edit_loop
  edit_loop-Edited [] cur line out h = elim (Bool-cases (ltb (length line) (max_len - 1))) [
    | inl room ↦ rw room (inl (refl, refl))
    | inr full ↦ rw full (ended cur line out [] h)
  ]
  edit_loop-Edited (c ∷ keys) cur line out h = elim (Bool-cases (ltb (length line) (max_len - 1))) [
    | inl room ↦ elim (Bool-cases (ks.ends c)) [
      | inl e ↦ rw (room, e) (ended cur line (out ++ b'\n' ∷ []) keys h)
      | inr e ↦
          let (cur', out', k, h') = edit_key-Keyed c cur line out h (ground arith) in
          rw (room, e, k) (edit_loop-Edited keys cur' (next_line ks c line) out' h')
    ]
    | inr full ↦ rw full (ended cur line out (c ∷ keys) h)
  ]

  pub Holds-start : 0 < max_len → Holds max_len buf buf []
  Holds-start pos = record { text = refl; inside = pos; size = refl; behind = λ j far. refl }

-- `kinput` with a buffer of at least `max_len` bytes waits as long as the line that is typed does, and otherwise
-- leaves in the buffer that line and a 0 behind it, together at most `max_len` bytes, changes no byte behind those, and
-- leaves the keys behind the line.
pub kinput-typed :
    (c : Console) (buffer : List ℕ) (max_len : ℕ) (keys : List ℕ)
    → 0 < max_len
    → max_len ≤ length buffer
    → ((kinput c buffer max_len keys ≡ none) × (typed kinput_keys (max_len - 1) keys [] ≡ none))
      ⊎ ((buf : List ℕ) × (c' : Console) × (line : List ℕ) × (rest : List ℕ) × (kinput c buffer
              max_len keys
            ≡ some (buf, c', rest))
          × (typed kinput_keys (max_len - 1) keys [] ≡ some (line, rest))
          × Holds max_len buffer buf line
          × (get_or buf (length line) 0 ≡ 0))
unfolding kinput
kinput-typed c buffer max_len keys pos fits =
    elim (edit_loop-Edited kinput_keys max_len buffer fits keys buffer [] []
      (Holds-start kinput_keys max_len buffer fits pos)) [
        | inl (e, t) ↦ inl (rw (e, kinput) refl, t)
        | inr (buf, out, line, rest, e, t, h, stop) ↦
            inr (buf, kprint c out, line, rest, rw (e, kinput) refl, t, h, stop)
      ]
