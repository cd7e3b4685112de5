-- ===== src/Usr/Shell.antt =====
-- How usr/shell.c reads a command: `getline`, and the arguments that `shell_main` makes of the line.
use sudo_os.Prelude.{
  ℕ, zero, suc, ◌-◌, ◌≤◌, ◌≡◌, ◌≢◌, ◌⊎◌, inl, inr, refl, ap, arith, false, ◌||◌, Option, none, some,
  List, [], ◌∷◌, ◌++◌, ◌==◌, ltb, if◌then◌else◌, take, length, get_or, Bool-cases,
}
use sudo_os.Drivers.Keyboard.Input.{LineKeys, edit_loop, typed, Holds-start, edit_loop-Edited}
use sudo_os.Usr.Strtok.{strtok, collect, words, collect-words}

abbrev pub max_cmd_len : ℕ
max_cmd_len = 256

abbrev pub max_args : ℕ
max_args = 16

abbrev pub getline_keys : LineKeys
getline_keys = record {
  ends = λ c. c == b'\n' || c == 13;
  erases = λ c. c == 8 || c == 127;
  erased = 8 ∷ b' ' ∷ 8 ∷ [];
}

-- `getline`: the buffer, what it prints, and the keys that are left. A key is what `read` gives, 0 where it gives
-- none.
unfoldable pub getline : List ℕ → ℕ → List ℕ → Option (List ℕ × List ℕ × List ℕ)
getline buf max_len keys = edit_loop getline_keys max_len keys (buf, 0, [])

-- The string in a buffer.
abbrev pub text_of : List ℕ → List ℕ
text_of [] = []
text_of (c ∷ buf) = let rest = text_of buf in if c == 0 then [] else c ∷ rest

-- The loop of `strtok` over the line.
unfoldable pub parse_args : List ℕ → Option (List ℕ) → List (List ℕ)
parse_args input backup = collect max_args (b' ' ∷ []) (strtok (some input) (b' ' ∷ []) backup)

-- `args[0]` to `args[argc - 1]` of a round of `shell_main`, what `getline` prints, and the keys that are left.
unfoldable pub read_args :
    List ℕ → Option (List ℕ) → List ℕ → Option (List (List ℕ) × List ℕ × List ℕ)
read_args input backup keys = elim (getline input max_cmd_len keys) [
  | none ↦ none
  | some (buf, out, rest) ↦ some (parse_args (text_of buf) backup, out, rest)
]

-- No byte is 0.
abbrev NoZero : List ℕ → Type 0
NoZero [] = Unit
NoZero (c ∷ s) = (c ≢ 0) × NoZero s

take-NoZero : (n : ℕ) (s : List ℕ) → NoZero s → NoZero (take n s)
take-NoZero zero s h = tt
take-NoZero (suc n) [] h = tt
take-NoZero (suc n) (c ∷ s) (ne, h) = (ne, take-NoZero n s h)

append-NoZero : (s : List ℕ) (c : ℕ) → NoZero s → c ≢ 0 → NoZero (s ++ c ∷ [])
append-NoZero [] c h ne = (ne, tt)
append-NoZero (b ∷ s) c (bn, h) ne = (bn, append-NoZero s c h ne)

text_of-line :
    (line buf : List ℕ)
    → NoZero line
    → take (length line) buf ≡ line
    → get_or buf (length line) 0 ≡ 0
    → text_of buf ≡ line
text_of-line [] [] h t e = refl
text_of-line [] (b ∷ buf) h t e = rw e refl
text_of-line (c ∷ line) [] h t e = absurd (ground arith)
text_of-line (c ∷ line) (b ∷ buf) (ne, h) t e =
    let same : b ≡ c = ground arith in
    let rest : take (length line) buf ≡ line = ground arith in
    let more : (c == 0) ≡ false = ground arith in
    rw (same, more) (ap (λ l. c ∷ l) (text_of-line line buf h rest e))

-- The line of a result has no byte 0.
abbrev LineNoZero : Option (List ℕ × List ℕ) → Type 0
LineNoZero none = Unit
LineNoZero (some (line, rest)) = NoZero line

typed-LineNoZero :
    (ks : LineKeys) (room : ℕ) (keys line : List ℕ)
    → NoZero line
    → LineNoZero (typed ks room keys line)
typed-LineNoZero ks room [] line h = elim (Bool-cases (ltb (length line) room)) [
  | inl e ↦ rw e tt
  | inr e ↦ rw e h
]
typed-LineNoZero ks room (c ∷ keys) line h = elim (Bool-cases (ltb (length line) room)) [
  | inr e ↦ rw e h
  | inl e ↦ elim (Bool-cases (ks.ends c)) [
    | inl n ↦ rw (e, n) h
    | inr n ↦ elim (Bool-cases (c == 0)) [
      | inl z ↦ rw (e, n, z) (typed-LineNoZero ks room keys line h)
      | inr nz ↦ elim (Bool-cases (ks.erases c)) [
        | inl er ↦
            rw (e, n, nz, er)
              (typed-LineNoZero ks room keys (take (length line - 1) line)
                (take-NoZero (length line - 1) line h))
        | inr keep ↦
            rw (e, n, nz, keep)
              (typed-LineNoZero ks room keys (line ++ c ∷ [])
                (append-NoZero line c h (ground arith)))
      ]
    ]
  ]
]

-- With an input buffer of at least 256 bytes, a round of the shell waits as long as the line that is typed does, and
-- otherwise the arguments are the first 16 words of that line, where a line has at most 255 bytes and words are
-- the maximal runs of bytes other than spaces.
pub read_args-words :
    (input : List ℕ) (backup : Option (List ℕ)) (keys : List ℕ)
    → max_cmd_len ≤ length input
    → ((read_args input backup keys ≡ none) × (typed getline_keys (max_cmd_len - 1) keys [] ≡ none))
      ⊎ ((line : List ℕ) × (out : List ℕ) × (rest : List ℕ) × (typed getline_keys
              (max_cmd_len - 1)
              keys
              []
            ≡ some (line, rest))
          × (read_args input backup keys
              ≡ some (take max_args (words (b' ' ∷ []) [] line), out, rest)))
unfolding read_args getline parse_args strtok
read_args-words input backup keys fits =
    elim (edit_loop-Edited getline_keys max_cmd_len input fits keys input [] []
      (Holds-start getline_keys max_cmd_len input fits (omega arith))) [
        | inl (e, t) ↦ inl (rw (e, read_args, getline) refl, t)
        | inr (buf, out, line, rest, e, t, h, stop) ↦
            let clean : LineNoZero (some (line, rest)) =
              rw t at (typed-LineNoZero getline_keys (max_cmd_len - 1) keys [] tt) in
            inr (
              line,
              out,
              rest,
              t,
              rw
                  (
                    e,
                    text_of-line line buf clean h.text stop,
                    collect-words max_args (b' ' ∷ []) line,
                    read_args,
                    getline,
                  )
                  refl,
            )
      ]
