-- ===== src/Drivers/Keyboard/Queue.antt =====
-- The ring buffer of kernel/src/drivers/keyboard.c against an abstract queue of characters.
use sudo_os.Prelude.{
  ℕ, zero, suc, ◌+◌, ◌-◌, ◌%◌, ◌<◌, ◌≡◌, ◌≢◌, true, false, refl, ap, ◌∙◌, arith, List, [], ◌∷◌,
  ◌++◌, ◌==◌, if◌then◌else◌, Bool-cases, inl, inr, length, get_or, set, length-set, get_or-set_self,
  get_or-set_ne,
}
use native.Mathlib.Decide.{ℕ_discrete}
use sudo_os.Drivers.Keyboard.{Keyboard, store_char, keyboard_get_char, init_keyboard}

-- The `n` characters from index `i` on, going round at the end of the buffer.
abbrev pub chars : List ℕ → ℕ → ℕ → List ℕ
chars buf i zero = []
chars buf i (suc n) = get_or buf i 0 ∷ chars buf ((i + 1) % 128) n

abbrev pub waiting : Keyboard → ℕ
waiting k = (k.w_ptr + 128 - k.r_ptr) % 128

-- What a reader has still to get, oldest first.
abbrev pub pending : Keyboard → List ℕ
pending k = chars k.kbuf k.r_ptr (waiting k)

-- The abstract queue: it holds at most 127 characters, and 0 is never stored.
unfoldable pub enqueue : List ℕ → ℕ → List ℕ
enqueue q c = if c == 0 then q else (if length q == 127 then q else q ++ (c ∷ []))

unfoldable pub dequeue : List ℕ → ℕ × List ℕ
dequeue [] = (0, [])
dequeue (c ∷ q) = (c, q)

pub record IsValid (k : Keyboard) : Type 0 where
  pub size : length k.kbuf ≡ 128
  pub read_in : k.r_ptr < 128
  pub write_in : k.w_ptr < 128

-- The last of the characters, apart.
chars-snoc :
    (buf : List ℕ) (i n : ℕ)
    → i < 128
    → chars buf i (suc n) ≡ chars buf i n ++ (get_or buf ((i + n) % 128) 0 ∷ [])
chars-snoc buf i zero h = let e : (i + 0) % 128 ≡ i = omega arith in rw e
chars-snoc buf i (suc n) h =
    let e : (i + suc n) % 128 ≡ ((i + 1) % 128 + n) % 128 = omega arith in
    rw e (ap (λ l. get_or buf i 0 ∷ l) (chars-snoc buf ((i + 1) % 128) n (omega arith)))

-- A write behind the characters does not change them.
chars-set :
    (buf : List ℕ) (i n j c : ℕ)
    → i < 128
    → n < 128
    → j ≡ (i + n) % 128
    → chars (set buf j c) i n ≡ chars buf i n
chars-set buf i zero j c hi hn e = refl
chars-set buf i (suc n) j c hi hn e =
    let apart : j ≢ i = omega arith in
    rw (get_or-set_ne buf c 0 apart) (
      ap (λ l. get_or buf i 0 ∷ l)
        (chars-set buf ((i + 1) % 128) n j c (omega arith) (omega arith) (omega arith)))

length-chars : (buf : List ℕ) (i n : ℕ) → length (chars buf i n) ≡ n
length-chars buf i zero = refl
length-chars buf i (suc n) = ap suc (length-chars buf ((i + 1) % 128) n)

module _ {k : Keyboard} (v : IsValid k) where
  pub length-pending : length (pending k) < 128
  length-pending = omega (arith, length-chars k.kbuf k.r_ptr (waiting k))

  pub store_char-IsValid : (c : ℕ) → IsValid (store_char k c)
  unfolding store_char
  store_char-IsValid c = ground (arith, length-set k.kbuf k.w_ptr c, v.size, v.read_in, v.write_in)

  -- The write pointer's cell is the end of the queue.
  pending-append :
      (c : ℕ)
      → waiting k < 127
      → chars (set k.kbuf k.w_ptr c) k.r_ptr (suc (waiting k)) ≡ pending k ++ (c ∷ [])
  pending-append c room =
      let read_in = v.read_in in
      let write_in = v.write_in in
      let end : (k.r_ptr + waiting k) % 128 ≡ k.w_ptr = omega arith in
      chars-snoc (set k.kbuf k.w_ptr c) k.r_ptr (waiting k) read_in
      ∙ rw (
        end,
        get_or-set_self k.kbuf k.w_ptr c 0 (omega (arith, v.size)),
        chars-set k.kbuf k.r_ptr (waiting k) k.w_ptr c read_in (omega arith) (omega arith),
      )

  waiting-stored :
      (c : ℕ)
      → waiting k < 127
      → waiting (record k { kbuf = set k.kbuf k.w_ptr c; w_ptr = (k.w_ptr + 1) % 128 })
        ≡ suc (waiting k)
  waiting-stored c room = omega (arith, v.read_in, v.write_in)

  -- Storing a character appends it to the queue, unless it is 0 or 127 are waiting: then it is dropped.
  pub pending-store_char : (c : ℕ) → pending (store_char k c) ≡ enqueue (pending k) c
  unfolding store_char enqueue
  pending-store_char c =
      let read_in = v.read_in in
      let write_in = v.write_in in
      let n = length-chars k.kbuf k.r_ptr (waiting k) in
      elim (ℕ_discrete (waiting k) 127) [
        | yes full ↦
            let full' : ((k.w_ptr + 1) % 128 == k.r_ptr) ≡ true = ground arith in
            let full'' : (length (pending k) == 127) ≡ true = ground arith in
            rw (full', full'') (ground arith)
        | no room ↦
            let room' : ((k.w_ptr + 1) % 128 == k.r_ptr) ≡ false = ground arith in
            let room'' : (length (pending k) == 127) ≡ false = ground arith in
            let lt : waiting k < 127 = omega arith in
            rw (room', room'')
              (elim (Bool-cases (c == 0)) [
                | inl z ↦ rw z
                | inr nz ↦ rw nz (rw (waiting-stored c lt) (pending-append c lt))
              ])
      ]

  waiting_pos : k.r_ptr ≢ k.w_ptr → (n : ℕ) × (waiting k ≡ suc n)
  waiting_pos ne = (waiting k - 1, omega (arith, v.read_in, v.write_in))

  -- Reading takes the oldest character of the queue, or gives 0 if there is none.
  pub pending-keyboard_get_char :
      let (c, k') = keyboard_get_char k in (c, pending k') ≡ dequeue (pending k)
  unfolding keyboard_get_char dequeue
  pending-keyboard_get_char = elim (ℕ_discrete k.r_ptr k.w_ptr) [
    | yes e ↦
        let none_left : waiting k ≡ 0 = omega (arith, v.write_in) in
        let hit : (k.r_ptr == k.w_ptr) ≡ true = ground arith in rw (hit, none_left)
    | no ne ↦
        let miss : (k.r_ptr == k.w_ptr) ≡ false = ground arith in
        let (n, e) = waiting_pos ne in
        let left : (k.w_ptr + 128 - (k.r_ptr + 1) % 128) % 128 ≡ n =
          omega (arith, v.read_in, v.write_in) in
        rw (miss, e, left)
  ]

  pub keyboard_get_char-IsValid : IsValid (keyboard_get_char k).1
  unfolding keyboard_get_char
  keyboard_get_char-IsValid = ground (arith, v.size, v.read_in, v.write_in)

pub init_keyboard-IsValid : (k : Keyboard) → length k.kbuf ≡ 128 → IsValid (init_keyboard k)
unfolding init_keyboard
init_keyboard-IsValid k size = record { size = size; read_in = omega arith; write_in = omega arith }
