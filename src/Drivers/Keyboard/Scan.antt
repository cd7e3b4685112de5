-- ===== src/Drivers/Keyboard/Scan.antt =====
-- The handler of kernel/src/drivers/keyboard.c against a table of keys, and any interleaving of its
-- interrupts with reads.
use sudo_os.Prelude.{
  ℕ, ◌<◌, ◌≡◌, ◌≢◌, Bool, true, false, refl, ap, ◌∙◌, arith, Bool-cases, inl, inr, Option, none,
  some, List, [], ◌∷◌, ◌==◌, if◌then◌else◌, ltb, leb, get_or,
}
use native.Mathlib.Decide.{ℕ_discrete}
use sudo_os.Prelude.Bits.{byte_test, all_below, all_below_sound}
use sudo_os.Drivers.Keyboard.{
  Keyboard, kmap_low, kmap_up, Scroll, up_ten, down_ten, store_char, scan_char, keyboard_handler,
  keyboard_get_char,
}
use sudo_os.Drivers.Keyboard.Queue.{
  IsValid, pending, enqueue, dequeue, pending-store_char, store_char-IsValid,
  pending-keyboard_get_char, keyboard_get_char-IsValid,
}

-- What a scan code means: make codes below 128, break codes from 128 on.
pub data Key : Type 0 where
  shift_down shift_up page_up page_down ignored : Key
  printable : ℕ → Key

unfoldable pub key_of : ℕ → Key
key_of s =
    if s == 0x2A
    then shift_down
    else (if s == 0x36
        then shift_down
        else (if s == 0xAA
            then shift_up
            else (if s == 0xB6
                then shift_up
                else (if leb 128 s
                    then ignored
                    else (if s == 0x49
                        then page_up
                        else (if s == 0x51 then page_down else printable s))))))

-- The keyboard as its clients see it: the shift state and the waiting characters.
pub record View : Type 0 where
  pub shift : Bool
  pub queue : List ℕ

abbrev pub view : Keyboard → View
view k = record { shift = k.shift; queue = pending k }

-- What a key does to the view.
unfoldable pub press : View → Key → View × Option Scroll
press w shift_down = (record w { shift = true }, none)
press w shift_up = (record w { shift = false }, none)
press w page_up = (w, some up_ten)
press w page_down = (w, some down_ten)
press w ignored = (w, none)
press w (printable s) = (
  record w {
    queue = enqueue w.queue (if w.shift then get_or kmap_up s 0 else get_or kmap_low s 0);
  },
  none,
)

top_bit_row : ℕ → Bool
top_bit_row s = if byte_test s 7 then leb 128 s else ltb s 128

top_bit_table : all_below 256 top_bit_row ≡ true
unfolding all_below top_bit_row byte_test
top_bit_table = refl

top_bit : (s : ℕ) → s < 256 → byte_test s 7 ≡ leb 128 s
unfolding top_bit_row
top_bit s h = let row = all_below_sound 256 top_bit_row s top_bit_table h in ground arith

module _ {k : Keyboard} (v : IsValid k) where
  shift-store_char : (c : ℕ) → (store_char k c).shift ≡ k.shift
  unfolding store_char
  shift-store_char c = ground arith

  view-store_char :
      (c : ℕ)
      → ◌≡◌ {A = View × Option Scroll}
          (view (store_char k c), none)
          (record { shift = k.shift; queue = enqueue (pending k) c }, none)
  view-store_char c i =
      (record { shift = shift-store_char c i; queue = pending-store_char v c i }, none)

  -- A make code that is none of the special ones.
  ordinary :
      (s : ℕ)
      → s < 128
      → s ≢ 0x49
      → s ≢ 0x51
      → (s == 0x2A) ≡ false
      → (s == 0x36) ≡ false
      → (s == 0xAA) ≡ false
      → (s == 0xB6) ≡ false
      → let (k', call) = keyboard_handler k s in (view k', call) ≡ press (view k) (key_of s)
  unfolding keyboard_handler key_of press scan_char
  ordinary s lt not_up not_down a b c d =
      let make : leb 128 s ≡ false = ground arith in
      let up : (s == 0x49) ≡ false = ground arith in
      let down : (s == 0x51) ≡ false = ground arith in
      let in_table : ltb 127 s ≡ false = ground arith in
      let low : byte_test s 7 ≡ false = top_bit s (omega arith) ∙ make in
      rw (a, b, c, d, low, make, up, down, in_table) (view-store_char (scan_char k s))

  -- A break code that is not that of a shift key.
  released :
      (s : ℕ)
      → s < 256
      → leb 128 s ≡ true
      → s ≢ 0xAA
      → s ≢ 0xB6
      → let (k', call) = keyboard_handler k s in (view k', call) ≡ press (view k) (key_of s)
  unfolding keyboard_handler key_of press
  released s h brk not_left not_right =
      let a : (s == 0x2A) ≡ false = ground arith in
      let b : (s == 0x36) ≡ false = ground arith in
      let c : (s == 0xAA) ≡ false = ground arith in
      let d : (s == 0xB6) ≡ false = ground arith in
      let high : byte_test s 7 ≡ true = top_bit s h ∙ brk in rw (a, b, c, d, high, brk)

  -- For every byte from the keyboard, the handler does to the view what the key of that code does:
  -- shift is set or reset, a page key asks for a scroll, another break code is ignored, and any other
  -- make code appends its character in the current shift state, if it has one and the queue has room.
  keyboard_handler-press :
      (s : ℕ)
      → s < 256
      → let (k', call) = keyboard_handler k s in (view k', call) ≡ press (view k) (key_of s)
  unfolding keyboard_handler key_of press byte_test
  keyboard_handler-press s h = elim (Bool-cases (leb 128 s)) [
    | inl brk ↦ elim (ℕ_discrete s 0xAA) [
      | yes e ↦ rw e
      | no ne1 ↦ elim (ℕ_discrete s 0xB6) [ yes e ↦ rw e | no ne2 ↦ released s h brk ne1 ne2 ]
    ]
    | inr mk ↦ elim (ℕ_discrete s 0x2A) [
      | yes e ↦ rw e
      | no ne1 ↦ elim (ℕ_discrete s 0x36) [
        | yes e ↦ rw e
        | no ne2 ↦ elim (ℕ_discrete s 0x49) [
          | yes e ↦ rw e
          | no ne3 ↦ elim (ℕ_discrete s 0x51) [
            | yes e ↦ rw e
            | no ne4 ↦
                ordinary s (ground arith) ne3 ne4 (ground arith) (ground arith) (ground arith)
                  (ground arith)
          ]
        ]
      ]
    ]
  ]

  pub keyboard_handler-IsValid : (s : ℕ) → IsValid (keyboard_handler k s).0
  unfolding keyboard_handler
  keyboard_handler-IsValid s =
      ground (arith, store_char-IsValid v (scan_char k s), v.size, v.read_in, v.write_in)

-- An interrupt with a scan code, or a read.
pub data Event : Type 0 where
  interrupt : ℕ → Event
  read : Event

abbrev pub Codes : List Event → Type 0
Codes [] = Unit
Codes (interrupt s ∷ es) = (s < 256) × Codes es
Codes (read ∷ es) = Codes es

-- The characters that the reads return.
unfoldable pub run : Keyboard → List Event → List ℕ
run k [] = []
run k (interrupt s ∷ es) = run (keyboard_handler k s).0 es
run k (read ∷ es) = let (c, k') = keyboard_get_char k in c ∷ run k' es

unfoldable pub run_view : View → List Event → List ℕ
run_view w [] = []
run_view w (interrupt s ∷ es) = run_view (press w (key_of s)).0 es
run_view w (read ∷ es) = let (c, q) = dequeue w.queue in c ∷ run_view (record w { queue = q }) es

shift-keyboard_get_char : (k : Keyboard) → (keyboard_get_char k).1.shift ≡ k.shift
unfolding keyboard_get_char
shift-keyboard_get_char k = ground arith

-- Whatever way interrupts and reads alternate, the reads return what the queue of the pressed keys
-- returns: characters come out in the order of the keys, none is lost unless 127 are waiting.
pub run-run_view :
    (es : List Event) {k : Keyboard} → IsValid k → Codes es → run k es ≡ run_view (view k) es
unfolding run run_view
run-run_view [] v codes = refl
run-run_view (interrupt s ∷ es) {k} v codes =
    run-run_view es (keyboard_handler-IsValid v s) codes.1
    ∙ ap (λ (r : View × Option Scroll). run_view r.0 es) (keyboard_handler-press v s codes.0)
run-run_view (read ∷ es) {k} v codes =
    ap (λ l. (keyboard_get_char k).0 ∷ l)
      (run-run_view es (keyboard_get_char-IsValid v) codes
        ∙ ap (λ b. run_view (record { shift = b; queue = pending (keyboard_get_char k).1 }) es)
            (shift-keyboard_get_char k))
    ∙ ap (λ (r : ℕ × List ℕ). r.0 ∷ run_view (record { shift = k.shift; queue = r.1 }) es)
        (pending-keyboard_get_char v)
