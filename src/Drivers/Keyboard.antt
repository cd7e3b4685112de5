-- ===== src/Drivers/Keyboard.antt =====
-- The PS/2 keyboard of kernel/src/drivers/keyboard.c: the scan-code tables, the interrupt handler and
-- the ring buffer between it and the readers. The byte that `inb(0x60)` reads is an argument. Where the
-- handler scrolls the console, the model returns the call's argument beside the new state.
mod Tests
pub mod Queue
pub mod Scan
pub mod Input
use sudo_os.Prelude.{
  ℕ, ◌+◌, ◌%◌, Bool, true, false, Option, none, some, List, [], ◌∷◌, ◌++◌, ◌||◌, ◌==◌, ltb,
  if◌then◌else◌, get_or, set,
}
use sudo_os.Prelude.Bits.{byte_test}

abbrev pub kbuf_size : ℕ
kbuf_size = 128

-- The static variables of keyboard.c.
pub record Keyboard : Type 0 where
  pub kbuf : List ℕ
  pub r_ptr : ℕ
  pub w_ptr : ℕ
  pub shift : Bool

-- The tables, up to the last entry that is not 0; an entry past the end is 0.
abbrev pub kmap_low : List ℕ
kmap_low =
    0 ∷ 27 ∷ b'1' ∷ b'2' ∷ b'3' ∷ b'4' ∷ b'5' ∷ b'6' ∷ b'7' ∷ b'8' ∷ b'9' ∷ b'0' ∷ b'-' ∷ b'=' ∷ 8
    ∷ 9 ∷ b'q' ∷ b'w' ∷ b'e' ∷ b'r' ∷ b't' ∷ b'y' ∷ b'u' ∷ b'i' ∷ b'o' ∷ b'p' ∷ b'[' ∷ b']' ∷ 10 ∷ 0
    ∷ b'a' ∷ b's' ∷ b'd' ∷ b'f' ∷ b'g' ∷ b'h' ∷ b'j' ∷ b'k' ∷ b'l' ∷ b';' ∷ 39 ∷ b'`' ∷ 0 ∷ 92
    ∷ b'z' ∷ b'x' ∷ b'c' ∷ b'v' ∷ b'b' ∷ b'n' ∷ b'm' ∷ b',' ∷ b'.' ∷ b'/' ∷ 0 ∷ b'*' ∷ 0 ∷ b' ' ∷ []

abbrev pub kmap_up : List ℕ
kmap_up =
    0 ∷ 27 ∷ b'!' ∷ b'@' ∷ b'#' ∷ b'$' ∷ b'%' ∷ b'^' ∷ b'&' ∷ b'*' ∷ b'(' ∷ b')' ∷ b'_' ∷ b'+' ∷ 8
    ∷ 9 ∷ b'Q' ∷ b'W' ∷ b'E' ∷ b'R' ∷ b'T' ∷ b'Y' ∷ b'U' ∷ b'I' ∷ b'O' ∷ b'P' ∷ b'{' ∷ b'}' ∷ 10 ∷ 0
    ∷ b'A' ∷ b'S' ∷ b'D' ∷ b'F' ∷ b'G' ∷ b'H' ∷ b'J' ∷ b'K' ∷ b'L' ∷ b':' ∷ 34 ∷ b'~' ∷ 0 ∷ b'|'
    ∷ b'Z' ∷ b'X' ∷ b'C' ∷ b'V' ∷ b'B' ∷ b'N' ∷ b'M' ∷ b'<' ∷ b'>' ∷ b'?' ∷ 0 ∷ b'*' ∷ 0 ∷ b' ' ∷ []

-- `console_scroll(10)` and `console_scroll(-10)`
pub data Scroll : Type 0 where
  up_ten down_ten : Scroll

-- The end of the handler: a character is stored unless the buffer is full.
unfoldable pub store_char : Keyboard → ℕ → Keyboard
store_char k c =
    let next_w = (k.w_ptr + 1) % kbuf_size in
    if c == 0
    then k
    else (if next_w == k.r_ptr then k else record k { kbuf = set k.kbuf k.w_ptr c; w_ptr = next_w })

unfoldable pub scan_char : Keyboard → ℕ → ℕ
scan_char k scancode = if k.shift then get_or kmap_up scancode 0 else get_or kmap_low scancode 0

unfoldable pub keyboard_handler : Keyboard → ℕ → Keyboard × Option Scroll
keyboard_handler k scancode =
    if scancode == 0x2A || scancode == 0x36
    then (record k { shift = true }, none)
    else (if scancode == 0xAA || scancode == 0xB6
        then (record k { shift = false }, none)
        else (if byte_test scancode 7
            then (k, none)
            else (if scancode == 0x49
                then (k, some up_ten)
                else (if scancode == 0x51
                    then (k, some down_ten)
                    else (if ltb 127 scancode
                        then (k, none)
                        else (store_char k (scan_char k scancode), none))))))

-- The state part of `init_keyboard`; its registration and port writes are not modelled.
unfoldable pub init_keyboard : Keyboard → Keyboard
init_keyboard k = record k { r_ptr = 0; w_ptr = 0 }

-- 0 if nothing is stored.
unfoldable pub keyboard_get_char : Keyboard → ℕ × Keyboard
keyboard_get_char k =
    if k.r_ptr == k.w_ptr
    then (0, k)
    else (get_or k.kbuf k.r_ptr 0, record k { r_ptr = (k.r_ptr + 1) % kbuf_size })
