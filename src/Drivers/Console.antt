-- ===== src/Drivers/Console.antt =====
-- The console of kernel/src/drivers/console.c: the history of printed lines, the cursor and the view.
-- Drawing to the frame buffer is left out, and so is `console_refresh`, which only draws.
pub mod History
pub mod Format
pub mod Typed
mod Tests
use sudo_os.Prelude.{
  ℕ, ◌+◌, ◌-◌, ◌/◌, ◌*◌, Bool, true, false, ◌&&◌, ◌||◌, List, [], ◌∷◌, ◌++◌, ◌==◌, ltb, leb,
  if◌then◌else◌, drop, get_or, set, replicate,
}
use sudo_os.Prelude.Int.{ℤ, pos, negsuc}

abbrev pub max_history : ℕ
max_history = 1000

abbrev pub max_cols : ℕ
max_cols = 128

-- The static variables; the history is a list of rows. `overrun` is set by a write outside of `history_buffer`,
-- which C leaves undefined; what is written then is lost here.
pub record Console : Type 0 where
  pub history : List (List ℕ)
  pub cursor_x : ℕ
  pub cursor_y : ℕ
  pub view_offset : ℕ
  pub screen_rows : ℕ
  pub screen_cols : ℕ
  pub overrun : Bool

abbrev pub blank_row : List ℕ
blank_row = replicate max_cols 0

-- The state part of `console_init`, for a frame buffer of that size; a letter is 16 pixels wide and high.
unfoldable pub console_init : ℕ → ℕ → Console
console_init width height = record {
  history = replicate max_history blank_row;
  cursor_x = 0;
  cursor_y = 0;
  view_offset = 0;
  screen_rows = height / 16;
  screen_cols = if ltb max_cols (width / 16) then max_cols else width / 16;
  overrun = false;
}

-- The end of `console_scroll`: the new offset is kept between 0 and the cursor's row.
unfoldable pub console_scroll : Console → ℤ → Console
console_scroll c (pos n) =
    let offset = c.view_offset + n in
    record c { view_offset = if ltb c.cursor_y offset then c.cursor_y else offset }
console_scroll c (negsuc n) =
    let offset = c.view_offset - (n + 1) in
    record c { view_offset = if ltb c.cursor_y offset then c.cursor_y else offset }

-- All rows move up by one, and the last one is cleared.
unfoldable pub check_history_scroll : Console → Console
check_history_scroll c =
    if leb max_history c.cursor_y
    then record c { history = drop 1 c.history ++ (blank_row ∷ []); cursor_y = max_history - 1 }
    else c

-- `history_buffer[y][x] = ch`
abbrev pub put : Console → ℕ → ℕ → ℕ → Console
put c y x ch = record c {
  history = set c.history y (set (get_or c.history y []) x ch);
  overrun = c.overrun || leb max_history y || leb max_cols x;
}

-- The cursor goes one to the right, and on to the next row at the end of a row.
unfoldable pub advance : Console → Console
advance c =
    if leb c.screen_cols (c.cursor_x + 1)
    then check_history_scroll (record c { cursor_x = 0; cursor_y = c.cursor_y + 1 })
    else record c { cursor_x = c.cursor_x + 1 }

-- A newline, a backspace and a printable character.
unfoldable pub newline : Console → Console
newline c =
    check_history_scroll (record c { cursor_x = 0; cursor_y = c.cursor_y + 1; view_offset = 0 })

unfoldable pub backspace : Console → Console
backspace c =
    if ltb 0 c.cursor_x
    then put (record c { cursor_x = c.cursor_x - 1 }) c.cursor_y (c.cursor_x - 1) b' '
    else c

unfoldable pub print_ordinary : Console → ℕ → Console
print_ordinary c ch =
    let y = if leb max_history c.cursor_y then max_history - 1 else c.cursor_y in
    advance (put (record c { cursor_y = y }) y c.cursor_x ch)

unfoldable pub kprint_char : Console → ℕ → Console
kprint_char c ch =
    if ch == 10
    then newline c
    else (if ch == 8
        then backspace c
        else (if leb b' ' ch && leb ch b'~' then print_ordinary c ch else c))

unfoldable pub kprint : Console → List ℕ → Console
kprint c [] = c
kprint c (ch ∷ str) = kprint (kprint_char c ch) str

unfoldable pub kprintln : Console → List ℕ → Console
kprintln c str = kprint_char (kprint c str) 10
