-- ===== src/Drivers/Console/History.antt =====
-- The bounds of the history, the cursor and the view of kernel/src/drivers/console.c.
use sudo_os.Prelude.{
  ℕ, zero, suc, ◌+◌, ◌-◌, ◌≤◌, ◌<◌, ◌≡◌, false, ◌&&◌, refl, ap, ◌∙◌, arith, List, [], ◌∷◌, ◌++◌,
  ◌==◌, ltb, leb, if◌then◌else◌, Bool-cases, inl, inr, drop, get_or, set, replicate, length,
  length-set, length-append, length-drop, length-replicate,
}
use sudo_os.Prelude.Int.{ℤ, pos, negsuc}
use sudo_os.Drivers.Console.{
  Console, blank_row, console_init, console_scroll, check_history_scroll, put, advance, newline,
  backspace, print_ordinary, kprint_char, kprint,
}

abbrev pub Rows : List (List ℕ) → Type 0
Rows [] = Unit
Rows (r ∷ rs) = (length r ≡ 128) × Rows rs

-- The history has 1000 rows of 128 characters, the cursor stands in it and on the screen, and the view
-- goes back at most to the first row; no write has gone outside of the history.
pub record IsValid (c : Console) : Type 0 where
  pub height : length c.history ≡ 1000
  pub rows : Rows c.history
  pub column : c.cursor_x < c.screen_cols
  pub row : c.cursor_y < 1000
  pub view : c.view_offset ≤ c.cursor_y
  pub width : c.screen_cols ≤ 128
  pub within : c.overrun ≡ false

Rows-append : (rs : List (List ℕ)) (r : List ℕ) → Rows rs → length r ≡ 128 → Rows (rs ++ (r ∷ []))
Rows-append [] r h e = (e, tt)
Rows-append (s ∷ rs) r h e = (h.0, Rows-append rs r h.1 e)

Rows-drop_one : (rs : List (List ℕ)) → Rows rs → Rows (drop 1 rs)
Rows-drop_one [] h = tt
Rows-drop_one (r ∷ rs) h = h.1

Rows-set : (rs : List (List ℕ)) (y x ch : ℕ) → Rows rs → Rows (set rs y (set (get_or rs y []) x ch))
Rows-set [] y x ch h = tt
Rows-set (r ∷ rs) zero x ch h = (length-set r x ch ∙ h.0, h.1)
Rows-set (r ∷ rs) (suc y) x ch h = (h.0, Rows-set rs y x ch h.1)

Rows-replicate : (n : ℕ) → Rows (replicate n blank_row)
Rows-replicate zero = tt
Rows-replicate (suc n) = (length-replicate {A = ℕ} 128 0, Rows-replicate n)

-- On a screen that is at least one letter wide, the console starts in a valid state.
pub console_init-IsValid : (width height : ℕ) → 16 ≤ width → IsValid (console_init width height)
unfolding console_init
console_init-IsValid width height wide = record {
  height = length-replicate {A = List ℕ} 1000 blank_row;
  rows = Rows-replicate 1000;
  column = ground arith;
  row = omega arith;
  view = omega arith;
  width = ground arith;
  within = refl;
}

-- Valid, but for a cursor that may stand one row below the last.
record IsNear (c : Console) : Type 0 where
  height : length c.history ≡ 1000
  rows : Rows c.history
  column : c.cursor_x < c.screen_cols
  row : c.cursor_y ≤ 1000
  view : c.view_offset ≤ c.cursor_y
  view_in : c.view_offset < 1000
  width : c.screen_cols ≤ 128
  within : c.overrun ≡ false

check_history_scroll-IsValid : {c : Console} → IsNear c → IsValid (check_history_scroll c)
unfolding check_history_scroll
check_history_scroll-IsValid {c} n = elim (Bool-cases (leb 1000 c.cursor_y)) [
  | inl out ↦
      let height = n.height in
      let view_in = n.view_in in
      rw out (record {
        height =
            length-append (drop 1 c.history) (blank_row ∷ [])
            ∙ omega (arith, length-drop 1 c.history);
        rows =
            Rows-append (drop 1 c.history) blank_row (Rows-drop_one c.history n.rows)
              (length-replicate {A = ℕ} 128 0);
        column = n.column;
        row = omega arith;
        view = omega arith;
        width = n.width;
        within = n.within;
      })
  | inr inside ↦ rw inside (record {
    height = n.height;
    rows = n.rows;
    column = n.column;
    row = ground arith;
    view = n.view;
    width = n.width;
    within = n.within;
  })
]

module _ {c : Console} (v : IsValid c) where
  put-IsValid :
      (x y ch : ℕ) → x < c.screen_cols → y < 1000 → IsValid (put (record c { cursor_x = x }) y x ch)
  put-IsValid x y ch lt below = record {
    height = length-set c.history y (set (get_or c.history y []) x ch) ∙ v.height;
    rows = Rows-set c.history y x ch v.rows;
    column = lt;
    row = v.row;
    view = v.view;
    width = v.width;
    within = let w = v.within in let cols = v.width in ground arith;
  }

  newline-IsValid : IsValid (newline c)
  unfolding newline
  newline-IsValid =
      let row = v.row in
      let column = v.column in
      check_history_scroll-IsValid (record {
        height = v.height;
        rows = v.rows;
        column = omega arith;
        row = omega arith;
        view = omega arith;
        view_in = omega arith;
        width = v.width;
        within = v.within;
      })

  backspace-IsValid : IsValid (backspace c)
  unfolding backspace
  backspace-IsValid = elim (Bool-cases (ltb 0 c.cursor_x)) [
    | inl back ↦
        let column = v.column in
        rw back (put-IsValid (c.cursor_x - 1) c.cursor_y b' ' (omega arith) v.row)
    | inr start ↦ rw start v
  ]

  advance-IsValid : IsValid (advance c)
  unfolding advance
  advance-IsValid =
      let row = v.row in
      let column = v.column in
      let view = v.view in
      elim (Bool-cases (leb c.screen_cols (c.cursor_x + 1))) [
        | inl last ↦ rw last (
            check_history_scroll-IsValid (record {
              height = v.height;
              rows = v.rows;
              column = omega arith;
              row = omega arith;
              view = omega arith;
              view_in = omega arith;
              width = v.width;
              within = v.within;
            }))
        | inr more ↦ rw more (record {
          height = v.height;
          rows = v.rows;
          column = ground arith;
          row = row;
          view = view;
          width = v.width;
          within = v.within;
        })
      ]

  -- Where the cursor stands in the history, the check before the write changes nothing.
  print_ordinary-inside : (ch : ℕ) → print_ordinary c ch ≡ advance (put c c.cursor_y c.cursor_x ch)
  unfolding print_ordinary
  print_ordinary-inside ch =
      let row = v.row in
      let inside : leb 1000 c.cursor_y ≡ false = ground arith in
      ap
        (λ b. advance (
          put (record c { cursor_y = if b then 999 else c.cursor_y })
            (if b then 999 else c.cursor_y) c.cursor_x ch))
        inside

pub kprint_char-IsValid : {c : Console} (ch : ℕ) → IsValid c → IsValid (kprint_char c ch)
unfolding kprint_char
kprint_char-IsValid {c} ch v = elim (Bool-cases (ch == 10)) [
  | inl nl ↦ rw nl (newline-IsValid v)
  | inr no_nl ↦ elim (Bool-cases (ch == 8)) [
    | inl bs ↦ rw (no_nl, bs) (backspace-IsValid v)
    | inr no_bs ↦ elim (Bool-cases (leb b' ' ch && leb ch b'~')) [
      | inl ordinary ↦
          rw (no_nl, no_bs, ordinary, print_ordinary-inside v ch)
            (advance-IsValid (put-IsValid v c.cursor_x c.cursor_y ch v.column v.row))
      | inr other ↦ rw (no_nl, no_bs, other) v
    ]
  ]
]

-- Whatever bytes are printed, newlines, backspaces and any number of lines included, the console stays
-- valid; since `put` would set `overrun`, every character goes into one of the 1000 rows of the history and
-- into its 128 columns.
pub kprint-IsValid : (str : List ℕ) {c : Console} → IsValid c → IsValid (kprint c str)
unfolding kprint
kprint-IsValid [] v = v
kprint-IsValid (ch ∷ str) v = kprint-IsValid str (kprint_char-IsValid ch v)

-- Scrolling by any number of lines, forwards or back, keeps the view between the newest row and the
-- first one, and moves nothing else.
pub console_scroll-IsValid :
    {c : Console} (lines : ℤ)
    → IsValid c
    → IsValid (console_scroll c lines) × ((console_scroll c lines).history ≡ c.history)
unfolding console_scroll
console_scroll-IsValid {c} (pos n) v = (
  record {
    height = v.height;
    rows = v.rows;
    column = v.column;
    row = v.row;
    view = ground arith;
    width = v.width;
    within = v.within;
  },
  refl,
)
console_scroll-IsValid {c} (negsuc n) v = (
  record {
    height = v.height;
    rows = v.rows;
    column = v.column;
    row = v.row;
    view = ground arith;
    width = v.width;
    within = v.within;
  },
  refl,
)
