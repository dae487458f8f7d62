-- ===== src/TextMode/Cursor.antt =====
-- The cursor stays on the screen, `PutChar` writes no cell beyond it, and the CRT controller is
-- told of every move.
use hydra_os.Common.{
  ℕ, ◌+◌, ◌*◌, ◌^◌, ◌≤◌, ◌<◌, ◌≡◌, ◌∙◌, refl, ◌&&◌, List, [], ◌∷◌, ◌==◌, if◌then◌else◌, arith,
}
use hydra_os.TextMode.{
  Screen, store, at_cursor, update_cursor, scroll, place_char, wrap_line, wrap_screen, put_char,
  print,
}
use hydra_os.TextMode.Cells.{scroll_cells}

pub record OnScreen (s : Screen) : Type 0 where
  pub column : s.cursor_x < 80
  pub row : s.cursor_y < 25

-- What `PutChar` may have at hand before it wraps.
record Placed (s s' : Screen) : Type 0 where
  column : s'.cursor_x ≤ 80
  row : s'.cursor_y ≤ 25
  -- A full row and a full screen do not meet.
  one : (s'.cursor_x ≡ 80) → s'.cursor_y < 25
  cells : (q : ℕ) → 2000 ≤ q → s'.video_memory q ≡ s.video_memory q

place_char-Placed : (s : Screen) (c : ℕ) → OnScreen s → Placed s (place_char s c)
unfolding place_char at_cursor store
place_char-Placed s c v = record {
  column = ground (arith, v.column);
  row = ground (arith, v.row);
  one = λ e. ground (arith, v.row, v.column);
  cells = λ q le. ground (arith, v.row, v.column);
}

record Wrapped (s s' : Screen) : Type 0 where
  column : s'.cursor_x < 80
  row : s'.cursor_y ≤ 25
  cells : (q : ℕ) → 2000 ≤ q → s'.video_memory q ≡ s.video_memory q

wrap_line-Wrapped : (s s' : Screen) → Placed s s' → Wrapped s (wrap_line s')
unfolding wrap_line
wrap_line-Wrapped s s' p = record {
  column = ground (arith, p.column);
  row = ground (arith, p.row, p.one);
  cells = λ q le. ground (arith, p.cells q le);
}

-- A screen whose cells beyond the visible ones are those of `s`.
pub record Safe (s s' : Screen) : Type 0 where
  pub on_screen : OnScreen s'
  pub cells : (q : ℕ) → 2000 ≤ q → s'.video_memory q ≡ s.video_memory q

scroll-row : (s : Screen) → (scroll s).cursor_y ≡ 24
unfolding scroll
scroll-row s = refl

scroll-column : (s : Screen) → (scroll s).cursor_x ≡ s.cursor_x
unfolding scroll
scroll-column s = refl

wrap_screen-Safe : (s s' : Screen) → Wrapped s s' → Safe s (wrap_screen s')
unfolding wrap_screen
wrap_screen-Safe s s' w = record {
  on_screen = record {
    column = ground (arith, w.column, scroll-column s');
    row = ground (arith, w.row, scroll-row s');
  };
  cells = λ q le. ground (arith, w.cells q le, scroll_cells s' q);
}

update_cursor-Safe : (s s' : Screen) → Safe s s' → Safe s (update_cursor s')
unfolding update_cursor
update_cursor-Safe s s' v = record {
  on_screen = record { column = v.on_screen.column; row = v.on_screen.row };
  cells = v.cells;
}

-- With the cursor on the screen, PutChar of any character keeps the cursor on the screen and
-- changes no cell of video memory beyond the 2000 cells of the screen.
pub put_char-Safe : (s : Screen) (c : ℕ) → OnScreen s → Safe s (put_char s c)
unfolding put_char
put_char-Safe s c v =
    update_cursor-Safe s _
      (wrap_screen-Safe s _ (wrap_line-Wrapped s (place_char s c) (place_char-Placed s c v)))

-- The same for a text.
pub print-Safe : (s : Screen) (str : List ℕ) → OnScreen s → Safe s (print s str)
unfolding print
print-Safe s [] v = record { on_screen = v; cells = λ q le. refl }
print-Safe s (c ∷ str) v =
    let first = put_char-Safe s c v in
    let rest = print-Safe (put_char s c) str first.on_screen in
    record { on_screen = rest.on_screen; cells = λ q le. rest.cells q le ∙ first.cells q le }

-- The position that the CRT controller holds, from the writes to its ports, the latest first: the
-- index port 0x3D4 selects the register that the data port 0x3D5 then sets.
pub register : ℕ → List (ℕ × ℕ) → ℕ
register n [] = 0
register n ((p, b) ∷ []) = 0
register n ((p, b) ∷ (p', i) ∷ ws) =
    let rest = register n ((p', i) ∷ ws) in
    if p == 0x3D5 && (p' == 0x3D4 && (i == n)) then b else rest

abbrev pub hardware_cursor : Screen → ℕ
hardware_cursor s = register 14 s.ports * 2 ^ 8 + register 15 s.ports

update_cursor-hardware :
    (s : Screen) → OnScreen s → hardware_cursor (update_cursor s) ≡ s.cursor_y * 80 + s.cursor_x
unfolding update_cursor register
update_cursor-hardware s v = omega (arith, v.column, v.row)

-- With the cursor on the screen, after PutChar of any character the cursor registers 14 and 15
-- of the CRT controller, as set by the writes to its ports, show the position where the driver
-- has the cursor.
pub put_char-hardware :
    (s : Screen) (c : ℕ)
    → OnScreen s
    → hardware_cursor (put_char s c) ≡ (put_char s c).cursor_y * 80 + (put_char s c).cursor_x
unfolding put_char
put_char-hardware s c v =
    update_cursor-hardware (wrap_screen (wrap_line (place_char s c)))
      (wrap_screen-Safe s _
        (wrap_line-Wrapped s (place_char s c) (place_char-Placed s c v))).on_screen
    ∙ unfold update_cursor in refl
