-- ===== src/TextMode/Drawing.antt =====
-- The calls of the screen driver that draw, one after another.
use hydra_os.Common.{
  ℕ, ◌/◌, ◌%◌, ◌^◌, ◌≡◌, ◌≤◌, ◌∙◌, refl, List, [], Bool, true, false, ◌==◌, if◌then◌else◌, arith,
}
use hydra_os.TextMode.{
  Screen, put_char, print, set_color, hex_digit, print_hex, print_hex16, print_hex32, print_number,
  buffer_digits, clear, init, update_cursor,
}
use hydra_os.TextMode.Cells.{clear_cells}
use hydra_os.TextMode.Cursor.{OnScreen, Safe, put_char-Safe, print-Safe}

-- From a screen `s` with its cursor in bounds.
module _ (s : Screen) where
  pub same_Safe : OnScreen s → Safe s s
  same_Safe v = record { on_screen = v; cells = λ q le. refl }

  module _ (s' : Screen) (v : Safe s s') where
    pub set_color-Safe : (f b : ℕ) → Safe s (set_color s' f b)
    unfolding set_color
    set_color-Safe f b = record {
      on_screen = record { column = v.on_screen.column; row = v.on_screen.row };
      cells = v.cells;
    }

    pub then_print-Safe : (text : List ℕ) → Safe s (print s' text)
    then_print-Safe text =
        let w = print-Safe s' text v.on_screen in
        record { on_screen = w.on_screen; cells = λ q le. w.cells q le ∙ v.cells q le }

    pub then_put_Safe : (c : ℕ) → Safe s (put_char s' c)
    then_put_Safe c =
        let w = put_char-Safe s' c v.on_screen in
        record { on_screen = w.on_screen; cells = λ q le. w.cells q le ∙ v.cells q le }

  pub print_hex-Safe : (s' : Screen) → Safe s s' → (n : ℕ) → Safe s (print_hex s' n)
  unfolding print_hex
  print_hex-Safe s' v n =
      then_put_Safe _ (then_put_Safe s' v (hex_digit (n / 2 ^ 4 % 2 ^ 4))) (hex_digit (n % 2 ^ 4))

  hex16_Safe : (s' : Screen) → Safe s s' → (n : ℕ) → Safe s (print_hex16 s' n)
  unfolding print_hex16
  hex16_Safe s' v n = print_hex-Safe _ (print_hex-Safe s' v (n / 2 ^ 8 % 2 ^ 8)) (n % 2 ^ 8)

  pub print_hex32-Safe : (s' : Screen) → Safe s s' → (n : ℕ) → Safe s (print_hex32 s' n)
  unfolding print_hex32
  print_hex32-Safe s' v n = hex16_Safe _ (hex16_Safe s' v (n / 2 ^ 16 % 2 ^ 16)) (n % 2 ^ 16)

  either_Safe : (b : Bool) (x y : Screen) → Safe s x → Safe s y → Safe s (if b then x else y)
  either_Safe true x y p q = p
  either_Safe false x y p q = q

  pub print_number-Safe : (s' : Screen) → Safe s s' → (n : ℕ) → Safe s (print_number s' n)
  unfolding print_number
  print_number-Safe s' v n =
      either_Safe (n == 0) _ _ (then_put_Safe s' v 48)
        (then_print-Safe s' v (buffer_digits 10 n []))

  clear-OnScreen : (s' : Screen) → OnScreen (clear s')
  unfolding clear update_cursor
  clear-OnScreen s' = record { column = omega arith; row = omega arith }

  beyond : (s' : Screen) (q : ℕ) → 2000 ≤ q → (clear s').video_memory q ≡ s'.video_memory q
  beyond s' q le = ground (arith, clear_cells s' q)

  pub clear-Safe : (s' : Screen) → Safe s s' → Safe s (clear s')
  clear-Safe s' v = record {
    on_screen = clear-OnScreen s';
    cells = λ q le. beyond s' q le ∙ v.cells q le;
  }

-- The screen that the constructor clears.
abbrev pub unset : (ℕ → ℕ) → List (ℕ × ℕ) → Screen
unset m trace = record {
  video_memory = m;
  cursor_x = 0;
  cursor_y = 0;
  foreground_color = 15;
  background_color = 0;
  ports = trace;
}

pub init-Safe : (m : ℕ → ℕ) (trace : List (ℕ × ℕ)) → Safe (unset m trace) (init m trace)
unfolding init
init-Safe m trace =
    clear-Safe (unset m trace) (unset m trace)
      (same_Safe (unset m trace) (record { column = omega arith; row = omega arith }))
