-- ===== src/Shell/Editor/Safety.antt =====
-- Whatever the shell prints stays on the screen.
use hydra_os.Common.{
  ℕ, zero, suc, List, [], ◌∷◌, codes, Bool, true, false, ltb, ◌==◌, if◌then◌else◌,
}
use hydra_os.TextMode.{Screen}
use hydra_os.TextMode.Cursor.{OnScreen, Safe}
use hydra_os.TextMode.Drawing.{
  same_Safe, set_color-Safe, then_print-Safe, then_put_Safe, print_hex-Safe, print_hex32-Safe,
  print_number-Safe, clear-Safe,
}
use hydra_os.Filesystem.Machine.{Machine}
use hydra_os.Shell.Info.{start}
use hydra_os.Shell.Output.{
  Output, color, text, chars, char, hex, hex32, number, wipe, display, show,
}
use hydra_os.Shell.Editor.{
  Shell, handle_key_press, enter, erase, insert, insert_spaces, blank_char, press, greet,
}

module _ (s : Screen) where
  display-Safe : (s' : Screen) (o : Output) → Safe s s' → Safe s (display s' o)
  unfolding display
  display-Safe s' (color c) v = set_color-Safe s s' v c 0
  display-Safe s' (text t) v = then_print-Safe s s' v (codes t)
  display-Safe s' (chars t) v = then_print-Safe s s' v t
  display-Safe s' (char c) v = then_put_Safe s s' v c
  display-Safe s' (hex n) v = print_hex-Safe s s' v n
  display-Safe s' (hex32 n) v = print_hex32-Safe s s' v n
  display-Safe s' (number n) v = print_number-Safe s s' v n
  display-Safe s' wipe v = clear-Safe s s' v

  pub show-Safe : (s' : Screen) (os : List Output) → Safe s s' → Safe s (show s' os)
  unfolding show
  show-Safe s' [] v = v
  show-Safe s' (o ∷ os) v = show-Safe (display s' o) os (display-Safe s' o v)

module _ (m : Machine) (s : Screen) where
  -- The shell's screen is safe from the view of `s`.
  abbrev IsSafe : Shell m → Type 0
  IsSafe h = Safe s h.vga

  either : (b : Bool) (x y : Shell m) → IsSafe x → IsSafe y → IsSafe (if b then x else y)
  either true x y p q = p
  either false x y p q = q

  insert-Safe : (h : Shell m) (c : ℕ) → IsSafe h → IsSafe (insert m h c)
  unfolding insert
  insert-Safe h c v = either (ltb h.buffer_index 255) _ h (show-Safe s h.vga (char c ∷ []) v) v

  insert_spaces-Safe : (n : ℕ) (h : Shell m) → IsSafe h → IsSafe (insert_spaces m n h)
  unfolding insert_spaces
  insert_spaces-Safe zero h v = v
  insert_spaces-Safe (suc n) h v =
      insert_spaces-Safe n (insert m h blank_char) (insert-Safe h blank_char v)

  erase-Safe : (h : Shell m) → IsSafe h → IsSafe (erase m h)
  unfolding erase
  erase-Safe h v = either (ltb 0 h.buffer_index) _ h (show-Safe s h.vga (char 8 ∷ []) v) v

  enter-Safe : (h : Shell m) → IsSafe h → IsSafe (enter m h)
  unfolding enter
  enter-Safe h v =
      show-Safe s _ _
        (either (ltb 0 h.buffer_index) _ _ (show-Safe s h.vga _ v) (show-Safe s h.vga _ v))

  handle_key_press-Safe : (h : Shell m) (c : ℕ) → IsSafe h → IsSafe (handle_key_press m h c)
  unfolding handle_key_press
  handle_key_press-Safe h c v = either (c == 10) _ _ (enter-Safe h v) (
      either (c == 8) _ _ (erase-Safe h v)
        (either (c == 9) _ _ (insert_spaces-Safe 4 h v) (insert-Safe h c v)))

  press-IsSafe : (cs : List ℕ) (h : Shell m) → IsSafe h → IsSafe (press m h cs)
  unfolding press
  press-IsSafe [] h v = v
  press-IsSafe (c ∷ cs) h v = press-IsSafe cs (handle_key_press m h c) (handle_key_press-Safe h c v)

-- Whatever keys are pressed, and so whatever commands they run, on any disk, a shell whose
-- cursor is on the screen keeps it there and changes no cell of video memory beyond the screen.
pub press-Safe :
    (m : Machine) (h : Shell m) (cs : List ℕ) → OnScreen h.vga → Safe h.vga (press m h cs).vga
press-Safe m h cs v = press-IsSafe m h.vga cs h (same_Safe h.vga v)

pub key-Safe :
    (m : Machine) (h : Shell m) (c : ℕ) → OnScreen h.vga → Safe h.vga (handle_key_press m h c).vga
key-Safe m h c v = handle_key_press-Safe m h.vga h c (same_Safe h.vga v)

pub greet-Safe : (m : Machine) (h : Shell m) (s : Screen) → Safe s h.vga → Safe s (greet m h).vga
unfolding greet
greet-Safe m h s v = show-Safe s h.vga start v
