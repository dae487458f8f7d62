-- ===== src/Shell/Output.antt =====
-- The calls of the screen driver that shell.cpp makes.
use hydra_os.Common.{ℕ, List, [], ◌∷◌, String, codes}
use hydra_os.TextMode.{
  Screen, set_color, print, put_char, print_hex, print_hex32, print_number, clear,
}

pub data Output : Type 0 where
  -- `SetColor(c, VGA_COLOR_BLACK)`; the shell has no other background.
  color : ℕ → Output
  -- `Print` of a literal, and of a C string.
  text : String → Output
  chars : List ℕ → Output
  char : ℕ → Output
  hex : ℕ → Output
  hex32 : ℕ → Output
  number : ℕ → Output
  wipe : Output

unfoldable pub display : Screen → Output → Screen
display s (color c) = set_color s c 0
display s (text t) = print s (codes t)
display s (chars t) = print s t
display s (char c) = put_char s c
display s (hex n) = print_hex s n
display s (hex32 n) = print_hex32 s n
display s (number n) = print_number s n
display s wipe = clear s

unfoldable pub show : Screen → List Output → Screen
unfolding display
show s [] = s
show s (o ∷ os) = show (display s o) os
