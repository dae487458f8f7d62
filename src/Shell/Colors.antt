-- ===== src/Shell/Colors.antt =====
-- `VGAColor` of drivers/vga.h: the colours that the shell uses.
use hydra_os.Common.{ℕ}

abbrev pub light_blue : ℕ
light_blue = 9

abbrev pub light_green : ℕ
light_green = 10

abbrev pub light_cyan : ℕ
light_cyan = 11

abbrev pub light_red : ℕ
light_red = 12

abbrev pub light_magenta : ℕ
light_magenta = 13

abbrev pub light_brown : ℕ
light_brown = 14

abbrev pub white : ℕ
white = 15
