-- ===== src/TextMode/Tests.antt =====
-- The text screen at its start, and at its last cell.
use hydra_os.Common.{◌+◌, ◌*◌, ◌≡◌, [], ◌∷◌, arith, ltb, if◌then◌else◌}
use hydra_os.TextMode.{Screen, cell, space, scroll, put_char, print}
use hydra_os.TextMode.Cells.{scroll_cells}
use hydra_os.TextMode.Cursor.{OnScreen, Safe, print-Safe, put_char-hardware, hardware_cursor}

-- The cursor stands on the last cell of the screen.
abbrev corner : Screen
corner = record {
  video_memory = λ q. 0;
  cursor_x = 79;
  cursor_y = 24;
  foreground_color = 15;
  background_color = 0;
  ports = [];
}

corner-OnScreen : OnScreen corner
corner-OnScreen = record { column = omega arith; row = omega arith }

scroll_cells_example :
    (scroll corner).video_memory 1930
    ≡ (if ltb 1930 1920 then 0 else if ltb 1930 2000 then cell corner space else 0)
scroll_cells_example = scroll_cells corner 1930

print-Safe_example : Safe corner (print corner (65 ∷ 10 ∷ 8 ∷ []))
print-Safe_example = print-Safe corner (65 ∷ 10 ∷ 8 ∷ []) corner-OnScreen

put_char-hardware_example :
    hardware_cursor (put_char corner 65)
    ≡ (put_char corner 65).cursor_y * 80 + (put_char corner 65).cursor_x
put_char-hardware_example = put_char-hardware corner 65 corner-OnScreen
