-- ===== src/TextMode.antt =====
-- drivers/vga.cpp, `VGATextMode`: the 80 by 25 text screen. Video memory maps a cell number to a
-- 16-bit cell, and the port writes are kept as pairs of port and byte, the latest first.
pub mod Cells
pub mod Cursor
pub mod Digits
pub mod Drawing
mod Tests
use Prim.Native.Nat.{bit_or}
use hydra_os.Common.{
  ℕ, zero, suc, ◌+◌, ◌-◌, ◌*◌, ◌/◌, ◌%◌, ◌^◌, Bool, true, false, ◌&&◌, List, [], ◌∷◌, ◌++◌, u8, u16,
  get_or, ltb, leb, ◌==◌, if◌then◌else◌,
}

abbrev pub screen_width : ℕ
screen_width = 80

abbrev pub screen_height : ℕ
screen_height = 25

pub record Screen : Type 0 where
  pub video_memory : ℕ → ℕ
  pub cursor_x : ℕ
  pub cursor_y : ℕ
  pub foreground_color : ℕ
  pub background_color : ℕ
  pub ports : List (ℕ × ℕ)

-- `videoMemory[p] = v`.
unfoldable pub store : (ℕ → ℕ) → ℕ → ℕ → ℕ → ℕ
store m p v q = if q == p then v else m q

-- `((uint16_t)backgroundColor << 12) | ((uint16_t)foregroundColor << 8)`.
pub attribute : Screen → ℕ
attribute s = u16 (bit_or (s.background_color * 2 ^ 12) (s.foreground_color * 2 ^ 8))

-- A signed `char`, given by its byte, as 16 bits of the `int` that it becomes.
unfoldable pub widen : ℕ → ℕ
widen c = if ltb c 128 then c else 2 ^ 16 - 2 ^ 8 + c

-- `attrib | c`.
pub cell : Screen → ℕ → ℕ
unfolding attribute widen
cell s c = bit_or (attribute s) (widen c)

abbrev pub space : ℕ
space = 32

-- The loop over `x` in a row, with `n` rounds left.
pub fill_row : ℕ → ℕ → ℕ → ℕ → (ℕ → ℕ) → ℕ → ℕ
fill_row zero x y v m = m
fill_row (suc n) x y v m = fill_row n (x + 1) y v (store m (screen_width * y + x) v)

-- The loop over `y` of `Clear`.
pub fill_rows : ℕ → ℕ → ℕ → (ℕ → ℕ) → ℕ → ℕ
fill_rows zero y v m = m
fill_rows (suc n) y v m = fill_rows n (y + 1) v (fill_row screen_width 0 y v m)

-- `Scroll` copies the row below.
pub copy_row : ℕ → ℕ → ℕ → (ℕ → ℕ) → ℕ → ℕ
copy_row zero x y m = m
copy_row (suc n) x y m =
    copy_row n (x + 1) y (store m (screen_width * y + x) (m (screen_width * (y + 1) + x)))

pub copy_rows : ℕ → ℕ → (ℕ → ℕ) → ℕ → ℕ
copy_rows zero y m = m
copy_rows (suc n) y m = copy_rows n (y + 1) (copy_row screen_width 0 y m)

-- The two halves of the position go to the registers 14 and 15 of the CRT controller.
pub update_cursor : Screen → Screen
update_cursor s =
    let position = u16 (s.cursor_y * screen_width + s.cursor_x) in
    record s {
      ports =
          (0x3D5, position % 2 ^ 8)
          ∷ (0x3D4, 15)
          ∷ (0x3D5, position / 2 ^ 8 % 2 ^ 8)
          ∷ (0x3D4, 14)
          ∷ s.ports;
    }

pub clear : Screen → Screen
unfolding update_cursor fill_rows cell
clear s = update_cursor (record s {
  video_memory = fill_rows screen_height 0 (cell s space) s.video_memory;
  cursor_x = 0;
  cursor_y = 0;
})

-- The constructor: white on black.
pub init : (ℕ → ℕ) → List (ℕ × ℕ) → Screen
unfolding clear
init m trace = clear record {
  video_memory = m;
  cursor_x = 0;
  cursor_y = 0;
  foreground_color = 15;
  background_color = 0;
  ports = trace;
}

pub set_color : Screen → ℕ → ℕ → Screen
set_color s foreground background = record s {
  foreground_color = u8 foreground;
  background_color = u8 background;
}

pub scroll : Screen → Screen
unfolding copy_rows fill_row cell
scroll s = record s {
  video_memory =
      fill_row screen_width 0 (screen_height - 1) (cell s space)
        (copy_rows (screen_height - 1) 0 s.video_memory);
  cursor_y = screen_height - 1;
}

pub at_cursor : Screen → ℕ
at_cursor s = screen_width * s.cursor_y + s.cursor_x

-- The `switch` of `PutChar`.
pub place_char : Screen → ℕ → Screen
unfolding store cell at_cursor
place_char s c =
    if c == 10
    then record s { cursor_x = 0; cursor_y = u8 (s.cursor_y + 1) }
    else if c == 13
    then record s { cursor_x = 0 }
    else if c == 9
    then record s { cursor_x = u8 ((s.cursor_x + 4) / 4 * 4) }
    else if c == 8
    then (let back = record s { cursor_x = s.cursor_x - 1 } in
        if ltb 0 s.cursor_x
        then record back { video_memory = store s.video_memory (at_cursor back) (cell s space) }
        else s)
    else record s {
      video_memory = store s.video_memory (at_cursor s) (cell s c);
      cursor_x = u8 (s.cursor_x + 1);
    }

pub wrap_line : Screen → Screen
wrap_line s =
    if leb screen_width s.cursor_x
    then record s { cursor_x = 0; cursor_y = u8 (s.cursor_y + 1) }
    else s

pub wrap_screen : Screen → Screen
unfolding scroll
wrap_screen s = if leb screen_height s.cursor_y then scroll s else s

pub put_char : Screen → ℕ → Screen
unfolding update_cursor wrap_screen wrap_line place_char
put_char s c = update_cursor (wrap_screen (wrap_line (place_char s c)))

pub print : Screen → List ℕ → Screen
unfolding put_char
print s [] = s
print s (c ∷ str) = print (put_char s c) str

-- `hex[d]`.
unfoldable pub hex_digit : ℕ → ℕ
hex_digit d = if ltb d 10 then 48 + d else 55 + d

pub print_hex : Screen → ℕ → Screen
unfolding put_char hex_digit
print_hex s value =
    put_char (put_char s (hex_digit (value / 2 ^ 4 % 2 ^ 4))) (hex_digit (value % 2 ^ 4))

pub print_hex16 : Screen → ℕ → Screen
unfolding print_hex
print_hex16 s value = print_hex (print_hex s (value / 2 ^ 8 % 2 ^ 8)) (value % 2 ^ 8)

pub print_hex32 : Screen → ℕ → Screen
unfolding print_hex16
print_hex32 s value = print_hex16 (print_hex16 s (value / 2 ^ 16 % 2 ^ 16)) (value % 2 ^ 16)

-- The digits that the first loop of `PrintNumber` leaves in `buffer[0 .. i)`, the last one first;
-- the second loop prints from the other end. Fuel runs out behind the tenth digit only.
pub buffer_digits : ℕ → ℕ → List ℕ → List ℕ
buffer_digits zero value printed = printed
buffer_digits (suc fuel) value printed =
    let rest = buffer_digits fuel (value / 10) ((48 + value % 10) ∷ printed) in
    if ltb 0 value then rest else printed

pub print_number : Screen → ℕ → Screen
unfolding print buffer_digits
print_number s value = if value == 0 then put_char s 48 else print s (buffer_digits 10 value [])

pub set_cursor_position : Screen → ℕ → ℕ → Screen
unfolding update_cursor
set_cursor_position s x y =
    if ltb x screen_width && ltb y screen_height
    then update_cursor (record s { cursor_x = x; cursor_y = y })
    else s

-- What `GetCursorPosition` stores through its two pointers.
pub get_cursor_position : Screen → ℕ × ℕ
get_cursor_position s = (s.cursor_x, s.cursor_y)
