-- ===== src/Console.antt =====
-- kernel.cpp: `printf`, which writes to video memory past the screen driver and keeps a position
-- of its own.
pub mod Laws
mod Tests
use Prim.Native.Nat.{bit_and, bit_or}
use hydra_os.Common.{
  ℕ, zero, suc, ◌+◌, ◌*◌, ◌/◌, ◌%◌, ◌^◌, List, [], ◌∷◌, u8, leb, ◌==◌, if◌then◌else◌,
}
use hydra_os.TextMode.{store, widen, hex_digit}

-- The static variables, and the video memory.
pub record Console : Type 0 where
  pub video_memory : ℕ → ℕ
  pub x : ℕ
  pub y : ℕ

-- `(VideoMemory[p] & 0xFF00) | c`.
pub recolored : ℕ → ℕ → ℕ
unfolding widen
recolored cell c = bit_or (cell / 2 ^ 8 % 2 ^ 8 * 2 ^ 8) (widen c)

-- The `switch`.
pub place : Console → ℕ → Console
unfolding store recolored
place k c = if c == 10 then record k { x = 0; y = u8 (k.y + 1) } else record k {
  video_memory =
      store k.video_memory (80 * k.y + k.x) (recolored (k.video_memory (80 * k.y + k.x)) c);
  x = u8 (k.x + 1);
}

pub wrap : Console → Console
wrap k = if leb 80 k.x then record k { x = 0; y = u8 (k.y + 1) } else k

-- The loops that blank the screen, with `n` rounds left.
pub blank_row : ℕ → ℕ → ℕ → (ℕ → ℕ) → ℕ → ℕ
blank_row zero x y m = m
blank_row (suc n) x y m =
    blank_row n (x + 1) y (store m (80 * y + x) (recolored (m (80 * y + x)) 32))

pub blank_rows : ℕ → ℕ → (ℕ → ℕ) → ℕ → ℕ
blank_rows zero y m = m
blank_rows (suc n) y m = blank_rows n (y + 1) (blank_row 80 0 y m)

pub restart : Console → Console
unfolding blank_rows blank_row
restart k =
    if leb 25 k.y then record { video_memory = blank_rows 25 0 k.video_memory; x = 0; y = 0 } else k

pub print_char : Console → ℕ → Console
unfolding place wrap restart
print_char k c = restart (wrap (place k c))

pub printf : Console → List ℕ → Console
unfolding print_char
printf k [] = k
printf k (c ∷ str) = printf (print_char k c) str

-- The two digits are written into a string literal, which is then printed.
pub printf_hex : Console → ℕ → Console
unfolding printf hex_digit
printf_hex k key = printf k (hex_digit (key / 2 ^ 4 % 2 ^ 4) ∷ hex_digit (key % 2 ^ 4) ∷ [])
