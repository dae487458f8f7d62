-- ===== src/Pointer.antt =====
-- kernel.cpp, `MouseToConsole`: the mouse pointer on the text screen, shown by a cell whose two
-- colours change places. Video memory maps a cell number to a 16-bit cell.
pub mod Trail
mod Tests
use hydra_os.Common.{
  ℕ, ◌+◌, ◌-◌, ◌*◌, ◌/◌, ◌%◌, ◌^◌, Bool, true, false, u8, u16, ltb, leb, ◌==◌, if◌then◌else◌,
}

pub record MouseToConsole : Type 0 where
  pub x : ℕ
  pub y : ℕ

-- `(v & 0xF000) >> 4 | (v & 0x0F00) << 4 | (v & 0x00FF)`, whose three parts are disjoint.
pub invert : ℕ → ℕ
invert v = v / 2 ^ 12 % 16 * 2 ^ 8 + v / 2 ^ 8 % 16 * 2 ^ 12 + v % 2 ^ 8

-- `VideoMemory[p] = ...` of the cell itself.
pub invert_at : (ℕ → ℕ) → ℕ → ℕ → ℕ
unfolding invert
invert_at m p q = if q == p then invert (m q) else m q

-- `80*y+x`.
pub cell_of : MouseToConsole → ℕ
cell_of c = 80 * c.y + c.x

-- An `int8_t` coordinate below 128 plus an `int`, given by its word: the sum wraps, is raised to 0
-- and cut at `bound`.
pub clamp : ℕ → ℕ → ℕ → ℕ
clamp position offset bound =
    let moved = u8 (position + offset) in
    if leb 128 moved then 0 else if leb bound moved then bound - 1 else moved

pub on_activate : (ℕ → ℕ) → MouseToConsole × (ℕ → ℕ)
unfolding invert_at cell_of
on_activate m = let c : MouseToConsole = record { x = 40; y = 12 } in (c, invert_at m (cell_of c))

pub on_mouse_move : MouseToConsole → (ℕ → ℕ) → ℕ → ℕ → MouseToConsole × (ℕ → ℕ)
unfolding invert_at cell_of clamp
on_mouse_move c m xoffset yoffset =
    let m' = invert_at m (cell_of c) in
    let c' : MouseToConsole = record { x = clamp c.x xoffset 80; y = clamp c.y yoffset 25 } in
    (c', invert_at m' (cell_of c'))
