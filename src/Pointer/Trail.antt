-- ===== src/Pointer/Trail.antt =====
-- The pointer stays on the screen and leaves no trail.
use mathlib.Core.Path.{fun_ext}
use hydra_os.Common.{ℕ, ◌^◌, ◌<◌, ◌≤◌, ◌≡◌, ◌∙◌, refl, sym, ap, subst, List, [], ◌∷◌, arith}
use hydra_os.Pointer.{MouseToConsole, invert, invert_at, cell_of, clamp, on_activate, on_mouse_move}

invert-invert : (v : ℕ) → v < 2 ^ 16 → invert (invert v) ≡ v
unfolding invert
invert-invert v lt = omega arith

invert_at-invert_at :
    (m : ℕ → ℕ) (p : ℕ) → ((q : ℕ) → m q < 2 ^ 16) → invert_at (invert_at m p) p ≡ m
unfolding invert_at
invert_at-invert_at m p w = fun_ext (λ q. ground (arith, invert-invert (m q) (w q)))

-- Any moves, each with its two offsets.
pub moves : List (ℕ × ℕ) → MouseToConsole → (ℕ → ℕ) → MouseToConsole × (ℕ → ℕ)
unfolding on_mouse_move
moves [] c m = (c, m)
moves ((dx, dy) ∷ ds) c m = let (c', m') = on_mouse_move c m dx dy in moves ds c' m'

pub record OnScreen (c : MouseToConsole) : Type 0 where
  pub column : c.x < 80
  pub row : c.y < 25

clamp-lt : (p d b : ℕ) → 0 < b → clamp p d b < b
unfolding clamp
clamp-lt p d b pos = ground arith

-- The pointer is on the screen, and the screen shows `m` with the cell of the pointer inverted.
pub record Shows (m : ℕ → ℕ) (r : MouseToConsole × (ℕ → ℕ)) : Type 0 where
  pub on_screen : OnScreen r.0
  pub screen : r.1 ≡ invert_at m (cell_of r.0)

on_mouse_move-Shows :
    (m : ℕ → ℕ) (c : MouseToConsole) (dx dy : ℕ)
    → ((q : ℕ) → m q < 2 ^ 16)
    → Shows m (on_mouse_move c (invert_at m (cell_of c)) dx dy)
unfolding on_mouse_move
on_mouse_move-Shows m c dx dy w = record {
  on_screen = record {
    column = clamp-lt c.x dx 80 (omega arith);
    row = clamp-lt c.y dy 25 (omega arith);
  };
  screen =
      ap (λ g. invert_at g (cell_of (record { x = clamp c.x dx 80; y = clamp c.y dy 25 })))
        (invert_at-invert_at m (cell_of c) w);
}

moves-Shows :
    (ds : List (ℕ × ℕ)) (m : ℕ → ℕ) (c : MouseToConsole)
    → ((q : ℕ) → m q < 2 ^ 16)
    → OnScreen c
    → Shows m (moves ds c (invert_at m (cell_of c)))
unfolding moves
moves-Shows [] m c w v = record { on_screen = v; screen = refl }
moves-Shows ((dx, dy) ∷ ds) m c w v =
    let s = on_mouse_move-Shows m c dx dy w in
    subst (λ g. Shows m (moves ds (on_mouse_move c (invert_at m (cell_of c)) dx dy).0 g))
      (sym s.screen)
      (moves-Shows ds m (on_mouse_move c (invert_at m (cell_of c)) dx dy).0 w s.on_screen)

-- However the mouse moves after OnActivate, on a screen of 16-bit cells, the pointer stays on
-- the screen, and the screen differs from what it was by the swapped colours of the pointer's
-- cell alone.
pub on_activate-moves :
    (ds : List (ℕ × ℕ)) (m : ℕ → ℕ)
    → ((q : ℕ) → m q < 2 ^ 16)
    → Shows m (moves ds (on_activate m).0 (on_activate m).1)
unfolding on_activate
on_activate-moves ds m w = moves-Shows ds m _ w (record { column = omega arith; row = omega arith })

-- The cells that the pointer changes are on the screen.
invert_at-beyond :
    (m : ℕ → ℕ) (c : MouseToConsole) (q : ℕ)
    → OnScreen c
    → 2000 ≤ q
    → invert_at m (cell_of c) q ≡ m q
unfolding invert_at cell_of
invert_at-beyond m c q v le = ground (arith, v.column, v.row)

pub record StaysInside (m : ℕ → ℕ) (r : MouseToConsole × (ℕ → ℕ)) : Type 0 where
  pub inside : OnScreen r.0
  pub cells : (q : ℕ) → 2000 ≤ q → r.1 q ≡ m q

pub on_activate-inside : (m : ℕ → ℕ) → StaysInside m (on_activate m)
unfolding on_activate
on_activate-inside m =
    let on : OnScreen (record { x = 40; y = 12 }) = record {
      column = omega arith;
      row = omega arith;
    } in
    record { inside = on; cells = λ q le. invert_at-beyond m _ q on le }

pub on_mouse_move-inside :
    (m : ℕ → ℕ) (c : MouseToConsole) (dx dy : ℕ)
    → OnScreen c
    → StaysInside m (on_mouse_move c m dx dy)
unfolding on_mouse_move
on_mouse_move-inside m c dx dy v = record {
  inside = moved;
  cells =
      λ q le. invert_at-beyond (invert_at m (cell_of c)) _ q moved le ∙ invert_at-beyond m c q v le;
}
  where
    moved : OnScreen (record { x = clamp c.x dx 80; y = clamp c.y dy 25 })
    moved = record {
      column = clamp-lt c.x dx 80 (omega arith);
      row = clamp-lt c.y dy 25 (omega arith);
    }
