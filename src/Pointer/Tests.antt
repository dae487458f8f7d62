-- ===== src/Pointer/Tests.antt =====
-- Two moves over a white-on-black screen, the first one out of it.
use hydra_os.Common.{ℕ, ◌-◌, ◌^◌, [], ◌∷◌, arith}
use hydra_os.Pointer.{on_activate}
use hydra_os.Pointer.Trail.{moves, Shows, on_activate-moves}

abbrev blank : ℕ → ℕ
blank q = 0x0F20

on_activate-moves_example :
    Shows blank
      (moves ((60, 2 ^ 32 - 20) ∷ (3, 4) ∷ []) (on_activate blank).0 (on_activate blank).1)
on_activate-moves_example =
    on_activate-moves ((60, 2 ^ 32 - 20) ∷ (3, 4) ∷ []) blank (λ q. omega arith)
