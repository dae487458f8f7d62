-- ===== src/Common/Table.antt =====
-- A check of all numbers below a bound, by evaluation.
use Prim.Native.Nat.{ℕ, zero, suc, ◌<◌}
use mathlib.Core.Path.{◌≡◌, ap, ◌∙◌}
use mathlib.Core.Logic.{inl, inr}
use mathlib.Core.Bool.{Bool, true, false}
use native.Mathlib.Omega.{arith}
use hydra_os.Common.Tests.{if◌then◌else◌, lt_cases}

-- Every number below `n` passes.
unfoldable pub each_below : (ℕ → Bool) → ℕ → Bool
each_below passes zero = true
each_below passes (suc n) = if passes n then each_below passes n else false

pub each_below_lem :
    (passes : ℕ → Bool) (n key : ℕ) → key < n → each_below passes n ≡ true → passes key ≡ true
unfolding each_below
each_below_lem passes zero key below all = elim below [ ]
each_below_lem passes (suc n) key below all = elim (lt_cases key n) [
  | inl lt ↦ each_below_lem passes n key lt (ground arith)
  | inr (inl e) ↦ ap passes e ∙ ground arith
  | inr (inr gt) ↦ absurd (omega arith)
]
