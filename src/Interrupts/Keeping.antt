-- ===== src/Interrupts/Keeping.antt =====
-- What every handler makes of a property of the world, every interrupt makes of it.
use hydra_os.Common.{
  ℕ, ◌≡◌, inl, inr, arith, Bool-cases, refl, sym, subst, false, not, Option, none, some, List, ◌==◌,
}
use hydra_os.Interrupts.{
  Handler, InterruptManager, Outcome, register, acknowledge, do_handle_interrupt,
}

-- `P` holds before a handler and `Q` after it.
module _ (W : Type 0) (P Q : W → Type 0) where
  unfoldable pub Keeps : Option (Handler W) → Type 0
  Keeps none = Unit
  Keeps (some h) = (w : W) (esp : ℕ) → P w → Q (h w esp).1

  -- The handler of number `n`, after one more is registered.
  pub register-Keeps :
      (manager : InterruptManager W) (number : ℕ) (h : Handler W) (n : ℕ)
      → Keeps (manager.handlers n)
      → (n ≡ number → (w : W) (esp : ℕ) → P w → Q (h w esp).1)
      → Keeps ((register W manager number h).handlers n)
  unfolding register Keeps
  register-Keeps manager number h n before keeps = elim (Bool-cases (n == number)) [
    | inl e ↦ rw e (keeps (ground (arith, e)))
    | inr ne ↦ rw ne before
  ]

  -- The world that a handler leaves, if there is one.
  answered : Option (Handler W) → W → ℕ → W
  answered none w esp = w
  answered (some h) w esp = (h w esp).1

  answered-keeps :
      (o : Option (Handler W)) (w : W) (esp : ℕ)
      → (P w → Q w)
      → Keeps o
      → P w
      → Q (answered o w esp)
  unfolding Keeps answered
  answered-keeps none w esp same k p = same p
  answered-keeps (some h) w esp same k p = k w esp p

  dispatch-eq :
      (manager : InterruptManager W) (n esp : ℕ) (w : W) (ports : List (ℕ × ℕ))
      → (do_handle_interrupt W manager n esp w ports).world ≡ answered (manager.handlers n) w esp
  unfolding do_handle_interrupt answered
  dispatch-eq manager n esp w ports = by_cases (manager.handlers n)
    where
      by_cases :
          (o : Option (Handler W))
          → (elim o as (λ o. Outcome W) [
            | none ↦ record {
              esp = esp;
              world = w;
              reported = not (n == manager.hardware_interrupt_offset);
              ports = acknowledge W manager.hardware_interrupt_offset n ports;
            }
            | some h ↦ record {
              esp = (h w esp).0;
              world = (h w esp).1;
              reported = false;
              ports = acknowledge W manager.hardware_interrupt_offset n ports;
            }
          ]).world
            ≡ answered o w esp
      by_cases none = refl
      by_cases (some h) = refl

  pub do_handle_interrupt-keeps :
      (manager : InterruptManager W) (n esp : ℕ) (w : W) (ports : List (ℕ × ℕ))
      → (P w → Q w)
      → Keeps (manager.handlers n)
      → P w
      → Q (do_handle_interrupt W manager n esp w ports).world
  do_handle_interrupt-keeps manager n esp w ports same keeps p =
      subst Q (sym (dispatch-eq manager n esp w ports))
        (answered-keeps (manager.handlers n) w esp same keeps p)
