-- ===== src/Interrupts/Dispatch.antt =====
-- An interrupt goes to the handler that is registered for it.
use hydra_os.Common.{
  ℕ, ◌+◌, ◌≡◌, ◌≢◌, ◌∙◌, refl, ap, true, false, not, ◌&&◌, Option, none, some, List, ◌∷◌, ltb, leb,
  ◌==◌, if◌then◌else◌, arith,
}
use hydra_os.Interrupts.{
  Handler, InterruptManager, Outcome, register, acknowledge, do_handle_interrupt,
}

-- The end-of-interrupt commands that an interrupt's number calls for, the slave's the latest.
pub commands : ℕ → ℕ → List (ℕ × ℕ) → List (ℕ × ℕ)
commands offset n ports =
    if leb (offset + 8) n && ltb n (offset + 16)
    then (0xA0, 0x20) ∷ (0x20, 0x20) ∷ ports
    else if leb offset n && ltb n (offset + 8)
    then (0x20, 0x20) ∷ ports
    else ports

module _ (W : Type 0) where
  acknowledge-eq-commands :
      (offset n : ℕ) (ports : List (ℕ × ℕ)) → acknowledge W offset n ports ≡ commands offset n ports
  unfolding acknowledge commands
  acknowledge-eq-commands offset n ports = ground arith

  -- What the dispatch does with a handler or without one.
  dispatched : Option (Handler W) → ℕ → ℕ → ℕ → W → List (ℕ × ℕ) → Outcome W
  dispatched found offset n esp w ports = elim found [
    | none ↦ record {
      esp = esp;
      world = w;
      reported = not (n == offset);
      ports = acknowledge W offset n ports;
    }
    | some h ↦ record {
      esp = (h w esp).0;
      world = (h w esp).1;
      reported = false;
      ports = acknowledge W offset n ports;
    }
  ]

  -- After a handler is registered for a number, an interrupt of that number calls it once with
  -- the interrupted stack pointer, goes on with the stack pointer that it returns, reports
  -- nothing and acknowledges the controllers that the number belongs to; an interrupt of
  -- another number does what it did before.
  pub do_handle_interrupt-register :
      (manager : InterruptManager W) (number : ℕ) (h : Handler W) (n esp : ℕ) (w : W)
      (ports : List (ℕ × ℕ))
      → (let after = do_handle_interrupt W (register W manager number h) in
          let offset = manager.hardware_interrupt_offset in
          (after number esp w ports ≡ record {
            esp = (h w esp).0;
            world = (h w esp).1;
            reported = false;
            ports = commands offset number ports;
          })
          × (n ≢ number → after n esp w ports ≡ do_handle_interrupt W manager n esp w ports))
  unfolding do_handle_interrupt register dispatched
  do_handle_interrupt-register manager number h n esp w ports = (
    ap
          (λ b.
            dispatched (if b then some h else manager.handlers number)
              manager.hardware_interrupt_offset number esp w ports)
          (same number number refl)
        ∙ ap (λ ps. record { esp = (h w esp).0; world = (h w esp).1; reported = false; ports = ps })
            (acknowledge-eq-commands manager.hardware_interrupt_offset number ports),
    λ ne.
        ap
          (λ b.
            dispatched (if b then some h else manager.handlers n) manager.hardware_interrupt_offset
              n esp w ports)
          (apart n number ne),
  )
    where
      same : (a b : ℕ) → a ≡ b → (a == b) ≡ true
      same a b e = ground arith

      apart : (a b : ℕ) → a ≢ b → (a == b) ≡ false
      apart a b ne = ground arith
