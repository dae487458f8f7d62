-- ===== src/Mouse/Tests.antt =====
-- A packet that presses the left button.
use hydra_os.Common.{◌+◌, ◌≡◌, refl, [], ◌∷◌, arith}
use hydra_os.Mouse.{bit}
use hydra_os.Mouse.Buttons.{deliver, deliver_lem, ready, tracked}

deliver_example :
    (let r = deliver (ready 0 0 0 0) ((0x20, 9) ∷ (0x20, 5) ∷ (0x20, 0) ∷ []) in
      (r.0 ≡ ready 9 5 0 9) × (tracked (0 + 1) (bit 0 0) r.1 ≡ bit 9 0))
deliver_example =
    deliver_lem 0 0 0 0 0x20 0x20 0x20 9 5 0 0 (unfold bit in refl) (unfold bit in refl)
      (unfold bit in refl) (omega arith)
