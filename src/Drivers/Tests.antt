-- ===== src/Drivers/Tests.antt =====
-- Two drivers, told apart by numbers, that leave their number in a list.
use hydra_os.Common.{ℕ, ◌∷◌, [], List, some, arith}
use hydra_os.Drivers.{init, add_drivers}
use hydra_os.Drivers.Order.{each, Activates, activate_all-add_drivers}

abbrev log : ℕ → List ℕ → List ℕ
log d s = d ∷ s

activate_all-add_drivers_example :
    Activates log (add_drivers (some (init (λ i. 0))) (1 ∷ 2 ∷ [])) (each log (1 ∷ 2 ∷ []))
activate_all-add_drivers_example = activate_all-add_drivers log (λ i. 0) (1 ∷ 2 ∷ []) (omega arith)
