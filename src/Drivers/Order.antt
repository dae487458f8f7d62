-- ===== src/Drivers/Order.antt =====
-- The order in which DriverManager of driver.cpp activates the drivers.
use hydra_os.Common.{
  ℕ, zero, suc, ◌+◌, ◌<◌, ◌≤◌, ◌≡◌, ◌≢◌, ◌∙◌, refl, ap, Option, some, List, [], ◌∷◌, length, arith,
}
use hydra_os.Drivers.{
  DriverManager, max_drivers, init, put_driver, add_driver, add_drivers, add_next, activate_loop,
  activate_all,
}

module _ {D : Type 0} where
  put_driver_other : (a : ℕ → D) (p : ℕ) (d : D) (i : ℕ) → i ≢ p → put_driver a p d i ≡ a i
  unfolding put_driver
  put_driver_other a p d i ne = ground arith

  put_driver_self : (a : ℕ → D) (p : ℕ) (d : D) → put_driver a p d p ≡ d
  unfolding put_driver
  put_driver_self a p d = ground arith

  added : DriverManager D → D → DriverManager D
  added m d = record {
    drivers = put_driver m.drivers m.num_drivers d;
    num_drivers = suc m.num_drivers;
  }

  add_driver-added :
      (m : DriverManager D) (d : D)
      → m.num_drivers < max_drivers
      → add_driver m d ≡ some (added m d)
  unfolding add_driver added
  add_driver-added m d lt = ground arith

module _ {D S : Type 0} (activate : D → S → S) where
  -- The drivers activated one after the other.
  unfoldable pub each : List D → S → S
  each [] s = s
  each (d ∷ ds) s = each ds (activate d s)

  activate_loop-suc :
      (n : ℕ) (a : ℕ → D) (i : ℕ) (s : S)
      → activate_loop activate (suc n) a i s ≡ activate (a (i + n)) (activate_loop activate n a i s)
  unfolding activate_loop
  activate_loop-suc zero a i s = ap (λ k. activate (a k) s) (omega arith)
  activate_loop-suc (suc n) a i s =
      activate_loop-suc n a (suc i) (activate (a i) s)
      ∙ ap (λ k. activate (a k) (activate_loop activate n a (suc i) (activate (a i) s)))
          (omega arith)

  activate_loop-put_driver :
      (n : ℕ) (a : ℕ → D) (p : ℕ) (d : D) (i : ℕ) (s : S)
      → i + n ≤ p
      → activate_loop activate n (put_driver a p d) i s ≡ activate_loop activate n a i s
  unfolding activate_loop
  activate_loop-put_driver zero a p d i s le = refl
  activate_loop-put_driver (suc n) a p d i s le =
      activate_loop-put_driver n a p d (suc i) (activate (put_driver a p d i) s) (omega arith)
      ∙ ap (λ x. activate_loop activate n a (suc i) (activate x s))
          (put_driver_other a p d i (omega arith))

  activate_all-added :
      (m : DriverManager D) (d : D) (s : S)
      → activate_all activate (added m d) s ≡ activate d (activate_all activate m s)
  unfolding activate_all added
  activate_all-added m d s =
      activate_loop-suc m.num_drivers (put_driver m.drivers m.num_drivers d) 0 s
      ∙ ap
          (λ x.
            activate x
              (activate_loop activate m.num_drivers (put_driver m.drivers m.num_drivers d) 0 s))
          (ap (put_driver m.drivers m.num_drivers d) (omega arith)
            ∙ put_driver_self m.drivers m.num_drivers d)
      ∙ ap (activate d)
          (activate_loop-put_driver m.num_drivers m.drivers m.num_drivers d 0 s (omega arith))

  -- The manager that results, and what it activates.
  pub record Activates (result : Option (DriverManager D)) (run : S → S) : Type 0 where
    pub manager : DriverManager D
    pub fits : result ≡ some manager
    pub runs : (s : S) → activate_all activate manager s ≡ run s

  add_drivers_lem :
      (ds : List D) (m : DriverManager D)
      → m.num_drivers + length ds ≤ max_drivers
      → Activates (add_drivers (some m) ds) (λ s. each ds (activate_all activate m s))
  unfolding add_drivers add_next each
  add_drivers_lem [] m le = record { manager = m; fits = refl; runs = λ s. refl }
  add_drivers_lem (d ∷ ds) m le =
      let rest = add_drivers_lem ds (added m d) (unfold added in omega arith) in
      record {
        manager = rest.manager;
        fits = ap (λ r. add_drivers r ds) (add_driver-added m d (omega arith)) ∙ rest.fits;
        runs = λ s. rest.runs s ∙ ap (each ds) (activate_all-added m d s);
      }

  -- After at most 255 drivers are added to a new manager, whatever its array held, every
  -- AddDriver has stayed in the array, and ActivateAll activates each driver once, in the order
  -- in which they were added.
  pub activate_all-add_drivers :
      (memory : ℕ → D) (ds : List D)
      → length ds ≤ max_drivers
      → Activates (add_drivers (some (init memory)) ds) (each ds)
  unfolding init activate_all activate_loop
  activate_all-add_drivers memory ds le = add_drivers_lem ds (init memory) (omega arith)
