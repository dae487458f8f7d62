-- ===== src/Drivers.antt =====
-- driver.cpp, class DriverManager, over the drivers' type and what Activate of a driver does to the
-- machine. A write behind the array of 255 drivers is `none`.
pub mod Order
mod Tests
use hydra_os.Common.{ℕ, zero, suc, ◌==◌, if◌then◌else◌, ltb, Option, none, some, List, [], ◌∷◌}

abbrev pub max_drivers : ℕ
max_drivers = 255

pub record DriverManager (D : Type 0) : Type 0 where
  pub drivers : ℕ → D
  pub num_drivers : ℕ

module _ {D : Type 0} where
  -- The constructor leaves in the array what the memory held.
  pub init : (ℕ → D) → DriverManager D
  init memory = record { drivers = memory; num_drivers = 0 }

  put_driver : (ℕ → D) → ℕ → D → ℕ → D
  put_driver drivers i d j = if j == i then d else drivers j

  pub add_driver : DriverManager D → D → Option (DriverManager D)
  add_driver m d =
      if ltb m.num_drivers max_drivers
      then some
          record { drivers = put_driver m.drivers m.num_drivers d; num_drivers = suc m.num_drivers }
      else none

  -- AddDriver, unless a call before it has written behind the array.
  add_next : Option (DriverManager D) → D → Option (DriverManager D)
  add_next none d = none
  add_next (some m) d = add_driver m d

  -- The calls of AddDriver for a list of drivers.
  pub add_drivers : Option (DriverManager D) → List D → Option (DriverManager D)
  add_drivers m [] = m
  add_drivers m (d ∷ ds) = add_drivers (add_next m d) ds

module _ {D S : Type 0} where
  activate_loop : (D → S → S) → ℕ → (ℕ → D) → ℕ → S → S
  activate_loop activate zero drivers i s = s
  activate_loop activate (suc left) drivers i s =
      activate_loop activate left drivers (suc i) (activate (drivers i) s)

  pub activate_all : (D → S → S) → DriverManager D → S → S
  activate_all activate m s = activate_loop activate m.num_drivers m.drivers 0 s
