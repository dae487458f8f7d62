-- ===== src/Timer.antt =====
-- drivers/pit.cpp: the programmable interval timer. The port writes are kept as pairs of port and
-- byte, the latest first.
pub mod Laws
mod Tests
use hydra_os.Common.{
  ℕ, zero, suc, ◌+◌, ◌-◌, ◌*◌, ◌/◌, ◌%◌, ◌^◌, Bool, true, false, Option, none, some, List, [], ◌∷◌,
  u32, sub32, ltb, ◌==◌, if◌then◌else◌,
}

pub record Timer : Type 0 where
  pub ticks : ℕ
  pub frequency : ℕ
  pub ports : List (ℕ × ℕ)

abbrev pub input_frequency : ℕ
input_frequency = 1193180

pub set_frequency : Timer → ℕ → Timer
set_frequency t freq =
    let divisor = input_frequency / freq in
    if freq == 0 then t else record t {
      frequency = freq;
      ports = (0x40, divisor / 2 ^ 8 % 2 ^ 8) ∷ (0x40, divisor % 2 ^ 8) ∷ (0x43, 0x36) ∷ t.ports;
    }

-- The constructor, on memory that held `frequency`.
pub init : ℕ → List (ℕ × ℕ) → Timer
unfolding set_frequency
init frequency trace =
    set_frequency (record { ticks = 0; frequency = frequency; ports = trace }) 100

pub get_frequency : Timer → ℕ
get_frequency t = t.frequency

pub get_ticks : Timer → ℕ
get_ticks t = t.ticks

pub get_milliseconds : Timer → ℕ
get_milliseconds t = u32 (t.ticks * 1000) / t.frequency

-- `HandleInterrupt`.
pub tick : Timer → Timer
tick t = record t { ticks = u32 (t.ticks + 1) }

-- `targetTicks` of `Sleep`.
pub target_ticks : Timer → ℕ → ℕ
target_ticks t milliseconds = u32 (milliseconds * t.frequency) / 1000

-- The loop of `Sleep`, which started at `start`; a round sees one more interrupt. The result is
-- `none` if fuel runs out.
pub wait_loop : ℕ → ℕ → ℕ → Timer → Option Timer
unfolding tick
wait_loop zero start target t = none
wait_loop (suc fuel) start target t =
    let rest = wait_loop fuel start target (tick t) in
    if ltb (sub32 t.ticks start) target then rest else some t

pub sleep : ℕ → Timer → ℕ → Option Timer
unfolding wait_loop target_ticks
sleep fuel t milliseconds = wait_loop fuel t.ticks (target_ticks t milliseconds) t
