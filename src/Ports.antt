-- ===== src/Ports.antt =====
-- hardwarecommunication/port.cpp: the port classes, over the `in` and `out` instructions.
use hydra_os.Common.{ℕ, ◌%◌, ◌^◌, u16}

-- What the `in` and `out` instructions do; the drive behind the ports is part of the state.
pub record Ports : Type 1 where
  pub State : Type 0
  pub in8 : State → ℕ → ℕ × State
  pub out8 : State → ℕ → ℕ → State
  pub in16 : State → ℕ → ℕ × State
  pub out16 : State → ℕ → ℕ → State
  pub in32 : State → ℕ → ℕ × State
  pub out32 : State → ℕ → ℕ → State

-- `class Port`, for all four classes that inherit from it.
pub record Port : Type 0 where
  pub portnumber : ℕ

pub port : ℕ → Port
port portnumber = record { portnumber = u16 portnumber }

module _ (p : Ports) where
  open p use {State, in8, out8, in16, out16, in32, out32}

  pub write8 : State → Port → ℕ → State
  write8 s q value = out8 s q.portnumber (value % 2 ^ 8)

  pub read8 : State → Port → ℕ × State
  read8 s q = in8 s q.portnumber

  -- The two jumps behind the instruction give the device time, and change nothing.
  pub write8_slow : State → Port → ℕ → State
  write8_slow s q value = out8 s q.portnumber (value % 2 ^ 8)

  pub write16 : State → Port → ℕ → State
  write16 s q value = out16 s q.portnumber (value % 2 ^ 16)

  pub read16 : State → Port → ℕ × State
  read16 s q = in16 s q.portnumber

  pub write32 : State → Port → ℕ → State
  write32 s q value = out32 s q.portnumber (value % 2 ^ 32)

  pub read32 : State → Port → ℕ × State
  read32 s q = in32 s q.portnumber
