-- ===== src/Controller.antt =====
-- drivers/keyboard.cpp and drivers/mouse.cpp: what Activate of the two drivers says to the PS/2
-- controller, on a machine of ports. Each wait for the controller has `fuel` rounds.
pub mod Protocol
pub mod Activation
pub mod Tests
use Prim.Native.Nat.{bit_and, bit_or}
use hydra_os.Common.{ℕ, zero, suc, ◌%◌, Option, none, some, ◌==◌, if◌then◌else◌}
use hydra_os.Ports.{Ports}

module _ (p : Ports) where
  open p use {State, in8, out8}

  -- `while(commandport.Read() & 0x1) dataport.Read();`.
  pub clear_output : ℕ → State → Option State
  clear_output zero s = none
  clear_output (suc fuel) s =
      let (v, s1) = in8 s 0x64 in
      let rest = clear_output fuel (in8 s1 0x60).1 in if v % 2 == 1 then rest else some s1

  -- `while(!(commandport.Read() & 0x1));`.
  pub wait_output : ℕ → State → Option State
  wait_output zero s = none
  wait_output (suc fuel) s =
      let (v, s1) = in8 s 0x64 in
      let rest = wait_output fuel s1 in if v % 2 == 1 then some s1 else rest

  -- The first loop and the commands behind it, the second loop, and what follows.
  pub read_command_byte : ℕ → ℕ → Option State → Option State
  unfolding wait_output
  read_command_byte fuel enable none = none
  read_command_byte fuel enable (some s) = wait_output fuel (out8 (out8 s 0x64 enable) 0x64 0x20)

  pub enable_keyboard : Option State → Option State
  enable_keyboard none = none
  enable_keyboard (some s) =
      let (v, s1) = in8 s 0x60 in
      let status = bit_and (bit_or v 1) 0xEF in
      some (out8 (out8 (out8 s1 0x64 0x60) 0x60 status) 0x60 0xF4)

  pub activate_keyboard : ℕ → State → Option State
  unfolding clear_output read_command_byte enable_keyboard
  activate_keyboard fuel s = enable_keyboard (read_command_byte fuel 0xAE (clear_output fuel s))

  pub enable_mouse : Option State → Option State
  enable_mouse none = none
  enable_mouse (some s) =
      let (v, s1) = in8 s 0x60 in
      let s2 = out8 (out8 s1 0x64 0x60) 0x60 (bit_or v 2) in
      some (in8 (out8 (out8 s2 0x64 0xD4) 0x60 0xF4) 0x60).1

  pub activate_mouse : ℕ → State → Option State
  unfolding clear_output read_command_byte enable_mouse
  activate_mouse fuel s = enable_mouse (read_command_byte fuel 0xA8 (clear_output fuel s))
