-- ===== src/Ata/Drive.antt =====
-- What the driver relies on: a drive behind the ports that follows the protocol for programmed
-- input and output of one sector. It answers the commands after a delay of fewer polls than the
-- driver waits for, and has no errors.

pub mod Polling
pub mod Selecting
pub mod Moving
pub mod Ready
pub mod Reading
pub mod Writing
pub mod Tests
use hydra_os.Common.{
  ℕ, ◌+◌, ◌-◌, ◌*◌, ◌/◌, ◌%◌, ◌^◌, ◌<◌, ◌≡◌, Bool, true, false, ◌&&◌, List, [], ◌∷◌, ◌++◌, length,
  ltb, u16, ◌==◌, if◌then◌else◌,
}
use hydra_os.Ports.{Ports}
use hydra_os.Ata.{Ata, has, poll_limit, write_port, get_status}

-- The drive waits for a command, or has these bytes to give, or takes the bytes of a sector.
pub data Phase : Type 0 where
  idle : Phase
  giving : List ℕ → Phase
  taking : ℕ → List ℕ → Phase

-- Whether the drive has data to move.
abbrev pub asks : Phase → Bool
asks idle = false
asks (giving bytes) = true
asks (taking sector bytes) = true

pub record View : Type 0 where
  pub content : ℕ → List ℕ
  pub device : ℕ
  pub count : ℕ
  pub low : ℕ
  pub mid : ℕ
  pub high : ℕ
  -- The number of polls for which the drive is still busy.
  pub delay : ℕ
  pub phase : Phase

abbrev pub lba : View → ℕ
lba v = v.device % 2 ^ 4 * 2 ^ 24 + v.high * 2 ^ 16 + v.mid * 2 ^ 8 + v.low

-- The phase with these bytes still to give.
abbrev pub given : List ℕ → Phase
given [] = idle
given (b ∷ bytes) = giving (b ∷ bytes)

-- The drive with these bytes of a sector: the 512th is the last.
abbrev pub filled : View → ℕ → List ℕ → View
filled v sector bytes =
    if length bytes == 512
    then record v { content = λ t. if t == sector then bytes else v.content t; phase = idle }
    else record v { phase = taking sector bytes }

-- A word that the drive takes.
abbrev pub taken : View → ℕ → List ℕ → ℕ → View
taken v sector bytes w = filled v sector (bytes ++ (w % 2 ^ 8) ∷ (w / 2 ^ 8) ∷ [])

module _ (p : Ports) (ata : Ata) where
  open p use {State, in16, out16}

  pub record IsDrive : Type 0 where
    pub view : State → View
    pub status_view :
        (s : State) → view (get_status p ata s).1 ≡ record (view s) { delay = (view s).delay - 1 }
    pub status_busy : (s : State) → has (get_status p ata s).0 0x80 ≡ ltb 0 (view s).delay
    pub status_data :
        (s : State)
        → has (get_status p ata s).0 0x08 ≡ (((view s).delay == 0) && asks (view s).phase)
    pub status_error : (s : State) → has (get_status p ata s).0 0x01 ≡ false
    pub status_fault : (s : State) → has (get_status p ata s).0 0x20 ≡ false
    -- A register keeps the byte that is written to it.
    pub features_view : (s : State) (v : ℕ) → view (write_port p ata s 1 v) ≡ view s
    pub count_view :
        (s : State) (v : ℕ)
        → v < 2 ^ 8
        → view (write_port p ata s 2 v) ≡ record (view s) { count = v }
    pub low_view :
        (s : State) (v : ℕ)
        → v < 2 ^ 8
        → view (write_port p ata s 3 v) ≡ record (view s) { low = v }
    pub mid_view :
        (s : State) (v : ℕ)
        → v < 2 ^ 8
        → view (write_port p ata s 4 v) ≡ record (view s) { mid = v }
    pub high_view :
        (s : State) (v : ℕ)
        → v < 2 ^ 8
        → view (write_port p ata s 5 v) ≡ record (view s) { high = v }
    pub device_view :
        (s : State) (v : ℕ)
        → v < 2 ^ 8
        → view (write_port p ata s 6 v) ≡ record (view s) { device = v }
    -- The commands, and how long the drive is busy with one.
    pub latency : State → ℕ → ℕ
    pub latency_lt : (s : State) (c : ℕ) → latency s c < poll_limit
    pub read_view :
        (s : State)
        → (view s).phase ≡ idle
        → (view s).delay ≡ 0
        → (view s).count ≡ 1
        → view (write_port p ata s 7 0x20) ≡ record (view s) {
          phase = giving ((view s).content (lba (view s)));
          delay = latency s 0x20;
        }
    pub write_view :
        (s : State)
        → (view s).phase ≡ idle
        → (view s).delay ≡ 0
        → (view s).count ≡ 1
        → view (write_port p ata s 7 0x30)
          ≡ record (view s) { phase = taking (lba (view s)) []; delay = latency s 0x30 }
    pub flush_view :
        (s : State)
        → (view s).phase ≡ idle
        → view (write_port p ata s 7 0xE7) ≡ record (view s) { delay = latency s 0xE7 }
    -- The data port.
    pub in16_gives :
        (s : State) (a b : ℕ) (bytes : List ℕ)
        → (view s).phase ≡ giving (a ∷ b ∷ bytes)
        → (view s).delay ≡ 0
        → (in16 s (u16 ata.port_base)).0 ≡ a + b * 2 ^ 8
    pub in16_view :
        (s : State) (a b : ℕ) (bytes : List ℕ)
        → (view s).phase ≡ giving (a ∷ b ∷ bytes)
        → (view s).delay ≡ 0
        → view (in16 s (u16 ata.port_base)).1 ≡ record (view s) { phase = given bytes }
    pub out16_view :
        (s : State) (w sector : ℕ) (bytes : List ℕ)
        → w < 2 ^ 16
        → (view s).phase ≡ taking sector bytes
        → (view s).delay ≡ 0
        → view (out16 s (u16 ata.port_base) w) ≡ taken (view s) sector bytes w
