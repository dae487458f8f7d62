-- ===== src/Ata/Drive/Selecting.antt =====
-- What the registers hold before a command.
use Prim.Native.Nat.{bit_or}
use hydra_os.Common.{
  ℕ, ◌/◌, ◌%◌, ◌^◌, ◌<◌, ◌≡◌, ◌∙◌, refl, ap, Bool, true, false, ◌&&◌, ltb, ◌==◌, if◌then◌else◌,
  arith,
}
use hydra_os.Common.Table.{each_below, each_below_lem}
use hydra_os.Ports.{Ports}
use hydra_os.Ata.{Ata, device_byte, write_port, wait, select}
use hydra_os.Ata.Drive.{View, lba, IsDrive}
use hydra_os.Ata.Drive.Polling.{wait_lem}

-- The drive bits above a digit of the sector number.
is_above : ℕ → ℕ → Bool
is_above bits x = (bit_or bits x % 2 ^ 4 == x) && ltb (bit_or bits x) (2 ^ 8)

master_table : each_below (is_above 0xE0) 16 ≡ true
unfolding each_below is_above
master_table = refl

slave_table : each_below (is_above 0xF0) 16 ≡ true
unfolding each_below is_above
slave_table = refl

above_lem :
    (bits x : ℕ) → is_above bits x ≡ true → (bit_or bits x % 2 ^ 4 ≡ x) × (bit_or bits x < 2 ^ 8)
unfolding is_above
above_lem bits x e = ground arith

device_byte_lem :
    (ata : Ata) (s : ℕ)
    → (device_byte ata s % 2 ^ 4 ≡ s / 2 ^ 24 % 2 ^ 4) × (device_byte ata s < 2 ^ 8)
unfolding device_byte
device_byte_lem ata s = picks ata.master
  where
    x : ℕ
    x = s / 2 ^ 24 % 2 ^ 4

    picks :
        (b : Bool)
        → (bit_or (if b then 0xE0 else 0xF0) x % 2 ^ 4 ≡ x)
          × (bit_or (if b then 0xE0 else 0xF0) x < 2 ^ 8)
    picks true = above_lem 0xE0 x (each_below_lem (is_above 0xE0) 16 x (omega arith) master_table)
    picks false = above_lem 0xF0 x (each_below_lem (is_above 0xF0) 16 x (omega arith) slave_table)

module _ (p : Ports) (ata : Ata) (d : IsDrive p ata) where
  open p use {State}
  open d use {view}

  -- The registers of a drive that is to move one sector.
  abbrev pub selected : View → ℕ → View
  selected v sector = record v {
    device = device_byte ata sector;
    count = 1;
    low = sector % 2 ^ 8;
    mid = sector / 2 ^ 8 % 2 ^ 8;
    high = sector / 2 ^ 16 % 2 ^ 8;
  }

  pub lba-selected : (v : View) (sector : ℕ) → sector < 2 ^ 28 → lba (selected v sector) ≡ sector
  lba-selected v sector lt = omega (arith, (device_byte_lem ata sector).0)

  pub select_lem :
      (s : State) (sector : ℕ)
      → (view s).delay ≡ 0
      → view (select p ata s sector 1) ≡ selected (view s) sector
  unfolding select
  select_lem s sector e =
      d.high_view _ (sector / 2 ^ 16 % 2 ^ 8) (omega arith)
      ∙ ap (λ (v : View). record v { high = sector / 2 ^ 16 % 2 ^ 8 })
          (d.mid_view _ (sector / 2 ^ 8 % 2 ^ 8) (omega arith)
            ∙ ap (λ (v : View). record v { mid = sector / 2 ^ 8 % 2 ^ 8 })
                (d.low_view _ (sector % 2 ^ 8) (omega arith)
                  ∙ ap (λ (v : View). record v { low = sector % 2 ^ 8 })
                      (d.count_view _ 1 (omega arith)
                        ∙ ap (λ (v : View). record v { count = 1 })
                            (d.features_view _ 0 ∙ chosen))))
    where
      first : View
      first = record (view s) { device = device_byte ata sector }

      moved : view (write_port p ata s 6 (device_byte ata sector)) ≡ first
      moved = d.device_view s (device_byte ata sector) (device_byte_lem ata sector).1

      chosen : view (wait p ata (write_port p ata s 6 (device_byte ata sector))) ≡ first
      chosen = wait_lem p ata d _ (ap (λ (v : View). v.delay) moved ∙ e) ∙ moved
