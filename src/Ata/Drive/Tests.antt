-- ===== src/Ata/Drive/Tests.antt =====
-- A drive that keeps what it shows in its state, on the primary bus.
use hydra_os.Common.{
  ℕ, ◌+◌, ◌-◌, ◌*◌, ◌^◌, ◌<◌, ◌≡◌, ◌∙◌, refl, ap, Bool, true, false, not, ◌&&◌, [], ◌∷◌, replicate,
  length-replicate, u8, ltb, ◌==◌, if◌then◌else◌, arith,
}
use hydra_os.Ports.{Ports}
use hydra_os.Ata.{Ata, has, get_status, write_port, read28, write28}
use hydra_os.Ata.Drive.{View, Phase, idle, giving, taking, given, taken, asks, lba, IsDrive}
use hydra_os.Ata.Drive.Ready.{IsSector, Rests}
use hydra_os.Common.ByteLists.{replicate-IsBytes}
use hydra_os.Ata.Drive.Writing.{WasWritten, read28-write28}

abbrev status_of : View → ℕ
status_of v = if ltb 0 v.delay then 0x80 else if asks v.phase then 0x08 else 0

-- The command register; a command keeps the drive busy for three polls.
abbrev command : View → ℕ → View
command v c =
    if c == 0x20
    then record v { phase = giving (v.content (lba v)); delay = 3 }
    else if c == 0x30
    then record v { phase = taking (lba v) []; delay = 3 }
    else record v { delay = 3 }

abbrev set_register : View → ℕ → ℕ → View
set_register v port b =
    if port == 0x1F2
    then record v { count = b }
    else if port == 0x1F3
    then record v { low = b }
    else if port == 0x1F4
    then record v { mid = b }
    else if port == 0x1F5
    then record v { high = b }
    else if port == 0x1F6
    then record v { device = b }
    else if port == 0x1F7
    then command v b
    else v

abbrev give : View → Phase → ℕ × View
give v idle = (0, v)
give v (giving []) = (0, v)
give v (giving (a ∷ [])) = (a, v)
give v (giving (a ∷ b ∷ bytes)) = (a + b * 2 ^ 8, record v { phase = given bytes })
give v (taking sector bytes) = (0, v)

abbrev take_word : View → Phase → ℕ → View
take_word v idle w = v
take_word v (giving bytes) w = v
take_word v (taking sector bytes) w = taken v sector bytes w

abbrev pub bus : Ports
bus = record {
  State = View;
  in8 = λ v port. (status_of v, record v { delay = v.delay - 1 });
  out8 = set_register;
  in16 = λ v port. give v v.phase;
  out16 = λ v port w. take_word v v.phase w;
  in32 = λ v port. (0, v);
  out32 = λ v port w. v;
}

abbrev pub disk : Ata
disk = record { master = true; port_base = 0x1F0 }

status_bits :
    (busy wants : Bool)
    → (let status : ℕ = if busy then 0x80 else if wants then 0x08 else 0 in
        (has status 0x80 ≡ busy)
        × (has status 0x08 ≡ (not busy && wants))
        × (has status 0x01 ≡ false)
        × (has status 0x20 ≡ false))
unfolding has
status_bits true wants = (refl, refl, refl, refl)
status_bits false true = (refl, refl, refl, refl)
status_bits false false = (refl, refl, refl, refl)

not_busy : (n : ℕ) → not (ltb 0 n) ≡ (n == 0)
not_busy n = ground arith

byte_kept : (v : ℕ) → v < 2 ^ 8 → u8 v ≡ v
byte_kept v lt = omega arith

pub bus-IsDrive : IsDrive bus disk
unfolding get_status write_port
bus-IsDrive = record {
  view = λ v. v;
  status_view = λ v. refl;
  status_busy = λ v. (status_bits (ltb 0 v.delay) (asks v.phase)).0;
  status_data = λ v.
      (status_bits (ltb 0 v.delay) (asks v.phase)).1
      ∙ ap (λ b. b && asks v.phase) (not_busy v.delay);
  status_error = λ v. (status_bits (ltb 0 v.delay) (asks v.phase)).2;
  status_fault = λ v. (status_bits (ltb 0 v.delay) (asks v.phase)).3;
  features_view = λ v b. refl;
  count_view = λ v b lt. ap (λ n. record v { count = n }) (byte_kept b lt);
  low_view = λ v b lt. ap (λ n. record v { low = n }) (byte_kept b lt);
  mid_view = λ v b lt. ap (λ n. record v { mid = n }) (byte_kept b lt);
  high_view = λ v b lt. ap (λ n. record v { high = n }) (byte_kept b lt);
  device_view = λ v b lt. ap (λ n. record v { device = n }) (byte_kept b lt);
  latency = λ v c. 3;
  latency_lt = λ v c. omega arith;
  read_view = λ v e e' e''. refl;
  write_view = λ v e e' e''. refl;
  flush_view = λ v e. refl;
  in16_gives = λ v a b bytes e e'. ap (λ ph. (give v ph).0) e;
  in16_view = λ v a b bytes e e'. ap (λ ph. (give v ph).1) e;
  out16_view = λ v w sector bytes lt e e'. ap (λ ph. take_word v ph w) e;
}

-- An empty disk, still busy for ten polls.
abbrev pub drive0 : View
drive0 = record {
  content = λ t. replicate 512 0;
  device = 0;
  count = 0;
  low = 0;
  mid = 0;
  high = 0;
  delay = 10;
  phase = idle;
}

pub drive0-Rests : Rests bus disk bus-IsDrive drive0
unfolding bus-IsDrive
drive0-Rests = record { idle = refl; soon = omega arith }

pub drive0_sectors : (t : ℕ) → IsSector ((bus-IsDrive.view drive0).content t)
unfolding bus-IsDrive
drive0_sectors t = record {
  full = length-replicate {A = ℕ} 512 0;
  all_bytes = replicate-IsBytes 512 0 (omega arith);
}

read28-write28_example :
    WasWritten bus disk bus-IsDrive drive0
      (write28 bus disk drive0 100 (replicate 512 7) 1)
      100
      (replicate 512 7)
    × ((read28 bus disk (write28 bus disk drive0 100 (replicate 512 7) 1) 100 (replicate 512 0) 1).0
        ≡ replicate 512 7)
read28-write28_example =
    read28-write28 bus disk bus-IsDrive drive0 100 (replicate 512 7) (replicate 512 0) drive0-Rests
      (omega arith)
      (record {
        full = length-replicate {A = ℕ} 512 7;
        all_bytes = replicate-IsBytes 512 7 (omega arith);
      })
      (length-replicate {A = ℕ} 512 0)
