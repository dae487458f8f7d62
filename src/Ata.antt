-- ===== src/Ata.antt =====
-- drivers/ata.cpp: the disk driver, on a machine of ports (hardwarecommunication/port.cpp has one
-- `in` or `out` instruction for each of its calls).
pub mod Drive
pub mod Timeout
mod Tests
use Prim.Native.Nat.{bit_and, bit_or}
use hydra_os.Ports.{Ports}
use hydra_os.Common.{
  ℕ, zero, suc, ◌+◌, ◌*◌, ◌/◌, ◌%◌, ◌^◌, Bool, true, false, not, ◌||◌, List, get_or, set, u8, u16,
  ltb, ◌==◌, if◌then◌else◌,
}

pub record Ata : Type 0 where
  pub master : Bool
  pub port_base : ℕ

-- `status & mask`, as a truth value.
pub has : ℕ → ℕ → Bool
has status mask = not (bit_and status mask == 0)

-- The high bits of the device register, and the highest four of the sector number.
pub device_byte : Ata → ℕ → ℕ
device_byte ata sector_num =
    bit_or (if ata.master then 0xE0 else 0xF0) (sector_num / 2 ^ 24 % 2 ^ 4)

-- `data[p] | (data[p + 1] << 8)`.
pub word_at : List ℕ → ℕ → ℕ
word_at buffer p = bit_or (get_or buffer p 0) (get_or buffer (p + 1) 0 * 2 ^ 8)

-- `ATA_SR_BSY`, and `!(status & ATA_SR_DRQ)`.
pub is_busy : ℕ → Bool
is_busy status = has status 0x80

pub no_data : ℕ → Bool
no_data status = not (has status 0x08)

abbrev pub poll_limit : ℕ
poll_limit = 100000

module _ (p : Ports) (ata : Ata) where
  open p use {State, in8, out8, in16, out16}

  -- `Write` of the port with this offset from the base.
  pub write_port : State → ℕ → ℕ → State
  write_port s offset v = out8 s (u16 (ata.port_base + offset)) (u8 v)

  pub get_status : State → ℕ × State
  get_status s = in8 s (u16 (ata.port_base + 7))

  pub wait_loop : ℕ → State → State
  wait_loop zero s = s
  wait_loop (suc n) s = wait_loop n (get_status s).1

  pub wait : State → State
  unfolding wait_loop
  wait s = wait_loop 4 s

  -- `while(test(status) && timeout > 0) { status = GetStatus(); timeout--; }`: the status, the
  -- timeout and the state after it.
  pub poll : (ℕ → Bool) → ℕ → ℕ → State → ℕ × ℕ × State
  poll test zero status s = (status, 0, s)
  poll test (suc timeout) status s =
      let rest = poll test timeout (get_status s).0 (get_status s).1 in
      if test status then rest else (status, suc timeout, s)

  pub wait_ready : State → Bool × State
  wait_ready s =
      let (status, timeout, s') = poll is_busy poll_limit (get_status s).0 (get_status s).1 in
      (if timeout == 0 then false else if has status 0x01 then false else not (has status 0x20), s')

  pub has_error : State → Bool × State
  has_error s = let (status, s') = get_status s in (has status 0x01 || has status 0x20, s')

  -- The wait for data: whether it came in time.
  pub wait_data : State → Bool × State
  wait_data s =
      let (status, timeout, s') = poll no_data poll_limit (get_status s).0 (get_status s).1 in
      (not (timeout == 0), s')

  -- 256 reads of the data port that are discarded.
  pub discard : ℕ → State → State
  discard zero s = s
  discard (suc n) s = discard n (in16 s (u16 ata.port_base)).1

  pub identify : State → State
  unfolding write_port wait wait_ready wait_data discard
  identify s =
      let s1 = wait (write_port s 6 (if ata.master then 0xA0 else 0xB0)) in
      let s2 = write_port (write_port (write_port (write_port s1 2 0) 3 0) 4 0) 5 0 in
      let s3 = wait (write_port s2 7 0xEC) in
      let (status, s4) = get_status s3 in
      let (ready, s5) = wait_ready s4 in
      let (came, s6) = wait_data s5 in
      if status == 0 then s4 else if not ready then s5 else if not came then s6 else discard 256 s6

  -- The writes that select a sector and a number of sectors, up to the command.
  pub select : State → ℕ → ℕ → State
  unfolding write_port wait
  select s sector_num count =
      let s1 = wait (write_port s 6 (device_byte ata sector_num)) in
      let s2 = write_port (write_port s1 1 0) 2 count in
      write_port (write_port (write_port s2 3 (sector_num % 2 ^ 8)) 4 (sector_num / 2 ^ 8 % 2 ^ 8))
        5 (sector_num / 2 ^ 16 % 2 ^ 8)

  -- The loop over the words of a sector whose bytes start at `offset`, with `n` words left.
  pub read_words : ℕ → ℕ → ℕ → List ℕ → State → List ℕ × State
  read_words zero offset i buffer s = (buffer, s)
  read_words (suc n) offset i buffer s =
      let (wdata, s') = in16 s (u16 ata.port_base) in
      read_words n offset (i + 1)
        (set (set buffer (offset + i * 2) (wdata % 2 ^ 8)) (offset + i * 2 + 1)
          (wdata / 2 ^ 8 % 2 ^ 8))
        s'

  -- The loop over the sectors from the `sector`-th on, with `n` left.
  pub read_sectors : ℕ → ℕ → List ℕ → State → List ℕ × State
  unfolding read_words wait_data
  read_sectors zero sector buffer s = (buffer, s)
  read_sectors (suc n) sector buffer s =
      let (came, s') = wait_data s in
      let (buffer', s'') = read_words 256 (sector * 512) 0 buffer s' in
      let rest = read_sectors n (sector + 1) buffer' s'' in if not came then (buffer, s') else rest

  pub read28 : State → ℕ → List ℕ → ℕ → List ℕ × State
  unfolding wait_ready select read_sectors
  read28 s sector_num buffer count =
      let (ready, s1) = wait_ready s in
      if ltb 0x0FFFFFFF sector_num
      then (buffer, s)
      else if not ready
      then (buffer, s1)
      else read_sectors count 0 buffer (write_port (select s1 sector_num count) 7 0x20)

  pub flush : State → State
  unfolding wait_ready write_port wait
  flush s =
      (wait_ready (write_port (wait (write_port s 6 (if ata.master then 0xE0 else 0xF0))) 7 0xE7)).1

  pub write_words : ℕ → ℕ → ℕ → List ℕ → State → State
  write_words zero offset i buffer s = s
  write_words (suc n) offset i buffer s =
      write_words n offset (i + 1) buffer
        (out16 s (u16 ata.port_base) (u16 (word_at buffer (offset + i * 2))))

  -- The loop over the sectors: whether all were taken.
  pub write_sectors : ℕ → ℕ → List ℕ → State → Bool × State
  unfolding write_words wait_data
  write_sectors zero sector buffer s = (true, s)
  write_sectors (suc n) sector buffer s =
      let (came, s') = wait_data s in
      let rest = write_sectors n (sector + 1) buffer (write_words 256 (sector * 512) 0 buffer s') in
      if not came then (false, s') else rest

  pub write28 : State → ℕ → List ℕ → ℕ → State
  unfolding wait_ready select write_sectors flush
  write28 s sector_num buffer count =
      let (ready, s1) = wait_ready s in
      let (all, s2) =
        write_sectors count 0 buffer (write_port (select s1 sector_num count) 7 0x30) in
      if ltb 0x0FFFFFFF sector_num
      then s
      else if not ready
      then s1
      else if not all
      then s2
      else flush s2
