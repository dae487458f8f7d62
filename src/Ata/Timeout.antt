-- ===== src/Ata/Timeout.antt =====
-- The driver on a drive that never gets ready: its loops end, and it leaves the drive alone.
use hydra_os.Common.{
  ℕ, zero, suc, ◌≤◌, ◌≡◌, ◌∙◌, refl, ap, ap₂, Bool, true, false, not, List, ltb, if◌then◌else◌,
  arith,
}
use hydra_os.Ports.{Ports}
use hydra_os.Ata.{
  Ata, has, poll_limit, is_busy, get_status, poll, wait_ready, select, write_port, read_sectors,
  write_sectors, read28, write28, flush,
}

module _ (p : Ports) (ata : Ata) where
  open p use {State}

  -- The state after this many reads of the status.
  pub polled : ℕ → State → State
  polled zero s = s
  polled (suc n) s = polled n (get_status p ata s).1

  -- Every status says that the drive is busy.
  abbrev pub NeverReady : Type 0
  NeverReady = (s : State) → has (get_status p ata s).0 0x80 ≡ true

  poll-busy :
      (timeout : ℕ) (s : State)
      → NeverReady
      → ((poll p ata is_busy timeout (get_status p ata s).0 (get_status p ata s).1).1 ≡ 0)
        × ((poll p ata is_busy timeout (get_status p ata s).0 (get_status p ata s).1).2
            ≡ polled (suc timeout) s)
  unfolding poll polled is_busy
  poll-busy zero s busy = (refl, refl)
  poll-busy (suc timeout) s busy =
      let next = (get_status p ata s).1 in
      let rest = poll-busy timeout next busy in
      let step : poll p ata is_busy (suc timeout) (get_status p ata s).0 next
          ≡ poll p ata is_busy timeout (get_status p ata next).0 (get_status p ata next).1 =
        ap
          (λ b.
            if b
            then poll p ata is_busy timeout (get_status p ata next).0 (get_status p ata next).1
            else ((get_status p ata s).0, suc timeout, next))
          (busy s) in
      (ap (λ (r : ℕ × ℕ × State). r.1) step ∙ rest.0, ap (λ (r : ℕ × ℕ × State). r.2) step ∙ rest.1)

  wait_ready-busy :
      (s : State)
      → NeverReady
      → ((wait_ready p ata s).0 ≡ false) × ((wait_ready p ata s).1 ≡ polled (suc poll_limit) s)
  unfolding wait_ready
  wait_ready-busy s busy = let r = poll-busy poll_limit s busy in (ground (arith, r.0), r.1)

  pub read28-busy :
      (s : State) (sector count : ℕ) (buffer : List ℕ)
      → NeverReady
      → sector ≤ 0x0FFFFFFF
      → read28 p ata s sector buffer count ≡ (buffer, polled (suc poll_limit) s)
  unfolding read28
  read28-busy s sector count buffer busy le =
      ap₂
        (λ b c.
          if b
          then (buffer, s)
          else if not c
          then (buffer, (wait_ready p ata s).1)
          else read_sectors p ata count 0 buffer
              (write_port p ata (select p ata (wait_ready p ata s).1 sector count) 7 0x20))
        small (wait_ready-busy s busy).0
      ∙ ap (λ t. (buffer, t)) (wait_ready-busy s busy).1
    where
      small : ltb 0x0FFFFFFF sector ≡ false
      small = ground arith

  write28-busy :
      (s : State) (sector count : ℕ) (buffer : List ℕ)
      → NeverReady
      → sector ≤ 0x0FFFFFFF
      → write28 p ata s sector buffer count ≡ polled (suc poll_limit) s
  unfolding write28
  write28-busy s sector count buffer busy le =
      ap₂
        (λ b c.
          if b
          then s
          else if not c
          then (wait_ready p ata s).1
          else if not taken.0
          then taken.1
          else flush p ata taken.1)
        small (wait_ready-busy s busy).0
      ∙ (wait_ready-busy s busy).1
    where
      taken : Bool × State
      taken =
          write_sectors p ata count 0 buffer
            (write_port p ata (select p ata (wait_ready p ata s).1 sector count) 7 0x30)

      small : ltb 0x0FFFFFFF sector ≡ false
      small = ground arith

  -- When every status says that the drive is busy, Read28 and Write28 of a sector number of 28
  -- bits end after one read of the status and as many as the timeout allows: they write to no
  -- port, and Read28 leaves the buffer as it was.
  pub timeout_lem :
      (s : State) (sector count : ℕ) (buffer : List ℕ)
      → NeverReady
      → sector ≤ 0x0FFFFFFF
      → (read28 p ata s sector buffer count ≡ (buffer, polled (suc poll_limit) s))
        × (write28 p ata s sector buffer count ≡ polled (suc poll_limit) s)
  timeout_lem s sector count buffer busy le =
      (read28-busy s sector count buffer busy le, write28-busy s sector count buffer busy le)
