-- ===== src/Ata/Drive/Ready.antt =====
-- A drive that waits for a command is made ready, and a sector is selected.
use hydra_os.Common.{ℕ, ◌<◌, ◌≡◌, ◌∙◌, refl, ap, List, [], ◌∷◌, length, arith}
use hydra_os.Ports.{Ports}
use hydra_os.Ata.{Ata, poll_limit, wait_ready, select}
use hydra_os.Ata.Drive.{View, Phase, giving, given, IsDrive}
use hydra_os.Ata.Drive.Polling.{wait_ready_lem}
use hydra_os.Ata.Drive.Selecting.{selected, select_lem}
use hydra_os.Common.ByteLists.{IsBytes}

pub record IsSector (bytes : List ℕ) : Type 0 where
  pub full : length bytes ≡ 512
  pub all_bytes : IsBytes bytes

pub given-full : (bytes : List ℕ) → length bytes ≡ 512 → giving bytes ≡ given bytes
given-full [] e = absurd (omega arith)
given-full (b ∷ bytes) e = refl

module _ (p : Ports) (ata : Ata) (d : IsDrive p ata) where
  open p use {State}
  open d use {view}

  -- The drive waits for a command, or will soon.
  pub record Rests (s : State) : Type 0 where
    pub idle : (view s).phase ≡ Phase.idle
    pub soon : (view s).delay < poll_limit

  -- Ready and selected, before the command.
  unfoldable pub ready_at : State → ℕ → State
  ready_at s sector = select p ata (wait_ready p ata s).1 sector 1

  -- What the drive shows then.
  unfoldable pub ready_view : State → ℕ → View
  ready_view s sector = selected p ata d (record (view s) { delay = 0 }) sector

  pub ready_at_lem :
      (s : State) (sector : ℕ) → Rests s → view (ready_at s sector) ≡ ready_view s sector
  unfolding ready_at ready_view
  ready_at_lem s sector r =
      let w = wait_ready_lem p ata d s r.soon in
      select_lem p ata d _ sector (ap (λ (v : View). v.delay) w.1)
      ∙ ap (λ v. selected p ata d v sector) w.1
