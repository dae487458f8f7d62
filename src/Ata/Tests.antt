-- ===== src/Ata/Tests.antt =====
-- A bus without a drive: every byte read is 0xFF.
use hydra_os.Common.{ℕ, ◌≡◌, refl, suc, [], ◌∷◌, true, arith}
use hydra_os.Ports.{Ports}
use hydra_os.Ata.{Ata, has, poll_limit, get_status, read28, write28}
use hydra_os.Ata.Timeout.{polled, NeverReady, timeout_lem}

abbrev floating : Ports
floating = record {
  State = ℕ;
  in8 = λ s port. (0xFF, suc s);
  out8 = λ s port v. 0;
  in16 = λ s port. (0xFFFF, suc s);
  out16 = λ s port w. 0;
  in32 = λ s port. (0, 0);
  out32 = λ s port w. 0;
}

abbrev primary : Ata
primary = record { master = true; port_base = 0x1F0 }

floating-NeverReady : NeverReady floating primary
unfolding has get_status
floating-NeverReady s = refl

timeout_lem_example :
    (read28 floating primary 0 7 (1 ∷ 2 ∷ []) 1
      ≡ (1 ∷ 2 ∷ [], polled floating primary (suc poll_limit) 0))
    × (write28 floating primary 0 7 (1 ∷ 2 ∷ []) 1 ≡ polled floating primary (suc poll_limit) 0)
timeout_lem_example =
    timeout_lem floating primary 0 7 1 (1 ∷ 2 ∷ []) floating-NeverReady (omega arith)
