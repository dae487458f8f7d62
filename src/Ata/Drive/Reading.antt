-- ===== src/Ata/Drive/Reading.antt =====
-- `Read28` of one sector.
use hydra_os.Common.{
  ℕ, ◌^◌, ◌<◌, ◌≡◌, ◌∙◌, refl, sym, ap, ap₂, subst, true, false, not, List, [], length, ltb,
  if◌then◌else◌, arith,
}
use hydra_os.Ports.{Ports}
use hydra_os.Ata.{
  Ata, poll_limit, write_port, wait_ready, wait_data, select, read_words, read_sectors, read28,
}
use hydra_os.Ata.Drive.{View, Phase, giving, lba, asks, IsDrive}
use hydra_os.Ata.Drive.Polling.{Settled, wait_ready_lem, wait_data_lem}
use hydra_os.Ata.Drive.Selecting.{lba-selected}
use hydra_os.Ata.Drive.Moving.{read_words_lem}
use hydra_os.Ata.Drive.Ready.{IsSector, given-full, Rests, ready_at, ready_view, ready_at_lem}

module _ (p : Ports) (ata : Ata) (d : IsDrive p ata) where
  open p use {State}
  open d use {view}

  read28-eq :
      (s : State) (sector : ℕ) (buffer : List ℕ)
      → Rests p ata d s
      → sector < 2 ^ 28
      → read28 p ata s sector buffer 1
        ≡ read_sectors p ata 1 0 buffer (write_port p ata (ready_at p ata d s sector) 7 0x20)
  unfolding read28 ready_at
  read28-eq s sector buffer r lt =
      ap₂
        (λ b c.
          if b
          then (buffer, s)
          else if not c
          then (buffer, (wait_ready p ata s).1)
          else read_sectors p ata 1 0 buffer
              (write_port p ata (select p ata (wait_ready p ata s).1 sector 1) 7 0x20))
        small (wait_ready_lem p ata d s r.soon).0
    where
      small : ltb 0x0FFFFFFF sector ≡ false
      small = ground arith

  read_sectors-eq :
      (s : State) (buffer : List ℕ)
      → asks (view s).phase ≡ true
      → (view s).delay < poll_limit
      → read_sectors p ata 1 0 buffer s ≡ read_words p ata 256 0 0 buffer (wait_data p ata s).1
  unfolding read_sectors
  read_sectors-eq s buffer wants lt =
      ap
        (λ c.
          if not c
          then (buffer, (wait_data p ata s).1)
          else read_words p ata 256 0 0 buffer (wait_data p ata s).1)
        (wait_data_lem p ata d s wants lt).0

  read_asked :
      (s : State) (sector : ℕ)
      → Rests p ata d s
      → sector < 2 ^ 28
      → view (write_port p ata (ready_at p ata d s sector) 7 0x20)
        ≡ record (ready_view p ata d s sector) {
          phase = giving ((view s).content sector);
          delay = d.latency (ready_at p ata d s sector) 0x20;
        }
  unfolding ready_view
  read_asked s sector r lt =
      let at = ready_at_lem p ata d s sector r in
      d.read_view (ready_at p ata d s sector) (ap (λ (v : View). v.phase) at ∙ r.idle)
        (ap (λ (v : View). v.delay) at) (ap (λ (v : View). v.count) at)
      ∙ ap
          (λ (v : View). record v {
            phase = giving (v.content (lba v));
            delay = d.latency (ready_at p ata d s sector) 0x20;
          })
          at
      ∙ ap
          (λ t. record (ready_view p ata d s sector) {
            phase = giving ((view s).content t);
            delay = d.latency (ready_at p ata d s sector) 0x20;
          })
          (lba-selected p ata d (record (view s) { delay = 0 }) sector lt)

  -- What `Read28` leaves.
  pub record WasRead (s : State) (sector : ℕ) (r : List ℕ × State) : Type 0 where
    pub buffer : r.0 ≡ (view s).content sector
    pub content : (view r.1).content ≡ (view s).content
    pub rests : Rests p ata d r.1

  pub read28_lem :
      (s : State) (sector : ℕ) (buffer : List ℕ)
      → Rests p ata d s
      → sector < 2 ^ 28
      → length buffer ≡ 512
      → IsSector ((view s).content sector)
      → WasRead s sector (read28 p ata s sector buffer 1)
  unfolding ready_view
  read28_lem s sector buffer r lt fits good = subst (WasRead s sector) (sym runs) record {
    buffer = moved.0;
    content = ap (λ (v : View). v.content) done;
    rests = record {
      idle = ap (λ (v : View). v.phase) done;
      soon = omega (arith, ap (λ (v : View). v.delay) done);
    };
  }
    where
      bytes : List ℕ
      bytes = (view s).content sector

      asked : State
      asked = write_port p ata (ready_at p ata d s sector) 7 0x20

      asked_view : view asked ≡ record (ready_view p ata d s sector) {
        phase = giving bytes;
        delay = d.latency (ready_at p ata d s sector) 0x20;
      }
      asked_view = read_asked s sector r lt

      waits : ((wait_data p ata asked).0 ≡ true) × Settled p ata d asked (wait_data p ata asked).1
      waits = wait_data_lem p ata d asked (ap (λ (v : View). asks v.phase) asked_view) (
          omega (
            arith,
            ap (λ (v : View). v.delay) asked_view,
            d.latency_lt (ready_at p ata d s sector) 0x20,
          ))

      runs :
          read28 p ata s sector buffer 1 ≡ read_words p ata 256 0 0 buffer (wait_data p ata asked).1
      runs =
          read28-eq s sector buffer r lt
          ∙ read_sectors-eq asked buffer (ap (λ (v : View). asks v.phase) asked_view) (
              omega (
                arith,
                ap (λ (v : View). v.delay) asked_view,
                d.latency_lt (ready_at p ata d s sector) 0x20,
              ))

      moved :
          ((read_words p ata 256 0 0 buffer (wait_data p ata asked).1).0 ≡ bytes)
          × (view (read_words p ata 256 0 0 buffer (wait_data p ata asked).1).1
              ≡ record (view (wait_data p ata asked).1) { phase = Phase.idle })
      moved =
          read_words_lem p ata d 256 0 0 [] buffer bytes (wait_data p ata asked).1 (good.full) fits
            refl good.all_bytes
            (ap (λ (v : View). v.phase) (waits.1)
              ∙ ap (λ (v : View). v.phase) asked_view
              ∙ given-full bytes good.full)
            (ap (λ (v : View). v.delay) (waits.1))

      done :
          view (read_words p ata 256 0 0 buffer (wait_data p ata asked).1).1
          ≡ record (ready_view p ata d s sector) { phase = Phase.idle; delay = 0 }
      done =
          moved.1
          ∙ ap (λ (v : View). record v { phase = Phase.idle })
              (waits.1 ∙ ap (λ (v : View). record v { delay = 0 }) asked_view)
