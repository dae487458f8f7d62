-- ===== src/Ata/Drive/Writing.antt =====
-- `Write28` of one sector, and `Read28` after it.
use hydra_os.Common.{
  ℕ, ◌^◌, ◌<◌, ◌≡◌, ◌∙◌, refl, sym, ap, ap₂, subst, Bool, true, false, not, List, [], length, ltb,
  ◌==◌, if◌then◌else◌, arith,
}
use hydra_os.Ports.{Ports}
use hydra_os.Ata.{
  Ata, poll_limit, write_port, wait, wait_ready, wait_data, select, read28, write_words,
  write_sectors, write28, flush,
}
use hydra_os.Ata.Drive.{View, Phase, taking, lba, asks, IsDrive}
use hydra_os.Ata.Drive.Polling.{Settled, wait_ready_lem, wait_data_lem, wait_lem}
use hydra_os.Ata.Drive.Selecting.{lba-selected}
use hydra_os.Ata.Drive.Moving.{write_words_lem}
use hydra_os.Ata.Drive.Ready.{IsSector, Rests, ready_at, ready_view, ready_at_lem}
use hydra_os.Ata.Drive.Reading.{read28_lem}

module _ (p : Ports) (ata : Ata) (d : IsDrive p ata) where
  open p use {State}
  open d use {view}

  write_asked :
      (s : State) (sector : ℕ)
      → Rests p ata d s
      → sector < 2 ^ 28
      → view (write_port p ata (ready_at p ata d s sector) 7 0x30)
        ≡ record (ready_view p ata d s sector) {
          phase = taking sector [];
          delay = d.latency (ready_at p ata d s sector) 0x30;
        }
  unfolding ready_view
  write_asked s sector r lt =
      let at = ready_at_lem p ata d s sector r in
      d.write_view (ready_at p ata d s sector) (ap (λ (v : View). v.phase) at ∙ r.idle)
        (ap (λ (v : View). v.delay) at) (ap (λ (v : View). v.count) at)
      ∙ ap
          (λ (v : View). record v {
            phase = taking (lba v) [];
            delay = d.latency (ready_at p ata d s sector) 0x30;
          })
          at
      ∙ ap
          (λ t. record (ready_view p ata d s sector) {
            phase = taking t [];
            delay = d.latency (ready_at p ata d s sector) 0x30;
          })
          (lba-selected p ata d (record (view s) { delay = 0 }) sector lt)

  flush_lem :
      (s : State)
      → (view s).phase ≡ Phase.idle
      → (view s).delay ≡ 0
      → ((view (flush p ata s)).content ≡ (view s).content) × Rests p ata d (flush p ata s)
  unfolding flush
  flush_lem s ph e = (
    ap (λ (v : View). v.content) settled.1
        ∙ ap (λ (v : View). v.content) asked
        ∙ ap (λ (v : View). v.content) ready
        ∙ ap (λ (v : View). v.content) chosen,
    record {
      idle =
          ap (λ (v : View). v.phase) settled.1
          ∙ ap (λ (v : View). v.phase) asked
          ∙ ap (λ (v : View). v.phase) ready
          ∙ ap (λ (v : View). v.phase) chosen
          ∙ ph;
      soon = omega (arith, ap (λ (v : View). v.delay) settled.1);
    },
  )
    where
      bits : ℕ
      bits = if ata.master then 0xE0 else 0xF0

      bits_lt : bits < 2 ^ 8
      bits_lt = ground arith

      chosen : view (write_port p ata s 6 bits) ≡ record (view s) { device = bits }
      chosen = d.device_view s bits bits_lt

      waited : State
      waited = wait p ata (write_port p ata s 6 bits)

      ready : view waited ≡ view (write_port p ata s 6 bits)
      ready = wait_lem p ata d _ (ap (λ (v : View). v.delay) chosen ∙ e)

      asked :
          view (write_port p ata waited 7 0xE7)
          ≡ record (view waited) { delay = d.latency waited 0xE7 }
      asked =
          d.flush_view waited
            (ap (λ (v : View). v.phase) ready ∙ ap (λ (v : View). v.phase) chosen ∙ ph)

      settled :
          ((wait_ready p ata (write_port p ata waited 7 0xE7)).0 ≡ true)
          × Settled p ata d
              (write_port p ata waited 7 0xE7)
              (wait_ready p ata (write_port p ata waited 7 0xE7)).1
      settled =
          wait_ready_lem p ata d _
            (omega (arith, ap (λ (v : View). v.delay) asked, d.latency_lt waited 0xE7))

  write28-eq :
      (s : State) (sector : ℕ) (buffer : List ℕ)
      → Rests p ata d s
      → sector < 2 ^ 28
      → (let asked = write_port p ata (ready_at p ata d s sector) 7 0x30 in
          asks (view asked).phase ≡ true
          → (view asked).delay < poll_limit
          → write28 p ata s sector buffer 1
            ≡ flush p ata (write_words p ata 256 0 0 buffer (wait_data p ata asked).1))
  unfolding write28 write_sectors ready_at
  write28-eq s sector buffer r lt wants soon =
      ap₂
        (λ b c.
          if b
          then s
          else if not c
          then (wait_ready p ata s).1
          else if not taken.0
          then taken.1
          else flush p ata taken.1)
        small (wait_ready_lem p ata d s r.soon).0
      ∙ ap (λ (q : Bool × State). if not q.0 then q.1 else flush p ata q.1) all_taken
    where
      asked : State
      asked = write_port p ata (select p ata (wait_ready p ata s).1 sector 1) 7 0x30

      taken : Bool × State
      taken = write_sectors p ata 1 0 buffer asked

      small : ltb 0x0FFFFFFF sector ≡ false
      small = ground arith

      all_taken : taken ≡ (true, write_words p ata 256 0 0 buffer (wait_data p ata asked).1)
      all_taken =
          ap
            (λ c.
              if not c
              then (false, (wait_data p ata asked).1)
              else (true, write_words p ata 256 0 0 buffer (wait_data p ata asked).1))
            (wait_data_lem p ata d asked wants soon).0

  -- What `Write28` leaves.
  pub record WasWritten (s s' : State) (sector : ℕ) (buffer : List ℕ) : Type 0 where
    pub content :
        (t : ℕ) → (view s').content t ≡ (if t == sector then buffer else (view s).content t)
    pub rests : Rests p ata d s'

  pub write28_lem :
      (s : State) (sector : ℕ) (buffer : List ℕ)
      → Rests p ata d s
      → sector < 2 ^ 28
      → IsSector buffer
      → WasWritten s (write28 p ata s sector buffer 1) sector buffer
  unfolding ready_view
  write28_lem s sector buffer r lt good =
      subst (λ s'. WasWritten s s' sector buffer) (sym runs)
        record {
          content = λ t. ap (λ c. c t) (flushed.0 ∙ ap (λ (v : View). v.content) moved);
          rests = flushed.1;
        }
    where
      asked : State
      asked = write_port p ata (ready_at p ata d s sector) 7 0x30

      asked_view : view asked ≡ record (ready_view p ata d s sector) {
        phase = taking sector [];
        delay = d.latency (ready_at p ata d s sector) 0x30;
      }
      asked_view = write_asked s sector r lt

      wants : asks (view asked).phase ≡ true
      wants = ap (λ (v : View). asks v.phase) asked_view

      soon : (view asked).delay < poll_limit
      soon = omega (
        arith,
        ap (λ (v : View). v.delay) asked_view,
        d.latency_lt (ready_at p ata d s sector) 0x30,
      )

      waits : Settled p ata d asked (wait_data p ata asked).1
      waits = (wait_data_lem p ata d asked wants soon).1

      ready :
          view (wait_data p ata asked).1
          ≡ record (ready_view p ata d s sector) { phase = taking sector []; delay = 0 }
      ready = waits ∙ ap (λ (v : View). record v { delay = 0 }) asked_view

      moved :
          view (write_words p ata 256 0 0 buffer (wait_data p ata asked).1)
          ≡ record (ready_view p ata d s sector) {
            content = λ t. if t == sector then buffer else (view s).content t;
            phase = Phase.idle;
            delay = 0;
          }
      moved =
          write_words_lem p ata d 255 0 0 sector [] buffer [] (wait_data p ata asked).1 good.full
            (omega (arith, good.full)) refl good.all_bytes (ap (λ (v : View). v.phase) ready)
            (ap (λ (v : View). v.delay) ready)
          ∙ ap
              (λ (v : View). record v {
                content = λ t. if t == sector then buffer else v.content t;
                phase = Phase.idle;
              })
              ready

      runs :
          write28 p ata s sector buffer 1
          ≡ flush p ata (write_words p ata 256 0 0 buffer (wait_data p ata asked).1)
      runs = write28-eq s sector buffer r lt wants soon

      flushed :
          ((view (flush p ata (write_words p ata 256 0 0 buffer (wait_data p ata asked).1))).content
            ≡ (view (write_words p ata 256 0 0 buffer (wait_data p ata asked).1)).content)
          × Rests p ata d (flush p ata (write_words p ata 256 0 0 buffer (wait_data p ata asked).1))
      flushed = flush_lem _ (ap (λ (v : View). v.phase) moved) (ap (λ (v : View). v.delay) moved)

  -- On a drive that follows the protocol and waits for a command, or will within the time that
  -- the driver waits, Write28 of one sector of bytes to a sector number of 28 bits stores them
  -- in that sector, changes no other sector and leaves the drive waiting again; and Read28 of
  -- the sector then puts them into any buffer of one sector.
  pub read28-write28 :
      (s : State) (sector : ℕ) (buffer target : List ℕ)
      → Rests p ata d s
      → sector < 2 ^ 28
      → IsSector buffer
      → length target ≡ 512
      → WasWritten s (write28 p ata s sector buffer 1) sector buffer
        × ((read28 p ata (write28 p ata s sector buffer 1) sector target 1).0 ≡ buffer)
  read28-write28 s sector buffer target r lt good fits =
      let w = write28_lem s sector buffer r lt good in
      let here = w.content sector ∙ same sector in
      (
        w,
        (read28_lem p ata d _ sector target w.rests lt fits (subst IsSector (sym here) good)).buffer
            ∙ here,
      )
    where
      same : (t : ℕ) → (if t == t then buffer else (view s).content t) ≡ buffer
      same t = ground arith
