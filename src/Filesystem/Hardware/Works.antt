-- ===== src/Filesystem/Hardware/Works.antt =====
-- The machine of Filesystem/Hardware works, with any drive that follows the protocol.
use hydra_os.Common.{
  ℕ, ◌≤◌, ◌<◌, ◌^◌, ◌≡◌, ◌≢◌, ◌∙◌, refl, sym, ap, subst, Option, none, some, List, [], ◌∷◌, length,
  ◌==◌, Bool, true, false, if◌then◌else◌,
}
use hydra_os.Ports.{Ports}
use hydra_os.Ata.{Ata}
use hydra_os.Ata
use hydra_os.Ata.Drive.{IsDrive}
use hydra_os.Ata.Drive.Ready.{IsSector, Rests}
use hydra_os.Ata.Drive.Reading.{WasRead, read28_lem}
use hydra_os.Ata.Drive.Writing.{WasWritten, write28_lem}
use hydra_os.Memory.{MemoryManager}
use hydra_os.Memory
use hydra_os.Memory.Globals.{Active, malloc_active, free_active}
use hydra_os.Memory.Globals
use hydra_os.Filesystem.Layout.{slice, sector_size}
use hydra_os.Filesystem.Buffers.{length-slice}
use hydra_os.Filesystem.Machine.{Machine, Working}
use hydra_os.Filesystem.Hardware.{Computer, found, hardware}
use hydra_os.Filesystem.Hardware.Heap.{Serves, malloc-Serves, free-Serves}

module _ (p : Ports) (ata : Ata) (d : IsDrive p ata) (residue : ℕ → List ℕ)
    (long : (q : ℕ) → sector_size ≤ length (residue q)) where
  open d use {view}

  abbrev machine : Machine
  machine = hardware p ata residue

  -- The drive waits for commands, and each of its sectors holds 512 bytes.
  pub record HasDisk (s : p.State) : Type 0 where
    pub rests : Rests p ata d s
    pub sectors : (t : ℕ) → IsSector ((view s).content t)

  pub record Runs (ps : List ℕ) (w : Computer p) : Type 0 where
    pub manager : MemoryManager
    pub active : w.heap ≡ some manager
    pub serves : Serves ps manager
    pub disk : HasDisk w.ports

  read28-HasDisk :
      (s : p.State) (sector : ℕ) (b : List ℕ)
      → HasDisk s
      → sector < 2 ^ 28
      → WasRead p ata d s sector (Ata.read28 p ata s sector (slice b 0 sector_size) 1)
        × HasDisk (Ata.read28 p ata s sector (slice b 0 sector_size) 1).1
  read28-HasDisk s sector b h lt =
      let r =
        read28_lem p ata d s sector (slice b 0 sector_size) h.rests lt
          (length-slice b 0 sector_size) (h.sectors sector) in
      (
        r,
        record {
          rests = r.rests;
          sectors = λ t. subst (λ c. IsSector (c t)) (sym r.content) (h.sectors t);
        },
      )

  write28-HasDisk :
      (s : p.State) (sector : ℕ) (b : List ℕ)
      → HasDisk s
      → sector < 2 ^ 28
      → IsSector b
      → WasWritten p ata d s (Ata.write28 p ata s sector b 1) sector b
        × HasDisk (Ata.write28 p ata s sector b 1)
  write28-HasDisk s sector b h lt good =
      let r = write28_lem p ata d s sector b h.rests lt good in
      (
        r,
        record {
          rests = r.rests;
          sectors = λ t. subst IsSector (sym (r.content t)) (picks t (t == sector));
        },
      )
    where
      picks : (t : ℕ) (c : Bool) → IsSector (if c then b else (view s).content t)
      picks t true = good
      picks t false = h.sectors t

  malloc-Runs :
      (n : ℕ)
      → n ≤ sector_size
      → (ps : List ℕ) (w : Computer p) → Runs ps w
      → length ps < 2
      → ((machine.malloc w n).0 ≢ 0) × Runs ((machine.malloc w n).0 ∷ ps) (machine.malloc w n).1
  unfolding found
  malloc-Runs n le ps w r lt =
      let (q, m', ok, ne, s) = malloc-Serves n ps r.manager le r.serves lt in
      subst (λ (x : ℕ × Computer p). (x.0 ≢ 0) × Runs (x.0 ∷ ps) x.1)
        (sym (
          ap (λ (h : Active). found p w (Globals.malloc h n)) r.active
          ∙ ap (found p w) (malloc_active r.manager m' n q ok)))
        (ne, record { manager = m'; active = refl; serves = s; disk = r.disk })

  free-Runs : (q : ℕ) (ps : List ℕ) (w : Computer p) → Runs (q ∷ ps) w → Runs ps (machine.free w q)
  free-Runs q ps w r = record {
    manager = Memory.free r.manager q;
    active = ap (λ (h : Active). Globals.free h q) r.active ∙ free_active r.manager q;
    serves = free-Serves q ps r.manager r.serves;
    disk = r.disk;
  }

  found_ports : (w : Computer p) (o : Option (ℕ × Active)) → (found p w o).1.ports ≡ w.ports
  unfolding found
  found_ports w none = refl
  found_ports w (some (q, heap)) = refl

  abbrev pub content_of : Computer p → ℕ → List ℕ
  content_of w t = (view w.ports).content t

  -- `Holding ps` says that the manager serves the buffers `ps` and the drive waits.
  pub hardware-Working : Working machine
  hardware-Working = record {
    Holding = Runs;
    content = content_of;
    malloc_grants = malloc-Runs;
    length-stale = λ w q. long q;
    free_returns = free-Runs;
    read_keeps = λ ps w s b r lt. record {
      manager = r.manager;
      active = r.active;
      serves = r.serves;
      disk = (read28-HasDisk w.ports s b r.disk lt).1;
    };
    write_keeps = λ ps w s b r lt e v. record {
      manager = r.manager;
      active = r.active;
      serves = r.serves;
      disk = (write28-HasDisk w.ports s b r.disk lt (record { full = e; all_bytes = v })).1;
    };
    content-malloc =
        λ w n t. ap (λ (x : p.State). (view x).content t) (found_ports w (Globals.malloc w.heap n));
    content-free = λ w q t. refl;
    content-read28 =
        λ ps w s b t r lt. ap (λ c. c t) (read28-HasDisk w.ports s b r.disk lt).0.content;
    read28_gives = λ ps w s b r lt. (read28-HasDisk w.ports s b r.disk lt).0.buffer;
    content-write28 = λ ps w s b t r lt e v.
        (write28-HasDisk w.ports s b r.disk lt (record { full = e; all_bytes = v })).0.content t;
  }

  pub Runs-Holding : (w : Computer p) → Runs [] w → hardware-Working.Holding [] w
  unfolding hardware-Working
  Runs-Holding w r = r
