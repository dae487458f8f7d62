-- ===== src/Filesystem/Hardware.antt =====
-- The machine of the file system put together from the rest of the system: `malloc` and `free` of
-- memory.cpp, and the disk behind `Read28`, `Write28` and `Identify` of drivers/ata.cpp.
pub mod Heap
pub mod Works
pub mod Booting
pub mod Tests
use hydra_os.Common.{ℕ, Option, none, some, List}
use hydra_os.Ports.{Ports}
use hydra_os.Ata.{Ata, identify}
use hydra_os.Ata
use hydra_os.Memory.Globals.{Active}
use hydra_os.Memory.Globals
use hydra_os.Filesystem.Layout.{slice, sector_size}
use hydra_os.Filesystem.Machine.{Machine}

-- The active memory manager, and the machine behind the ports.
pub record Computer (p : Ports) : Type 0 where
  pub heap : Active
  pub ports : p.State

module _ (p : Ports) where
  -- The world after a search of the heap.
  pub found : Computer p → Option (ℕ × Active) → ℕ × Computer p
  found w none = (0, w)
  found w (some (q, heap)) = (q, record w { heap = heap })

  -- `residue` is what the memory holds behind each address. A sector buffer is the 512 bytes from
  -- its address on.
  abbrev pub hardware : Ata → (ℕ → List ℕ) → Machine
  hardware ata residue = record {
    World = Computer p;
    malloc = λ w n. found w (Globals.malloc w.heap n);
    free = λ w q. record w { heap = Globals.free w.heap q };
    stale = λ w q. residue q;
    read28 = λ w s b.
        let r = Ata.read28 p ata w.ports s (slice b 0 sector_size) 1 in
        (r.0, record w { ports = r.1 });
    write28 = λ w s b. record w { ports = Ata.write28 p ata w.ports s b 1 };
    identify = λ w. record w { ports = identify p ata w.ports };
  }
