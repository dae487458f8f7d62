-- ===== src/Filesystem/Hardware/Booting.antt =====
-- The machine of Filesystem/Hardware as `kernelMain` starts it: a new heap, and a drive at rest.
use hydra_os.Common.{
  ℕ, ◌+◌, ◌-◌, ◌^◌, ◌≤◌, ◌<◌, ◌≡◌, ◌∙◌, true, false, List, [], ◌∷◌, length, arith,
}
use hydra_os.Common.ByteLists.{IsBytes}
use hydra_os.Ports.{Ports}
use hydra_os.Ata.{Ata}
use hydra_os.Ata.Drive.{IsDrive}
use hydra_os.Memory.{Heap, header, init}
use hydra_os.Memory.Blocks.{block}
use hydra_os.Memory.Globals.{construct, construct_active}
use hydra_os.Memory.Laws.{init-Holds}
use hydra_os.Filesystem.Layout.{sector_size}
use hydra_os.Filesystem.Codec.{IsSuperblock}
use hydra_os.Filesystem.Store.{FileSystem}
use hydra_os.Filesystem.Files.{format, mount}
use hydra_os.Filesystem.Table.{AllInodes}
use hydra_os.Filesystem.Names.{IsString}
use hydra_os.Filesystem.Mounting.{IsValid}
use hydra_os.Filesystem.Reading.{IsLimit}
use hydra_os.Filesystem.Session.{Kept, format-Kept}
use hydra_os.Filesystem.Hardware.{hardware}
use hydra_os.Filesystem.Hardware.Heap.{two_sectors, has_room, Serves}
use hydra_os.Filesystem.Hardware.Works.{HasDisk, Runs-Holding, hardware-Working}

-- A heap region with room for two sectors has it at the start.
construct-Serves :
    (h : Heap) (start region : ℕ)
    → 0 < start
    → two_sectors + header < region
    → start + region ≤ 2 ^ 32
    → Serves [] (init h start region)
construct-Serves h start region pos room space = record {
  start = start;
  blocks = block false (region - header) ∷ [];
  holds = init-Holds h start region pos (omega arith) space;
  held = large;
}
  where
    large : has_room two_sectors (block false (region - header) ∷ []) ≡ true
    large = ground arith

module _ (p : Ports) (ata : Ata) (d : IsDrive p ata) (residue : ℕ → List ℕ)
    (long : (q : ℕ) → sector_size ≤ length (residue q)) where
  -- A `FileSystem` object on the new heap and the drive.
  pub record Booted (h : Heap) (start region : ℕ) (fs : FileSystem (hardware p ata residue))
      : Type 0 where
    pub above_null : 0 < start
    pub room : two_sectors + header < region
    pub in_space : start + region ≤ 2 ^ 32
    pub heap : fs.world.heap ≡ construct h start region
    pub disk : HasDisk p ata d residue long fs.world.ports
    pub table_len : length fs.inodes ≡ 64
    pub table : AllInodes fs.inodes
    pub super : IsSuperblock fs.superblock

  pub Booted-IsValid :
      (h : Heap) (start region : ℕ) (fs : FileSystem (hardware p ata residue))
      → Booted h start region fs
      → IsValid (hardware p ata residue) (hardware-Working p ata d residue long) fs
  Booted-IsValid h start region fs b = record {
    ready = Runs-Holding p ata d residue long fs.world record {
      manager = init h start region;
      active = b.heap ∙ construct_active h start region;
      serves = construct-Serves h start region b.above_null b.room b.in_space;
      disk = b.disk;
    };
    table_len = b.table_len;
    table = b.table;
    super = b.super;
  }

  -- The file system works on the kernel's own heap and disk driver: with malloc and free of a
  -- heap whose constructor has run on a region with room for two sectors, and with Read28 and
  -- Write28 on a drive at rest that follows the protocol and holds sectors of bytes, Format
  -- with a label of bytes, on an object whose fields fit their types, and Mount by any object
  -- with 64 inode slots in the world that Format leaves, succeed. Then, for a name of less than
  -- 32 characters and a buffer of bytes, CreateFile answers 0, OpenFile finds the file there,
  -- WriteFile of at least one byte, and of less than 2 ^ 31, answers the size, and ReadFile
  -- answers as many bytes as the request and the file have, puts the written bytes into the
  -- caller's buffer, which has room for them, and changes neither the rest of the buffer nor
  -- the disk.
  pub mount-Kept :
      (h : Heap) (start region : ℕ) (fs fresh : FileSystem (hardware p ata residue))
      (label filename buffer target : List ℕ) (size request limit : ℕ)
      → Booted h start region fs
      → IsBytes label
      → fresh.world ≡ (format (hardware p ata residue) fs label).1.world
      → length fresh.inodes ≡ 64
      → IsString filename
      → length filename < 32
      → IsBytes buffer
      → 0 < size
      → size < 2 ^ 31
      → IsLimit limit size request
      → request < 2 ^ 32
      → limit ≤ length target
      → ((mount (hardware p ata residue) fresh).0 ≡ true)
        × Kept
            (hardware p ata residue)
            (hardware-Working p ata d residue long)
            (mount (hardware p ata residue) fresh).1
            filename
            buffer
            target
            size
            request
            limit
  mount-Kept h start region fs fresh label filename buffer target size request limit b vl =
      format-Kept (hardware p ata residue) (hardware-Working p ata d residue long) fs fresh label
        filename buffer target size request limit (Booted-IsValid h start region fs b) vl
