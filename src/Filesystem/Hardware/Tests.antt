-- ===== src/Filesystem/Hardware/Tests.antt =====
-- A small heap and an empty drive: the first file on them.
use hydra_os.Common.{
  ℕ, ◌≤◌, ◌≡◌, refl, true, false, List, inl, arith, length, replicate, length-replicate,
}
use hydra_os.Ata.Drive.Tests.{bus, disk, bus-IsDrive, drive0, drive0-Rests, drive0_sectors}
use hydra_os.Memory.Tests.{heap0}
use hydra_os.Memory.Globals.{construct}
use hydra_os.Filesystem.Layout.{Inode, blank, sector_size}
use hydra_os.Filesystem.Machine.{Machine, Working}
use hydra_os.Filesystem.Store.{FileSystem}
use hydra_os.Filesystem.Files.{format, mount}
use hydra_os.Filesystem.Session.{Kept}
use hydra_os.Filesystem.Hardware.{Computer, hardware}
use hydra_os.Filesystem.Hardware.Works.{hardware-Working}
use hydra_os.Filesystem.Hardware.Booting.{Booted, mount-Kept}
use hydra_os.Filesystem.Tests.{
  inodes0, super0, blanks-AllInodes, super0-IsSuperblock, name_a, name_a-IsString, name_a-IsBytes,
  hello, hello-IsBytes, zeros,
}

-- Zeros everywhere.
abbrev pub memory : ℕ → List ℕ
memory q = replicate 512 0

pub memory-long : (q : ℕ) → sector_size ≤ length (memory q)
memory-long q = omega (arith, length-replicate {A = ℕ} 512 0)

abbrev pub small : Machine
small = hardware bus disk memory

abbrev pub works : Working small
works = hardware-Working bus disk bus-IsDrive memory memory-long

abbrev object : Computer bus → FileSystem small
object w = record { inodes = inodes0; superblock = super0; mounted = false; world = w }

-- 4000 bytes of heap from address 16 on.
abbrev pub booted : FileSystem small
booted = object (record { heap = construct heap0 16 4000; ports = drive0 })

pub booted-Booted : Booted bus disk bus-IsDrive memory memory-long heap0 16 4000 booted
booted-Booted = record {
  above_null = omega arith;
  room = omega arith;
  in_space = omega arith;
  heap = refl;
  disk = record { rests = drive0-Rests; sectors = drive0_sectors };
  table_len = length-replicate {A = Inode} 64 blank;
  table = blanks-AllInodes 64;
  super = super0-IsSuperblock;
}

-- The object of the next boot.
abbrev pub next_boot : FileSystem small
next_boot = object (format small booted name_a).1.world

mount-Kept_example :
    ((mount small next_boot).0 ≡ true)
    × Kept small works (mount small next_boot).1 name_a hello zeros 5 3 3
mount-Kept_example =
    mount-Kept bus disk bus-IsDrive memory memory-long heap0 16 4000 booted next_boot name_a name_a
      hello zeros 5 3 3 booted-Booted name_a-IsBytes refl (length-replicate {A = Inode} 64 blank)
      name_a-IsString (omega arith) hello-IsBytes (omega arith) (omega arith)
      (inl (refl, omega arith)) (omega arith) (omega arith)
