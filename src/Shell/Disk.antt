-- ===== src/Shell/Disk.antt =====
-- shell.cpp: `CommandDisk`, on the world of the file system's disk, which is the same drive.
use hydra_os.Common.{
  ℕ, zero, suc, ◌+◌, ◌%◌, Bool, true, false, not, List, [], ◌∷◌, ◌++◌, get_or, set, ◌==◌,
  if◌then◌else◌,
}
use hydra_os.Filesystem.Machine.{Machine}
use hydra_os.Filesystem.Store.{FileSystem}
use hydra_os.Shell.Output.{Output, color, text, hex}
use hydra_os.Shell.Colors.{light_green, light_cyan, light_red, white}

-- The loop `for(i = 0; i < 512; i++) buffer[i] = f(i)`, with `n` rounds left.
pub fill_buffer : ℕ → ℕ → (ℕ → ℕ) → List ℕ → List ℕ
fill_buffer zero i f buffer = buffer
fill_buffer (suc n) i f buffer = fill_buffer n (i + 1) f (set buffer i (f i))

-- The loop that prints the first bytes.
pub dump : ℕ → ℕ → List ℕ → List Output
dump zero i buffer = []
dump (suc n) i buffer = hex (get_or buffer i 0) ∷ text " " ∷ dump n (i + 1) buffer

-- The loop that verifies the bytes read back.
pub verify_loop : ℕ → ℕ → List ℕ → Bool
verify_loop zero i buffer = true
verify_loop (suc n) i buffer =
    let rest = verify_loop n (i + 1) buffer in
    if not (get_or buffer i 0 == i % 256) then false else rest

abbrev pub tagged : ℕ → Output → Output → List Output
tagged c tag message = color c ∷ tag ∷ color white ∷ message ∷ []

pub verdict : Bool → List Output
verdict success =
    if success
    then tagged light_green (text "\n[SUCCESS] ") (text "Read/Write verification passed!\n")
    else tagged light_red (text "\n[FAILED] ") (text "Read/Write verification failed!\n")

pub disk_greeting : List Output
disk_greeting =
    color light_cyan
      ∷ text "Testing ATA/IDE Disk Driver...\n\n"
      ∷ color white
      ∷ text "Identifying primary master drive...\n"
      ∷ tagged light_green (text "[OK] ") (text "Drive identified\n\n")
    ++ text "Testing sector read (sector 0)...\n" ∷ []

-- What is printed between the first read and the last, and behind it.
pub disk_report : List ℕ → List ℕ → List Output
unfolding dump verify_loop verdict
disk_report first back =
    tagged light_green (text "[OK] ") (text "Sector read complete\n")
    ++ text "First 16 bytes: " ∷ dump 16 0 first
    ++ text "\n\n"
      ∷ text "Testing sector write (sector 100)...\n"
      ∷ tagged light_green (text "[OK] ") (text "Sector write complete\n")
    ++ text "Read back first 16 bytes: " ∷ dump 16 0 back
    ++ text "\n" ∷ verdict (verify_loop 512 0 back)

module _ (m : Machine) where
  open m use {World, malloc, free, stale, read28, write28, identify}

  -- The test's accesses to the disk: the bytes first read, the bytes read back, and the world.
  pub disk_test : World → List ℕ → List ℕ × List ℕ × World
  unfolding fill_buffer
  disk_test w buffer =
      let (first, w1) = read28 w 0 buffer in
      let pattern = fill_buffer 512 0 (λ i. i % 256) first in
      let w2 = write28 w1 100 pattern in
      let (back, w3) = read28 w2 100 (fill_buffer 512 0 (λ i. 0) pattern) in (first, back, w3)

  pub command_disk : FileSystem m → List Output × FileSystem m
  unfolding disk_greeting disk_report disk_test
  command_disk fs =
      let (p, w) = malloc (identify fs.world) 512 in
      let (first, back, w') = disk_test w (stale w p) in
      if p == 0
      then (
        disk_greeting ++ tagged light_red (text "[ERROR] ") (text "Failed to allocate buffer\n"),
        record fs { world = w },
      )
      else (disk_greeting ++ disk_report first back, record fs { world = free w' p })
