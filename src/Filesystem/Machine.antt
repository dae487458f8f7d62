-- ===== src/Filesystem/Machine.antt =====
-- What filesystem.cpp and shell.cpp call: `malloc` and `free` of memory.cpp, and `Read28`,
-- `Write28` and `Identify` of drivers/ata.cpp. All of them change one world, which holds the heap
-- and the disk.
use hydra_os.Common.{ℕ, ◌^◌, ◌≤◌, ◌<◌, ◌≡◌, ◌≢◌, List, ◌∷◌, ◌==◌, if◌then◌else◌, length, arith}
use hydra_os.Common.ByteLists.{IsBytes}
use hydra_os.Filesystem.Layout.{sector_size}

-- Each buffer of the file system is one sector, so `Read28` and `Write28` move one sector.
pub record Machine : Type 1 where
  pub World : Type 0
  pub malloc : World → ℕ → ℕ × World
  pub free : World → ℕ → World
  -- What the memory behind a fresh pointer holds.
  pub stale : World → ℕ → List ℕ
  -- The buffer that `Read28` leaves, given the one that it is handed.
  pub read28 : World → ℕ → List ℕ → List ℕ × World
  pub write28 : World → ℕ → List ℕ → World
  -- The shell's disk test asks the drive what it is, and discards the answer.
  pub identify : World → World

-- A machine that works. `Holding ps w` says that the buffers `ps` are allocated, the latest
-- first; two at once, of up to a sector each, can be had, and they are given back in the opposite order. The disk keeps what
-- is written to each 28-bit sector, and nothing else changes it.
module _ (m : Machine) where
  open m use {World, malloc, free, stale, read28, write28}

  pub record Working : Type 1 where
    pub Holding : List ℕ → World → Type 0
    pub content : World → ℕ → List ℕ
    pub malloc_grants :
        (n : ℕ)
        → n ≤ sector_size
        → (ps : List ℕ) (w : World) → Holding ps w
        → length ps < 2
        → ((malloc w n).0 ≢ 0) × Holding ((malloc w n).0 ∷ ps) (malloc w n).1
    -- The memory behind a pointer goes on for a sector.
    pub length-stale : (w : World) (p : ℕ) → sector_size ≤ length (stale w p)
    pub free_returns :
        (p : ℕ) (ps : List ℕ) (w : World) → Holding (p ∷ ps) w → Holding ps (free w p)
    pub read_keeps :
        (ps : List ℕ) (w : World) (s : ℕ) (b : List ℕ)
        → Holding ps w
        → s < 2 ^ 28
        → Holding ps (read28 w s b).1
    pub write_keeps :
        (ps : List ℕ) (w : World) (s : ℕ) (b : List ℕ)
        → Holding ps w
        → s < 2 ^ 28
        → length b ≡ sector_size
        → IsBytes b
        → Holding ps (write28 w s b)
    pub content-malloc : (w : World) (n s : ℕ) → content (malloc w n).1 s ≡ content w s
    pub content-free : (w : World) (p s : ℕ) → content (free w p) s ≡ content w s
    pub content-read28 :
        (ps : List ℕ) (w : World) (s : ℕ) (b : List ℕ) (t : ℕ)
        → Holding ps w
        → s < 2 ^ 28
        → content (read28 w s b).1 t ≡ content w t
    pub read28_gives :
        (ps : List ℕ) (w : World) (s : ℕ) (b : List ℕ)
        → Holding ps w
        → s < 2 ^ 28
        → (read28 w s b).0 ≡ content w s
    pub content-write28 :
        (ps : List ℕ) (w : World) (s : ℕ) (b : List ℕ) (t : ℕ)
        → Holding ps w
        → s < 2 ^ 28
        → length b ≡ sector_size
        → IsBytes b
        → content (write28 w s b) t ≡ (if t == s then b else content w t)

  pub malloc_sector :
      (k : Working) (ps : List ℕ) (w : World)
      → k.Holding ps w
      → length ps < 2
      → ((malloc w sector_size).0 ≢ 0)
        × k.Holding ((malloc w sector_size).0 ∷ ps) (malloc w sector_size).1
  malloc_sector k = k.malloc_grants sector_size (omega arith)
