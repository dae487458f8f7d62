-- ===== src/Memory/Tests.antt =====
-- The allocator at work on a small region: 200 bytes from address 16 on.
use hydra_os.Common.{ℕ, ◌≡◌, ◌⊎◌, refl, subst, false, none, some, List, [], ◌∷◌, ◌++◌, arith}
use hydra_os.Memory.{chunk, Heap, init, find_free, take, malloc, free, MemoryManager, write}
use hydra_os.Memory.Blocks.{Block, block, total, alloc, release}
use hydra_os.Memory.Chain.{Represents}
use hydra_os.Memory.Malloc.{malloc_refines}
use hydra_os.Memory.Free.{free_refines}
use hydra_os.Memory.Coalesce.{placed, placed_rest, place_parts}
use hydra_os.Memory.Laws.{Holds, Granted, init-Holds, malloc-Granted, free-malloc, free-Holds}
use hydra_os.Memory.History.{mallocs, frees, here, next, Reach, Sound, Reach-Sound}

abbrev pub heap0 : Heap
heap0 q = chunk 0 0 false 0

abbrev pub m0 : MemoryManager
m0 = init heap0 16 200

abbrev pub m1 : MemoryManager
m1 = record m0 { heap = take (init heap0 16 200).heap 16 40 }

abbrev pub blocks0 : List Block
blocks0 = block false 184 ∷ []

pub m0-Holds : Holds m0 16 blocks0
m0-Holds = init-Holds heap0 16 200 (omega arith) (omega arith) (omega arith)

-- The first request gets the payload behind the first header.
pub malloc0 : malloc m0 40 ≡ some (32, m1)
unfolding malloc find_free init write
malloc0 = refl

malloc_refines_example :
    ((alloc 40 16 blocks0 ≡ none) × (malloc m0 40 ≡ some (0, m0)))
    ⊎ ((q : ℕ) × (after : List Block) × (m' : MemoryManager) × (alloc 40 16 blocks0
          ≡ some (q, after))
        × (malloc m0 40 ≡ some (q, m'))
        × Represents m' 16 after
        × (total after ≡ total blocks0))
malloc_refines_example = malloc_refines m0 16 40 blocks0 m0-Holds.represents

free_refines_example :
    Represents (free m0 32) 16 (release [] (block false 184) [])
    × (total (release [] (block false 184) []) ≡ total blocks0)
free_refines_example = free_refines m0 16 32 [] (block false 184) [] m0-Holds.represents refl

malloc-Granted_example : Granted m0 16 40 blocks0 32 m1
malloc-Granted_example =
    malloc-Granted m0 16 40 32 blocks0 m1 m0-Holds malloc0 (λ e. absurd (omega arith))

free-malloc_example : Holds (free m1 32) 16 blocks0
free-malloc_example =
    free-malloc m0 16 40 32 blocks0 m1 m0-Holds malloc0 (λ e. absurd (omega arith))

free-Holds_example : Holds (free m0 32) 16 (release [] (block false 184) [])
free-Holds_example = free-Holds m0 16 32 [] (block false 184) [] m0-Holds refl

granted : Granted m0 16 40 blocks0 32 m1
granted = malloc-Granted m0 16 40 32 blocks0 m1 m0-Holds malloc0 (λ e. absurd (omega arith))

-- A request, given back at once.
history : Reach 16 m0 (free m1 32)
history = next (next here (mallocs 40 32 malloc0)) (
    frees 32 granted.before (placed 40 granted.chosen) (placed_rest 40 granted.chosen granted.after)
      (subst (λ cs. Represents m1 16 (granted.before ++ cs))
        (place_parts 40 granted.chosen granted.after) granted.holds.represents)
      granted.address refl)

Reach-Sound_example : Sound 16 200 (free m1 32)
Reach-Sound_example =
    Reach-Sound heap0 16 200 (free m1 32) (omega arith) (omega arith) (omega arith) history
