-- ===== src/Memory/Globals.antt =====
-- memory.cpp: the global `malloc` and `free`, and the operators `new` and `delete`. All go to
-- `MemoryManager::activeMemoryManager`, which is null before the constructor ran.
use hydra_os.Common.{ℕ, Option, none, some, ◌≡◌, refl, ap}
use hydra_os.Memory.{Heap, MemoryManager, init}
use hydra_os.Memory

-- `activeMemoryManager`, with the manager that it points to.
abbrev pub Active : Type 0
Active = Option MemoryManager

-- The constructor makes the new manager the active one.
pub construct : Heap → ℕ → ℕ → Active
construct h start size = some (init h start size)

-- The destructor of the active manager.
pub destruct : Active → Active
destruct none = none
destruct (some m) = none

-- `::malloc`, and `new` and `new[]`, which have the same body. The outer option is the search
-- that ran out of fuel.
pub malloc : Active → ℕ → Option (ℕ × Active)
malloc none size = some (0, none)
malloc (some m) size = elim (Memory.malloc m size) [
  | none ↦ none
  | some (p, m') ↦ some (p, some m')
]

-- `::free`, and `delete` and `delete[]`.
pub free : Active → ℕ → Active
free none ptr = none
free (some m) ptr = some (Memory.free m ptr)

pub construct_active :
    (h : Heap) (start size : ℕ) → construct h start size ≡ some (init h start size)
unfolding construct
construct_active h start size = refl

-- The calls on an active manager are the manager's.
pub malloc_active :
    (m m' : MemoryManager) (size p : ℕ)
    → Memory.malloc m size ≡ some (p, m')
    → malloc (some m) size ≡ some (p, some m')
unfolding malloc
malloc_active m m' size p e =
    ap
      (λ (o : Option (ℕ × MemoryManager)). elim o [
        | none ↦ none
        | some (q, m'') ↦ some (q, some m'')
      ])
      e

pub malloc_inactive : (size : ℕ) → malloc none size ≡ some (0, none)
unfolding malloc
malloc_inactive size = refl

pub free_inactive : (ptr : ℕ) → free none ptr ≡ none
unfolding free
free_inactive ptr = refl

pub free_active : (m : MemoryManager) (ptr : ℕ) → free (some m) ptr ≡ some (Memory.free m ptr)
unfolding free
free_active m ptr = refl
