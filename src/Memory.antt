-- ===== src/Memory.antt =====
-- memory.h and memory.cpp: the first-fit heap allocator. A chunk header lives at an address, and a
-- pointer is that address (0 for the null pointer). A heap maps every address to the header that a
-- read there would find. Headers are 16 bytes on the 32-bit target, and `Chain` keeps them apart.
pub mod Blocks
pub mod Chain
pub mod Split
pub mod Malloc
pub mod Merge
pub mod Free
pub mod FirstFit
pub mod Coalesce
pub mod Laws
pub mod History
pub mod Globals
pub mod Tests
use hydra_os.Common.{
  ℕ, zero, suc, ◌+◌, ◌-◌, ◌^◌, Bool, true, false, not, ◌&&◌, Option, none, some, ltb, leb, ◌==◌,
  if◌then◌else◌, u32, sub32,
}

-- `struct MemoryChunk`.
pub record Chunk : Type 0 where
  pub next : ℕ
  pub prev : ℕ
  pub allocated : Bool
  pub size : ℕ

abbrev pub chunk : ℕ → ℕ → Bool → ℕ → Chunk
chunk n p a s = record { next = n; prev = p; allocated = a; size = s }

abbrev pub Heap : Type 0
Heap = ℕ → Chunk

-- `sizeof(MemoryChunk)`: two pointers, a padded bool and a size.
abbrev pub header : ℕ
header = 16

pub write : Heap → ℕ → Chunk → Heap
write h p c q = if q == p then c else h q

-- `p->next = v` and so on.
pub set_next : Heap → ℕ → ℕ → Heap
unfolding write
set_next h p v = write h p (record (h p) { next = v })

pub set_prev : Heap → ℕ → ℕ → Heap
unfolding write
set_prev h p v = write h p (record (h p) { prev = v })

pub set_allocated : Heap → ℕ → Bool → Heap
unfolding write
set_allocated h p v = write h p (record (h p) { allocated = v })

pub set_size : Heap → ℕ → ℕ → Heap
unfolding write
set_size h p v = write h p (record (h p) { size = v })

-- `if(p != 0) p->prev = v`.
pub relink : Heap → ℕ → ℕ → Heap
unfolding set_prev
relink h p v = if p == 0 then h else set_prev h p v

pub record MemoryManager : Type 0 where
  pub first : ℕ
  pub heap : Heap

-- The constructor, on a memory that holds `h`.
pub init : Heap → ℕ → ℕ → MemoryManager
init h start size =
    if ltb size header
    then record { first = 0; heap = h }
    else record { first = start; heap = write h start (chunk 0 0 false (size - header)) }

-- The search of `malloc`: the first free chunk that is larger than `size`, 0 if there is none.
-- The outer `none` is a search that ran out of fuel.
pub find_free : ℕ → Heap → ℕ → ℕ → Option ℕ
find_free zero h c size = none
find_free (suc fuel) h c size =
    let rest = find_free fuel h (h c).next size in
    if c == 0 then some 0 else if ltb size (h c).size && not (h c).allocated then some c else rest

-- The header of the new chunk, field by field as `malloc` writes it.
pub fill : Heap → ℕ → ℕ → ℕ → Heap
fill h temp result size =
    let h1 = set_allocated h temp false in
    let h2 = set_size h1 temp (sub32 (sub32 (h1 result).size size) header) in
    let h3 = set_prev h2 temp result in set_next h3 temp (h3 result).next

-- The tail of a chunk that is large enough becomes a free chunk of its own.
pub split : Heap → ℕ → ℕ → Heap
split h result size =
    let temp = u32 (result + header + size) in
    let h1 = fill h temp result size in
    let h2 = relink h1 (h1 temp).next temp in
    let h3 = set_size h2 result size in set_next h3 result temp

pub carve : Heap → ℕ → ℕ → Heap
carve h result size =
    if leb (u32 (size + header + 1)) (h result).size then split h result size else h

-- The chosen chunk is cut to size and marked.
pub take : Heap → ℕ → ℕ → Heap
unfolding carve
take h result size = set_allocated (carve h result size) result true

-- No address space holds more chunks than this many headers.
abbrev pub max_chunks : ℕ
max_chunks = 2 ^ 28

-- `MemoryManager::malloc`: the payload's address and the manager afterwards.
pub malloc : MemoryManager → ℕ → Option (ℕ × MemoryManager)
malloc m size = elim (find_free (max_chunks + 1) m.heap m.first size) [
  | none ↦ none
  | some result ↦
      if result == 0
      then some (0, m)
      else some (u32 (result + header), record m { heap = take m.heap result size })
]

-- "Merge with next chunk if it's free".
pub merge_next : Heap → ℕ → Heap
merge_next h c =
    let n = (h c).next in
    if not (n == 0) && not (h n).allocated
    then (let h1 = set_size h c (u32 ((h c).size + (u32 ((h n).size + header)))) in
        let h2 = set_next h1 c (h1 (h1 c).next).next in relink h2 (h2 c).next c)
    else h

-- "Merge with previous chunk if it's free".
pub merge_prev : Heap → ℕ → Heap
merge_prev h c =
    let p = (h c).prev in
    if not (p == 0) && not (h p).allocated
    then (let h1 = set_size h p (u32 ((h p).size + (u32 ((h c).size + header)))) in
        let h2 = set_next h1 p (h1 c).next in relink h2 (h2 c).next (h2 c).prev)
    else h

-- The chunk is marked as free and merged with its neighbours, the next one first.
pub give_back : Heap → ℕ → Heap
give_back h c = merge_prev (merge_next (set_allocated h c false) c) c

-- `MemoryManager::free`, on the heap's own memory: `ptr` is the payload of one of its chunks wherever
-- a theorem speaks of it.
pub free : MemoryManager → ℕ → MemoryManager
free m ptr = record m { heap = give_back m.heap (sub32 ptr header) }
