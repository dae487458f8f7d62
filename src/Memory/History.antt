-- ===== src/Memory/History.antt =====
-- The allocator over time: any history of `malloc` calls and of `free` calls on live chunks.
use hydra_os.Common.{
  ℕ, ◌+◌, ◌-◌, ◌^◌, ◌≤◌, ◌<◌, ◌≡◌, ◌∙◌, refl, sym, ap, ap₂, subst, some_inj, false, some, inl, inr,
  List, [], ◌∷◌, ◌++◌, arith,
}
use hydra_os.Memory.{header, Chunk, chunk, Heap, init, malloc, free, MemoryManager}
use hydra_os.Memory.Blocks.{Block, block, total, link, end, place, release}
use hydra_os.Memory.Chain.{Chain, Represents}
use hydra_os.Memory.Free.{total-release}
use hydra_os.Memory.Coalesce.{IsCoalesced}
use hydra_os.Memory.Laws.{Holds, init-Holds, malloc-Holds, Granted-total, free-Holds}

-- One call. A client frees the payload of some chunk of the heap.
pub data Step (start : ℕ) (m m' : MemoryManager) : Type 0 where
  mallocs : (n q : ℕ) → malloc m n ≡ some (q, m') → Step start m m'
  frees :
      (ptr : ℕ) (before : List Block) (b : Block) (after : List Block)
      → Represents m start (before ++ b ∷ after)
      → ptr ≡ start + total before + header
      → m' ≡ free m ptr
      → Step start m m'

pub data Reach (start : ℕ) (m : MemoryManager) : MemoryManager → Type 0 where
  here : Reach start m m
  next : {m' m'' : MemoryManager} → Reach start m m' → Step start m' m'' → Reach start m m''

block_of_header :
    {n n' p p' : ℕ} {b c : Block} → chunk n p b.used b.size ≡ chunk n' p' c.used c.size → b ≡ c
block_of_header e = cc

-- A heap holds one list of blocks only.
Chain-unique :
    (h : Heap) (p p' a : ℕ) (bs cs : List Block)
    → 0 < a
    → link a bs ≡ link a cs
    → Chain h p a bs
    → Chain h p' a cs
    → bs ≡ cs
Chain-unique h p p' a [] [] pos e k l = refl
Chain-unique h p p' a [] (c ∷ cs) pos e k l = absurd (omega arith)
Chain-unique h p p' a (b ∷ bs) [] pos e k l = absurd (omega arith)
Chain-unique h p p' a (b ∷ bs) (c ∷ cs) pos e k l =
    let same : b ≡ c = block_of_header (sym k.0 ∙ l.0) in
    let links : link (end a b) bs ≡ link (end a c) cs =
      ap (λ (d : Chunk). d.next) (sym k.0 ∙ l.0) in
    ap₂ ◌∷◌ same (
      Chain-unique h a a (end a b) bs cs (omega arith)
        (links ∙ ap (λ d. link (end a d) cs) (sym same)) k.1
        (subst (λ d. Chain h a (end a d) cs) (sym same) l.1))

Represents-unique :
    (m : MemoryManager) (start : ℕ) (bs cs : List Block)
    → Represents m start bs
    → Represents m start cs
    → bs ≡ cs
Represents-unique m start bs cs r s =
    Chain-unique m.heap 0 0 start bs cs r.above_null (sym r.first ∙ s.first) r.chain s.chain

-- What every reachable manager satisfies.
pub record Sound (start size : ℕ) (m : MemoryManager) : Type 0 where
  pub blocks : List Block
  pub holds : Holds m start blocks
  pub whole : total blocks ≡ size

Step-Sound :
    (start size : ℕ) (m m' : MemoryManager)
    → Step start m m'
    → Sound start size m
    → Sound start size m'
Step-Sound start size m m' (mallocs n q ok) s = elim (malloc-Holds m start n s.blocks s.holds) [
  | inl (_, same) ↦
      let e : m ≡ m' = ap (λ (x : ℕ × MemoryManager). x.1) (some_inj (sym same ∙ ok)) in
      subst (Sound start size) e s
  | inr (q', m'', ok', d) ↦
      let e : m'' ≡ m' = ap (λ (x : ℕ × MemoryManager). x.1) (some_inj (sym ok' ∙ ok)) in
      subst (Sound start size) e (record {
        blocks = d.before ++ place n d.chosen d.after;
        holds = d.holds;
        whole = Granted-total m start n s.blocks q' m'' d ∙ s.whole;
      })
]
Step-Sound start size m m' (frees ptr before b after r at is_free) s =
    let e = Represents-unique m start s.blocks (before ++ b ∷ after) s.holds.represents r in
    subst (Sound start size) (sym is_free) (record {
      blocks = release before b after;
      holds =
          free-Holds m start ptr before b after
            (record { represents = r; coalesced = subst IsCoalesced e s.holds.coalesced }) at;
      whole = total-release before b after ∙ ap total (sym e) ∙ s.whole;
    })

-- After any history of malloc calls, and of free calls on payloads of the heap's chunks, on a
-- heap of at least one header's size above address 0 and within 32-bit addresses, the headers
-- form one doubly linked chain of chunks that fills the region without a gap, and no two
-- neighbouring chunks are free.
pub Reach-Sound :
    (h : Heap) (start size : ℕ) (m : MemoryManager)
    → 0 < start
    → header ≤ size
    → start + size ≤ 2 ^ 32
    → Reach start (init h start size) m
    → Sound start size m
Reach-Sound h start size m pos room space here = record {
  blocks = block false (size - header) ∷ [];
  holds = init-Holds h start size pos room space;
  whole = omega arith;
}
Reach-Sound h start size m pos room space (next {m'} r st) =
    Step-Sound start size m' m st (Reach-Sound h start size m' pos room space r)
