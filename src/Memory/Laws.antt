-- ===== src/Memory/Laws.antt =====
-- The allocator as its callers see it: what one call promises, and what holds after any history.
use hydra_os.Common.{
  ℕ, ◌+◌, ◌-◌, ◌^◌, ◌≤◌, ◌<◌, ◌≡◌, ◌≢◌, ◌∙◌, refl, sym, ap, subst, false, ◌⊎◌, some, some_inj, inl,
  inr, List, [], ◌∷◌, ◌++◌, arith,
}
use hydra_os.Memory.{header, chunk, Heap, write, init, malloc, free, MemoryManager}
use hydra_os.Memory.Blocks.{Block, block, total, place, alloc, release}
use hydra_os.Memory.Chain.{Represents, write_self}
use hydra_os.Memory.Malloc.{malloc_refines}
use hydra_os.Memory.Free.{free_refines}
use hydra_os.Memory.FirstFit.{NoneFits, Chose-of_some, NoneFits_of_none}
use hydra_os.Memory.Coalesce.{
  IsCoalesced, placed, placed_rest, place_parts, release-place, alloc-IsCoalesced,
  release-IsCoalesced,
}

-- The manager holds `bs`, with no two free neighbours.
pub record Holds (m : MemoryManager) (start : ℕ) (bs : List Block) : Type 0 where
  pub represents : Represents m start bs
  pub coalesced : IsCoalesced bs

-- A manager over a region that has room for a header starts with one free block.
pub init-Holds :
    (h : Heap) (start size : ℕ)
    → 0 < start
    → header ≤ size
    → start + size ≤ 2 ^ 32
    → Holds (init h start size) start (block false (size - header) ∷ [])
unfolding init
init-Holds h start size pos room space =
    subst (λ (m : MemoryManager). Holds m start (block false (size - header) ∷ [])) (sym large)
      (record {
        represents = record {
          above_null = pos;
          in_space = omega arith;
          first = refl;
          chain = (write_self h start (chunk 0 0 false (size - header)), tt);
        };
        coalesced = (tt, tt);
      })
  where
    large :
        init h start size
        ≡ record { first = start; heap = write h start (chunk 0 0 false (size - header)) }
    large = ground arith

-- What `malloc` promises of the manager that it returns.
pub record Granted (m : MemoryManager) (start n : ℕ) (bs : List Block) (q : ℕ) (m' : MemoryManager)
    : Type 0 where
  pub before : List Block
  pub chosen : Block
  pub after : List Block
  pub was : bs ≡ before ++ chosen ∷ after
  pub address : q ≡ start + total before + header
  pub free_before : chosen.used ≡ false
  pub larger : n < chosen.size
  pub first : NoneFits n before
  pub holds : Holds m' start (before ++ place n chosen after)

-- On a coalesced heap, malloc either answers null and changes nothing, when no free block is
-- larger than the request, or it answers the payload of the first free block that is, and the
-- heap stays well formed and coalesced.
pub malloc-Holds :
    (m : MemoryManager) (start n : ℕ) (bs : List Block)
    → Holds m start bs
    → (NoneFits n bs × (malloc m n ≡ some (0, m)))
      ⊎ ((q : ℕ) × (m' : MemoryManager) × (malloc m n ≡ some (q, m')) × Granted m start n bs q m')
malloc-Holds m start n bs g = elim (malloc_refines m start n bs g.represents) [
  | inl (fails, same) ↦ inl (NoneFits_of_none n start bs fails, same)
  | inr (q, bs', m', e, ok, r, _) ↦ inr (q, m', ok, granted q bs' m' e r)
]
  where
    granted :
        (q : ℕ) (bs' : List Block) (m' : MemoryManager)
        → alloc n start bs ≡ some (q, bs')
        → Represents m' start bs'
        → Granted m start n bs q m'
    granted q bs' m' e r =
        let c = Chose-of_some n start bs q bs' e in
        record {
          before = c.before;
          chosen = c.chosen;
          after = c.after;
          was = c.was;
          address = c.address;
          free_before = c.free_before;
          larger = c.larger;
          first = c.first;
          holds = record {
            represents = subst (Represents m' start) c.becomes r;
            coalesced =
                alloc-IsCoalesced n c.before c.chosen c.after c.free_before
                  (subst IsCoalesced c.was g.coalesced);
          };
        }

-- `free` of any block keeps the invariant.
pub free-Holds :
    (m : MemoryManager) (start ptr : ℕ) (before : List Block) (b : Block) (after : List Block)
    → Holds m start (before ++ b ∷ after)
    → ptr ≡ start + total before + header
    → Holds (free m ptr) start (release before b after)
free-Holds m start ptr before b after g e = record {
  represents = (free_refines m start ptr before b after g.represents e).0;
  coalesced = release-IsCoalesced before b after g.coalesced;
}

total-middle :
    (before : List Block) (bs cs : List Block)
    → total bs ≡ total cs
    → total (before ++ bs) ≡ total (before ++ cs)
total-middle [] bs cs e = e
total-middle (b ∷ before) bs cs e = ap (λ t. header + b.size + t) (total-middle before bs cs e)

total-place : (n : ℕ) (b : Block) (bs : List Block) → total (place n b bs) ≡ total (b ∷ bs)
total-place n b bs = ground arith

-- `malloc` returns an address or null, and with an address its promise.
pub malloc-Granted :
    (m : MemoryManager) (start n q : ℕ) (bs : List Block) (m' : MemoryManager)
    → Holds m start bs
    → malloc m n ≡ some (q, m')
    → q ≢ 0
    → Granted m start n bs q m'
malloc-Granted m start n q bs m' g e ne = elim (malloc-Holds m start n bs g) [
  | inl (_, fails) ↦ absurd (ne (ap (λ (x : ℕ × MemoryManager). x.0) (some_inj (sym e ∙ fails))))
  | inr (q', m'', ok, d) ↦
      subst (λ (x : ℕ × MemoryManager). Granted m start n bs x.0 x.1) (some_inj (sym ok ∙ e)) d
]

-- On a coalesced heap, freeing the non-null address that malloc has just returned leaves a heap
-- that holds the same blocks as before the two calls.
pub free-malloc :
    (m : MemoryManager) (start n q : ℕ) (bs : List Block) (m' : MemoryManager)
    → Holds m start bs
    → malloc m n ≡ some (q, m')
    → q ≢ 0
    → Holds (free m' q) start bs
free-malloc m start n q bs m' g e ne = record {
  represents =
      subst (Represents (free m' q) start) (restored ∙ sym d.was)
        (free_refines m' start q d.before (placed n d.chosen) (placed_rest n d.chosen d.after)
          (subst (λ cs. Represents m' start (d.before ++ cs)) (place_parts n d.chosen d.after)
            d.holds.represents)
          d.address).0;
  coalesced = g.coalesced;
}
  where
    d : Granted m start n bs q m'
    d = malloc-Granted m start n q bs m' g e ne

    restored :
        release d.before (placed n d.chosen) (placed_rest n d.chosen d.after)
        ≡ d.before ++ d.chosen ∷ d.after
    restored =
        release-place n d.before d.chosen d.after d.free_before d.larger
          (subst IsCoalesced d.was g.coalesced)

-- A grant moves bytes from a free block to the client and loses none.
pub Granted-total :
    (m : MemoryManager) (start n : ℕ) (bs : List Block) (q : ℕ) (m' : MemoryManager)
    (d : Granted m start n bs q m')
    → total (d.before ++ place n d.chosen d.after) ≡ total bs
Granted-total m start n bs q m' d =
    total-middle d.before (place n d.chosen d.after) (d.chosen ∷ d.after)
      (total-place n d.chosen d.after)
    ∙ ap total (sym d.was)
