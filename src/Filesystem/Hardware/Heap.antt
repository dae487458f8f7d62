-- ===== src/Filesystem/Hardware/Heap.antt =====
-- The heap of memory.cpp grants the sector buffers of the file system, two at once, and takes them
-- back in the opposite order.
use hydra_os.Common.{
  ℕ, ◌+◌, ◌*◌, ◌≤◌, ◌<◌, ◌≡◌, ◌≢◌, ◌∙◌, refl, sym, ap, subst, Bool, true, false, ◌||◌, some, inl,
  inr, List, [], ◌∷◌, ◌++◌, length, arith,
}
use hydra_os.Memory.{header, MemoryManager, malloc, free}
use hydra_os.Memory.Blocks.{Block, total, fits, place}
use hydra_os.Memory.Chain.{Represents}
use hydra_os.Memory.Free.{free_refines}
use hydra_os.Memory.FirstFit.{NoneFits}
use hydra_os.Memory.Coalesce.{IsCoalesced, placed, placed_rest, place_parts, release-place}
use hydra_os.Memory.Laws.{Holds, malloc-Holds}
use hydra_os.Filesystem.Layout.{sector_size}

-- Some block is free and larger than `n`.
abbrev pub has_room : ℕ → List Block → Bool
has_room n [] = false
has_room n (b ∷ bs) = fits n b || has_room n bs

-- Room for two sectors: the first leaves more than one sector and a header.
abbrev pub two_sectors : ℕ
two_sectors = 2 * sector_size + header

has_room-le : (n k : ℕ) (bs : List Block) → n < k → has_room k bs ≡ true → has_room n bs ≡ true
has_room-le n k [] lt e = e
has_room-le n k (b ∷ bs) lt e = ground (arith, has_room-le n k bs lt)

NoneFits-has_room : (n : ℕ) (bs : List Block) → NoneFits n bs → has_room n bs ≡ true → ⊥
NoneFits-has_room n [] h e = cc
NoneFits-has_room n (b ∷ bs) h e = ground (arith, NoneFits-has_room n bs h.1)

NoneFits-le : (n k : ℕ) (bs : List Block) → n ≤ k → NoneFits n bs → NoneFits k bs
NoneFits-le n k [] le h = tt
NoneFits-le n k (b ∷ bs) le h = (ground (arith, h.0), NoneFits-le n k bs le h.1)

-- Wherever at most one sector is taken, room for another is left.
has_room-place :
    (n : ℕ) (before : List Block) (b : Block) (after : List Block)
    → b.used ≡ false
    → n ≤ sector_size
    → n < b.size
    → has_room two_sectors (before ++ b ∷ after) ≡ true
    → has_room sector_size (before ++ place n b after) ≡ true
has_room-place n [] b after u le lt e =
    ground (arith, has_room-le sector_size two_sectors after (omega arith))
has_room-place n (c ∷ before) b after u le lt e =
    ground (arith, has_room-place n before b after u le lt)

-- One buffer of at most a sector, at `q`, was taken from the blocks `old`.
pub record Taken (start q : ℕ) (old bs : List Block) : Type 0 where
  pub size : ℕ
  pub small : size ≤ sector_size
  pub before : List Block
  pub chosen : Block
  pub after : List Block
  pub was : old ≡ before ++ chosen ∷ after
  pub address : q ≡ start + total before + header
  pub free_before : chosen.used ≡ false
  pub larger : size < chosen.size
  pub becomes : bs ≡ before ++ place size chosen after
  pub coalesced : IsCoalesced old

-- The buffers `ps` were taken, the latest first, from blocks with room for two.
abbrev pub Held : ℕ → List ℕ → List Block → Type 0
Held start [] bs = has_room two_sectors bs ≡ true
Held start (q ∷ ps) bs = (old : List Block) × Held start ps old × Taken start q old bs

Held-has_room :
    (start : ℕ) (ps : List ℕ) (bs : List Block)
    → length ps < 2
    → Held start ps bs
    → has_room sector_size bs ≡ true
Held-has_room start [] bs lt h = has_room-le sector_size two_sectors bs (omega arith) h
Held-has_room start (q ∷ []) bs lt (old, room, t) =
    subst (λ cs. has_room sector_size cs ≡ true) (sym t.becomes)
      (has_room-place t.size t.before t.chosen t.after t.free_before t.small t.larger
        (subst (λ cs. has_room two_sectors cs ≡ true) t.was room))
Held-has_room start (q ∷ r ∷ ps) bs lt h = absurd (omega arith)

-- The manager holds blocks from which the buffers `ps` were taken.
pub record Serves (ps : List ℕ) (m : MemoryManager) : Type 0 where
  pub start : ℕ
  pub blocks : List Block
  pub holds : Holds m start blocks
  pub held : Held start ps blocks

-- A buffer of at most a sector is there to be had.
pub malloc-Serves :
    (n : ℕ) (ps : List ℕ) (m : MemoryManager)
    → n ≤ sector_size
    → Serves ps m
    → length ps < 2
    → (q : ℕ) × (m' : MemoryManager) × (malloc m n ≡ some (q, m')) × (q ≢ 0) × Serves (q ∷ ps) m'
malloc-Serves n ps m le s lt = elim (malloc-Holds m s.start n s.blocks s.holds) [
  | inl (fails, same) ↦ absurd (
      NoneFits-has_room sector_size s.blocks (NoneFits-le n sector_size s.blocks le fails)
        (Held-has_room s.start ps s.blocks lt s.held))
  | inr (q, m', ok, g) ↦ (
    q,
    m',
    ok,
    λ e. absurd (omega (arith, g.address)),
    record {
      start = s.start;
      blocks = g.before ++ place n g.chosen g.after;
      holds = g.holds;
      held = (
        s.blocks,
        s.held,
        record {
          size = n;
          small = le;
          before = g.before;
          chosen = g.chosen;
          after = g.after;
          was = g.was;
          address = g.address;
          free_before = g.free_before;
          larger = g.larger;
          becomes = refl;
          coalesced = s.holds.coalesced;
        },
      );
    },
  )
]

-- The latest one is given back.
pub free-Serves :
    (q : ℕ) (ps : List ℕ) (m : MemoryManager) → Serves (q ∷ ps) m → Serves ps (free m q)
free-Serves q ps m s = restored s.held
  where
    restored : Held s.start (q ∷ ps) s.blocks → Serves ps (free m q)
    restored (old, room, t) = record {
      start = s.start;
      blocks = old;
      holds = record {
        represents =
            subst (Represents (free m q) s.start)
              (release-place t.size t.before t.chosen t.after t.free_before t.larger
                  (subst IsCoalesced t.was t.coalesced)
                ∙ sym t.was)
              (free_refines m s.start q t.before (placed t.size t.chosen)
                (placed_rest t.size t.chosen t.after)
                (subst (Represents m s.start)
                  (t.becomes ∙ ap (λ cs. t.before ++ cs) (place_parts t.size t.chosen t.after))
                  s.holds.represents)
                t.address).0;
        coalesced = t.coalesced;
      };
      held = room;
    }
