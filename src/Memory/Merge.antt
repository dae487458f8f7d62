-- ===== src/Memory/Merge.antt =====
-- The two merges of `free`, on a chain.
use mathlib.Core.Path.{subst₂}
use hydra_os.Common.{
  ℕ, ◌+◌, ◌^◌, ◌≤◌, ◌<◌, ◌≡◌, ◌≢◌, ◌∙◌, refl, sym, ap, subst, Bool, true, false, not, ◌&&◌,
  Bool-cases, inl, inr, List, [], ◌∷◌, ◌==◌, u32, if◌then◌else◌, arith,
}
use hydra_os.Memory.{
  Chunk, chunk, Heap, header, write, set_next, set_size, relink, merge_next, merge_prev,
}
use hydra_os.Memory.Blocks.{Block, block, total, link, end, absorb_next, absorb_prev}
use hydra_os.Memory.Chain.{
  Chain, SameBelow, Chain-write, set_size-set_next, write_self, write_ne, relink-Chain,
  relink-SameBelow,
}

-- The header of a chunk at `l` once it has swallowed the one at `r`.
abbrev fused : Heap → ℕ → ℕ → Chunk
fused h l r = record (h l) {
  next = (h r).next;
  size = u32 ((h l).size + (u32 ((h r).size + header)));
}

abbrev fuse : Heap → ℕ → ℕ → Heap
fuse h l r = relink (write h l (fused h l r)) (h r).next l

-- The outcome of a merge, carried over to what equals it.
arrives :
    (h g : Heap) (p a : ℕ) {g' : Heap} {bs bs' : List Block}
    → g' ≡ g
    → bs' ≡ bs
    → Chain g p a bs × SameBelow a h g
    → Chain g' p a bs' × SameBelow a h g'
arrives h g p a e f k =
    (subst₂ (λ (x : Heap) y. Chain x p a y) (sym e) (sym f) k.0, subst (SameBelow a h) (sym e) k.1)

nonzero : (x : ℕ) → x ≢ 0 → (x == 0) ≡ false
nonzero x ne = ground arith

module _ (h : Heap) (l r : ℕ) (apart : l ≢ r) where
  abbrev sized : Heap
  sized = set_size h l (u32 ((h l).size + (u32 ((h r).size + header))))

  sized_next : (sized l).next ≡ (h l).next
  unfolding set_size write
  sized_next = ground arith

  sized_prev : (sized l).prev ≡ (h l).prev
  unfolding set_size write
  sized_prev = ground arith

  sized_other : sized r ≡ h r
  unfolding set_size write
  sized_other = ground arith

  both_set : set_next sized l (sized r).next ≡ write h l (fused h l r)
  both_set =
      ap (λ (d : Chunk). set_next sized l d.next) sized_other
      ∙ set_size-set_next h l (u32 ((h l).size + (u32 ((h r).size + header)))) (h r).next

  fused_next : (write h l (fused h l r) l).next ≡ (h r).next
  fused_next = ap (λ (d : Chunk). d.next) (write_self h l (fused h l r))

  fused_other : write h l (fused h l r) r ≡ h r
  fused_other = write_ne h l r (fused h l r) (λ e. apart (sym e))

  merge_next-fuse : (h l).next ≡ r → r ≢ 0 → (h r).allocated ≡ false → merge_next h l ≡ fuse h l r
  unfolding merge_next
  merge_next-fuse at ne free_is =
      rw (at, free_is, nonzero r ne) (rw (sized_next, at, both_set, fused_next))

  merge_prev-fuse : (h r).prev ≡ l → l ≢ 0 → (h l).allocated ≡ false → merge_prev h r ≡ fuse h l r
  unfolding merge_prev
  merge_prev-fuse at ne free_is = rw merges (rw at (rw (both_set, fused_other, at)))
    where
      merges : (not ((h r).prev == 0) && not (h (h r).prev).allocated) ≡ true
      merges = rw (at, free_is, nonzero l ne)

module _ (h : Heap) (p a : ℕ) (b c : Block) (bs : List Block) (pos : 0 < a)
    (space : a + total (b ∷ c ∷ bs) ≤ 2 ^ 32) (k : Chain h p a (b ∷ c ∷ bs)) where
  abbrev joint : Block
  joint = block b.used (b.size + (c.size + header))

  abbrev joint_chunk : Chunk
  joint_chunk = chunk (link (end (end a b) c) bs) p b.used (b.size + (c.size + header))

  joint-end : end a joint ≡ end (end a b) c
  joint-end = omega arith

  fused-joint : fused h a (end a b) ≡ joint_chunk
  fused-joint = rw (k.0, k.1.0) (ap (chunk (link (end (end a b) c) bs) p b.used) (omega arith))

  fuse_is : fuse h a (end a b) ≡ relink (write h a joint_chunk) (link (end (end a b) c) bs) a
  fuse_is =
      ap (λ (d : Chunk). relink (write h a d) (h (end a b)).next a) fused-joint
      ∙ ap (λ (d : Chunk). relink (write h a joint_chunk) d.next a) k.1.0

  -- Two neighbours become one block, and nothing below them changes.
  fuse-Chain : Chain (fuse h a (end a b)) p a (joint ∷ bs) × SameBelow a h (fuse h a (end a b))
  fuse-Chain =
      subst (λ (g : Heap). Chain g p a (joint ∷ bs) × SameBelow a h g) (sym fuse_is)
        (
          (
            relink-SameBelow (write h a joint_chunk) a (end (end a b) c) bs a (omega arith)
                ∙ write_self h a joint_chunk
                ∙ ap (λ e. chunk (link e bs) p b.used (b.size + (c.size + header))) (sym joint-end),
            subst (λ e. Chain (relink (write h a joint_chunk) (link (end (end a b) c) bs) a) a e bs)
                (sym joint-end)
                (relink-Chain (write h a joint_chunk) (end a b) a (end (end a b) c) bs (omega arith)
                  (Chain-write h (end a b) a (end (end a b) c) joint_chunk bs (omega arith) k.1.1)),
          ),
          λ q lt.
              relink-SameBelow (write h a joint_chunk) a (end (end a b) c) bs q (omega arith)
              ∙ write_ne h a q joint_chunk (omega arith),
        )

  pub merge_next-Chain :
      Chain (merge_next h a) p a (absorb_next b (c ∷ bs)) × SameBelow a h (merge_next h a)
  merge_next-Chain = elim (Bool-cases c.used) [
    | inl held ↦ arrives h h p a (keeps held) (ap picks held) (k, λ q lt. refl)
    | inr free_is ↦ arrives h _ p a (merges free_is) (ap picks free_is) fuse-Chain
  ]
    where
      picks : Bool → List Block
      picks t = if t then b ∷ c ∷ bs else joint ∷ bs

      keeps : c.used ≡ true → merge_next h a ≡ h
      keeps held = unfold merge_next in rw (k.0, k.1.0, held, nonzero (end a b) (omega arith))

      merges : c.used ≡ false → merge_next h a ≡ fuse h a (end a b)
      merges free_is =
          merge_next-fuse h a (end a b) (omega arith) (ap (λ (d : Chunk). d.next) k.0) (omega arith)
            (ap (λ (d : Chunk). d.allocated) k.1.0 ∙ free_is)

  pub merge_prev-Chain :
      Chain (merge_prev h (end a b)) p a (absorb_prev b (c ∷ bs))
      × SameBelow a h (merge_prev h (end a b))
  merge_prev-Chain = elim (Bool-cases b.used) [
    | inl held ↦ arrives h h p a (keeps held) (ap picks held) (k, λ q lt. refl)
    | inr free_is ↦ arrives h _ p a (merges free_is) (ap picks free_is) fuse-Chain
  ]
    where
      picks : Bool → List Block
      picks t = if t then b ∷ c ∷ bs else joint ∷ bs

      keeps : b.used ≡ true → merge_prev h (end a b) ≡ h
      keeps held = unfold merge_prev in rw (k.1.0, k.0, held, nonzero a (omega arith))

      merges : b.used ≡ false → merge_prev h (end a b) ≡ fuse h a (end a b)
      merges free_is =
          merge_prev-fuse h a (end a b) (omega arith) (ap (λ (d : Chunk). d.prev) k.1.0)
            (omega arith) (ap (λ (d : Chunk). d.allocated) k.0 ∙ free_is)

-- Without a neighbour there is nothing to merge.
pub merge_next-last : (h : Heap) (p a : ℕ) (b : Block) → Chain h p a (b ∷ []) → merge_next h a ≡ h
unfolding merge_next
merge_next-last h p a b k = rw k.0

pub merge_prev-first :
    (h : Heap) (a : ℕ) (b : Block) (bs : List Block) → Chain h 0 a (b ∷ bs) → merge_prev h a ≡ h
unfolding merge_prev
merge_prev-first h a b bs k = rw k.0
