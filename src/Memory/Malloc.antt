-- ===== src/Memory/Malloc.antt =====
-- `malloc` implements `alloc` of Memory/Blocks: the search, and the chunk that it takes.
use hydra_os.Common.{
  ℕ, zero, suc, ◌+◌, ◌*◌, ◌^◌, ◌≤◌, ◌<◌, ◌≡◌, ◌∙◌, refl, sym, ap, subst, true, false, Bool-cases,
  ◌⊎◌, inl, inr, Option, none, some, List, [], ◌∷◌, ◌==◌, leb, u32, if◌then◌else◌, arith, length,
}
use hydra_os.Memory.{
  Chunk, chunk, Heap, header, write, set_allocated, split, take, find_free, malloc, max_chunks,
  MemoryManager,
}
use hydra_os.Memory.Blocks.{Block, total, link, end, fits, place, alloc}
use hydra_os.Memory.Chain.{Chain, Represents, SameBelow, Chain-write, write_self, write_ne}
use hydra_os.Memory.Split.{split-Chain, split-SameBelow}

-- Where the search stops: the first block that fits, 0 if none does.
abbrev pub first_fit : ℕ → ℕ → List Block → ℕ
first_fit n a [] = 0
first_fit n a (b ∷ bs) = if fits n b then a else first_fit n (end a b) bs

-- The loop finds that block, with one round for each block and one to see the end.
find_free-first_fit :
    (fuel n : ℕ) (h : Heap) (p a : ℕ) (bs : List Block)
    → length bs < fuel
    → 0 < a
    → Chain h p a bs
    → find_free fuel h (link a bs) n ≡ some (first_fit n a bs)
unfolding find_free
find_free-first_fit zero n h p a bs lt pos c = absurd (omega arith)
find_free-first_fit (suc fuel) n h p a [] lt pos c = refl
find_free-first_fit (suc fuel) n h p a (b ∷ bs) lt pos c =
    ground (arith, find_free-first_fit fuel n h a (end a b) bs (omega arith) (omega arith) c.1)

fits-lt : (n : ℕ) (b : Block) → fits n b ≡ true → n < b.size
fits-lt n b fit = ground arith

module _ (h : Heap) (p a n : ℕ) (b : Block) (bs : List Block) (pos : 0 < a)
    (space : a + total (b ∷ bs) ≤ 2 ^ 32) (fit : fits n b ≡ true) (c : Chain h p a (b ∷ bs)) where
  size_is : (h a).size ≡ b.size
  size_is = ap (λ (d : Chunk). d.size) c.0

  no_wrap : u32 (n + header + 1) ≡ n + header + 1
  no_wrap = omega (arith, fits-lt n b fit)

  test_is : leb (u32 (n + header + 1)) (h a).size ≡ leb (n + header + 1) b.size
  test_is = rw (no_wrap, size_is)

  take-split :
      (leb (n + header + 1) b.size ≡ true) → take h a n ≡ set_allocated (split h a n) a true
  unfolding take
  take-split large = ap (λ t. set_allocated (if t then split h a n else h) a true) (test_is ∙ large)

  take_whole : (leb (n + header + 1) b.size ≡ false) → take h a n ≡ set_allocated h a true
  unfolding take
  take_whole small = ap (λ t. set_allocated (if t then split h a n else h) a true) (test_is ∙ small)

  marked : set_allocated h a true ≡ write h a (chunk (link (end a b) bs) p true b.size)
  unfolding set_allocated
  marked = ap (λ (d : Chunk). write h a (record d { allocated = true })) c.0

  -- The chosen block is replaced as `place` says, and nothing below it changes.
  take-Chain : Chain (take h a n) p a (place n b bs) × SameBelow a h (take h a n)
  take-Chain = elim (Bool-cases (leb (n + header + 1) b.size)) [
    | inl large ↦
        let room : n + header + 1 ≤ b.size = ground arith in
        subst (λ (g : Heap). Chain g p a (place n b bs) × SameBelow a h g) (sym (take-split large))
          (
            rw large (split-Chain h p a n b bs pos space room c),
            split-SameBelow h p a n b bs pos space room c,
          )
    | inr small ↦
        subst (λ (g : Heap). Chain g p a (place n b bs) × SameBelow a h g)
          (sym (take_whole small ∙ marked))
          (
            rw small (
              write_self h a (chunk (link (end a b) bs) p true b.size),
              Chain-write h a a (end a b) (chunk (link (end a b) bs) p true b.size) bs (omega arith)
                  c.1,
            ),
            λ q lt. write_ne h a q (chunk (link (end a b) bs) p true b.size) (omega arith),
          )
  ]

-- What `alloc` answers, and that taking the block that the search finds agrees with it.
record Takes (h : Heap) (p a n : ℕ) (bs : List Block) (q : ℕ) (after : List Block) : Type 0 where
  payload : q ≡ first_fit n a bs + header
  found : a ≤ first_fit n a bs
  found_end : q < 2 ^ 32
  first : link a after ≡ link a bs
  same_total : total after ≡ total bs
  chain : Chain (take h (first_fit n a bs) n) p a after
  below : SameBelow a h (take h (first_fit n a bs) n)

abbrev AllocOutcome : Heap → ℕ → ℕ → ℕ → List Block → Type 0
AllocOutcome h p a n bs =
    ((alloc n a bs ≡ none) × (first_fit n a bs ≡ 0))
    ⊎ ((q : ℕ) × (after : List Block) × (alloc n a bs ≡ some (q, after)) × Takes h p a n bs q after)

total-place : (n : ℕ) (b : Block) (bs : List Block) → total (place n b bs) ≡ total (b ∷ bs)
total-place n b bs = ground arith

link-place : (n a : ℕ) (b : Block) (bs : List Block) → link a (place n b bs) ≡ a
link-place n a b bs = ground arith

first_fit_hit :
    (n a : ℕ) (b : Block) (bs : List Block) → fits n b ≡ true → first_fit n a (b ∷ bs) ≡ a
first_fit_hit n a b bs fit = rw fit

first_fit_miss :
    (n a : ℕ) (b : Block) (bs : List Block)
    → fits n b ≡ false
    → first_fit n a (b ∷ bs) ≡ first_fit n (end a b) bs
first_fit_miss n a b bs miss = rw miss

alloc-outcome :
    (h : Heap) (p a n : ℕ) (bs : List Block)
    → 0 < a
    → a + total bs ≤ 2 ^ 32
    → Chain h p a bs
    → AllocOutcome h p a n bs
unfolding alloc
alloc-outcome h p a n [] pos space c = inl (refl, refl)
alloc-outcome h p a n (b ∷ bs) pos space c = elim (Bool-cases (fits n b)) [
  | inl fit ↦ inr (a + header, place n b bs, rw fit, hit fit)
  | inr miss ↦ elim (alloc-outcome h a (end a b) n bs (omega arith) (omega arith) c.1) [
    | inl (fails, zero_is) ↦ inl (rw (miss, fails, alloc), rw miss zero_is)
    | inr (q, after, e, t) ↦ inr (q, b ∷ after, rw (miss, e, alloc), pass miss q after t)
  ]
]
  where
    hit : fits n b ≡ true → Takes h p a n (b ∷ bs) (a + header) (place n b bs)
    hit fit =
        let k = take-Chain h p a n b bs pos space fit c in
        let e = first_fit_hit n a b bs fit in
        record {
          payload = rw e;
          found = rw e (omega arith);
          found_end = omega (arith, fits-lt n b fit);
          first = link-place n a b bs;
          same_total = total-place n b bs;
          chain = subst (λ f. Chain (take h f n) p a (place n b bs)) (sym e) k.0;
          below = subst (λ f. SameBelow a h (take h f n)) (sym e) k.1;
        }

    pass :
        fits n b ≡ false
        → (q : ℕ) (after : List Block) → Takes h a (end a b) n bs q after
        → Takes h p a n (b ∷ bs) q (b ∷ after)
    pass miss q after t =
        let e = first_fit_miss n a b bs miss in
        record {
          payload = t.payload ∙ ap (λ f. f + header) (sym e);
          found = rw e (omega arith);
          found_end = t.found_end;
          first = refl;
          same_total = ap (λ s. header + b.size + s) t.same_total;
          chain =
              subst (λ f. Chain (take h f n) p a (b ∷ after)) (sym e)
                (
                  t.below a (omega arith) ∙ c.0 ∙ ap (λ l. chunk l p b.used b.size) (sym t.first),
                  t.chain,
                );
          below = subst (λ f. SameBelow a h (take h f n)) (sym e) (λ r lt. t.below r (omega arith));
        }

length-le-total : (bs : List Block) → length bs * header ≤ total bs
length-le-total [] = omega arith
length-le-total (b ∷ bs) = omega (arith, length-le-total bs)

module _ (m : MemoryManager) (start n : ℕ) (bs : List Block) (r : Represents m start bs) where
  searched : find_free (max_chunks + 1) m.heap m.first n ≡ some (first_fit n start bs)
  searched =
      ap (λ f. find_free (max_chunks + 1) m.heap f n) r.first
      ∙ find_free-first_fit (max_chunks + 1) n m.heap 0 start bs short r.above_null r.chain
    where
      short : length bs < max_chunks + 1
      short = omega (arith, length-le-total bs, r.in_space, r.above_null)

  -- What `malloc` does with the chunk that the search found.
  chosen : ℕ → Option (ℕ × MemoryManager)
  chosen f =
      if f == 0 then some (0, m) else some (u32 (f + header), record m { heap = take m.heap f n })

  chosen_at :
      (f q : ℕ)
      → 0 < f
      → q ≡ f + header
      → q < 2 ^ 32
      → chosen f ≡ some (q, record m { heap = take m.heap f n })
  unfolding chosen
  chosen_at f q pos e lt = ground arith

  malloc-chosen : malloc m n ≡ chosen (first_fit n start bs)
  unfolding malloc chosen
  malloc-chosen = rw (searched, malloc)

  -- On a heap that holds a list of blocks, malloc always returns: null with the heap unchanged
  -- where first fit finds no block; otherwise the address that first fit picks, with a heap
  -- that holds the blocks that first fit leaves, of the same total size.
  pub malloc_refines :
      ((alloc n start bs ≡ none) × (malloc m n ≡ some (0, m)))
      ⊎ ((q : ℕ) × (after : List Block) × (m' : MemoryManager) × (alloc n start bs
            ≡ some (q, after))
          × (malloc m n ≡ some (q, m'))
          × Represents m' start after
          × (total after ≡ total bs))
  unfolding chosen
  malloc_refines = elim (alloc-outcome m.heap 0 start n bs r.above_null r.in_space r.chain) [
    | inl (fails, zero_is) ↦ inl (fails, malloc-chosen ∙ rw zero_is)
    | inr (q, after, e, t) ↦ inr (
      q,
      after,
      record m { heap = take m.heap (first_fit n start bs) n },
      e,
      malloc-chosen ∙ chosen_at _ q (omega (arith, r.above_null)) t.payload t.found_end,
      record {
        above_null = r.above_null;
        in_space = rw t.same_total r.in_space;
        first = r.first ∙ sym t.first;
        chain = t.chain;
      },
      t.same_total,
    )
  ]
