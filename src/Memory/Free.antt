-- ===== src/Memory/Free.antt =====
-- `free` implements `release` of Memory/Blocks.
use hydra_os.Common.{
  ℕ, ◌+◌, ◌^◌, ◌≤◌, ◌<◌, ◌≡◌, ◌∙◌, refl, sym, ap, subst, Bool, false, Bool-cases, inl, inr, List,
  [], ◌∷◌, ◌++◌, sub32, if◌then◌else◌, arith,
}
use hydra_os.Memory.{
  Chunk, chunk, Heap, header, write, set_allocated, merge_next, give_back, free, MemoryManager,
}
use hydra_os.Memory.Blocks.{Block, block, total, link, end, absorb_next, absorb_prev, release}
use hydra_os.Memory.Chain.{Chain, Represents, SameBelow, Chain-write, write_self, write_ne}
use hydra_os.Memory.Merge.{merge_next-Chain, merge_prev-Chain, merge_next-last, merge_prev-first}

absorb_next-cons :
    (b : Block) (after : List Block)
    → (d : Block) × (ds : List Block) × (absorb_next b after ≡ d ∷ ds)
absorb_next-cons b [] = (b, [], refl)
absorb_next-cons b (c ∷ bs) = elim (Bool-cases c.used) [
  | inl held ↦ (b, c ∷ bs, ap picks held)
  | inr free_is ↦ (block b.used (b.size + (c.size + header)), bs, ap picks free_is)
]
  where
    picks : Bool → List Block
    picks t = if t then b ∷ c ∷ bs else block b.used (b.size + (c.size + header)) ∷ bs

total-absorb_next :
    (b : Block) (after : List Block) → total (absorb_next b after) ≡ total (b ∷ after)
total-absorb_next b [] = refl
total-absorb_next b (c ∷ bs) = ground arith

total-absorb_prev :
    (b : Block) (after : List Block) → total (absorb_prev b after) ≡ total (b ∷ after)
total-absorb_prev b [] = refl
total-absorb_prev b (c ∷ bs) = ground arith

link-absorb_prev : (a : ℕ) (b : Block) (after : List Block) → link a (absorb_prev b after) ≡ a
link-absorb_prev a b [] = refl
link-absorb_prev a b (c ∷ bs) = ground arith

link-absorb_next : (a : ℕ) (b : Block) (after : List Block) → link a (absorb_next b after) ≡ a
link-absorb_next a b [] = refl
link-absorb_next a b (c ∷ bs) = ground arith

-- Freeing loses no byte.
pub total-release :
    (before : List Block) (b : Block) (after : List Block)
    → total (release before b after) ≡ total (before ++ b ∷ after)
unfolding release
total-release [] b after = total-absorb_next (block false b.size) after
total-release (c ∷ []) b after =
    total-absorb_prev c (absorb_next (block false b.size) after)
    ∙ ap (λ t. header + c.size + t) (total-absorb_next (block false b.size) after)
total-release (c ∷ d ∷ before) b after =
    ap (λ t. header + c.size + t) (total-release (d ∷ before) b after)

link-release :
    (a : ℕ) (before : List Block) (b : Block) (after : List Block)
    → link a (release before b after) ≡ a
unfolding release
link-release a [] b after = link-absorb_next a (block false b.size) after
link-release a (c ∷ []) b after = link-absorb_prev a c (absorb_next (block false b.size) after)
link-release a (c ∷ d ∷ before) b after = refl

-- The first two steps of `free`: the mark and the merge with the next chunk.
abbrev opened : Heap → ℕ → Heap
opened h a = merge_next (set_allocated h a false) a

merge_next_step :
    (h : Heap) (p a : ℕ) (b : Block) (after : List Block)
    → 0 < a
    → a + total (b ∷ after) ≤ 2 ^ 32
    → Chain h p a (b ∷ after)
    → Chain (merge_next h a) p a (absorb_next b after) × SameBelow a h (merge_next h a)
merge_next_step h p a b [] pos space k =
    subst (λ (g : Heap). Chain g p a (b ∷ []) × SameBelow a h g) (sym (merge_next-last h p a b k))
      (k, λ q lt. refl)
merge_next_step h p a b (c ∷ bs) pos space k = merge_next-Chain h p a b c bs pos space k

module _ (h : Heap) (p a : ℕ) (b : Block) (after : List Block) (pos : 0 < a)
    (space : a + total (b ∷ after) ≤ 2 ^ 32) (k : Chain h p a (b ∷ after)) where
  freed : Chunk
  freed = chunk (link (end a b) after) p false b.size

  freed_is : set_allocated h a false ≡ write h a freed
  unfolding set_allocated freed
  freed_is = ap (λ (d : Chunk). write h a (record d { allocated = false })) k.0

  marked-Chain : Chain (set_allocated h a false) p a (block false b.size ∷ after)
  marked-Chain =
      subst (λ (g : Heap). Chain g p a (block false b.size ∷ after)) (sym freed_is)
        (
          write_self h a freed ∙ unfold freed in refl,
          Chain-write h a a (end a b) freed after (omega arith) k.1,
        )

  opened-Chain :
      Chain (opened h a) p a (absorb_next (block false b.size) after) × SameBelow a h (opened h a)
  opened-Chain =
      let s =
        merge_next_step (set_allocated h a false) p a (block false b.size) after pos space
          marked-Chain in
      (s.0, λ q lt. s.1 q lt ∙ ap (λ (g : Heap). g q) freed_is ∙ write_ne h a q freed (omega arith))

-- The chunk that starts behind the blocks `before`.
abbrev pub behind : ℕ → List Block → ℕ
behind a [] = a
behind a (c ∷ before) = behind (end a c) before

behind-eq-add : (a : ℕ) (before : List Block) → behind a before ≡ a + total before
behind-eq-add a [] = omega arith
behind-eq-add a (c ∷ before) = omega (arith, behind-eq-add (end a c) before)

-- The first block has no previous one.
give_back-first :
    (h : Heap) (a : ℕ) (b : Block) (after : List Block)
    → 0 < a
    → a + total (b ∷ after) ≤ 2 ^ 32
    → Chain h 0 a (b ∷ after)
    → Chain (give_back h a) 0 a (release [] b after)
unfolding give_back release
give_back-first h a b after pos space k =
    let o = opened-Chain h 0 a b after pos space k in
    let (d, ds, e) = absorb_next-cons (block false b.size) after in
    subst (λ (g : Heap). Chain g 0 a (absorb_next (block false b.size) after))
      (sym (merge_prev-first (opened h a) a d ds (subst (Chain (opened h a) 0 a) e o.0))) o.0

module _ (h : Heap) (p a : ℕ) (c b : Block) (after : List Block) (pos : 0 < a)
    (space : a + total (c ∷ b ∷ after) ≤ 2 ^ 32) (k : Chain h p a (c ∷ b ∷ after)) where
  abbrev grown : List Block
  grown = absorb_next (block false b.size) after

  second : Chain (opened h (end a c)) p a (c ∷ grown) × SameBelow a h (opened h (end a c))
  second =
      let o = opened-Chain h a (end a c) b after (omega arith) (omega arith) k.1 in
      (
        (
          o.1 a (omega arith)
              ∙ k.0
              ∙ ap (λ l. chunk l p c.used c.size)
                  (sym (link-absorb_next (end a c) (block false b.size) after)),
          o.0,
        ),
        λ q lt. o.1 q (omega arith),
      )

  -- The block behind the first one merges with it if it is free.
  give_back-second :
      Chain (give_back h (end a c)) p a (absorb_prev c grown)
      × SameBelow a h (give_back h (end a c))
  unfolding give_back
  give_back-second =
      let (d, ds, e) = absorb_next-cons (block false b.size) after in
      let m =
        merge_prev-Chain (opened h (end a c)) p a c d ds pos
          (omega (arith, total-absorb_next (block false b.size) after, ap total e))
          (subst (λ bs. Chain (opened h (end a c)) p a (c ∷ bs)) e second.0) in
      (
        subst (λ bs. Chain (give_back h (end a c)) p a (absorb_prev c bs)) (sym e) m.0,
        λ q lt. m.1 q lt ∙ second.1 q lt,
      )

give_back-Chain :
    (h : Heap) (p a : ℕ) (c : Block) (before : List Block) (b : Block) (after : List Block)
    → 0 < a
    → a + total (c ∷ before ++ b ∷ after) ≤ 2 ^ 32
    → Chain h p a (c ∷ before ++ b ∷ after)
    → Chain (give_back h (behind a (c ∷ before))) p a (release (c ∷ before) b after)
      × SameBelow a h (give_back h (behind a (c ∷ before)))
unfolding release
give_back-Chain h p a c [] b after pos space k = give_back-second h p a c b after pos space k
give_back-Chain h p a c (d ∷ before) b after pos space k =
    let i = give_back-Chain h a (end a c) d before b after (omega arith) (omega arith) k.1 in
    (
      (
        i.1 a (omega arith)
            ∙ k.0
            ∙ ap (λ l. chunk l p c.used c.size) (sym (link-release (end a c) (d ∷ before) b after)),
        i.0,
      ),
      λ q lt. i.1 q (omega arith),
    )

give_back-release :
    (h : Heap) (a : ℕ) (before : List Block) (b : Block) (after : List Block)
    → 0 < a
    → a + total (before ++ b ∷ after) ≤ 2 ^ 32
    → Chain h 0 a (before ++ b ∷ after)
    → Chain (give_back h (behind a before)) 0 a (release before b after)
give_back-release h a [] b after pos space k = give_back-first h a b after pos space k
give_back-release h a (c ∷ before) b after pos space k =
    (give_back-Chain h 0 a c before b after pos space k).0

total-middle :
    (before : List Block) (b : Block) (after : List Block)
    → total (before ++ b ∷ after) ≡ total before + total (b ∷ after)
total-middle [] b after = omega arith
total-middle (c ∷ before) b after = omega (arith, total-middle before b after)

link-middle :
    (a : ℕ) (before : List Block) (b : Block) (after : List Block)
    → link a (before ++ b ∷ after) ≡ a
link-middle a [] b after = refl
link-middle a (c ∷ before) b after = refl

-- Freeing the payload of any block of a heap leaves a heap that holds the same blocks with that
-- block free and merged with its free neighbours on both sides, of the same total size.
pub free_refines :
    (m : MemoryManager) (start ptr : ℕ) (before : List Block) (b : Block) (after : List Block)
    → Represents m start (before ++ b ∷ after)
    → ptr ≡ start + total before + header
    → Represents (free m ptr) start (release before b after)
      × (total (release before b after) ≡ total (before ++ b ∷ after))
unfolding free
free_refines m start ptr before b after r e = (
  record {
    above_null = r.above_null;
    in_space = rw total-release r.in_space;
    first = r.first ∙ link-middle start before b after ∙ sym (link-release start before b after);
    chain =
        subst (λ x. Chain (give_back m.heap x) 0 start (release before b after)) (sym at)
          (give_back-release m.heap start before b after r.above_null r.in_space r.chain);
  },
  total-release before b after,
)
  where
    at : sub32 ptr header ≡ behind start before
    at =
        omega
          (arith, behind-eq-add start before, total-middle before b after, r.in_space, r.above_null)
