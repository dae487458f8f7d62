-- ===== src/Memory/Blocks.antt =====
-- What the heap of memory.cpp stands for: the blocks from the first address on, in order, each
-- allocated or free, with `alloc` and `release` as the specification of `malloc` and `free`.
use hydra_os.Common.{
  ℕ, ◌+◌, ◌-◌, Bool, true, false, not, ◌&&◌, Option, none, some, List, [], ◌∷◌, ltb, leb,
  if◌then◌else◌,
}
use hydra_os.Memory.{header}

pub record Block : Type 0 where
  pub used : Bool
  pub size : ℕ

abbrev pub block : Bool → ℕ → Block
block u s = record { used = u; size = s }

-- The bytes that the blocks take up, headers included.
abbrev pub total : List Block → ℕ
total [] = 0
total (b ∷ bs) = header + b.size + total bs

-- The address of the first block, null if there is none.
abbrev pub link : ℕ → List Block → ℕ
link a [] = 0
link a (_ ∷ _) = a

abbrev pub end : ℕ → Block → ℕ
end a b = a + header + b.size

abbrev pub fits : ℕ → Block → Bool
fits n b = ltb n b.size && not b.used

-- The chosen block is marked; what is left of it becomes a block if it can hold a byte.
abbrev pub place : ℕ → Block → List Block → List Block
place n b bs =
    if leb (n + header + 1) b.size
    then block true n ∷ block false (b.size - n - header) ∷ bs
    else block true b.size ∷ bs

-- First fit: the payload's address and the blocks afterwards, `none` if no block is large enough.
unfoldable pub alloc : ℕ → ℕ → List Block → Option (ℕ × List Block)
alloc n a [] = none
alloc n a (b ∷ bs) =
    let rest : Option (ℕ × List Block) = elim (alloc n (end a b) bs) [
      | none ↦ none
      | some (p, r) ↦ some (p, b ∷ r)
    ] in
    if fits n b then some (a + header, place n b bs) else rest

-- A free block swallows a free one behind it.
abbrev pub absorb_next : Block → List Block → List Block
absorb_next b [] = b ∷ []
absorb_next b (c ∷ bs) =
    if c.used then b ∷ c ∷ bs else block b.used (b.size + (c.size + header)) ∷ bs

-- The same at a block and the head of the list behind it.
abbrev pub absorb_prev : Block → List Block → List Block
absorb_prev b [] = b ∷ []
absorb_prev b (c ∷ bs) =
    if b.used then b ∷ c ∷ bs else block b.used (b.size + (c.size + header)) ∷ bs

-- The block behind the blocks `before` becomes free, and merges with its free neighbours.
unfoldable pub release : List Block → Block → List Block → List Block
release [] b after = absorb_next (block false b.size) after
release (c ∷ before) b after = elim before [
  | [] ↦ absorb_prev c (absorb_next (block false b.size) after)
  | _ ∷ _ ↦ c ∷ release before b after
]
