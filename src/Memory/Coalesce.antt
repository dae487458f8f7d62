-- ===== src/Memory/Coalesce.antt =====
-- Coalescing: no two neighbours of a heap are both free.
use hydra_os.Common.{
  ℕ, ◌+◌, ◌-◌, ◌<◌, ◌≡◌, ◌∙◌, refl, sym, ap, subst, Bool, true, false, ◌||◌, Bool-cases, inl, inr,
  List, [], ◌∷◌, ◌++◌, leb, if◌then◌else◌, arith,
}
use hydra_os.Memory.{header}
use hydra_os.Memory.Blocks.{Block, block, place, absorb_next, absorb_prev, release}

abbrev Apart : Block → List Block → Type 0
Apart b [] = Unit {0}
Apart b (c ∷ _) = (b.used || c.used) ≡ true

-- No two neighbours are both free.
abbrev pub IsCoalesced : List Block → Type 0
IsCoalesced [] = Unit {0}
IsCoalesced (b ∷ bs) = Apart b bs × IsCoalesced bs

IsCoalesced-behind :
    (before : List Block) (b : Block) (after : List Block)
    → IsCoalesced (before ++ b ∷ after)
    → IsCoalesced (b ∷ after)
IsCoalesced-behind [] b after k = k
IsCoalesced-behind (c ∷ before) b after k = IsCoalesced-behind before b after k.1

-- The neighbour of a free block is taken.
Apart-block :
    (b : Block) (s : ℕ) (bs : List Block) → b.used ≡ false → Apart b bs → Apart (block false s) bs
Apart-block b s [] is_free h = tt
Apart-block b s (c ∷ bs) is_free h = ground arith

Apart-used : (s : ℕ) (bs : List Block) → Apart (block true s) bs
Apart-used s [] = tt
Apart-used s (c ∷ bs) = refl

absorb_next-stays :
    (b : Block) (bs : List Block) → b.used ≡ false → Apart b bs → absorb_next b bs ≡ b ∷ bs
absorb_next-stays b [] is_free h = refl
absorb_next-stays b (c ∷ bs) is_free h = ground arith

block_eta : (b : Block) (s : ℕ) → b.used ≡ false → s ≡ b.size → block false s ≡ b
block_eta b s u e = ground arith

abbrev pub placed : ℕ → Block → Block
placed n b = if leb (n + header + 1) b.size then block true n else block true b.size

abbrev pub placed_rest : ℕ → Block → List Block → List Block
placed_rest n b bs =
    if leb (n + header + 1) b.size then block false (b.size - n - header) ∷ bs else bs

pub place_parts :
    (n : ℕ) (b : Block) (bs : List Block) → place n b bs ≡ placed n b ∷ placed_rest n b bs
place_parts n b bs = ground arith

-- The chosen block, freed, is what it was.
absorb_placed :
    (n : ℕ) (b : Block) (after : List Block)
    → b.used ≡ false
    → n < b.size
    → Apart b after
    → absorb_next (block false (placed n b).size) (placed_rest n b after) ≡ b ∷ after
absorb_placed n b after is_free larger h = elim (Bool-cases (leb (n + header + 1) b.size)) [
  | inl large ↦ shape large ∙ ap (λ c. c ∷ after) (block_eta b _ is_free (ground arith))
  | inr small ↦
      shape small
      ∙ absorb_next-stays (block false b.size) after refl (Apart-block b b.size after is_free h)
      ∙ ap (λ c. c ∷ after) (block_eta b b.size is_free refl)
]
  where
    picks : Bool → List Block
    picks t =
        absorb_next (block false (if t then block true n else block true b.size).size)
          (if t then block false (b.size - n - header) ∷ after else after)

    shape :
        {t : Bool}
        → leb (n + header + 1) b.size ≡ t
        → absorb_next (block false (placed n b).size) (placed_rest n b after) ≡ picks t
    shape e = ap picks e

-- In a coalesced heap the block before a free one stays as it is.
release-restores :
    (before : List Block) (b b' : Block) (after rest : List Block)
    → b.used ≡ false
    → absorb_next (block false b'.size) rest ≡ b ∷ after
    → IsCoalesced (before ++ b ∷ after)
    → release before b' rest ≡ before ++ b ∷ after
unfolding release
release-restores [] b b' after rest u e k = e
release-restores (c ∷ []) b b' after rest u e k = ap (absorb_prev c) e ∙ ground arith
release-restores (c ∷ d ∷ before) b b' after rest u e k =
    ap (◌∷◌ c) (release-restores (d ∷ before) b b' after rest u e k.1)

-- Freeing the block that first fit chose undoes the choice.
pub release-place :
    (n : ℕ) (before : List Block) (b : Block) (after : List Block)
    → b.used ≡ false
    → n < b.size
    → IsCoalesced (before ++ b ∷ after)
    → release before (placed n b) (placed_rest n b after) ≡ before ++ b ∷ after
release-place n before b after u larger k =
    release-restores before b (placed n b) after (placed_rest n b after) u
      (absorb_placed n b after u larger (IsCoalesced-behind before b after k).0) k

-- The two operations keep a heap coalesced.
place-IsCoalesced :
    (n : ℕ) (b : Block) (after : List Block)
    → b.used ≡ false
    → IsCoalesced (b ∷ after)
    → IsCoalesced (place n b after)
place-IsCoalesced n b after u k =
    ground (arith, Apart-block b (b.size - n - header) after u k.0, Apart-used b.size after)

pub alloc-IsCoalesced :
    (n : ℕ) (before : List Block) (b : Block) (after : List Block)
    → b.used ≡ false
    → IsCoalesced (before ++ b ∷ after)
    → IsCoalesced (before ++ place n b after)
alloc-IsCoalesced n [] b after u k = place-IsCoalesced n b after u k
alloc-IsCoalesced n (c ∷ []) b after u k = (ground arith, place-IsCoalesced n b after u k.1)
alloc-IsCoalesced n (c ∷ d ∷ before) b after u k =
    (k.0, alloc-IsCoalesced n (d ∷ before) b after u k.1)

absorb_next-IsCoalesced :
    (s : ℕ) (after : List Block)
    → IsCoalesced after
    → IsCoalesced (absorb_next (block false s) after)
absorb_next-IsCoalesced s [] k = (tt, tt)
absorb_next-IsCoalesced s (c ∷ []) k = ground arith
absorb_next-IsCoalesced s (c ∷ d ∷ bs) k = ground arith

-- With a free block in front, as `absorb_next` leaves it.
absorb_prev-IsCoalesced :
    (c : Block) (s : ℕ) (bs : List Block)
    → IsCoalesced (block false s ∷ bs)
    → IsCoalesced (absorb_prev c (block false s ∷ bs))
absorb_prev-IsCoalesced c s [] k = ground arith
absorb_prev-IsCoalesced c s (d ∷ []) k = ground arith
absorb_prev-IsCoalesced c s (d ∷ e ∷ bs) k = ground arith

absorb_both-IsCoalesced :
    (c : Block) (s : ℕ) (after : List Block)
    → IsCoalesced after
    → IsCoalesced (absorb_prev c (absorb_next (block false s) after))
absorb_both-IsCoalesced c s [] k = absorb_prev-IsCoalesced c s [] (tt, tt)
absorb_both-IsCoalesced c s (d ∷ bs) k = elim (Bool-cases d.used) [
  | inl held ↦
      subst (λ cs. IsCoalesced (absorb_prev c cs)) (sym (ap picks held))
        (absorb_prev-IsCoalesced c s (d ∷ bs) (held, k))
  | inr is_free ↦
      subst (λ cs. IsCoalesced (absorb_prev c cs)) (sym (ap picks is_free))
        (absorb_prev-IsCoalesced c (s + (d.size + header)) bs
          (Apart-block d (s + (d.size + header)) bs is_free k.0, k.1))
]
  where
    picks : Bool → List Block
    picks t = if t then block false s ∷ d ∷ bs else block false (s + (d.size + header)) ∷ bs

Apart-absorb_prev :
    (x d : Block) (bs cs : List Block) → Apart x (d ∷ cs) → Apart x (absorb_prev d bs)
Apart-absorb_prev x d [] cs h = h
Apart-absorb_prev x d (e ∷ bs) cs h = ground arith

Apart-release :
    (x d : Block) (before : List Block) (b : Block) (after cs : List Block)
    → Apart x (d ∷ cs)
    → Apart x (release (d ∷ before) b after)
unfolding release
Apart-release x d [] b after cs h =
    Apart-absorb_prev x d (absorb_next (block false b.size) after) cs h
Apart-release x d (e ∷ before) b after cs h = h

pub release-IsCoalesced :
    (before : List Block) (b : Block) (after : List Block)
    → IsCoalesced (before ++ b ∷ after)
    → IsCoalesced (release before b after)
unfolding release
release-IsCoalesced [] b after k = absorb_next-IsCoalesced b.size after k.1
release-IsCoalesced (c ∷ []) b after k = absorb_both-IsCoalesced c b.size after k.1.1
release-IsCoalesced (c ∷ d ∷ before) b after k = (
  Apart-release c d before b after (before ++ b ∷ after) k.0,
  release-IsCoalesced (d ∷ before) b after k.1,
)
