-- ===== src/Memory/FirstFit.antt =====
-- What first fit promises, on lists of blocks.
use hydra_os.Common.{
  ℕ, ◌+◌, ◌≤◌, ◌<◌, ◌≡◌, refl, sym, ap, subst, Bool, true, false, ◌⊎◌, Option, none, some,
  Bool-cases, inl, inr, List, [], ◌∷◌, ◌++◌, if◌then◌else◌, arith,
}
use hydra_os.Memory.{header}
use hydra_os.Memory.Blocks.{Block, total, end, fits, place, alloc}

-- No block is free and larger than `n`.
abbrev pub NoneFits : ℕ → List Block → Type 0
NoneFits n [] = Unit {0}
NoneFits n (b ∷ bs) = ((b.used ≡ true) ⊎ (b.size ≤ n)) × NoneFits n bs

-- First fit chose `b`: the blocks in front of it are too small or taken.
pub record Chose (n a : ℕ) (bs : List Block) (q : ℕ) (bs' : List Block) : Type 0 where
  pub before : List Block
  pub chosen : Block
  pub after : List Block
  pub was : bs ≡ before ++ chosen ∷ after
  pub address : q ≡ a + total before + header
  pub free_before : chosen.used ≡ false
  pub larger : n < chosen.size
  pub first : NoneFits n before
  pub becomes : bs' ≡ before ++ place n chosen after

abbrev AllocSpec : ℕ → ℕ → List Block → Option (ℕ × List Block) → Type 0
AllocSpec n a bs none = NoneFits n bs
AllocSpec n a bs (some (q, bs')) = Chose n a bs q bs'

fits→large : (n : ℕ) (b : Block) → fits n b ≡ true → (b.used ≡ false) × (n < b.size)
fits→large n b fit = ground arith

unfit : (n : ℕ) (b : Block) → fits n b ≡ false → (b.used ≡ true) ⊎ (b.size ≤ n)
unfit n b miss = ground arith

hit-Chose :
    (n a : ℕ) (b : Block) (bs : List Block)
    → fits n b ≡ true
    → Chose n a (b ∷ bs) (a + header) (place n b bs)
hit-Chose n a b bs fit = record {
  before = [];
  chosen = b;
  after = bs;
  was = refl;
  address = omega arith;
  free_before = (fits→large n b fit).0;
  larger = (fits→large n b fit).1;
  first = tt;
  becomes = refl;
}

miss-AllocSpec :
    (n a : ℕ) (b : Block) (bs : List Block)
    → fits n b ≡ false
    → (r : Option (ℕ × List Block)) → AllocSpec n (end a b) bs r
    → AllocSpec n a (b ∷ bs) (elim r [ none ↦ none | some (p, bs') ↦ some (p, b ∷ bs') ])
miss-AllocSpec n a b bs miss none s = (unfit n b miss, s)
miss-AllocSpec n a b bs miss (some (q, bs')) s = record {
  before = b ∷ s.before;
  chosen = s.chosen;
  after = s.after;
  was = ap (◌∷◌ b) s.was;
  address = omega (arith, s.address);
  free_before = s.free_before;
  larger = s.larger;
  first = (unfit n b miss, s.first);
  becomes = ap (◌∷◌ b) s.becomes;
}

alloc-AllocSpec : (n a : ℕ) (bs : List Block) → AllocSpec n a bs (alloc n a bs)
unfolding alloc
alloc-AllocSpec n a [] = tt
alloc-AllocSpec n a (b ∷ bs) = elim (Bool-cases (fits n b)) [
  | inl fit ↦ subst (AllocSpec n a (b ∷ bs)) (sym (ap picks fit)) (hit-Chose n a b bs fit)
  | inr miss ↦
      subst (AllocSpec n a (b ∷ bs)) (sym (ap picks miss))
        (miss-AllocSpec n a b bs miss (alloc n (end a b) bs) (alloc-AllocSpec n (end a b) bs))
]
  where
    picks : Bool → Option (ℕ × List Block)
    picks t =
        if t
        then some (a + header, place n b bs)
        else elim (alloc n (end a b) bs) [ none ↦ none | some (p, bs') ↦ some (p, b ∷ bs') ]

pub Chose-of_some :
    (n a : ℕ) (bs : List Block) (q : ℕ) (bs' : List Block)
    → alloc n a bs ≡ some (q, bs')
    → Chose n a bs q bs'
Chose-of_some n a bs q bs' e = subst (AllocSpec n a bs) e (alloc-AllocSpec n a bs)

pub NoneFits_of_none : (n a : ℕ) (bs : List Block) → alloc n a bs ≡ none → NoneFits n bs
NoneFits_of_none n a bs e = subst (AllocSpec n a bs) e (alloc-AllocSpec n a bs)
