-- ===== src/Filesystem/Lookup.antt =====
-- The searches of `FindFreeInode` and `OpenFile` over a table in which one inode changes.
use hydra_os.Common.{
  ℕ, zero, suc, ◌+◌, ◌<◌, ◌≡◌, ◌∙◌, ◌⊎◌, inl, inr, refl, sym, ap, Bool, true, false, not, ◌&&◌,
  Option, none, some, List, [], ◌∷◌, length, set, arith, ◌==◌, if◌then◌else◌, Bool-cases,
}
use hydra_os.Filesystem.Layout.{Inode, type_empty}
use hydra_os.Filesystem.Files.{names_match, find_file, find_free_inode}
use hydra_os.Filesystem.Table.{at}

-- The index, from `k` on, of the first inode that passes the test.
first : (Inode → Bool) → ℕ → List Inode → Option ℕ
first p k [] = none
first p k (x ∷ xs) = if p x then some k else first p (k + 1) xs

pub record IsFirst (p : Inode → Bool) (xs : List Inode) (i : ℕ) : Type 0 where
  pub inside : i < length xs
  pub passes : p (at xs i) ≡ true
  pub before : (j : ℕ) → j < i → p (at xs j) ≡ false

abbrev pub NonePass : (Inode → Bool) → List Inode → Type 0
NonePass p xs = (j : ℕ) → j < length xs → p (at xs j) ≡ false

module _ (p : Inode → Bool) where
  hit : (k : ℕ) (x : Inode) (xs : List Inode) → p x ≡ true → first p k (x ∷ xs) ≡ some k
  hit k x xs e = unfold first in ap (λ t. if t then some k else first p (k + 1) xs) e

  miss :
      (k : ℕ) (x : Inode) (xs : List Inode) → p x ≡ false → first p k (x ∷ xs) ≡ first p (k + 1) xs
  miss k x xs e = unfold first in ap (λ t. if t then some k else first p (k + 1) xs) e

  first-NonePass : (k : ℕ) (xs : List Inode) → NonePass p xs → first p k xs ≡ none
  first-NonePass k [] h = unfold first in refl
  first-NonePass k (x ∷ xs) h =
      miss k x xs (h 0 (omega arith)) ∙ first-NonePass (k + 1) xs (λ j lt. h (suc j) (omega arith))

  first-IsFirst : (k i : ℕ) (xs : List Inode) → IsFirst p xs i → first p k xs ≡ some (k + i)
  first-IsFirst k i [] h = absurd (omega (arith, h.inside))
  first-IsFirst k zero (x ∷ xs) h = hit k x xs h.passes ∙ ap some (omega arith)
  first-IsFirst k (suc i) (x ∷ xs) h =
      miss k x xs (h.before 0 (omega arith))
      ∙ first-IsFirst (k + 1) i xs (record {
        inside = omega (arith, h.inside);
        passes = h.passes;
        before = λ j lt. h.before (suc j) (omega arith);
      })
      ∙ ap some (omega arith)

  none_more : (x : Inode) (xs : List Inode) → p x ≡ false → NonePass p xs → NonePass p (x ∷ xs)
  none_more x xs e h zero lt = e
  none_more x xs e h (suc j) lt = h j (omega arith)

  before_more :
      (x : Inode) (xs : List Inode) (i : ℕ)
      → p x ≡ false
      → ((j : ℕ) → j < i → p (at xs j) ≡ false)
      → (j : ℕ) → j < suc i
      → p (at (x ∷ xs) j) ≡ false
  before_more x xs i e h zero lt = e
  before_more x xs i e h (suc j) lt = h j (omega arith)

  -- The search ends one way or the other.
  first-cases :
      (k : ℕ) (xs : List Inode)
      → ((first p k xs ≡ none) × NonePass p xs)
        ⊎ ((i : ℕ) × (first p k xs ≡ some (k + i)) × IsFirst p xs i)
  first-cases k [] = inl (unfold first in refl, λ j lt. absurd (omega arith))
  first-cases k (x ∷ xs) = elim (Bool-cases (p x)) [
    | inl e ↦ inr (
      0,
      hit k x xs e ∙ ap some (omega arith),
      record { inside = omega arith; passes = e; before = λ j lt. absurd (omega arith) },
    )
    | inr e ↦ elim (first-cases (k + 1) xs) [
      | inl (none', h) ↦ inl (miss k x xs e ∙ none', none_more x xs e h)
      | inr (i, found, h) ↦ inr (
        suc i,
        miss k x xs e ∙ found ∙ ap some (omega arith),
        record {
          inside = omega (arith, h.inside);
          passes = h.passes;
          before = before_more x xs i e h.before;
        },
      )
    ]
  ]

-- `x` is a file that `filename` opens.
abbrev pub answers : List ℕ → Inode → Bool
answers filename x = not (x.type == type_empty) && names_match x.name filename

abbrev pub is_empty : Inode → Bool
is_empty x = x.type == type_empty

find_file-first :
    (filename : List ℕ) (k : ℕ) (xs : List Inode)
    → find_file filename k xs ≡ first (answers filename) k xs
unfolding find_file first
find_file-first filename k [] = refl
find_file-first filename k (x ∷ xs) =
    ap (λ r. if answers filename x then some k else r) (find_file-first filename (k + 1) xs)

find_free_inode-first : (k : ℕ) (xs : List Inode) → find_free_inode k xs ≡ first is_empty k xs
unfolding find_free_inode first
find_free_inode-first k [] = refl
find_free_inode-first k (x ∷ xs) =
    ap (λ r. if is_empty x then some k else r) (find_free_inode-first (k + 1) xs)

-- `OpenFile` finds the first inode that answers to the name, and -1 says that none does.
pub find_file-cases :
    (filename : List ℕ) (xs : List Inode)
    → ((find_file filename 0 xs ≡ none) × NonePass (answers filename) xs)
      ⊎ ((i : ℕ) × (find_file filename 0 xs ≡ some i) × IsFirst (answers filename) xs i)
find_file-cases filename xs = elim (first-cases (answers filename) 0 xs) [
  | inl (e, h) ↦ inl (find_file-first filename 0 xs ∙ e, h)
  | inr (i, e, h) ↦ inr (i, find_file-first filename 0 xs ∙ e ∙ ap some (omega arith), h)
]

pub find_file-IsFirst :
    (filename : List ℕ) (xs : List Inode) (i : ℕ)
    → IsFirst (answers filename) xs i
    → find_file filename 0 xs ≡ some i
find_file-IsFirst filename xs i h =
    find_file-first filename 0 xs
    ∙ first-IsFirst (answers filename) 0 i xs h
    ∙ ap some (omega arith)

pub find_file-NonePass :
    (filename : List ℕ) (xs : List Inode)
    → NonePass (answers filename) xs
    → find_file filename 0 xs ≡ none
find_file-NonePass filename xs h =
    find_file-first filename 0 xs ∙ first-NonePass (answers filename) 0 xs h

-- `FindFreeInode` finds the first empty inode, and -1 says that the table is full.
pub find_free_inode-cases :
    (xs : List Inode)
    → ((find_free_inode 0 xs ≡ none) × NonePass is_empty xs)
      ⊎ ((i : ℕ) × (find_free_inode 0 xs ≡ some i) × IsFirst is_empty xs i)
find_free_inode-cases xs = elim (first-cases is_empty 0 xs) [
  | inl (e, h) ↦ inl (find_free_inode-first 0 xs ∙ e, h)
  | inr (i, e, h) ↦ inr (i, find_free_inode-first 0 xs ∙ e ∙ ap some (omega arith), h)
]

-- A change of one inode that gives the same answer.
first-set :
    (p : Inode → Bool) (k i : ℕ) (x : Inode) (xs : List Inode)
    → p x ≡ p (at xs i)
    → first p k (set xs i x) ≡ first p k xs
unfolding first
first-set p k i x [] e = refl
first-set p k zero x (y ∷ xs) e = ap (λ t. if t then some k else first p (k + 1) xs) e
first-set p k (suc i) x (y ∷ xs) e =
    ap (λ r. if p y then some k else r) (first-set p (k + 1) i x xs e)

pub find_file-set :
    (filename : List ℕ) (i : ℕ) (x : Inode) (xs : List Inode)
    → answers filename x ≡ answers filename (at xs i)
    → find_file filename 0 (set xs i x) ≡ find_file filename 0 xs
find_file-set filename i x xs e =
    find_file-first filename 0 (set xs i x)
    ∙ first-set (answers filename) 0 i x xs e
    ∙ sym (find_file-first filename 0 xs)
