-- ===== src/Filesystem/Names.antt =====
-- The names in the inodes: what the copy in `CreateFile` leaves of a file name, and which file
-- names the comparison in `OpenFile` then accepts.
use hydra_os.Common.{
  ℕ, zero, suc, ◌+◌, ◌≤◌, ◌<◌, ◌≡◌, ◌≢◌, ◌∙◌, ◌↔◌, refl, sym, ap, ap₂, subst, true, List, [], ◌∷◌,
  length, get_or, set, take, drop, length-set, get_or-set_self, get_or-set_ne, arith,
}
use hydra_os.Common.ByteLists.{IsBytes, byte}
use hydra_os.Filesystem.Store.{copy_string}
use hydra_os.Filesystem.Files.{names_match}

-- A C string, without its terminator.
pub data IsString : List ℕ → Type 0 where
  empty : IsString []
  char : {c : ℕ} {s : List ℕ} → c ≢ 0 → c < 256 → IsString s → IsString (c ∷ s)

pub IsString-IsBytes : (s : List ℕ) → IsString s → IsBytes s
IsString-IsBytes [] empty = IsBytes.empty
IsString-IsBytes (c ∷ s) (char ne lt v) = byte lt (IsString-IsBytes s v)

drop-suc : (xs : List ℕ) (i : ℕ) → i < length xs → drop i xs ≡ get_or xs i 0 ∷ drop (suc i) xs
drop-suc [] i h = absurd (omega arith)
drop-suc (x ∷ xs) zero h = refl
drop-suc (x ∷ xs) (suc i) h = drop-suc xs i (omega arith)

pub length-copy_string :
    (left i : ℕ) (s dest : List ℕ) → length (copy_string left i s dest) ≡ length dest
unfolding copy_string
length-copy_string zero i s dest = length-set dest i 0
length-copy_string (suc left) i [] dest = length-set dest i 0
length-copy_string (suc left) i (c ∷ s) dest =
    length-copy_string left (i + 1) s (set dest i c) ∙ length-set dest i c

-- The copy leaves what stands before its start.
get_or-copy_string :
    (left i k : ℕ) (s dest : List ℕ)
    → k < i
    → get_or (copy_string left i s dest) k 0 ≡ get_or dest k 0
unfolding copy_string
get_or-copy_string zero i k s dest h = get_or-set_ne dest i k 0 0 (omega arith)
get_or-copy_string (suc left) i k [] dest h = get_or-set_ne dest i k 0 0 (omega arith)
get_or-copy_string (suc left) i k (c ∷ s) dest h =
    get_or-copy_string left (i + 1) k s (set dest i c) (omega arith)
    ∙ get_or-set_ne dest i k c 0 (omega arith)

-- From its start the copy holds the character, and goes on from there.
drop-copied :
    (left i c : ℕ) (s dest : List ℕ)
    → i < length dest
    → drop i (copy_string left (i + 1) s (set dest i c))
      ≡ c ∷ drop (suc i) (copy_string left (i + 1) s (set dest i c))
drop-copied left i c s dest h =
    drop-suc (copy_string left (i + 1) s (set dest i c)) i
      (omega (arith, length-copy_string left (i + 1) s (set dest i c), length-set dest i c))
    ∙ ap (λ a. a ∷ drop (suc i) (copy_string left (i + 1) s (set dest i c)))
        (get_or-copy_string left (i + 1) i s (set dest i c) (omega arith)
          ∙ get_or-set_self dest i c 0 h)

drop-ended :
    (i : ℕ) (dest : List ℕ)
    → i < length dest
    → drop i (set dest i 0) ≡ 0 ∷ drop (suc i) (set dest i 0)
drop-ended i dest h =
    drop-suc (set dest i 0) i (omega (arith, length-set dest i 0))
    ∙ ap (λ a. a ∷ drop (suc i) (set dest i 0)) (get_or-set_self dest i 0 0 h)

-- A terminator matches the empty name alone.
ended_iff : (rest t : List ℕ) → IsString t → (names_match (0 ∷ rest) t ≡ true) ↔ (t ≡ [])
unfolding names_match
ended_iff rest [] empty = (λ e. refl, λ e. refl)
ended_iff rest (c ∷ t) (char ne lt v) = (λ e. ground arith, λ e. cc)

-- One character of the name against one of the file name.
names_match-cons :
    (c d : ℕ) (rest t : List ℕ)
    → (names_match (c ∷ rest) (d ∷ t) ≡ true) ↔ ((c ≡ d) × (names_match rest t ≡ true))
unfolding names_match
names_match-cons c d rest t = ground arith

extended_iff :
    (c : ℕ) (rest s t : List ℕ)
    → c ≢ 0
    → IsString t
    → ((t : List ℕ) → IsString t → (names_match rest t ≡ true) ↔ (t ≡ s))
    → (names_match (c ∷ rest) t ≡ true) ↔ (t ≡ c ∷ s)
extended_iff c rest s [] ne empty ih = (λ e. absurd (unfold names_match in ground arith), λ e. cc)
extended_iff c rest s (d ∷ t) ne (char ne' lt' vt) ih = (
  λ e.
      let (here, there) = (names_match-cons c d rest t).0 e in
      ap₂ ◌∷◌ (sym here) ((ih t vt).0 there),
  λ e. (names_match-cons c d rest t).1 (cc, (ih t vt).1 cc),
)

-- The accepted file name is the copied one, cut at `left` characters.
copied_iff :
    (left i : ℕ) (s t dest : List ℕ)
    → i + left < length dest
    → IsString s
    → IsString t
    → (names_match (drop i (copy_string left i s dest)) t ≡ true) ↔ (t ≡ take left s)
unfolding copy_string
copied_iff zero i s t dest h vs vt =
    subst (λ xs. (names_match xs t ≡ true) ↔ (t ≡ [])) (sym (drop-ended i dest (omega arith)))
      (ended_iff (drop (suc i) (set dest i 0)) t vt)
copied_iff (suc left) i [] t dest h vs vt =
    subst (λ xs. (names_match xs t ≡ true) ↔ (t ≡ [])) (sym (drop-ended i dest (omega arith)))
      (ended_iff (drop (suc i) (set dest i 0)) t vt)
copied_iff (suc left) i (c ∷ s) t dest h (char ne lt vs) vt =
    subst (λ xs. (names_match xs t ≡ true) ↔ (t ≡ c ∷ take left s))
      (sym (drop-copied left i c s dest (omega arith)))
      (extended_iff c (drop (suc i) (copy_string left (i + 1) s (set dest i c))) (take left s) t ne
        vt
        λ t' vt'.
          subst
            (λ k.
              (names_match (drop k (copy_string left (i + 1) s (set dest i c))) t' ≡ true)
              ↔ (t' ≡ take left s))
            {y = suc i} (omega arith)
            (copied_iff left (i + 1) s t' (set dest i c) (omega (arith, length-set dest i c)) vs
              vt'))

-- The name array that `CreateFile` leaves accepts one file name: the first 31 characters of its own.
pub names_match-copy_string :
    (s t dest : List ℕ)
    → length dest ≡ 32
    → IsString s
    → IsString t
    → (names_match (copy_string 31 0 s dest) t ≡ true) ↔ (t ≡ take 31 s)
names_match-copy_string s t dest e vs vt = copied_iff 31 0 s t dest (omega arith) vs vt

pub take_all : (n : ℕ) (s : List ℕ) → length s ≤ n → take n s ≡ s
take_all zero [] h = refl
take_all zero (c ∷ s) h = absurd (omega arith)
take_all (suc n) [] h = refl
take_all (suc n) (c ∷ s) h = ap (λ r. c ∷ r) (take_all n s (omega arith))
