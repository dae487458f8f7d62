-- ===== src/Filesystem/Buffers.antt =====
-- Copies into and out of a sector buffer (`blit` and `slice` of Filesystem/Layout), byte by byte.
use hydra_os.Common.{
  ℕ, zero, suc, ◌+◌, ◌≤◌, ◌<◌, ◌≡◌, ◌∙◌, ◌⊎◌, inl, refl, sym, ap, List, [], ◌∷◌, ◌++◌, length,
  get_or, set, length-set, get_or-set_self, get_or-set_ne, get_or_ext, arith,
}
use hydra_os.Filesystem.Layout.{slice, blit}

pub length-blit : (buf : List ℕ) (o : ℕ) (bs : List ℕ) → length (blit buf o bs) ≡ length buf
unfolding blit
length-blit buf o [] = refl
length-blit buf o (b ∷ bs) = length-blit (set buf o b) (o + 1) bs ∙ length-set buf o b

pub length-slice : (buf : List ℕ) (o n : ℕ) → length (slice buf o n) ≡ n
unfolding slice
length-slice buf o zero = refl
length-slice buf o (suc n) = ap suc (length-slice buf (o + 1) n)

-- What lies outside the copied region is as it was.
pub get_or-blit_outside :
    (buf : List ℕ) (o : ℕ) (bs : List ℕ) (j : ℕ)
    → (j < o) ⊎ (o + length bs ≤ j)
    → get_or (blit buf o bs) j 0 ≡ get_or buf j 0
unfolding blit
get_or-blit_outside buf o [] j h = refl
get_or-blit_outside buf o (b ∷ bs) j h =
    get_or-blit_outside (set buf o b) (o + 1) bs j (ground arith)
    ∙ get_or-set_ne buf o j b 0 (ground arith)

-- And the region holds the copied bytes.
pub get_or-blit_inside :
    (buf : List ℕ) (o : ℕ) (bs : List ℕ) (j : ℕ)
    → o + length bs ≤ length buf
    → j < length bs
    → get_or (blit buf o bs) (o + j) 0 ≡ get_or bs j 0
unfolding blit
get_or-blit_inside buf o [] j fits lt = absurd (omega arith)
get_or-blit_inside buf o (b ∷ bs) zero fits lt =
    ap (λ k. get_or (blit (set buf o b) (o + 1) bs) k 0) (omega arith)
    ∙ get_or-blit_outside (set buf o b) (o + 1) bs o (inl (omega arith))
    ∙ get_or-set_self buf o b 0 (omega arith)
get_or-blit_inside buf o (b ∷ bs) (suc j) fits lt =
    ap (λ k. get_or (blit (set buf o b) (o + 1) bs) k 0) (omega arith)
    ∙ get_or-blit_inside (set buf o b) (o + 1) bs j (rw length-set (omega arith)) (omega arith)

pub get_or-slice :
    (buf : List ℕ) (o n j : ℕ) → j < n → get_or (slice buf o n) j 0 ≡ get_or buf (o + j) 0
unfolding slice
get_or-slice buf o zero j lt = absurd (omega arith)
get_or-slice buf o (suc n) zero lt = ap (λ k. get_or buf k 0) (omega arith)
get_or-slice buf o (suc n) (suc j) lt =
    get_or-slice buf (o + 1) n j (omega arith) ∙ ap (λ k. get_or buf k 0) (omega arith)

-- What is copied in is read out again.
pub slice-blit :
    (buf : List ℕ) (o n : ℕ) (bs : List ℕ)
    → o + n ≤ length buf
    → length bs ≡ n
    → slice (blit buf o bs) o n ≡ bs
slice-blit buf o n bs fits e =
    get_or_ext 0 (slice (blit buf o bs) o n) bs (length-slice (blit buf o bs) o n ∙ sym e) λ j lt.
      get_or-slice (blit buf o bs) o n j (omega (arith, length-slice (blit buf o bs) o n))
      ∙ get_or-blit_inside buf o bs j (omega arith)
          (omega (arith, length-slice (blit buf o bs) o n))

-- A region apart from the copy is not seen by it.
pub slice-blit_apart :
    (buf : List ℕ) (o : ℕ) (bs : List ℕ) (p n : ℕ)
    → (p + n ≤ o) ⊎ (o + length bs ≤ p)
    → slice (blit buf o bs) p n ≡ slice buf p n
slice-blit_apart buf o bs p n h =
    get_or_ext 0 (slice (blit buf o bs) p n) (slice buf p n)
      (length-slice (blit buf o bs) p n ∙ sym (length-slice buf p n))
      λ j lt.
        let lt' : j < n = omega (arith, length-slice (blit buf o bs) p n) in
        get_or-slice (blit buf o bs) p n j lt'
        ∙ get_or-blit_outside buf o bs (p + j) (ground arith)
        ∙ sym (get_or-slice buf p n j lt')

pub get_or-append : (xs ys : List ℕ) (j : ℕ) → get_or (xs ++ ys) (length xs + j) 0 ≡ get_or ys j 0
get_or-append [] ys j = ap (λ k. get_or ys k 0) (omega arith)
get_or-append (x ∷ xs) ys j =
    ap (λ k. get_or (x ∷ xs ++ ys) k 0) {y = suc (length xs + j)} (omega arith)
    ∙ get_or-append xs ys j

pub get_or-append_front :
    (xs ys : List ℕ) (j : ℕ) → j < length xs → get_or (xs ++ ys) j 0 ≡ get_or xs j 0
get_or-append_front [] ys j lt = absurd (omega arith)
get_or-append_front (x ∷ xs) ys zero lt = refl
get_or-append_front (x ∷ xs) ys (suc j) lt = get_or-append_front xs ys j (omega arith)
