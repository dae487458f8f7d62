-- ===== src/Bytes/Laws.antt =====
-- What memcpy, memset and memcmp do to and say of a memory.
use hydra_os.Common.{
  ℕ, zero, suc, ◌+◌, ◌-◌, ◌≤◌, ◌<◌, ◌≡◌, ◌∙◌, refl, ap, ◌⊎◌, inl, inr, ◌↔◌, if◌then◌else◌, ltb, leb,
  Bool, ◌&&◌, arith, lt_cases,
}
use hydra_os.Bytes.{Bytes, poke, memcpy, memset, memcmp, difference, equal}

-- The byte at `q` lies in the `n` bytes from `p` on.
abbrev pub inside : ℕ → ℕ → ℕ → Bool
inside p n q = leb p q && ltb q (p + n)

-- The regions do not overlap.
abbrev pub Disjoint : ℕ → ℕ → ℕ → Type 0
Disjoint dst src n = (dst + n ≤ src) ⊎ (src + n ≤ dst)

-- memset stores the value in every byte of the region and changes no other.
pub memset_lem :
    (m : Bytes) (dst val n q : ℕ) → memset m dst val n q ≡ (if inside dst n q then val else m q)
unfolding memset
memset_lem m dst val zero q = ground arith
memset_lem m dst val (suc n) q =
    memset_lem (poke m dst val) (dst + 1) val n q ∙ unfold poke in ground arith

-- A copy that goes forward is right where it does not overwrite what it has yet to read.
abbrev pub Forward : ℕ → ℕ → ℕ → Type 0
Forward dst src n = (dst ≤ src) ⊎ (src + n ≤ dst)

-- When the target starts at or before the source, or behind its end, memcpy leaves the source's
-- bytes in the target and changes no other byte.
pub memcpy_lem :
    (m : Bytes) (dst src n q : ℕ)
    → Forward dst src n
    → memcpy m dst src n q ≡ (if inside dst n q then m (src + (q - dst)) else m q)
unfolding memcpy
memcpy_lem m dst src zero q f = ground arith
memcpy_lem m dst src (suc n) q f =
    memcpy_lem (poke m dst (m src)) (dst + 1) (src + 1) n q (ground arith) ∙ copied
  where
    shifted : dst < q → src + 1 + (q - (dst + 1)) ≡ src + (q - dst)
    shifted lt = omega arith

    first : q ≡ dst → src + (q - dst) ≡ src
    first e = omega arith

    copied :
        (if inside (dst + 1) n q
          then poke m dst (m src) (src + 1 + (q - (dst + 1)))
          else poke m dst (m src) q)
        ≡ (if inside dst (suc n) q then m (src + (q - dst)) else m q)
    copied =
        unfold poke in
        elim (lt_cases q dst) [
          | inl below ↦ ground arith
          | inr (inl e) ↦ ground (arith, ap m (first e))
          | inr (inr lt) ↦ ground (arith, ap m (shifted lt))
        ]

memcmp-head :
    (m : Bytes) (s1 s2 n : ℕ)
    → memcmp m s1 s2 (suc n) ≡ equal
    → (m s1 ≡ m s2) × (memcmp m (s1 + 1) (s2 + 1) n ≡ equal)
unfolding memcmp difference
memcmp-head m s1 s2 n e = ground arith

memcmp-same :
    (m : Bytes) (s1 s2 n : ℕ) → m s1 ≡ m s2 → memcmp m s1 s2 (suc n) ≡ memcmp m (s1 + 1) (s2 + 1) n
unfolding memcmp
memcmp-same m s1 s2 n e = ground arith

SameBytes : Bytes → ℕ → ℕ → ℕ → Type 0
SameBytes m s1 s2 n = (i : ℕ) → i < n → m (s1 + i) ≡ m (s2 + i)

sound : (m : Bytes) (s1 s2 n : ℕ) → memcmp m s1 s2 n ≡ equal → SameBytes m s1 s2 n
unfolding SameBytes
sound m s1 s2 zero e i lt = absurd (omega arith)
sound m s1 s2 (suc n) e zero lt =
    ap m (omega arith) ∙ (memcmp-head m s1 s2 n e).0 ∙ ap m (omega arith)
sound m s1 s2 (suc n) e (suc i) lt =
    ap m (omega arith)
    ∙ sound m (s1 + 1) (s2 + 1) n (memcmp-head m s1 s2 n e).1 i (omega arith)
    ∙ ap m (omega arith)

complete : (m : Bytes) (s1 s2 n : ℕ) → SameBytes m s1 s2 n → memcmp m s1 s2 n ≡ equal
unfolding SameBytes
complete m s1 s2 zero h = unfold memcmp in refl
complete m s1 s2 (suc n) h =
    memcmp-same m s1 s2 n (ap m (omega arith) ∙ h 0 (omega arith) ∙ ap m (omega arith))
    ∙ complete m (s1 + 1) (s2 + 1) n
        (λ i lt. ap m (omega arith) ∙ h (suc i) (omega arith) ∙ ap m (omega arith))

-- memcmp answers 0 exactly when the two regions hold the same bytes.
pub memcmp_iff :
    (m : Bytes) (s1 s2 n : ℕ)
    → (memcmp m s1 s2 n ≡ equal) ↔ ((i : ℕ) → i < n → m (s1 + i) ≡ m (s2 + i))
unfolding SameBytes
memcmp_iff m s1 s2 n = (sound m s1 s2 n, complete m s1 s2 n)

-- A copy by memcpy into a region that does not overlap its source compares equal to the source
-- by memcmp.
pub memcmp-memcpy :
    (m : Bytes) (dst src n : ℕ) → Disjoint dst src n → memcmp (memcpy m dst src n) dst src n ≡ equal
unfolding SameBytes
memcmp-memcpy m dst src n d = complete (memcpy m dst src n) dst src n same
  where
    same : SameBytes (memcpy m dst src n) dst src n
    same i lt = ground (
      arith,
      memcpy_lem m dst src n (dst + i) (ground arith),
      memcpy_lem m dst src n (src + i) (ground arith),
      ap m (offset),
    )
      where
        offset : src + (dst + i - dst) ≡ src + i
        offset = omega arith
