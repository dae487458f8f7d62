-- ===== src/Filesystem/Table.antt =====
-- The sector images of the inode table: what `SaveInodeTable` writes, `LoadInodeTable` reads back.
use hydra_os.Common.{
  ℕ, zero, suc, ◌+◌, ◌*◌, ◌≤◌, ◌<◌, ◌≡◌, ◌∙◌, ◌⊎◌, inl, inr, refl, sym, ap, subst, List, length,
  get_or, set, length-set, get_or-set_self, get_or-set_ne, length-replicate, arith, lt_cases, ltb,
  if◌then◌else◌, true,
}
use hydra_os.Filesystem.Layout.{
  Inode, blank, slice, blit, encode_inode, decode_inode, inode_bytes, max_files, clear_buffer,
}
use hydra_os.Filesystem.Buffers.{length-blit, slice-blit, slice-blit_apart}
use hydra_os.Filesystem.Codec.{IsInode, decode-encode_inode, length-encode_inode}
use hydra_os.Filesystem.Store.{load_inodes, fill_inodes}

abbrev pub at : List Inode → ℕ → Inode
at inodes i = get_or inodes i blank

-- Every inode fits its types.
abbrev pub AllInodes : List Inode → Type 0
AllInodes inodes = (i : ℕ) → IsInode (at inodes i)

-- The inode numbers of a sector lie in the table.
in_table : (sector i : ℕ) → sector < 8 → i < 8 → ltb (sector * 8 + i) max_files ≡ true
in_table sector i hs hi = ground arith

fill_inodes-suc :
    (n i sector : ℕ) (inodes : List Inode) (buf : List ℕ)
    → sector < 8
    → i < 8
    → fill_inodes (suc n) i sector inodes buf
      ≡ fill_inodes n
          (i + 1)
          sector
          inodes
          (blit buf (i * 64) (encode_inode (at inodes (sector * 8 + i))))
unfolding fill_inodes
fill_inodes-suc n i sector inodes buf hs hi =
    ap
      (λ t.
        fill_inodes n (i + 1) sector inodes
          (if t then blit buf (i * 64) (encode_inode (at inodes (sector * 8 + i))) else buf))
      (in_table sector i hs hi)

load_inodes-suc :
    (n i sector : ℕ) (buf : List ℕ) (inodes : List Inode)
    → sector < 8
    → i < 8
    → load_inodes (suc n) i sector buf inodes
      ≡ load_inodes n
          (i + 1)
          sector
          buf
          (set inodes (sector * 8 + i) (decode_inode (slice buf (i * 64) inode_bytes)))
unfolding load_inodes
load_inodes-suc n i sector buf inodes hs hi =
    ap
      (λ t. load_inodes n (i + 1) sector buf (
        if t
        then set inodes (sector * 8 + i) (decode_inode (slice buf (i * 64) inode_bytes))
        else inodes))
      (in_table sector i hs hi)

module _ (sector : ℕ) (hs : sector < 8) (saved : List Inode) (v : AllInodes saved) where
  pub length-fill_inodes :
      (n i : ℕ) (buf : List ℕ) → i + n ≤ 8 → length (fill_inodes n i sector saved buf) ≡ length buf
  length-fill_inodes zero i buf hi = unfold fill_inodes in refl
  length-fill_inodes (suc n) i buf hi =
      ap length (fill_inodes-suc n i sector saved buf hs (omega arith))
      ∙ length-fill_inodes n (i + 1) _ (omega arith)
      ∙ length-blit buf (i * 64) _

  -- Later inodes are written behind an earlier one.
  fill_inodes_below :
      (n i k : ℕ) (buf : List ℕ)
      → i + n ≤ 8
      → k < i
      → slice (fill_inodes n i sector saved buf) (k * 64) inode_bytes
        ≡ slice buf (k * 64) inode_bytes
  fill_inodes_below zero i k buf hi lt = unfold fill_inodes in refl
  fill_inodes_below (suc n) i k buf hi lt =
      ap (λ b. slice b (k * 64) inode_bytes) (fill_inodes-suc n i sector saved buf hs (omega arith))
      ∙ fill_inodes_below n (i + 1) k _ (omega arith) (omega arith)
      ∙ slice-blit_apart buf (i * 64) _ (k * 64) inode_bytes (inl (omega arith))

  fill_inodes-at :
      (n i k : ℕ) (buf : List ℕ)
      → i + n ≤ 8
      → i ≤ k
      → k < i + n
      → length buf ≡ 512
      → slice (fill_inodes n i sector saved buf) (k * 64) inode_bytes
        ≡ encode_inode (at saved (sector * 8 + k))
  fill_inodes-at zero i k buf hi le lt e = absurd (omega arith)
  fill_inodes-at (suc n) i k buf hi le lt e =
      ap (λ b. slice b (k * 64) inode_bytes) (fill_inodes-suc n i sector saved buf hs (omega arith))
      ∙ elim (lt_cases i k) [
        | inl above ↦
            fill_inodes-at n (i + 1) k _ (omega arith) (omega arith) (omega arith)
              (length-blit buf (i * 64) _ ∙ e)
        | inr (inl here) ↦
            subst
              (λ j.
                slice
                  (fill_inodes n (i + 1) sector saved
                    (blit buf (i * 64) (encode_inode (at saved (sector * 8 + i)))))
                  (j * 64) inode_bytes
                ≡ encode_inode (at saved (sector * 8 + j)))
              here
              (fill_inodes_below n (i + 1) i _ (omega arith) (omega arith)
                ∙ slice-blit buf (i * 64) inode_bytes _ (omega arith)
                    (length-encode_inode _ (v (sector * 8 + i))))
        | inr (inr below) ↦ absurd (omega arith)
      ]

  -- The image of the sector, as `SaveInodeTable` builds it.
  abbrev pub image : List ℕ
  image = fill_inodes 8 0 sector saved clear_buffer

  pub image-at :
      (k : ℕ) → k < 8 → slice image (k * 64) inode_bytes ≡ encode_inode (at saved (sector * 8 + k))
  image-at k lt =
      fill_inodes-at 8 0 k clear_buffer (omega arith) (omega arith) (omega arith)
        (length-replicate {A = ℕ} 512 0)

  pub length-image : length image ≡ 512
  length-image = length-fill_inodes 8 0 clear_buffer (omega arith) ∙ length-replicate {A = ℕ} 512 0

pub length-load_inodes :
    (n i sector : ℕ) (buf : List ℕ) (inodes : List Inode)
    → sector < 8
    → i + n ≤ 8
    → length (load_inodes n i sector buf inodes) ≡ length inodes
length-load_inodes zero i sector buf inodes hs hi = unfold load_inodes in refl
length-load_inodes (suc n) i sector buf inodes hs hi =
    ap length (load_inodes-suc n i sector buf inodes hs (omega arith))
    ∙ length-load_inodes n (i + 1) sector buf _ hs (omega arith)
    ∙ length-set inodes _ _

pub load_inodes_other :
    (n i sector : ℕ) (buf : List ℕ) (inodes : List Inode) (j : ℕ)
    → sector < 8
    → i + n ≤ 8
    → (j < sector * 8 + i) ⊎ (sector * 8 + i + n ≤ j)
    → at (load_inodes n i sector buf inodes) j ≡ at inodes j
load_inodes_other zero i sector buf inodes j hs hi h = unfold load_inodes in refl
load_inodes_other (suc n) i sector buf inodes j hs hi h =
    ap (λ xs. at xs j) (load_inodes-suc n i sector buf inodes hs (omega arith))
    ∙ load_inodes_other n (i + 1) sector buf _ j hs (omega arith) (ground arith)
    ∙ get_or-set_ne inodes (sector * 8 + i) j _ blank (ground arith)

-- What comes back from the image of a sector.
module _ (sector : ℕ) (hs : sector < 8) (saved : List Inode) (v : AllInodes saved) (buf : List ℕ)
    (is_image : buf ≡ image sector hs saved v) where
  decoded :
      (i : ℕ) → i < 8 → decode_inode (slice buf (i * 64) inode_bytes) ≡ at saved (sector * 8 + i)
  decoded i hi =
      ap (λ b. decode_inode (slice b (i * 64) inode_bytes)) is_image
      ∙ ap decode_inode (image-at sector hs saved v i hi)
      ∙ decode-encode_inode (at saved (sector * 8 + i)) (v (sector * 8 + i))

  pub at-load_inodes :
      (n i : ℕ) (inodes : List Inode) (j : ℕ)
      → i + n ≤ 8
      → length inodes ≡ 64
      → sector * 8 + i ≤ j
      → j < sector * 8 + i + n
      → at (load_inodes n i sector buf inodes) j ≡ at saved j
  at-load_inodes zero i inodes j hi e le lt = absurd (omega arith)
  at-load_inodes (suc n) i inodes j hi e le lt =
      ap (λ xs. at xs j) (load_inodes-suc n i sector buf inodes hs (omega arith))
      ∙ elim (lt_cases (sector * 8 + i) j) [
        | inl above ↦
            at-load_inodes n (i + 1) _ j (omega arith) (length-set inodes _ _ ∙ e) (omega arith)
              (omega arith)
        | inr (inl here) ↦
            load_inodes_other n (i + 1) sector buf _ j hs (omega arith) (inl (omega arith))
            ∙ ap
                (λ k.
                  at (set inodes (sector * 8 + i) (decode_inode (slice buf (i * 64) inode_bytes)))
                    k)
                (sym here)
            ∙ get_or-set_self inodes (sector * 8 + i) _ blank (omega arith)
            ∙ decoded i (omega arith)
            ∙ ap (at saved) here
        | inr (inr below) ↦ absurd (omega arith)
      ]
