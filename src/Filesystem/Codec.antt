-- ===== src/Filesystem/Codec.antt =====
-- The bytes of an inode and of a superblock determine it.
use hydra_os.Common.{
  ℕ, ◌+◌, ◌^◌, ◌<◌, ◌≡◌, ◌∙◌, refl, sym, ap, List, [], ◌++◌, length, get_or, arith, get_or_ext,
  length-append,
}
use hydra_os.Common.ByteLists.{IsBytes}
use hydra_os.Filesystem.Layout.{
  Inode, Superblock, le32, read32, slice, encode_inode, decode_inode, encode_superblock,
  decode_superblock,
}
use hydra_os.Filesystem.Buffers.{get_or-append, get_or-append_front, get_or-slice, length-slice}

-- The fields fit their types.
pub record IsInode (x : Inode) : Type 0 where
  pub name_len : length x.name ≡ 32
  pub name_bytes : IsBytes x.name
  pub size_lt : x.size < 2 ^ 32
  pub start_lt : x.start_sector < 2 ^ 32
  pub type_lt : x.type < 2 ^ 32
  pub created_lt : x.created < 2 ^ 32
  pub modified_lt : x.modified < 2 ^ 32

pub record IsSuperblock (s : Superblock) : Type 0 where
  pub magic_lt : s.magic < 2 ^ 32
  pub total_lt : s.total_sectors < 2 ^ 32
  pub used_lt : s.used_sectors < 2 ^ 32
  pub count_lt : s.inode_count < 2 ^ 32
  pub label_len : length s.label ≡ 32
  pub label_bytes : IsBytes s.label

read32-le32 : (x : ℕ) (rest : List ℕ) → x < 2 ^ 32 → read32 (le32 x ++ rest) 0 ≡ x
unfolding read32 le32
read32-le32 x rest h = omega arith

slice_front : (xs ys : List ℕ) (n : ℕ) → length xs ≡ n → slice (xs ++ ys) 0 n ≡ xs
slice_front xs ys n e =
    get_or_ext 0 (slice (xs ++ ys) 0 n) xs (length-slice (xs ++ ys) 0 n ∙ sym e) λ j lt.
      let lt' : j < n = omega (arith, length-slice (xs ++ ys) 0 n) in
      get_or-slice (xs ++ ys) 0 n j lt'
      ∙ ap (λ k. get_or (xs ++ ys) k 0) (omega arith)
      ∙ get_or-append_front xs ys j (omega arith)

read32_behind : (xs ys : List ℕ) (o k : ℕ) → length xs + k ≡ o → read32 (xs ++ ys) o ≡ read32 ys k
unfolding read32
read32_behind xs ys o k e = omega (
  arith,
  at o k e,
  at (o + 1) (k + 1) (omega arith),
  at (o + 2) (k + 2) (omega arith),
  at (o + 3) (k + 3) (omega arith),
)
  where
    at : (i j : ℕ) → length xs + j ≡ i → get_or (xs ++ ys) i 0 ≡ get_or ys j 0
    at i j f = ap (λ l. get_or (xs ++ ys) l 0) (sym f) ∙ get_or-append xs ys j

-- Over one field of four bytes.
read32_skip : (x : ℕ) (ys : List ℕ) (o k : ℕ) → 4 + k ≡ o → read32 (le32 x ++ ys) o ≡ read32 ys k
unfolding le32
read32_skip x ys o k e = read32_behind (le32 x) ys o k e

-- The bytes from one field of an inode on.
abbrev from_modified : Inode → List ℕ
from_modified x = le32 x.modified

abbrev from_created : Inode → List ℕ
from_created x = le32 x.created ++ from_modified x

abbrev from_type : Inode → List ℕ
from_type x = le32 x.type ++ from_created x

abbrev from_start : Inode → List ℕ
from_start x = le32 x.start_sector ++ from_type x

abbrev from_size : Inode → List ℕ
from_size x = le32 x.size ++ from_start x

-- Decoding the 52 bytes of an inode with a name of 32 bytes and 32-bit fields gives back the
-- inode.
pub decode-encode_inode : (x : Inode) → IsInode x → decode_inode (encode_inode x) ≡ x
unfolding decode_inode encode_inode le32
decode-encode_inode x v = λ i. record {
  name = slice_front x.name (from_size x) 32 v.name_len i;
  size = (behind 32 0 refl ∙ read32-le32 x.size (from_start x) v.size_lt) i;
  start_sector =
      (behind 36 4 refl ∙ skip1 4 0 refl ∙ read32-le32 x.start_sector (from_type x) v.start_lt) i;
  type =
      (behind 40 8 refl
          ∙ skip1 8 4 refl
          ∙ skip2 4 0 refl
          ∙ read32-le32 x.type (from_created x) v.type_lt)
        i;
  created =
      (behind 44 12 refl
          ∙ skip1 12 8 refl
          ∙ skip2 8 4 refl
          ∙ skip3 4 0 refl
          ∙ read32-le32 x.created (from_modified x) v.created_lt)
        i;
  modified =
      (behind 48 16 refl
          ∙ skip1 16 12 refl
          ∙ skip2 12 8 refl
          ∙ skip3 8 4 refl
          ∙ read32_skip x.created (from_modified x) 4 0 refl
          ∙ read32-le32 x.modified [] v.modified_lt)
        i;
}
  where
    behind : (o k : ℕ) → 32 + k ≡ o → read32 (x.name ++ from_size x) o ≡ read32 (from_size x) k
    behind o k e = read32_behind x.name (from_size x) o k (omega (arith, v.name_len))

    skip1 : (o k : ℕ) → 4 + k ≡ o → read32 (from_size x) o ≡ read32 (from_start x) k
    skip1 o k e = read32_skip x.size (from_start x) o k e

    skip2 : (o k : ℕ) → 4 + k ≡ o → read32 (from_start x) o ≡ read32 (from_type x) k
    skip2 o k e = read32_skip x.start_sector (from_type x) o k e

    skip3 : (o k : ℕ) → 4 + k ≡ o → read32 (from_type x) o ≡ read32 (from_created x) k
    skip3 o k e = read32_skip x.type (from_created x) o k e

pub length-encode_inode : (x : Inode) → IsInode x → length (encode_inode x) ≡ 52
unfolding encode_inode le32
length-encode_inode x v = length-append x.name (from_size x) ∙ ap (λ n. n + 20) v.name_len

pub length-encode_superblock : (s : Superblock) → IsSuperblock s → length (encode_superblock s) ≡ 48
unfolding encode_superblock le32
length-encode_superblock s v = omega (arith, v.label_len)

-- The bytes from one field of a superblock on.
abbrev from_count : Superblock → List ℕ
from_count s = le32 s.inode_count ++ s.label

abbrev from_used : Superblock → List ℕ
from_used s = le32 s.used_sectors ++ from_count s

abbrev from_total : Superblock → List ℕ
from_total s = le32 s.total_sectors ++ from_used s

abbrev header_bytes : Superblock → List ℕ
header_bytes s = le32 s.magic ++ le32 s.total_sectors ++ le32 s.used_sectors ++ le32 s.inode_count

-- Decoding the 48 bytes of a superblock with a label of 32 bytes and 32-bit fields gives back
-- the superblock.
pub decode-encode_superblock :
    (s : Superblock) → IsSuperblock s → decode_superblock (encode_superblock s) ≡ s
unfolding decode_superblock encode_superblock le32
decode-encode_superblock s v = λ i. record {
  magic = read32-le32 s.magic (from_total s) v.magic_lt i;
  total_sectors =
      (read32_skip s.magic (from_total s) 4 0 refl
          ∙ read32-le32 s.total_sectors (from_used s) v.total_lt)
        i;
  used_sectors =
      (read32_skip s.magic (from_total s) 8 4 refl
          ∙ read32_skip s.total_sectors (from_used s) 4 0 refl
          ∙ read32-le32 s.used_sectors (from_count s) v.used_lt)
        i;
  inode_count =
      (read32_skip s.magic (from_total s) 12 8 refl
          ∙ read32_skip s.total_sectors (from_used s) 8 4 refl
          ∙ read32_skip s.used_sectors (from_count s) 4 0 refl
          ∙ read32-le32 s.inode_count s.label v.count_lt)
        i;
  label = label_back i;
}
  where
    label_back : slice (le32 s.magic ++ from_total s) 16 32 ≡ s.label
    label_back =
        get_or_ext 0 (slice (le32 s.magic ++ from_total s) 16 32) s.label
          (length-slice (le32 s.magic ++ from_total s) 16 32 ∙ sym v.label_len)
          λ j lt.
            get_or-slice (le32 s.magic ++ from_total s) 16 32 j
              (omega (arith, length-slice (le32 s.magic ++ from_total s) 16 32))
            ∙ get_or-append (header_bytes s) s.label j
