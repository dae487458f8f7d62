-- ===== src/Filesystem/Layout.antt =====
-- filesystem.h: the structures `Inode` and `Superblock`, and the bytes that they take on disk
-- (packed, little-endian), with the copies into and out of a sector buffer.
use hydra_os.Common.{ℕ, zero, suc, ◌+◌, ◌*◌, ◌/◌, ◌%◌, List, [], ◌∷◌, ◌++◌, get_or, set, replicate}

abbrev pub max_filename : ℕ
max_filename = 32

abbrev pub max_files : ℕ
max_files = 64

abbrev pub sector_size : ℕ
sector_size = 512

abbrev pub superblock_sec : ℕ
superblock_sec = 1

abbrev pub inode_start_sec : ℕ
inode_start_sec = 2

abbrev pub data_start_sec : ℕ
data_start_sec = 10

abbrev pub magic_number : ℕ
magic_number = 0x48594452

-- `enum InodeType`.
abbrev pub type_empty : ℕ
type_empty = 0

abbrev pub type_regular : ℕ
type_regular = 1

pub record Inode : Type 0 where
  pub name : List ℕ
  pub size : ℕ
  pub start_sector : ℕ
  pub type : ℕ
  pub created : ℕ
  pub modified : ℕ

-- An out-of-range read would be undefined; with 64 inodes there is none.
abbrev pub blank : Inode
blank = record {
  name = replicate max_filename 0;
  size = 0;
  start_sector = 0;
  type = type_empty;
  created = 0;
  modified = 0;
}

pub record Superblock : Type 0 where
  pub magic : ℕ
  pub total_sectors : ℕ
  pub used_sectors : ℕ
  pub inode_count : ℕ
  pub label : List ℕ

-- The bytes of a `uint32_t` in memory, lowest first, and back.
unfoldable pub le32 : ℕ → List ℕ
le32 x = x % 256 ∷ x / 256 % 256 ∷ x / 65536 % 256 ∷ x / 16777216 % 256 ∷ []

unfoldable pub read32 : List ℕ → ℕ → ℕ
read32 bs o =
    get_or bs o 0
    + get_or bs (o + 1) 0 * 256
    + get_or bs (o + 2) 0 * 65536
    + get_or bs (o + 3) 0 * 16777216

-- `for(j = 0; j < n; j++) out[j] = buffer[o + j]`.
unfoldable pub slice : List ℕ → ℕ → ℕ → List ℕ
slice buf o zero = []
slice buf o (suc n) = get_or buf o 0 ∷ slice buf (o + 1) n

-- `for(j = 0; j < n; j++) buffer[o + j] = bytes[j]`.
unfoldable pub blit : List ℕ → ℕ → List ℕ → List ℕ
blit buf o [] = buf
blit buf o (b ∷ bs) = blit (set buf o b) (o + 1) bs

-- `sizeof(Inode)` and `sizeof(Superblock)`.
abbrev pub inode_bytes : ℕ
inode_bytes = 52

abbrev pub superblock_bytes : ℕ
superblock_bytes = 48

-- The object representations, `((uint8_t*)&x)[j]` for each `j`.
unfoldable pub encode_inode : Inode → List ℕ
encode_inode x =
    x.name
    ++ (le32 x.size
        ++ (le32 x.start_sector ++ (le32 x.type ++ (le32 x.created ++ le32 x.modified))))

unfoldable pub decode_inode : List ℕ → Inode
decode_inode bs = record {
  name = slice bs 0 max_filename;
  size = read32 bs 32;
  start_sector = read32 bs 36;
  type = read32 bs 40;
  created = read32 bs 44;
  modified = read32 bs 48;
}

unfoldable pub encode_superblock : Superblock → List ℕ
encode_superblock s =
    le32 s.magic
    ++ (le32 s.total_sectors ++ (le32 s.used_sectors ++ (le32 s.inode_count ++ s.label)))

unfoldable pub decode_superblock : List ℕ → Superblock
decode_superblock bs = record {
  magic = read32 bs 0;
  total_sectors = read32 bs 4;
  used_sectors = read32 bs 8;
  inode_count = read32 bs 12;
  label = slice bs 16 32;
}

-- The loop that clears a buffer.
abbrev pub clear_buffer : List ℕ
clear_buffer = replicate sector_size 0
