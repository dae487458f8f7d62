-- ===== src/Filesystem/Store.antt =====
-- filesystem.cpp: the constructor, and the sectors of the superblock and of the inode table.
use hydra_os.Common.{
  ℕ, zero, suc, ◌+◌, ◌*◌, Bool, false, List, [], ◌∷◌, u32, get_or, set, ltb, ◌==◌, if◌then◌else◌,
}
use hydra_os.Filesystem.Layout.{
  Inode, Superblock, max_files, sector_size, superblock_sec, inode_start_sec, data_start_sec,
  type_empty, slice, blit, inode_bytes, superblock_bytes, encode_inode, decode_inode,
  encode_superblock, decode_superblock, clear_buffer, blank,
}
use hydra_os.Filesystem.Machine.{Machine}

-- The constructor leaves every other field as the memory had it.
unfoldable pub clear_types : List Inode → List Inode
clear_types [] = []
clear_types (x ∷ xs) = record x { type = type_empty; size = 0 } ∷ clear_types xs

-- The inner loops run over `i < 8`, with `n` rounds left.
unfoldable pub load_inodes : ℕ → ℕ → ℕ → List ℕ → List Inode → List Inode
load_inodes zero i sector buffer inodes = inodes
load_inodes (suc n) i sector buffer inodes =
    let index = sector * 8 + i in
    let inode = decode_inode (slice buffer (i * 64) inode_bytes) in
    load_inodes n (i + 1) sector buffer
      (if ltb index max_files then set inodes index inode else inodes)

unfoldable pub fill_inodes : ℕ → ℕ → ℕ → List Inode → List ℕ → List ℕ
fill_inodes zero i sector inodes buffer = buffer
fill_inodes (suc n) i sector inodes buffer =
    let index = sector * 8 + i in
    fill_inodes n (i + 1) sector inodes (
      if ltb index max_files
      then blit buffer (i * 64) (encode_inode (get_or inodes index blank))
      else buffer)

module _ (m : Machine) where
  open m use {World, malloc, free, stale, read28, write28}

  -- `class FileSystem`; the world is the disk that `disk` points to, and the heap.
  pub record FileSystem : Type 0 where
    pub inodes : List Inode
    pub superblock : Superblock
    pub mounted : Bool
    pub world : World

  unfoldable pub init : List Inode → Superblock → World → FileSystem
  unfolding clear_types
  init memory sb w = record {
    inodes = clear_types memory;
    superblock = sb;
    mounted = false;
    world = w;
  }

  unfoldable pub load_superblock : FileSystem → FileSystem
  load_superblock fs =
      let (p, w) = malloc fs.world sector_size in
      let (buffer, w') = read28 w superblock_sec (stale w p) in
      if p == 0 then record fs { world = w } else record fs {
        superblock = decode_superblock (slice buffer 0 superblock_bytes);
        world = free w' p;
      }

  unfoldable pub save_superblock : FileSystem → FileSystem
  save_superblock fs =
      let (p, w) = malloc fs.world sector_size in
      let buffer = blit clear_buffer 0 (encode_superblock fs.superblock) in
      if p == 0
      then record fs { world = w }
      else record fs { world = free (write28 w superblock_sec buffer) p }

  -- The outer loops run over `sector < 8`, with `n` rounds left.
  unfoldable pub load_sectors : ℕ → ℕ → World → List ℕ → List Inode → List Inode × World
  load_sectors zero sector w buffer inodes = (inodes, w)
  load_sectors (suc n) sector w buffer inodes =
      let (buffer', w') = read28 w (inode_start_sec + sector) buffer in
      load_sectors n (sector + 1) w' buffer' (load_inodes 8 0 sector buffer' inodes)

  unfoldable pub load_inode_table : FileSystem → FileSystem
  load_inode_table fs =
      let (p, w) = malloc fs.world sector_size in
      let (inodes, w') = load_sectors 8 0 w (stale w p) fs.inodes in
      if p == 0 then record fs { world = w } else record fs { inodes = inodes; world = free w' p }

  unfoldable pub save_sectors : ℕ → ℕ → List Inode → World → World
  save_sectors zero sector inodes w = w
  save_sectors (suc n) sector inodes w =
      save_sectors n (sector + 1) inodes
        (write28 w (inode_start_sec + sector) (fill_inodes 8 0 sector inodes clear_buffer))

  unfoldable pub save_inode_table : FileSystem → FileSystem
  save_inode_table fs =
      let (p, w) = malloc fs.world sector_size in
      if p == 0
      then record fs { world = w }
      else record fs { world = free (save_sectors 8 0 fs.inodes w) p }

  -- The next data sector; nothing checks it against `totalSectors`.
  unfoldable pub allocate_sector : FileSystem → ℕ × FileSystem
  allocate_sector fs =
      let sector = u32 (data_start_sec + fs.superblock.used_sectors) in
      let sb = record (fs.superblock) { used_sectors = u32 (fs.superblock.used_sectors + 1) } in
      (sector, save_superblock (record fs { superblock = sb }))

-- `for(i = 0; i < left && s[i] != '\0'; i++) dest[i] = s[i]; dest[i] = '\0';` from index `i` on.
-- A C string is the list of its characters, without the terminator.
unfoldable pub copy_string : ℕ → ℕ → List ℕ → List ℕ → List ℕ
copy_string zero i s dest = set dest i 0
copy_string (suc left) i [] dest = set dest i 0
copy_string (suc left) i (c ∷ s) dest = copy_string left (i + 1) s (set dest i c)
