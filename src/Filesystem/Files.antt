-- ===== src/Filesystem/Files.antt =====
-- filesystem.cpp: formatting, mounting and the operations on files. An `int32_t` result of -1 is
-- `none`, and so is a negative inode index.
use hydra_os.Common.{
  ℕ, ◌+◌, Bool, true, false, not, ◌&&◌, Option, none, some, List, [], ◌∷◌, u32, sub32, get_or, set,
  replicate, ◌==◌, if◌then◌else◌,
}
use hydra_os.Filesystem.Layout.{
  Inode, Superblock, max_filename, magic_number, type_empty, type_regular, blank,
}
use hydra_os.Filesystem.Machine.{Machine}
use hydra_os.Filesystem.Store.{
  FileSystem, load_superblock, save_superblock, load_inode_table, save_inode_table, copy_string,
}

-- `name` against a file name: the loop over `j < 32` ends at the first difference, at the
-- terminator of the file name, or at the end of the array.
unfoldable pub names_match : List ℕ → List ℕ → Bool
names_match [] filename = true
names_match (x ∷ name) [] = x == 0
names_match (x ∷ name) (c ∷ filename) = (x == c) && names_match name filename

-- The loop of `FindFreeInode`, from index `i` on.
unfoldable pub find_free_inode : ℕ → List Inode → Option ℕ
find_free_inode i [] = none
find_free_inode i (x ∷ xs) = if x.type == type_empty then some i else find_free_inode (i + 1) xs

-- The loop of `OpenFile`, from index `i` on.
unfoldable pub find_file : List ℕ → ℕ → List Inode → Option ℕ
find_file filename i [] = none
find_file filename i (x ∷ xs) =
    if not (x.type == type_empty) && names_match x.name filename
    then some i
    else find_file filename (i + 1) xs

-- `Format` resets every inode but its times.
unfoldable pub reset_inodes : List Inode → List Inode
reset_inodes [] = []
reset_inodes (x ∷ xs) =
    record x { type = type_empty; size = 0; start_sector = 0; name = replicate max_filename 0 }
    ∷ reset_inodes xs

-- The inode that `CreateFile` writes over the free one.
unfoldable pub named : Inode → List ℕ → Inode
named x filename = record {
  name = copy_string 31 0 filename x.name;
  size = 0;
  start_sector = 0;
  type = type_regular;
  created = 0;
  modified = 0;
}

module _ (m : Machine) where
  open m use {World, malloc, free, stale, read28, write28}

  unfoldable pub format : FileSystem m → List ℕ → Bool × FileSystem m
  format fs label =
      let sb : Superblock = record {
        magic = magic_number;
        total_sectors = 1000;
        used_sectors = 0;
        inode_count = 0;
        label = copy_string 31 0 label fs.superblock.label;
      } in
      let fs' = record fs { superblock = sb; inodes = reset_inodes fs.inodes } in
      (true, save_inode_table m (save_superblock m fs'))

  unfoldable pub mount : FileSystem m → Bool × FileSystem m
  mount fs =
      let fs' = load_superblock m fs in
      if not (fs'.superblock.magic == magic_number)
      then (false, fs')
      else (true, record (load_inode_table m fs') { mounted = true })

  unfoldable pub unmount : FileSystem m → FileSystem m
  unmount fs =
      if fs.mounted
      then record (save_inode_table m (save_superblock m fs)) { mounted = false }
      else fs

  unfoldable pub open_file : FileSystem m → List ℕ → Option ℕ
  open_file fs filename = if not fs.mounted then none else find_file filename 0 fs.inodes

  unfoldable pub file_exists : FileSystem m → List ℕ → Bool
  unfolding open_file
  file_exists fs filename = elim (open_file fs filename) [ none ↦ false | some i ↦ true ]

  unfoldable pub get_file_size : FileSystem m → List ℕ → ℕ
  unfolding open_file
  get_file_size fs filename = elim (open_file fs filename) [
    | none ↦ 0
    | some i ↦ (get_or fs.inodes i blank).size
  ]

  unfoldable pub add_file : FileSystem m → List ℕ → ℕ → FileSystem m
  unfolding named
  add_file fs filename i =
      let inodes = set fs.inodes i (named (get_or fs.inodes i blank) filename) in
      let sb = record (fs.superblock) { inode_count = u32 (fs.superblock.inode_count + 1) } in
      save_superblock m (save_inode_table m (record fs { inodes = inodes; superblock = sb }))

  unfoldable pub create_file : FileSystem m → List ℕ → Option ℕ × FileSystem m
  unfolding file_exists
  create_file fs filename =
      if not fs.mounted
      then (none, fs)
      else if file_exists fs filename
      then (none, fs)
      else elim (find_free_inode 0 fs.inodes) [
        | none ↦ (none, fs)
        | some i ↦ (some i, add_file fs filename i)
      ]

  unfoldable pub remove_file : FileSystem m → ℕ → FileSystem m
  remove_file fs i =
      let x = get_or fs.inodes i blank in
      let inodes = set fs.inodes i (record x { type = type_empty; size = 0 }) in
      let sb = record (fs.superblock) { inode_count = sub32 fs.superblock.inode_count 1 } in
      save_superblock m (save_inode_table m (record fs { inodes = inodes; superblock = sb }))

  unfoldable pub delete_file : FileSystem m → List ℕ → Bool × FileSystem m
  unfolding open_file
  delete_file fs filename =
      if not fs.mounted
      then (false, fs)
      else elim (open_file fs filename) [ none ↦ (false, fs) | some i ↦ (true, remove_file fs i) ]
