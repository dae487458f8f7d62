-- ===== src/Filesystem/Data.antt =====
-- filesystem.cpp: `ReadFile` and `WriteFile`. The index and the result are `int32_t`, and `none`
-- stands for a negative one: for the index, which the code only compares with 0, and for the result,
-- -1 or a count of bytes from 2 ^ 31 on.
use hydra_os.Common.{
  ℕ, zero, suc, ◌+◌, ◌/◌, ◌^◌, ◌<◌, ◌≡◌, arith, not, ◌&&◌, ◌||◌, Option, none, some, List, u32,
  sub32, get_or, set, ltb, leb, ◌==◌, if◌then◌else◌,
}
use hydra_os.Filesystem.Layout.{
  Inode, blank, max_files, sector_size, type_empty, slice, blit, clear_buffer,
}
use hydra_os.Filesystem.Machine.{Machine}
use hydra_os.Filesystem.Store.{FileSystem, allocate_sector, save_inode_table}

-- `uint32_t bytesToCopy` of `ReadFile`: a sector, cut at the end of the file and of the request.
unfoldable pub read_count : ℕ → ℕ → ℕ → ℕ
read_count done file_size size =
    let whole = if ltb file_size (u32 (done + 512)) then sub32 file_size done else 512 in
    if ltb size (u32 (done + whole)) then sub32 size done else whole

-- `bytesToCopy` of `WriteFile`.
unfoldable pub write_count : ℕ → ℕ → ℕ
write_count done size = if ltb size (u32 (done + 512)) then sub32 size done else 512

-- `(size + 511) / 512`.
unfoldable pub sectors_for : ℕ → ℕ
sectors_for size = u32 (size + 511) / 512

-- `return bytesRead;` and `return bytesWritten;`: an `uint32_t` as an `int32_t`.
unfoldable pub count_result : ℕ → Option ℕ
count_result count = if ltb count (2 ^ 31) then some count else none

pub count_result-lt : (count : ℕ) → count < 2 ^ 31 → count_result count ≡ some count
unfolding count_result
count_result-lt count lt = ground arith

module _ (m : Machine) where
  open m use {World, malloc, free, stale, read28, write28}

  -- The loop of `ReadFile` at sector `i` of the file, with `n` sectors left: the bytes read, the
  -- caller's buffer and the world.
  unfoldable pub read_loop : ℕ → ℕ → Inode → ℕ → ℕ → List ℕ → List ℕ → World → ℕ × List ℕ × World
  read_loop zero i inode size done disk_buffer buffer w = (done, buffer, w)
  read_loop (suc n) i inode size done disk_buffer buffer w =
      let (disk_buffer', w') = read28 w (u32 (inode.start_sector + i)) disk_buffer in
      let count = read_count done inode.size size in
      let rest =
        read_loop n (i + 1) inode size (u32 (done + count)) disk_buffer'
          (blit buffer done (slice disk_buffer' 0 count)) w' in
      if ltb done size then rest else (done, buffer, w)

  -- A fetch of the file's bytes, once the inode is known to be in use.
  unfoldable pub read_data : FileSystem m → Inode → List ℕ → ℕ → Option ℕ × List ℕ × FileSystem m
  unfolding read_loop sectors_for count_result
  read_data fs inode buffer size =
      let (p, w) = malloc fs.world sector_size in
      let (done, buffer', w') =
        read_loop (sectors_for inode.size) 0 inode size 0 (stale w p) buffer w in
      if ltb 0 inode.size && ltb 0 inode.start_sector
      then if p == 0
        then (some 0, buffer, record fs { world = w })
        else (count_result done, buffer', record fs { world = free w' p })
      else (some 0, buffer, fs)

  unfoldable pub read_file : FileSystem m → Option ℕ → List ℕ → ℕ → Option ℕ × List ℕ × FileSystem m
  unfolding read_data
  read_file fs none buffer size = (none, buffer, fs)
  read_file fs (some i) buffer size =
      let inode = get_or fs.inodes i blank in
      if not fs.mounted || leb max_files i
      then (none, buffer, fs)
      else if inode.type == type_empty
      then (none, buffer, fs)
      else read_data fs inode buffer size

  -- "Allocate additional sectors if needed": one for every sector but the first.
  unfoldable pub next_sector : ℕ → FileSystem m → FileSystem m
  next_sector i fs = if ltb 0 i then (allocate_sector m fs).1 else fs

  -- The loop of `WriteFile` at sector `i`, with `n` sectors left.
  unfoldable pub write_loop : ℕ → ℕ → ℕ → List ℕ → ℕ → ℕ → FileSystem m → ℕ × FileSystem m
  unfolding next_sector
  write_loop zero i start buffer size done fs = (done, fs)
  write_loop (suc n) i start buffer size done fs =
      let count = write_count done size in
      let disk_buffer = blit clear_buffer 0 (slice buffer done count) in
      let fs' = next_sector i fs in
      write_loop n (i + 1) start buffer size (u32 (done + count))
        (record fs' { world = write28 fs'.world (u32 (start + i)) disk_buffer })

  -- "Allocate sectors if needed": a file without a first sector gets one.
  unfoldable pub place_file : FileSystem m → ℕ → FileSystem m
  place_file fs i =
      let inode = get_or fs.inodes i blank in
      let (sector, fs') = allocate_sector m fs in
      if inode.start_sector == 0
      then record fs' { inodes = set fs'.inodes i (record inode { start_sector = sector }) }
      else fs

  unfoldable pub write_data : FileSystem m → ℕ → List ℕ → ℕ → Option ℕ × FileSystem m
  unfolding write_loop sectors_for count_result
  write_data fs i buffer size =
      let inode = get_or fs.inodes i blank in
      let (p, w) = malloc fs.world sector_size in
      let (done, fs') =
        write_loop (sectors_for size) 0 inode.start_sector buffer size 0
          (record fs { world = w }) in
      let fs'' = record fs' {
        inodes = set fs'.inodes i (record inode { size = size; modified = 0 });
        world = free fs'.world p;
      } in
      if p == 0
      then (none, record fs { world = w })
      else (count_result done, save_inode_table m fs'')

  unfoldable pub write_file : FileSystem m → Option ℕ → List ℕ → ℕ → Option ℕ × FileSystem m
  unfolding place_file write_data
  write_file fs none buffer size = (none, fs)
  write_file fs (some i) buffer size =
      let inode = get_or fs.inodes i blank in
      if not fs.mounted || leb max_files i
      then (none, fs)
      else if inode.type == type_empty
      then (none, fs)
      else write_data (place_file fs i) i buffer size
