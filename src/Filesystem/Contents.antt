-- ===== src/Filesystem/Contents.antt =====
-- What `WriteFile` leaves once the file has its first sector.
use hydra_os.Common.{
  ℕ, ◌+◌, ◌*◌, ◌/◌, ◌%◌, ◌^◌, ◌≤◌, ◌<◌, ◌≡◌, ◌≢◌, ◌∙◌, ◌⊎◌, inl, inr, refl, sym, ap, ap₂, subst,
  not, true, false, List, [], ◌∷◌, Option, none, length, length-set, get_or, set, get_or-set_self,
  get_or-set_ne, arith, ◌==◌, if◌then◌else◌,
}
use hydra_os.Common.ByteLists.{IsBytes}
use hydra_os.Filesystem.Layout.{Inode, blank, sector_size, superblock_sec, type_empty, clear_buffer}
use hydra_os.Filesystem.Codec.{IsInode, IsSuperblock}
use hydra_os.Filesystem.Files.{find_file, open_file}
use hydra_os.Filesystem.Lookup.{find_file-set}
use hydra_os.Filesystem.Mounting.{IsValid, Stores}
use hydra_os.Filesystem.Allocating.{Shown}
use hydra_os.Filesystem.Machine.{Machine, Working, malloc_sector}
use hydra_os.Filesystem.Store.{FileSystem, save_inode_table, fill_inodes}
use hydra_os.Filesystem.Data.{sectors_for, count_result, write_loop, write_data}
use hydra_os.Filesystem.Table.{at, AllInodes}
use hydra_os.Filesystem.Persist.{granted, superblock_image}
use hydra_os.Filesystem.TableStore.{TableSaved, save_inode_table-TableSaved}
use hydra_os.Filesystem.Operations.{set-AllInodes}
use hydra_os.Filesystem.Writing.{Wrote, write_loop-Wrote, write_loop-done}
use hydra_os.Filesystem.Reading.{byte_at}

pub sectors_for_lem :
    (size : ℕ)
    → size + 511 < 2 ^ 32
    → (size ≤ 512 * sectors_for size) × (0 < sectors_for size → 512 * sectors_for size < size + 512)
unfolding sectors_for
sectors_for_lem size lt = (omega arith, λ more. omega arith)

module _ (m : Machine) (k : Working m) where
  open m use {World, malloc, free}
  open k use {Holding, content}

  module _ (fs : FileSystem m) (i : ℕ) (buffer : List ℕ) (size : ℕ) where
    -- The steps of `WriteFile` once the file has a first sector.
    opened : FileSystem m
    opened = record fs { world = (malloc fs.world sector_size).1 }

    looped : ℕ × FileSystem m
    unfolding opened
    looped = write_loop m (sectors_for size) 0 (at fs.inodes i).start_sector buffer size 0 opened

    closed : FileSystem m
    unfolding looped
    closed = record (looped.1) {
      inodes = set looped.1.inodes i (record (at fs.inodes i) { size = size; modified = 0 });
      world = free looped.1.world (malloc fs.world sector_size).0;
    }

    write_data-eq :
        Holding [] fs.world
        → write_data m fs i buffer size ≡ (count_result looped.0, save_inode_table m closed)
    unfolding write_data opened looped closed
    write_data-eq h =
        ap (λ b. if b then (none, opened) else (count_result looped.0, save_inode_table m closed))
          (granted m k [] fs.world (omega arith) h)

  -- A file of `size` bytes lies at inode number `i`, under this name, with the bytes of `buffer`;
  -- the buffers `ps` are in use.
  pub record HasFile (ps : List ℕ) (fs : FileSystem m) (i : ℕ) (name : List ℕ) (start : ℕ)
      (buffer : List ℕ) (size : ℕ) : Type 0 where
    pub holding : Holding ps fs.world
    pub inside : i < length fs.inodes
    pub name_is : (at fs.inodes i).name ≡ name
    pub on : fs.mounted ≡ true
    pub used : ((at fs.inodes i).type == type_empty) ≡ false
    pub size_is : (at fs.inodes i).size ≡ size
    pub start_is : (at fs.inodes i).start_sector ≡ start
    pub bytes : (q : ℕ) → q < size → byte_at m k fs.world start q ≡ get_or buffer q 0

  -- A file's first sector lies among the data sectors, and its last one has a 28-bit number.
  pub record HasRoom (start size : ℕ) : Type 0 where
    pub low : 10 ≤ start
    pub high : start + sectors_for size ≤ 2 ^ 28
    pub small : size + 511 < 2 ^ 32

  pub same_open :
      (fs fs' : FileSystem m) (t : List ℕ)
      → fs'.mounted ≡ fs.mounted
      → find_file t 0 fs'.inodes ≡ find_file t 0 fs.inodes
      → open_file m fs' t ≡ open_file m fs t
  unfolding open_file
  same_open fs fs' t e e' = ap₂ (λ b o. if not b then none else o) e e'

  -- What `WriteFile` keeps: the file system is valid, as it is mounted, and stored on the disk if
  -- it was before; other inodes, what names open, and the sectors that are not the file's own.
  pub record Keeps (fs fs' : FileSystem m) (i start n : ℕ) : Type 0 where
    pub valid : IsValid m k fs'
    pub stays : fs'.mounted ≡ fs.mounted
    pub others : (j : ℕ) → j ≢ i → at fs'.inodes j ≡ at fs.inodes j
    pub same_name : (at fs'.inodes i).name ≡ (at fs.inodes i).name
    pub same_type : (at fs'.inodes i).type ≡ (at fs.inodes i).type
    pub opens : (t : List ℕ) → open_file m fs' t ≡ open_file m fs t
    pub stored : Shown m k fs → Stores m k fs'.world fs'.superblock fs'.inodes
    pub sectors :
        (t : ℕ) → 10 ≤ t → (t < start) ⊎ (start + n ≤ t) → content fs'.world t ≡ content fs.world t

  module _ (fs : FileSystem m) (i : ℕ) (buffer : List ℕ) (size : ℕ) (valid : IsValid m k fs)
      (vb : IsBytes buffer) (lt : i < 64) (room : HasRoom (at fs.inodes i).start_sector size) where
    abbrev start : ℕ
    start = (at fs.inodes i).start_sector

    abbrev file : Inode
    file = record (at fs.inodes i) { size = size; modified = 0 }

    had : Holding ((malloc fs.world sector_size).0 ∷ []) (malloc fs.world sector_size).1
    had = (malloc_sector m k [] fs.world valid.ready (omega arith)).1

    wrote :
        Wrote m k
          ((malloc fs.world sector_size).0 ∷ [])
          (opened fs i buffer size)
          (looped fs i buffer size).1
          start
          0
          (sectors_for size)
          buffer
          size
    unfolding opened looped
    wrote =
        write_loop-Wrote m k _ (sectors_for size) 0 start size 0 buffer (opened fs i buffer size)
          (omega arith) had valid.super vb (omega (arith, room.high)) room.low room.small
          (λ more. (omega arith, omega (arith, (sectors_for_lem size room.small).1 more)))

    all : (looped fs i buffer size).0 ≡ size
    unfolding opened looped
    all =
        write_loop-done m k (sectors_for size) 0 start size 0 buffer (opened fs i buffer size)
          room.small
          (λ more. (omega arith, omega (arith, (sectors_for_lem size room.small).1 more)))
          (omega (arith, (sectors_for_lem size room.small).0))
          (λ e. omega (arith, (sectors_for_lem size room.small).0))

    file-IsInode : IsInode file
    file-IsInode =
        let x = valid.table i in
        record {
          name_len = x.name_len;
          name_bytes = x.name_bytes;
          size_lt = omega (arith, room.small);
          start_lt = x.start_lt;
          type_lt = x.type_lt;
          created_lt = x.created_lt;
          modified_lt = omega arith;
        }

    kept_table : (looped fs i buffer size).1.inodes ≡ fs.inodes
    unfolding opened
    kept_table = wrote.table

    good : AllInodes (set (looped fs i buffer size).1.inodes i file)
    good = set-AllInodes _ i file (subst AllInodes (sym kept_table) valid.table) file-IsInode

    saved :
        TableSaved m k [] (closed fs i buffer size) (save_inode_table m (closed fs i buffer size))
    unfolding closed
    saved =
        save_inode_table-TableSaved m k [] (closed fs i buffer size) (omega arith)
          (k.free_returns _ [] _ wrote.holding) good

    -- The inode table afterwards.
    table_is : (save_inode_table m (closed fs i buffer size)).inodes ≡ set fs.inodes i file
    unfolding closed
    table_is =
        ap (λ (g : FileSystem m). g.inodes) saved.fields ∙ ap (λ xs. set xs i file) kept_table

    is_file : at (save_inode_table m (closed fs i buffer size)).inodes i ≡ file
    is_file =
        ap (λ xs. at xs i) table_is
        ∙ get_or-set_self fs.inodes i file blank (omega (arith, valid.table_len))

    pub write_data-HasFile :
        fs.mounted ≡ true
        → ((at fs.inodes i).type == type_empty) ≡ false
        → ((write_data m fs i buffer size).0 ≡ count_result size)
          × HasFile []
              (write_data m fs i buffer size).1
              i
              (at fs.inodes i).name
              (at fs.inodes i).start_sector
              buffer
              size
    unfolding opened closed
    write_data-HasFile on used =
        subst
          (λ (r : Option ℕ × FileSystem m).
            (r.0 ≡ count_result size) × HasFile [] r.1 i (at fs.inodes i).name start buffer size)
          (sym (write_data-eq fs i buffer size valid.ready))
          (
            ap count_result all,
            record {
              holding = saved.holding;
              inside =
                  omega (arith, ap length table_is, length-set fs.inodes i file, valid.table_len);
              name_is = ap (λ x. x.name) is_file;
              on = ap (λ (g : FileSystem m). g.mounted) saved.fields ∙ wrote.stays ∙ on;
              used = ap (λ x. x.type == type_empty) is_file ∙ used;
              size_is = ap (λ x. x.size) is_file;
              start_is = ap (λ x. x.start_sector) is_file;
              bytes = λ q below.
                  ap (λ c. get_or c (q % 512) 0)
                    (saved.others (start + q / 512) (inr (omega (arith, room.low)))
                      ∙ k.content-free _ _ (start + q / 512))
                  ∙ wrote.bytes q (omega arith) below
                      (omega (arith, (sectors_for_lem size room.small).0));
            },
          )

    pub write_data-Keeps : Keeps fs (write_data m fs i buffer size).1 i start (sectors_for size)
    unfolding opened closed
    write_data-Keeps =
        subst (λ (r : Option ℕ × FileSystem m). Keeps fs r.1 i start (sectors_for size))
          (sym (write_data-eq fs i buffer size valid.ready))
          record {
            valid = record {
              ready = saved.holding;
              table_len = ap length table_is ∙ length-set fs.inodes i file ∙ valid.table_len;
              table = subst AllInodes (sym (ap (λ (g : FileSystem m). g.inodes) saved.fields)) good;
              super = subst IsSuperblock (sym same) wrote.super;
            };
            stays = ap (λ (g : FileSystem m). g.mounted) saved.fields ∙ wrote.stays;
            others =
                λ j ne. ap (λ xs. at xs j) table_is ∙ get_or-set_ne fs.inodes i j file blank ne;
            same_name = ap (λ (x : Inode). x.name) is_file;
            same_type = ap (λ (x : Inode). x.type) is_file;
            opens = λ t.
                same_open fs (save_inode_table m (closed fs i buffer size)) t
                  (ap (λ (g : FileSystem m). g.mounted) saved.fields ∙ wrote.stays)
                  (ap (find_file t 0) table_is ∙ find_file-set t i file fs.inodes refl);
            stored = λ e. record {
              super =
                  saved.others superblock_sec (inl (omega arith))
                  ∙ k.content-free _ _ superblock_sec
                  ∙ wrote.stored (k.content-malloc fs.world sector_size superblock_sec ∙ e)
                  ∙ ap (superblock_image m k) (sym same);
              table = λ j below.
                  saved.stores j below
                  ∙ ap (λ xs. fill_inodes 8 0 j xs clear_buffer)
                      (sym (ap (λ (g : FileSystem m). g.inodes) saved.fields));
            };
            sectors = λ t low out.
                saved.others t (inr low)
                ∙ k.content-free _ _ t
                ∙ wrote.others t low (ground arith)
                ∙ k.content-malloc fs.world sector_size t;
          }
      where
        same :
            (save_inode_table m (closed fs i buffer size)).superblock
            ≡ (looped fs i buffer size).1.superblock
        same = ap (λ (g : FileSystem m). g.superblock) saved.fields
