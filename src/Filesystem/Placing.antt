-- ===== src/Filesystem/Placing.antt =====
-- `WriteFile` gives a file its first sector.
use hydra_os.Common.{
  ℕ, ◌+◌, ◌≤◌, ◌<◌, ◌≡◌, ◌≢◌, ◌∙◌, refl, sym, ap, subst, Bool, true, false, not, ◌||◌, List, [],
  none, some, length, set, length-set, get_or-set_self, get_or-set_ne, arith, leb, ◌==◌,
  if◌then◌else◌, u32,
}
use hydra_os.Filesystem.Layout.{Inode, blank, max_files, type_empty, data_start_sec}
use hydra_os.Filesystem.Machine.{Machine, Working}
use hydra_os.Filesystem.Store.{FileSystem, allocate_sector}
use hydra_os.Filesystem.Data.{write_data, write_file, place_file}
use hydra_os.Filesystem.Files.{find_file, open_file}
use hydra_os.Filesystem.Lookup.{find_file-set}
use hydra_os.Filesystem.Table.{at, AllInodes}
use hydra_os.Filesystem.Operations.{set-AllInodes}
use hydra_os.Filesystem.Mounting.{IsValid}
use hydra_os.Filesystem.Allocating.{Shown, Quiet, allocate_sector-Quiet}
use hydra_os.Filesystem.Contents.{same_open}

module _ (m : Machine) (k : Working m) where
  open m use {World}
  open k use {Holding, content}

  -- The sector that `WriteFile` begins at: the file's own, or the next free one.
  abbrev pub first_sector : FileSystem m → ℕ → ℕ
  first_sector fs i =
      if (at fs.inodes i).start_sector == 0
      then u32 (data_start_sec + fs.superblock.used_sectors)
      else (at fs.inodes i).start_sector

  -- `fs'` is `fs` with a first sector at inode number `i`.
  pub record Placed (fs fs' : FileSystem m) (i : ℕ) (start : ℕ) : Type 0 where
    pub valid : IsValid m k fs'
    pub stays : fs'.mounted ≡ fs.mounted
    pub same_name : (at fs'.inodes i).name ≡ (at fs.inodes i).name
    pub same_type : (at fs'.inodes i).type ≡ (at fs.inodes i).type
    pub starts : (at fs'.inodes i).start_sector ≡ start
    pub others : (j : ℕ) → j ≢ i → at fs'.inodes j ≡ at fs.inodes j
    pub opens : (t : List ℕ) → open_file m fs' t ≡ open_file m fs t
    pub stored : Shown m k fs → Shown m k fs'
    pub sectors : (t : ℕ) → 10 ≤ t → content fs'.world t ≡ content fs.world t

  allocated : FileSystem m → ℕ → FileSystem m
  allocated fs i = record ((allocate_sector m fs).1) {
    inodes =
        set (allocate_sector m fs).1.inodes i
          (record (at fs.inodes i) { start_sector = (allocate_sector m fs).0 });
  }

  sector_is :
      (fs : FileSystem m)
      → (allocate_sector m fs).0 ≡ u32 (data_start_sec + fs.superblock.used_sectors)
  unfolding allocate_sector
  sector_is fs = refl

  allocated-Placed :
      (fs : FileSystem m) (i : ℕ)
      → IsValid m k fs
      → i < 64
      → Placed fs (allocated fs i) i (u32 (data_start_sec + fs.superblock.used_sectors))
  unfolding allocated
  allocated-Placed fs i v lt = record {
    valid = record {
      ready = q.holding;
      table_len = length-set _ i moved ∙ ap length q.table ∙ v.table_len;
      table = set-AllInodes _ i moved (subst AllInodes (sym q.table) v.table) (record {
        name_len = (v.table i).name_len;
        name_bytes = (v.table i).name_bytes;
        size_lt = (v.table i).size_lt;
        start_lt = omega (arith, sector_is fs);
        type_lt = (v.table i).type_lt;
        created_lt = (v.table i).created_lt;
        modified_lt = (v.table i).modified_lt;
      });
      super = q.super;
    };
    stays = q.stays;
    same_name = ap (λ (x : Inode). x.name) here;
    same_type = ap (λ (x : Inode). x.type) here;
    starts = ap (λ (x : Inode). x.start_sector) here ∙ sector_is fs;
    others = λ j ne.
        ap (λ xs. at (set xs i moved) j) q.table ∙ get_or-set_ne fs.inodes i j moved blank ne;
    opens = λ t. same_open m k fs (_) t q.stays (
        ap (λ xs. find_file t 0 (set xs i moved)) q.table ∙ find_file-set t i moved fs.inodes refl);
    stored = q.stored;
    sectors = q.sectors;
  }
    where
      q : Quiet m k [] fs (allocate_sector m fs).1
      q = allocate_sector-Quiet m k [] fs (omega arith) v.ready v.super

      moved : Inode
      moved = record (at fs.inodes i) { start_sector = (allocate_sector m fs).0 }

      here : at (set (allocate_sector m fs).1.inodes i moved) i ≡ moved
      here =
          get_or-set_self (allocate_sector m fs).1.inodes i moved blank
            (omega (arith, v.table_len, ap length q.table))

  pub place_file-Placed :
      (fs : FileSystem m) (i : ℕ)
      → IsValid m k fs
      → i < 64
      → Placed fs (place_file m fs i) i (first_sector fs i)
  unfolding place_file allocated
  place_file-Placed fs i v lt = picks ((at fs.inodes i).start_sector == 0)
    where
      picks :
          (b : Bool)
          → Placed fs (if b then allocated fs i else fs) i (
              if b
              then u32 (data_start_sec + fs.superblock.used_sectors)
              else (at fs.inodes i).start_sector)
      picks true = allocated-Placed fs i v lt
      picks false = record {
        valid = v;
        stays = refl;
        same_name = refl;
        same_type = refl;
        starts = refl;
        others = λ j ne. refl;
        opens = λ t. refl;
        stored = λ e. e;
        sectors = λ t le. refl;
      }

  pub write_file-eq :
      (fs : FileSystem m) (i : ℕ) (buffer : List ℕ) (size : ℕ)
      → fs.mounted ≡ true
      → ((at fs.inodes i).type == type_empty) ≡ false
      → i < 64
      → write_file m fs (some i) buffer size ≡ write_data m (place_file m fs i) i buffer size
  unfolding write_file
  write_file-eq fs i buffer size on used lt =
      ap
        (λ b.
          if b
          then (none, fs)
          else if (at fs.inodes i).type == type_empty
          then (none, fs)
          else write_data m (place_file m fs i) i buffer size)
        (open_slot fs.mounted on)
      ∙ ap (λ b. if b then (none, fs) else write_data m (place_file m fs i) i buffer size) used
    where
      open_slot : (b : Bool) → b ≡ true → (not b || leb max_files i) ≡ false
      open_slot true e = ground arith
      open_slot false e = absurd (differ e)
        where
          differ : false ≡ true → ⊥
          differ e = cc
