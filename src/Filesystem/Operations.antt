-- ===== src/Filesystem/Operations.antt =====
-- `CreateFile`, `OpenFile` and `DeleteFile` on a mounted disk, against the directory that the
-- inode table stands for.
use hydra_os.Common.{
  ℕ, zero, suc, ◌+◌, ◌≤◌, ◌≡◌, ◌∙◌, ◌⊎◌, inl, inr, refl, sym, ap, subst, Bool, true, false, not,
  List, [], ◌∷◌, Option, none, some, length, set, length-set, arith, if◌then◌else◌, u32, Bool-cases,
}
use hydra_os.Common.ByteLists.{IsBytes}
use hydra_os.Filesystem.Layout.{Inode, Superblock, type_empty}
use hydra_os.Filesystem.Codec.{IsInode, IsSuperblock}
use hydra_os.Filesystem.Machine.{Machine, Working}
use hydra_os.Filesystem.Store.{FileSystem, save_superblock, save_inode_table}
use hydra_os.Filesystem.Files.{
  named, add_file, create_file, open_file, file_exists, find_file, find_free_inode,
}
use hydra_os.Filesystem.Table.{at, AllInodes}
use hydra_os.Filesystem.Names.{length-copy_string}
use hydra_os.Filesystem.Images.{copy_string-IsBytes}
use hydra_os.Filesystem.Lookup.{
  answers, is_empty, IsFirst, NonePass, find_file-cases, find_free_inode-cases,
}
use hydra_os.Filesystem.Mounting.{IsValid, Stores, IsSaved, save_table_first}

-- A changed table of good inodes is a table of good inodes.
pub set-AllInodes :
    (xs : List Inode) (i : ℕ) (x : Inode) → AllInodes xs → IsInode x → AllInodes (set xs i x)
set-AllInodes [] i x v vx j = v j
set-AllInodes (y ∷ xs) zero x v vx zero = vx
set-AllInodes (y ∷ xs) zero x v vx (suc j) = v (suc j)
set-AllInodes (y ∷ xs) (suc i) x v vx zero = v zero
set-AllInodes (y ∷ xs) (suc i) x v vx (suc j) = set-AllInodes xs i x (λ n. v (suc n)) vx j

named-IsInode : (x : Inode) (s : List ℕ) → IsInode x → IsBytes s → IsInode (named x s)
unfolding named
named-IsInode x s v b = record {
  name_len = length-copy_string 31 0 s x.name ∙ v.name_len;
  name_bytes = copy_string-IsBytes 31 0 s x.name b v.name_bytes;
  size_lt = omega arith;
  start_lt = omega arith;
  type_lt = omega arith;
  created_lt = omega arith;
  modified_lt = omega arith;
}

pub emptied-IsInode : (x : Inode) → IsInode x → IsInode (record x { type = type_empty; size = 0 })
emptied-IsInode x v = record {
  name_len = v.name_len;
  name_bytes = v.name_bytes;
  size_lt = omega arith;
  start_lt = v.start_lt;
  type_lt = omega arith;
  created_lt = v.created_lt;
  modified_lt = v.modified_lt;
}

counted-IsSuperblock :
    (sb : Superblock) (n : ℕ) → IsSuperblock sb → IsSuperblock (record sb { inode_count = u32 n })
counted-IsSuperblock sb n v = record {
  magic_lt = v.magic_lt;
  total_lt = v.total_lt;
  used_lt = v.used_lt;
  count_lt = omega arith;
  label_len = v.label_len;
  label_bytes = v.label_bytes;
}

module _ (m : Machine) (k : Working m) where
  open m use {World}
  open k use {Holding, content}

  -- `fs'` is `fs` with this inode table and this file count, on the disk as well as in memory;
  -- the data sectors are as they were.
  pub record IsUpdated (fs fs' : FileSystem m) (inodes : List Inode) (count : ℕ) : Type 0 where
    pub valid : IsValid m k fs'
    pub stays : fs'.mounted ≡ fs.mounted
    pub table : fs'.inodes ≡ inodes
    pub super : fs'.superblock ≡ record (fs.superblock) { inode_count = count }
    pub stores : Stores m k fs'.world fs'.superblock fs'.inodes
    pub data_sectors : (t : ℕ) → 10 ≤ t → content fs'.world t ≡ content fs.world t

  pub update-IsUpdated :
      (fs : FileSystem m) (inodes : List Inode) (n : ℕ)
      → IsValid m k fs
      → length inodes ≡ length fs.inodes
      → AllInodes inodes
      → (let sb = record (fs.superblock) { inode_count = u32 n } in
          IsUpdated fs
            (save_superblock m
              (save_inode_table m (record fs { inodes = inodes; superblock = sb })))
            inodes
            (u32 n))
  update-IsUpdated fs inodes n v len good =
      subst (λ g. IsUpdated fs g inodes (u32 n)) (sym s.fields)
        record {
          valid = record {
            ready = s.ready;
            table_len = len ∙ v.table_len;
            table = good;
            super = counted-IsSuperblock fs.superblock n v.super;
          };
          stays = refl;
          table = refl;
          super = refl;
          stores = s.stores;
          data_sectors = s.data_sectors;
        }
    where
      changed : FileSystem m
      changed = record fs {
        inodes = inodes;
        superblock = record (fs.superblock) { inode_count = u32 n };
      }

      s : IsSaved m k changed (save_superblock m (save_inode_table m changed))
      s = save_table_first m k changed record {
        ready = v.ready;
        table_len = len ∙ v.table_len;
        table = good;
        super = counted-IsSuperblock fs.superblock n v.super;
      }

  -- A new file at inode number `i`, the first that was empty.
  pub record IsCreated (fs fs' : FileSystem m) (filename : List ℕ) (i : ℕ) : Type 0 where
    pub slot : IsFirst is_empty fs.inodes i
    pub name_len : length (at fs.inodes i).name ≡ 32
    pub fresh : NonePass (answers filename) fs.inodes
    pub update :
        IsUpdated fs fs'
          (set fs.inodes i (named (at fs.inodes i) filename))
          (u32 (fs.superblock.inode_count + 1))

  -- Why `CreateFile` answers -1.
  pub data IsRefused (fs : FileSystem m) (filename : List ℕ) : Type 0 where
    unmounted : fs.mounted ≡ false → IsRefused fs filename
    exists : {i : ℕ} → IsFirst (answers filename) fs.inodes i → IsRefused fs filename
    full : NonePass is_empty fs.inodes → IsRefused fs filename

  create_after : FileSystem m → List ℕ → Bool → Bool → Option ℕ → Option ℕ × FileSystem m
  create_after fs filename on there slot =
      if not on
      then (none, fs)
      else if there
      then (none, fs)
      else elim slot [ none ↦ (none, fs) | some i ↦ (some i, add_file m fs filename i) ]

  create_file-after :
      (fs : FileSystem m) (filename : List ℕ) (on there : Bool) (slot : Option ℕ)
      → fs.mounted ≡ on
      → file_exists m fs filename ≡ there
      → find_free_inode 0 fs.inodes ≡ slot
      → create_file m fs filename ≡ create_after fs filename on there slot
  unfolding create_file create_after
  create_file-after fs filename on there slot e1 e2 e3 =
      ap (λ b. create_after fs filename b (file_exists m fs filename) (find_free_inode 0 fs.inodes))
        e1
      ∙ ap (λ b. create_after fs filename on b (find_free_inode 0 fs.inodes)) e2
      ∙ ap (create_after fs filename on there) e3

  -- Mounted, `OpenFile` is the search of the table.
  pub open_file-mounted :
      (fs : FileSystem m) (filename : List ℕ)
      → fs.mounted ≡ true
      → open_file m fs filename ≡ find_file filename 0 fs.inodes
  unfolding open_file
  open_file-mounted fs filename on =
      ap (λ b. if not b then none else find_file filename 0 fs.inodes) on

  pub open_file-unmounted :
      (fs : FileSystem m) (filename : List ℕ) → fs.mounted ≡ false → open_file m fs filename ≡ none
  unfolding open_file
  open_file-unmounted fs filename off =
      ap (λ b. if not b then none else find_file filename 0 fs.inodes) off

  file_exists-mounted :
      (fs : FileSystem m) (filename : List ℕ) (o : Option ℕ)
      → fs.mounted ≡ true
      → find_file filename 0 fs.inodes ≡ o
      → file_exists m fs filename ≡ elim o [ none ↦ false | some i ↦ true ]
  unfolding file_exists
  file_exists-mounted fs filename o on e =
      ap (λ r. elim r [ none ↦ false | some i ↦ true ]) (open_file-mounted fs filename on ∙ e)

  add_file-IsUpdated :
      (fs : FileSystem m) (filename : List ℕ) (i : ℕ)
      → IsValid m k fs
      → IsBytes filename
      → IsUpdated fs
          (add_file m fs filename i)
          (set fs.inodes i (named (at fs.inodes i) filename))
          (u32 (fs.superblock.inode_count + 1))
  unfolding add_file
  add_file-IsUpdated fs filename i v b =
      update-IsUpdated fs (set fs.inodes i (named (at fs.inodes i) filename))
        (fs.superblock.inode_count + 1) v (length-set fs.inodes i _)
        (set-AllInodes fs.inodes i _ v.table (named-IsInode _ filename (v.table i) b))

  -- On a valid file system, for a name of bytes, CreateFile either answers -1 and changes
  -- nothing, when the disk is not mounted, the name opens a file or no inode is empty; or it
  -- answers the first empty inode number, and the new inode and the file count are in memory
  -- and on the disk, with every data sector as it was.
  pub create_file-cases :
      (fs : FileSystem m) (filename : List ℕ)
      → IsValid m k fs
      → IsBytes filename
      → ((create_file m fs filename ≡ (none, fs)) × IsRefused fs filename)
        ⊎ ((i : ℕ) × ((create_file m fs filename).0 ≡ some i)
            × IsCreated fs (create_file m fs filename).1 filename i)
  unfolding create_after
  create_file-cases fs filename v b = elim (Bool-cases fs.mounted) [
    | inr off ↦ inl (create_file-after fs filename false _ _ off refl refl, unmounted off)
    | inl on ↦ elim (find_file-cases filename fs.inodes) [
      | inr (i, e, found) ↦ inl (
        create_file-after fs filename true true _ on (file_exists-mounted fs filename (some i) on e)
            refl,
        exists found,
      )
      | inl (e, fresh) ↦ elim (find_free_inode-cases fs.inodes) [
        | inl (e', none') ↦ inl (
          create_file-after fs filename true false none on
              (file_exists-mounted fs filename none on e) e',
          full none',
        )
        | inr (i, e', slot) ↦
            let runs : create_file m fs filename ≡ (some i, add_file m fs filename i) =
              create_file-after fs filename true false (some i) on
                (file_exists-mounted fs filename none on e) e' in
            inr (
              i,
              ap (λ (r : Option ℕ × FileSystem m). r.0) runs,
              subst (λ (r : Option ℕ × FileSystem m). IsCreated fs r.1 filename i) (sym runs)
                  (record {
                    slot = slot;
                    name_len = (v.table i).name_len;
                    fresh = fresh;
                    update = add_file-IsUpdated fs filename i v b;
                  }),
            )
      ]
    ]
  ]
