-- ===== src/Filesystem/Deleting.antt =====
-- What `DeleteFile` does, and what `OpenFile` answers after it.
use hydra_os.Common.{
  ℕ, ◌+◌, ◌-◌, ◌^◌, ◌≡◌, ◌≢◌, ◌∙◌, ◌⊎◌, inl, inr, refl, sym, ap, subst, Bool, true, false, not,
  List, Option, none, some, set, length-set, sub32, if◌then◌else◌, Bool-cases,
}
use hydra_os.Filesystem.Layout.{type_empty}
use hydra_os.Filesystem.Machine.{Machine, Working}
use hydra_os.Filesystem.Store.{FileSystem}
use hydra_os.Filesystem.Files.{remove_file, delete_file, open_file, find_file}
use hydra_os.Filesystem.Table.{at}
use hydra_os.Filesystem.Names.{IsString}
use hydra_os.Filesystem.Lookup.{answers, IsFirst, find_file-cases}
use hydra_os.Filesystem.Directory.{
  IsDirectory, find_file-removed, find_file-removed_other, removed-IsDirectory,
}
use hydra_os.Filesystem.Mounting.{IsValid}
use hydra_os.Filesystem.Operations.{
  IsUpdated, update-IsUpdated, set-AllInodes, emptied-IsInode, open_file-mounted,
  open_file-unmounted,
}
use hydra_os.Filesystem.Opening.{opens}

module _ (m : Machine) (k : Working m) where
  -- The file at inode number `i` is gone, from the directory and from the disk; the sectors of
  -- its contents stay as they were.
  pub record IsDeleted (fs fs' : FileSystem m) (filename : List ℕ) (i : ℕ) : Type 0 where
    pub opened : open_file m fs filename ≡ some i
    pub gone : open_file m fs' filename ≡ none
    pub others : (t : List ℕ) → IsString t → t ≢ filename → open_file m fs' t ≡ open_file m fs t
    pub directory : IsDirectory fs'.inodes
    pub update :
        IsUpdated m k fs fs'
          (set fs.inodes i (record (at fs.inodes i) { type = type_empty; size = 0 }))
          (sub32 fs.superblock.inode_count 1)

  delete_after : FileSystem m → Bool → Option ℕ → Bool × FileSystem m
  delete_after fs on found =
      if not on
      then (false, fs)
      else elim found [ none ↦ (false, fs) | some i ↦ (true, remove_file m fs i) ]

  delete_file-after :
      (fs : FileSystem m) (filename : List ℕ) (on : Bool) (found : Option ℕ)
      → fs.mounted ≡ on
      → open_file m fs filename ≡ found
      → delete_file m fs filename ≡ delete_after fs on found
  unfolding delete_file delete_after
  delete_file-after fs filename on found e1 e2 =
      ap (λ b. delete_after fs b (open_file m fs filename)) e1 ∙ ap (delete_after fs on) e2

  remove_file-IsUpdated :
      (fs : FileSystem m) (i : ℕ)
      → IsValid m k fs
      → IsUpdated m k fs
          (remove_file m fs i)
          (set fs.inodes i (record (at fs.inodes i) { type = type_empty; size = 0 }))
          (sub32 fs.superblock.inode_count 1)
  unfolding remove_file
  remove_file-IsUpdated fs i v =
      update-IsUpdated m k fs (set fs.inodes i _) (fs.superblock.inode_count + 2 ^ 32 - 1) v
        (length-set fs.inodes i _)
        (set-AllInodes fs.inodes i _ v.table (emptied-IsInode _ (v.table i)))

  remove_file-IsDeleted :
      (fs : FileSystem m) (filename : List ℕ) (i : ℕ)
      → IsValid m k fs
      → fs.mounted ≡ true
      → IsDirectory fs.inodes
      → IsString filename
      → find_file filename 0 fs.inodes ≡ some i
      → IsFirst (answers filename) fs.inodes i
      → IsDeleted fs (remove_file m fs i) filename i
  remove_file-IsDeleted fs filename i v on d vs e found =
      let u = remove_file-IsUpdated fs i v in
      record {
        opened = open_file-mounted m k fs filename on ∙ e;
        gone = opens m k fs _ _ _ filename on u ∙ find_file-removed fs.inodes d filename i vs found;
        others = λ t vt other.
            opens m k fs _ _ _ t on u
            ∙ find_file-removed_other fs.inodes d filename i vs found t vt other
            ∙ sym (open_file-mounted m k fs t on);
        directory =
            subst IsDirectory (sym u.table) (removed-IsDirectory fs.inodes d filename i vs found);
        update = u;
      }

  -- On a valid file system whose files have distinct names, DeleteFile either answers false and
  -- changes nothing, when the name opens no file; or it answers true, the name opens nothing
  -- more, every other name opens what it opened before, the files still have distinct names,
  -- and the changed table and file count are on the disk.
  pub delete_file-cases :
      (fs : FileSystem m) (filename : List ℕ)
      → IsValid m k fs
      → IsDirectory fs.inodes
      → IsString filename
      → ((delete_file m fs filename ≡ (false, fs)) × (open_file m fs filename ≡ none))
        ⊎ (((delete_file m fs filename).0 ≡ true)
            × ((i : ℕ) × IsDeleted fs (delete_file m fs filename).1 filename i))
  unfolding delete_after
  delete_file-cases fs filename v d vs = elim (Bool-cases fs.mounted) [
    | inr off ↦
        inl
          (delete_file-after fs filename false _ off refl, open_file-unmounted m k fs filename off)
    | inl on ↦ elim (find_file-cases filename fs.inodes) [
      | inl (e, h) ↦ inl (
        delete_file-after fs filename true none on (open_file-mounted m k fs filename on ∙ e),
        open_file-mounted m k fs filename on ∙ e,
      )
      | inr (i, e, found) ↦
          let runs : delete_file m fs filename ≡ (true, remove_file m fs i) =
            delete_file-after fs filename true (some i) on
              (open_file-mounted m k fs filename on ∙ e) in
          inr (
            ap (λ (r : Bool × FileSystem m). r.0) runs,
            (
              i,
              subst (λ (r : Bool × FileSystem m). IsDeleted fs r.1 filename i) (sym runs)
                  (remove_file-IsDeleted fs filename i v on d vs e found),
            ),
          )
    ]
  ]
