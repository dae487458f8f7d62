-- ===== src/Filesystem/Opening.antt =====
-- What `OpenFile` answers after `CreateFile`.
use hydra_os.Common.{
  ℕ, zero, suc, ◌≤◌, ◌<◌, ◌≡◌, ◌≢◌, ◌∙◌, inl, inr, sym, ap, subst, true, List, [], ◌∷◌, Option,
  none, some, length, take, arith, some_inj,
}
use hydra_os.Filesystem.Layout.{Inode}
use hydra_os.Common.ByteLists.{IsBytes}
use hydra_os.Filesystem.Machine.{Machine, Working}
use hydra_os.Filesystem.Store.{FileSystem}
use hydra_os.Filesystem.Files.{create_file, open_file, find_file}
use hydra_os.Filesystem.Names.{IsString, IsString-IsBytes, take_all}
use hydra_os.Filesystem.Lookup.{find_file-NonePass}
use hydra_os.Filesystem.Directory.{
  IsDirectory, find_file-created, find_file-created_other, created-IsDirectory,
}
use hydra_os.Filesystem.Mounting.{IsValid}
use hydra_os.Filesystem.Operations.{IsUpdated, IsCreated, create_file-cases, open_file-mounted}

length-take_le : (n : ℕ) (s : List ℕ) → length (take n s) ≤ n
length-take_le zero s = omega arith
length-take_le (suc n) [] = omega arith
length-take_le (suc n) (c ∷ s) = omega (arith, length-take_le n s)

none≢some : {A : Type 0} {x : A} → none ≡ some x → ⊥
none≢some e = cc

module _ (m : Machine) (k : Working m) where
  -- An inode number from `CreateFile` is one of a new file.
  pub create_file-IsCreated :
      (fs : FileSystem m) (filename : List ℕ) (i : ℕ)
      → IsValid m k fs
      → IsBytes filename
      → (create_file m fs filename).0 ≡ some i
      → IsCreated m k fs (create_file m fs filename).1 filename i
  create_file-IsCreated fs filename i v b e = elim (create_file-cases m k fs filename v b) [
    | inl (same, refused) ↦
        absurd (none≢some (sym (ap (λ (r : Option ℕ × FileSystem m). r.0) same) ∙ e))
    | inr (j, e', c) ↦
        subst (IsCreated m k fs (create_file m fs filename).1 filename) (some_inj (sym e' ∙ e)) c
  ]

  pub opens :
      (fs fs' : FileSystem m) (inodes : List Inode) (count : ℕ) (t : List ℕ)
      → fs.mounted ≡ true
      → IsUpdated m k fs fs' inodes count
      → open_file m fs' t ≡ find_file t 0 inodes
  opens fs fs' inodes count t on u =
      open_file-mounted m k fs' t (u.stays ∙ on) ∙ ap (find_file t 0) u.table

  module _ (fs : FileSystem m) (filename : List ℕ) (i : ℕ) (on : fs.mounted ≡ true)
      (v : IsValid m k fs) (vs : IsString filename)
      (succeeds : (create_file m fs filename).0 ≡ some i) where
    -- When CreateFile answers an inode number on a valid mounted file system whose files have
    -- distinct names, for a name of less than 32 characters, OpenFile then answers that number
    -- for the name, answers for every other name what it answered before, and the files still
    -- have distinct names.
    pub open_file-create_file :
        IsDirectory fs.inodes
        → length filename < 32
        → (open_file m (create_file m fs filename).1 filename ≡ some i)
          × ((t : List ℕ)
              → IsString t
              → t ≢ filename
              → open_file m (create_file m fs filename).1 t ≡ open_file m fs t)
          × IsDirectory (create_file m fs filename).1.inodes
    open_file-create_file d short =
        let c = create_file-IsCreated fs filename i v (IsString-IsBytes filename vs) succeeds in
        (
          opens fs _ _ _ filename on c.update
              ∙ find_file-created fs.inodes i c.slot c.name_len filename vs short c.fresh,
          λ t vt other.
              opens fs _ _ _ t on c.update
              ∙ find_file-created_other fs.inodes i c.slot c.name_len filename t vs vt
                  (λ e. other (e ∙ take_all 31 filename (omega arith)))
              ∙ sym (open_file-mounted m k fs t on),
          subst IsDirectory (sym c.update.table)
              (created-IsDirectory fs.inodes i c.slot c.name_len filename vs short c.fresh d),
        )

    -- When CreateFile answers an inode number on a valid mounted file system for a name of 32
    -- characters or more, OpenFile does not find a file under that name.
    pub open_file-create_file_long :
        32 ≤ length filename → open_file m (create_file m fs filename).1 filename ≡ none
    open_file-create_file_long long =
        let c = create_file-IsCreated fs filename i v (IsString-IsBytes filename vs) succeeds in
        opens fs _ _ _ filename on c.update
        ∙ find_file-created_other fs.inodes i c.slot c.name_len filename filename vs vs
            (λ e. absurd (omega (arith, length-take_le 31 filename, ap length e)))
        ∙ find_file-NonePass filename fs.inodes c.fresh
