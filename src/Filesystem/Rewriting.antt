-- ===== src/Filesystem/Rewriting.antt =====
-- What `WriteFile` keeps: the directory, the other files, and the disk's picture of them.
mod Tests
use mathlib.Core.Path.{subst₂}
use hydra_os.Common.{
  ℕ, ◌+◌, ◌^◌, ◌≤◌, ◌<◌, ◌≡◌, ◌≢◌, ◌∙◌, ◌⊎◌, inl, inr, ◌↔◌, ◌&&◌, ap₂, refl, sym, ap, subst, Bool,
  true, false, not, ◌||◌, List, [], Option, none, some, length, set, length-set, get_or-set_self,
  get_or-set_ne, arith, leb, ◌==◌, if◌then◌else◌, u32,
}
use hydra_os.Common.ByteLists.{IsBytes}
use hydra_os.Filesystem.Layout.{Inode, blank, max_files, type_empty, data_start_sec}
use hydra_os.Filesystem.Machine.{Machine, Working}
use hydra_os.Filesystem.Store.{FileSystem, allocate_sector}
use hydra_os.Filesystem.Data.{sectors_for, write_data, write_file, place_file, read_file}
use hydra_os.Filesystem.Files.{find_file, open_file, names_match}
use hydra_os.Filesystem.Lookup.{answers, find_file-set}
use hydra_os.Filesystem.Table.{at, AllInodes}
use hydra_os.Filesystem.Operations.{set-AllInodes}
use hydra_os.Filesystem.Directory.{IsDirectory, eq_cases}
use hydra_os.Filesystem.Mounting.{IsValid, Stores}
use hydra_os.Filesystem.Allocating.{Shown, Quiet, allocate_sector-Quiet}
use hydra_os.Filesystem.Reading.{IsLimit}
use hydra_os.Filesystem.Contents.{
  same_open, HasFile, HasRoom, Keeps, write_data-HasFile, write_data-Keeps,
}
use hydra_os.Filesystem.Fetching.{Shows, read_file-Shows}
use hydra_os.Filesystem.Placing.{first_sector, Placed, place_file-Placed, write_file-eq}

answers-same :
    (t : List ℕ) (x y : Inode) → x.name ≡ y.name → x.type ≡ y.type → answers t x ≡ answers t y
answers-same t x y e e' = ap₂ (λ name type. not (type == type_empty) && names_match name t) e e'

-- A directory depends on the names and the types of its inodes alone.
same-IsDirectory :
    (xs ys : List Inode)
    → length ys ≡ length xs
    → ((j : ℕ) → (at ys j).name ≡ (at xs j).name)
    → ((j : ℕ) → (at ys j).type ≡ (at xs j).type)
    → IsDirectory xs
    → IsDirectory ys
same-IsDirectory xs ys len names types d = record {
  has_name = λ j lt used.
      let (s, named) =
        d.has_name j (omega (arith, len)) (ap (λ ty. ty == type_empty) (sym (types j)) ∙ used) in
      (
        s,
        record {
          is_string = named.is_string;
          opens_iff =
              λ t vt. subst (λ b. (b ≡ true) ↔ (t ≡ s)) (sym (like t j)) (named.opens_iff t vt);
        },
      );
  distinct = λ a b t la lb vt ha hb.
      d.distinct a b t (omega (arith, len)) (omega (arith, len)) vt (sym (like t a) ∙ ha)
        (sym (like t b) ∙ hb);
}
  where
    like : (t : List ℕ) (j : ℕ) → answers t (at ys j) ≡ answers t (at xs j)
    like t j = answers-same t (at ys j) (at xs j) (names j) (types j)

everywhere :
    {A : Type 0} (f : Inode → A) (xs ys : List Inode) (i : ℕ)
    → f (at ys i) ≡ f (at xs i)
    → ((j : ℕ) → j ≢ i → at ys j ≡ at xs j)
    → (j : ℕ) → f (at ys j) ≡ f (at xs j)
everywhere f xs ys i e others j = elim (eq_cases j i) [
  | inl here ↦ subst (λ n. f (at ys n) ≡ f (at xs n)) (sym here) e
  | inr ne ↦ ap f (others j ne)
]

module _ (m : Machine) (k : Working m) where
  open m use {World}
  open k use {Holding, content}

  write_file-Keeps :
      (fs : FileSystem m) (i : ℕ) (buffer : List ℕ) (size : ℕ)
      → IsValid m k fs
      → IsBytes buffer
      → fs.mounted ≡ true
      → ((at fs.inodes i).type == type_empty) ≡ false
      → i < 64
      → HasRoom m k (first_sector m k fs i) size
      → Keeps m k fs
          (write_file m fs (some i) buffer size).1
          i
          (first_sector m k fs i)
          (sectors_for size)
  write_file-Keeps fs i buffer size v vb on used lt room =
      subst
        (λ (r : Option ℕ × FileSystem m).
          Keeps m k fs r.1 i (first_sector m k fs i) (sectors_for size))
        (sym (write_file-eq m k fs i buffer size on used lt))
        record {
          valid = d.valid;
          stays = d.stays ∙ p.stays;
          others = λ j ne. d.others j ne ∙ p.others j ne;
          same_name = d.same_name ∙ p.same_name;
          same_type = d.same_type ∙ p.same_type;
          opens = λ t. d.opens t ∙ p.opens t;
          stored = λ e. d.stored (p.stored e);
          sectors = λ t low out.
              d.sectors t low (subst (λ s. (t < s) ⊎ (s + sectors_for size ≤ t)) (sym p.starts) out)
              ∙ p.sectors t low;
        }
    where
      p : Placed m k fs (place_file m fs i) i (first_sector m k fs i)
      p = place_file-Placed m k fs i v lt

      d :
          Keeps m k
            (place_file m fs i)
            (write_data m (place_file m fs i) i buffer size).1
            i
            (at (place_file m fs i).inodes i).start_sector
            (sectors_for size)
      d =
          write_data-Keeps m k (place_file m fs i) i buffer size p.valid vb lt
            (subst (λ s. HasRoom m k s size) (sym p.starts) room)

  -- The file at inode number `i` was written to the `n` sectors from `start` on, and all else is as
  -- it was.
  pub record Rewritten (fs fs' : FileSystem m) (i start n : ℕ) : Type 0 where
    pub valid : IsValid m k fs'
    pub stays : fs'.mounted ≡ fs.mounted
    pub others : (j : ℕ) → j ≢ i → at fs'.inodes j ≡ at fs.inodes j
    pub opens : (t : List ℕ) → open_file m fs' t ≡ open_file m fs t
    pub directory : IsDirectory fs'.inodes
    pub stores : Stores m k fs'.world fs'.superblock fs'.inodes
    pub sectors :
        (t : ℕ) → 10 ≤ t → (t < start) ⊎ (start + n ≤ t) → content fs'.world t ≡ content fs.world t

  -- On a valid mounted file system whose files have distinct names and whose superblock stands
  -- on the disk, WriteFile of less than 2 ^ 32 - 511 bytes, from a buffer of bytes, to an inode
  -- in use, when the sectors from the file's first one on are data sectors with 28-bit numbers,
  -- leaves a valid mounted file system whose files have distinct names: every name opens what
  -- it opened before, every other inode is as it was, the superblock and the inode table in
  -- memory stand on the disk, and no data sector but the file's own has changed.
  pub write_file-Rewritten :
      (fs : FileSystem m) (i : ℕ) (buffer : List ℕ) (size : ℕ)
      → IsValid m k fs
      → IsDirectory fs.inodes
      → Shown m k fs
      → IsBytes buffer
      → fs.mounted ≡ true
      → ((at fs.inodes i).type == type_empty) ≡ false
      → i < 64
      → HasRoom m k (first_sector m k fs i) size
      → Rewritten fs
          (write_file m fs (some i) buffer size).1
          i
          (first_sector m k fs i)
          (sectors_for size)
  write_file-Rewritten fs i buffer size v d shown vb on used lt room =
      let r = write_file-Keeps fs i buffer size v vb on used lt room in
      let fs' = (write_file m fs (some i) buffer size).1 in
      record {
        valid = r.valid;
        stays = r.stays;
        others = r.others;
        opens = r.opens;
        directory =
            same-IsDirectory fs.inodes fs'.inodes (r.valid.table_len ∙ sym v.table_len)
              (everywhere (λ x. x.name) fs.inodes fs'.inodes i r.same_name r.others)
              (everywhere (λ x. x.type) fs.inodes fs'.inodes i r.same_type r.others) d;
        stores = r.stored shown;
        sectors = r.sectors;
      }
