-- ===== src/Filesystem/Formatting.antt =====
-- `Format`, and the empty directory that it leaves on the disk.
use hydra_os.Common.{
  ℕ, zero, suc, ◌≡◌, ◌∙◌, refl, sym, ap, subst, true, false, List, [], ◌∷◌, none, length,
  length-replicate, arith,
}
use hydra_os.Filesystem.Layout.{Inode, Superblock, magic_number}
use hydra_os.Common.ByteLists.{IsBytes, replicate-IsBytes}
use hydra_os.Filesystem.Images.{copy_string-IsBytes}
use hydra_os.Filesystem.Codec.{IsSuperblock}
use hydra_os.Filesystem.Machine.{Machine, Working}
use hydra_os.Filesystem.Store.{FileSystem, copy_string, save_superblock, save_inode_table}
use hydra_os.Filesystem.Files.{reset_inodes, format, mount, open_file}
use hydra_os.Filesystem.Table.{at, AllInodes}
use hydra_os.Filesystem.Names.{length-copy_string}
use hydra_os.Filesystem.Lookup.{answers, is_empty, find_file-NonePass}
use hydra_os.Filesystem.Directory.{IsDirectory, empty-answers, true≢false}
use hydra_os.Filesystem.Mounting.{IsValid, IsSaved, Stores, save_both, IsMounted, mount-Stores}
use hydra_os.Filesystem.Operations.{open_file-mounted}

pub length-reset_inodes : (xs : List Inode) → length (reset_inodes xs) ≡ length xs
unfolding reset_inodes
length-reset_inodes [] = refl
length-reset_inodes (x ∷ xs) = ap suc (length-reset_inodes xs)

pub reset_inodes-AllInodes : (xs : List Inode) → AllInodes xs → AllInodes (reset_inodes xs)
unfolding reset_inodes
reset_inodes-AllInodes [] v i = v i
reset_inodes-AllInodes (x ∷ xs) v zero = record {
  name_len = length-replicate {A = ℕ} 32 0;
  name_bytes = replicate-IsBytes 32 0 (omega arith);
  size_lt = omega arith;
  start_lt = omega arith;
  type_lt = omega arith;
  created_lt = (v 0).created_lt;
  modified_lt = (v 0).modified_lt;
}
reset_inodes-AllInodes (x ∷ xs) v (suc i) = reset_inodes-AllInodes xs (λ j. v (suc j)) i

pub reset_inodes-empty : (xs : List Inode) (i : ℕ) → is_empty (at (reset_inodes xs) i) ≡ true
unfolding reset_inodes
reset_inodes-empty [] i = refl
reset_inodes-empty (x ∷ xs) zero = refl
reset_inodes-empty (x ∷ xs) (suc i) = reset_inodes-empty xs i

-- No inode in use: the empty directory.
pub empty-IsDirectory : (xs : List Inode) → ((i : ℕ) → is_empty (at xs i) ≡ true) → IsDirectory xs
empty-IsDirectory xs e = record {
  has_name = λ i lt used. absurd (true≢false (sym (e i) ∙ used));
  distinct = λ i j t li lj vt hi hj. absurd (true≢false (sym hi ∙ empty-answers t (at xs i) (e i)));
}

module _ (m : Machine) (k : Working m) where
  open m use {World}
  open k use {Holding, content}

  -- The superblock that `Format` writes.
  abbrev pub formatted : FileSystem m → List ℕ → Superblock
  formatted fs label = record {
    magic = magic_number;
    total_sectors = 1000;
    used_sectors = 0;
    inode_count = 0;
    label = copy_string 31 0 label fs.superblock.label;
  }

  pub formatted-IsSuperblock :
      (fs : FileSystem m) (label : List ℕ)
      → IsSuperblock fs.superblock
      → IsBytes label
      → IsSuperblock (formatted fs label)
  formatted-IsSuperblock fs label v b = record {
    magic_lt = omega arith;
    total_lt = omega arith;
    used_lt = omega arith;
    count_lt = omega arith;
    label_len = length-copy_string 31 0 label fs.superblock.label ∙ v.label_len;
    label_bytes = copy_string-IsBytes 31 0 label fs.superblock.label b v.label_bytes;
  }

  -- On a working disk and heap, after Format with a label of bytes on a valid file system,
  -- Mount by any object with 64 inode slots on the same disk succeeds with the superblock that
  -- Format made and 64 empty inodes, and then no name opens a file.
  pub mount-format :
      (fs fresh : FileSystem m) (label : List ℕ)
      → IsValid m k fs
      → IsBytes label
      → fresh.world ≡ (format m fs label).1.world
      → length fresh.inodes ≡ 64
      → ((mount m fresh).0 ≡ true)
        × IsMounted m k (mount m fresh).1 (formatted fs label) (reset_inodes fs.inodes)
        × IsDirectory (mount m fresh).1.inodes
        × ((t : List ℕ) → open_file m (mount m fresh).1 t ≡ none)
  mount-format fs fresh label v b same_world e = (
    mounted.0,
    mounted.1,
    subst IsDirectory (sym mounted.1.shows_table)
        (empty-IsDirectory _ (reset_inodes-empty fs.inodes)),
    λ t.
        open_file-mounted m k (mount m fresh).1 t mounted.1.is_mounted
        ∙ find_file-NonePass t (mount m fresh).1.inodes (λ i lt.
          subst (λ xs. answers t (at xs i) ≡ false) (sym mounted.1.shows_table)
            (empty-answers t (at (reset_inodes fs.inodes) i) (reset_inodes-empty fs.inodes i))),
  )
    where
      reset : FileSystem m
      reset = record fs { superblock = formatted fs label; inodes = reset_inodes fs.inodes }

      good : IsValid m k reset
      good = record {
        ready = v.ready;
        table_len = length-reset_inodes fs.inodes ∙ v.table_len;
        table = reset_inodes-AllInodes fs.inodes v.table;
        super = formatted-IsSuperblock fs label v.super b;
      }

      s : IsSaved m k reset (save_inode_table m (save_superblock m reset))
      s = save_both m k reset good

      at_world : fresh.world ≡ (save_inode_table m (save_superblock m reset)).world
      at_world = same_world ∙ unfold format in refl

      mounted :
          ((mount m fresh).0 ≡ true)
          × IsMounted m k (mount m fresh).1 (formatted fs label) (reset_inodes fs.inodes)
      mounted =
          mount-Stores m k fresh (formatted fs label) (reset_inodes fs.inodes)
            (subst (Holding []) (sym at_world) s.ready) e good.table_len good.table good.super refl
            (subst (λ w. Stores m k w (formatted fs label) (reset_inodes fs.inodes)) (sym at_world)
              s.stores)
