-- ===== src/Filesystem/Tests.antt =====
-- The file system on a RAM disk: a machine whose world is an array of sectors and the list of the
-- sector buffers in use.
use hydra_os.Common.{
  ℕ, zero, suc, ◌≡◌, ◌≢◌, ◌⊎◌, refl, ap, true, false, none, some, List, [], ◌∷◌, length, replicate,
  set, inl, length-replicate, ◌==◌, if◌then◌else◌, arith,
}
use hydra_os.Common.ByteLists.{IsBytes, byte, replicate-IsBytes, set-IsBytes}
use hydra_os.Filesystem.Layout.{Inode, Superblock, blank, magic_number}
use hydra_os.Filesystem.Codec.{IsInode, IsSuperblock}
use hydra_os.Filesystem.Data.{write_file, read_file, sectors_for}
use hydra_os.Filesystem.Contents.{HasRoom}
use hydra_os.Filesystem.Fetching.{Shows}
use hydra_os.Filesystem.Placing.{first_sector}
use hydra_os.Filesystem.RoundTrip.{read_file-write_file}
use hydra_os.Filesystem.Machine.{Machine, Working}
use hydra_os.Filesystem.Store.{FileSystem}
use hydra_os.Filesystem.Files.{
  format, mount, unmount, open_file, create_file, delete_file, reset_inodes, file_exists, find_file,
  find_free_inode, names_match,
}
use hydra_os.Filesystem.Table.{at, AllInodes}
use hydra_os.Filesystem.Names.{IsString, empty, char, IsString-IsBytes}
use hydra_os.Filesystem.Lookup.{is_empty}
use hydra_os.Filesystem.Directory.{IsDirectory}
use hydra_os.Filesystem.Mounting.{IsValid, IsMounted, mount-unmount}
use hydra_os.Filesystem.Formatting.{formatted, mount-format, empty-IsDirectory}
use hydra_os.Filesystem.Operations.{set-AllInodes, IsRefused, IsCreated, create_file-cases}
use hydra_os.Filesystem.Opening.{
  create_file-IsCreated, open_file-create_file, open_file-create_file_long,
}
use hydra_os.Filesystem.Deleting.{IsDeleted, delete_file-cases}

pub record Ram : Type 0 where
  pub sectors : ℕ → List ℕ
  pub held : List ℕ

abbrev tail : List ℕ → List ℕ
tail [] = []
tail (x ∷ xs) = xs

abbrev pub ram : Machine
ram = record {
  World = Ram;
  malloc = λ w n. (suc (length w.held), record w { held = suc (length w.held) ∷ w.held });
  free = λ w p. record w { held = tail w.held };
  stale = λ w p. replicate 512 0;
  read28 = λ w s b. (w.sectors s, w);
  write28 = λ w s b. record w { sectors = λ t. if t == s then b else w.sectors t };
  identify = λ w. w;
}

pub ram-Working : Working ram
ram-Working = record {
  Holding = λ ps w. (length w.held ≡ length ps);
  content = λ w. w.sectors;
  malloc_grants = λ n le ps w h lt. (λ e. absurd (omega arith), ap suc h);
  length-stale = λ w p. omega (arith, length-replicate {A = ℕ} 512 0);
  free_returns = λ p ps w h. tail_lem w.held (length ps) h;
  read_keeps = λ ps w s b h lt. h;
  write_keeps = λ ps w s b h lt e v. h;
  content-malloc = λ w n s. refl;
  content-free = λ w p s. refl;
  content-read28 = λ ps w s b t h lt. refl;
  read28_gives = λ ps w s b h lt. refl;
  content-write28 = λ ps w s b t h lt e v. refl;
}
  where
    tail_lem : (xs : List ℕ) (n : ℕ) → length xs ≡ suc n → length (tail xs) ≡ n
    tail_lem [] n e = absurd (omega arith)
    tail_lem (x ∷ xs) n e = omega arith

abbrev pub inodes0 : List Inode
inodes0 = replicate 64 blank

abbrev pub super0 : Superblock
super0 = record {
  magic = magic_number;
  total_sectors = 1000;
  used_sectors = 0;
  inode_count = 0;
  label = replicate 32 0;
}

abbrev pub fs0 : FileSystem ram
fs0 = record {
  inodes = inodes0;
  superblock = super0;
  mounted = true;
  world = record { sectors = λ s. []; held = [] };
}

blank-IsInode : IsInode blank
blank-IsInode = record {
  name_len = length-replicate {A = ℕ} 32 0;
  name_bytes = replicate-IsBytes 32 0 (omega arith);
  size_lt = omega arith;
  start_lt = omega arith;
  type_lt = omega arith;
  created_lt = omega arith;
  modified_lt = omega arith;
}

pub super0-IsSuperblock : IsSuperblock super0
super0-IsSuperblock = record {
  magic_lt = omega arith;
  total_lt = omega arith;
  used_lt = omega arith;
  count_lt = omega arith;
  label_len = length-replicate {A = ℕ} 32 0;
  label_bytes = replicate-IsBytes 32 0 (omega arith);
}

pub blanks-AllInodes : (n : ℕ) → AllInodes (replicate n blank)
blanks-AllInodes zero i = blank-IsInode
blanks-AllInodes (suc n) zero = blank-IsInode
blanks-AllInodes (suc n) (suc i) = blanks-AllInodes n i

pub blanks-empty : (n i : ℕ) → is_empty (at (replicate n blank) i) ≡ true
blanks-empty zero i = refl
blanks-empty (suc n) zero = refl
blanks-empty (suc n) (suc i) = blanks-empty n i

pub fs0-IsValid : IsValid ram ram-Working fs0
unfolding ram-Working
fs0-IsValid = record {
  ready = refl;
  table_len = length-replicate {A = Inode} 64 blank;
  table = blanks-AllInodes 64;
  super = super0-IsSuperblock;
}

-- The file name "a".
abbrev pub name_a : List ℕ
name_a = 97 ∷ []

pub name_a-IsString : IsString name_a
name_a-IsString = char (λ e. absurd (omega arith)) (omega arith) empty

pub name_a-IsBytes : IsBytes name_a
name_a-IsBytes = IsString-IsBytes name_a name_a-IsString

pub fs0-IsDirectory : IsDirectory fs0.inodes
fs0-IsDirectory = empty-IsDirectory inodes0 (blanks-empty 64)

-- Another object on the disk that `w` holds.
abbrev reboot : Ram → FileSystem ram
reboot w = record { inodes = inodes0; superblock = super0; mounted = false; world = w }

mount-unmount_example :
    ((mount ram (reboot (unmount ram fs0).world)).0 ≡ true)
    × IsMounted ram ram-Working (mount ram (reboot (unmount ram fs0).world)).1 super0 inodes0
mount-unmount_example =
    mount-unmount ram ram-Working fs0 (reboot (unmount ram fs0).world) fs0-IsValid refl refl refl
      (length-replicate {A = Inode} 64 blank)

mount-format_example :
    (let fresh = reboot (format ram fs0 name_a).1.world in
      ((mount ram fresh).0 ≡ true)
      × IsMounted ram ram-Working
          (mount ram fresh).1
          (formatted ram ram-Working fs0 name_a)
          (reset_inodes inodes0)
      × IsDirectory (mount ram fresh).1.inodes
      × ((t : List ℕ) → open_file ram (mount ram fresh).1 t ≡ none))
mount-format_example =
    mount-format ram ram-Working fs0 (reboot (format ram fs0 name_a).1.world) name_a fs0-IsValid
      name_a-IsBytes refl (length-replicate {A = Inode} 64 blank)

create_file-cases_example :
    ((create_file ram fs0 name_a ≡ (none, fs0)) × IsRefused ram ram-Working fs0 name_a)
    ⊎ ((i : ℕ) × ((create_file ram fs0 name_a).0 ≡ some i)
        × IsCreated ram ram-Working fs0 (create_file ram fs0 name_a).1 name_a i)
create_file-cases_example = create_file-cases ram ram-Working fs0 name_a fs0-IsValid name_a-IsBytes

pub create_a : (create_file ram fs0 name_a).0 ≡ some 0
unfolding create_file file_exists open_file find_file find_free_inode names_match
create_a = refl

open_file-create_file_example :
    (open_file ram (create_file ram fs0 name_a).1 name_a ≡ some 0)
    × ((t : List ℕ)
        → IsString t
        → t ≢ name_a
        → open_file ram (create_file ram fs0 name_a).1 t ≡ open_file ram fs0 t)
    × IsDirectory (create_file ram fs0 name_a).1.inodes
open_file-create_file_example =
    open_file-create_file ram ram-Working fs0 name_a 0 refl fs0-IsValid name_a-IsString create_a
      fs0-IsDirectory (omega arith)

-- A file name of 32 characters.
abbrev long_name : List ℕ
long_name = replicate 32 97

letters-IsString : (n : ℕ) → IsString (replicate n 97)
letters-IsString zero = empty
letters-IsString (suc n) = char (λ e. absurd (omega arith)) (omega arith) (letters-IsString n)

create_long : (create_file ram fs0 long_name).0 ≡ some 0
unfolding create_file file_exists open_file find_file find_free_inode names_match
create_long = refl

open_file-create_file_long_example :
    open_file ram (create_file ram fs0 long_name).1 long_name ≡ none
open_file-create_file_long_example =
    open_file-create_file_long ram ram-Working fs0 long_name 0 refl fs0-IsValid
      (letters-IsString 32) create_long (omega (arith, length-replicate {A = ℕ} 32 97))

-- The disk with one file on it.
abbrev fs1 : FileSystem ram
fs1 = (create_file ram fs0 name_a).1

fs1-IsValid : IsValid ram ram-Working fs1
fs1-IsValid =
    (create_file-IsCreated ram ram-Working fs0 name_a 0 fs0-IsValid name_a-IsBytes
      create_a).update.valid

fs1-IsDirectory : IsDirectory fs1.inodes
fs1-IsDirectory =
    (open_file-create_file ram ram-Working fs0 name_a 0 refl fs0-IsValid name_a-IsString create_a
      fs0-IsDirectory (omega arith)).2

delete_file-cases_example :
    ((delete_file ram fs1 name_a ≡ (false, fs1)) × (open_file ram fs1 name_a ≡ none))
    ⊎ (((delete_file ram fs1 name_a).0 ≡ true)
        × ((i : ℕ) × IsDeleted ram ram-Working fs1 (delete_file ram fs1 name_a).1 name_a i))
delete_file-cases_example =
    delete_file-cases ram ram-Working fs1 name_a fs1-IsValid fs1-IsDirectory name_a-IsString

-- An empty file "a" at inode number 0, without a sector so far.
abbrev file_a : Inode
file_a = record blank { type = 1; name = set (replicate 32 0) 0 97 }

abbrev fs2 : FileSystem ram
fs2 = record fs0 { inodes = set inodes0 0 file_a }

fs2-IsValid : IsValid ram ram-Working fs2
unfolding ram-Working
fs2-IsValid = record {
  ready = refl;
  table_len = length-replicate {A = Inode} 64 blank;
  table = set-AllInodes inodes0 0 file_a (blanks-AllInodes 64) (record {
    name_len = length-replicate {A = ℕ} 32 0;
    name_bytes =
        set-IsBytes (replicate 32 0) 0 97 (replicate-IsBytes 32 0 (omega arith)) (omega arith);
    size_lt = omega arith;
    start_lt = omega arith;
    type_lt = omega arith;
    created_lt = omega arith;
    modified_lt = omega arith;
  });
  super = super0-IsSuperblock;
}

-- Five bytes are written, and three of them are asked for.
abbrev pub hello : List ℕ
hello = 104 ∷ 101 ∷ 108 ∷ 108 ∷ 111 ∷ []

pub hello-IsBytes : IsBytes hello
hello-IsBytes = byte (omega arith) (
    byte (omega arith) (byte (omega arith) (byte (omega arith) (byte (omega arith) IsBytes.empty))))

abbrev pub zeros : List ℕ
zeros = 0 ∷ 0 ∷ 0 ∷ 0 ∷ []

hello-HasRoom : HasRoom ram ram-Working (first_sector ram ram-Working fs2 0) 5
hello-HasRoom = record {
  low = omega arith;
  high = unfold sectors_for in omega arith;
  small = omega arith;
}

read_file-write_file_example :
    ((write_file ram fs2 (some 0) hello 5).0 ≡ some 5)
    × Shows ram ram-Working []
        (write_file ram fs2 (some 0) hello 5).1
        3
        hello
        zeros
        (read_file ram (write_file ram fs2 (some 0) hello 5).1 (some 0) zeros 3)
read_file-write_file_example =
    read_file-write_file ram ram-Working fs2 0 hello 5 zeros 3 3 fs2-IsValid hello-IsBytes refl refl
      (omega arith) hello-HasRoom (omega arith) (omega arith) (inl (refl, omega arith))
      (omega arith) (omega arith)
