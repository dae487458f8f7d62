-- ===== src/Filesystem/Session.antt =====
-- A disk from `Format` to the first file on it: mounted, created, opened, written and read.
use mathlib.Core.Path.{subst₂}
use hydra_os.Common.{
  ℕ, zero, suc, ◌+◌, ◌^◌, ◌≤◌, ◌<◌, ◌≡◌, ◌∙◌, inl, inr, sym, ap, subst, true, false, List, [], some,
  length, get_or-set_self, arith, ◌==◌, u32, if◌then◌else◌,
}
use hydra_os.Common.ByteLists.{IsBytes}
use hydra_os.Filesystem.Layout.{Inode, Superblock, blank, type_empty, data_start_sec}
use hydra_os.Filesystem.Codec.{IsSuperblock}
use hydra_os.Filesystem.Machine.{Machine, Working}
use hydra_os.Filesystem.Store.{FileSystem}
use hydra_os.Filesystem.Files.{named, format, mount, create_file, open_file}
use hydra_os.Filesystem.Data.{count_result, count_result-lt, sectors_for, write_file, read_file}
use hydra_os.Filesystem.Table.{at, AllInodes}
use hydra_os.Filesystem.Names.{IsString, IsString-IsBytes}
use hydra_os.Filesystem.Lookup.{is_empty}
use hydra_os.Filesystem.Directory.{IsDirectory, empty-answers, true≢false}
use hydra_os.Filesystem.Mounting.{IsValid}
use hydra_os.Filesystem.Formatting.{
  formatted-IsSuperblock, mount-format, reset_inodes-AllInodes, length-reset_inodes,
  reset_inodes-empty,
}
use hydra_os.Filesystem.Operations.{IsCreated, unmounted, exists, full, create_file-cases}
use hydra_os.Filesystem.Opening.{open_file-create_file}
use hydra_os.Filesystem.Reading.{IsLimit, IsLimit-le}
use hydra_os.Filesystem.Contents.{HasFile, HasRoom}
use hydra_os.Filesystem.Fetching.{Shows, read_file-Shows}
use hydra_os.Filesystem.Placing.{first_sector}
use hydra_os.Filesystem.RoundTrip.{write_file-HasFile}

module _ (m : Machine) (k : Working m) where
  -- A mounted file system without files.
  pub record IsFresh (fs : FileSystem m) : Type 0 where
    pub valid : IsValid m k fs
    pub on : fs.mounted ≡ true
    pub empty : (i : ℕ) → is_empty (at fs.inodes i) ≡ true
    pub directory : IsDirectory fs.inodes
    pub unused : fs.superblock.used_sectors ≡ 0

  -- The first file gets inode number 0.
  first_file :
      (fs : FileSystem m) (filename : List ℕ)
      → IsFresh fs
      → IsBytes filename
      → ((create_file m fs filename).0 ≡ some 0)
        × IsCreated m k fs (create_file m fs filename).1 filename 0
  first_file fs filename f b = elim (create_file-cases m k fs filename f.valid b) [
    | inl (same, unmounted off) ↦ absurd (true≢false (sym f.on ∙ off))
    | inl (same, exists {i} slot) ↦
        absurd (true≢false (sym slot.passes ∙ empty-answers filename (at fs.inodes i) (f.empty i)))
    | inl (same, full none') ↦
        absurd (true≢false (sym (f.empty 0) ∙ none' 0 (omega (arith, f.valid.table_len))))
    | inr (zero, e, c) ↦ (e, c)
    | inr (suc i, e, c) ↦ absurd (true≢false (sym (f.empty 0) ∙ c.slot.before 0 (omega arith)))
  ]

  pub first_room : (size : ℕ) → size + 511 < 2 ^ 32 → HasRoom m k data_start_sec size
  first_room size lt = record {
    low = omega arith;
    high = unfold sectors_for in omega arith;
    small = lt;
  }

  -- What becomes of a file of `size` bytes that is created, opened, written and read.
  pub record Kept (fs : FileSystem m) (filename buffer target : List ℕ) (size request limit : ℕ)
      : Type 0 where
    pub created : (create_file m fs filename).0 ≡ some 0
    pub opened : open_file m (create_file m fs filename).1 filename ≡ some 0
    pub written : (write_file m (create_file m fs filename).1 (some 0) buffer size).0 ≡ some size
    pub read :
        Shows m k []
          (write_file m (create_file m fs filename).1 (some 0) buffer size).1
          limit
          buffer
          target
          (read_file m
            (write_file m (create_file m fs filename).1 (some 0) buffer size).1
            (some 0)
            target
            request)

  module _ (fs : FileSystem m) (filename : List ℕ) (f : IsFresh fs) (vs : IsString filename) where
    pub first-IsCreated :
        ((create_file m fs filename).0 ≡ some 0)
        × IsCreated m k fs (create_file m fs filename).1 filename 0
    first-IsCreated = first_file fs filename f (IsString-IsBytes filename vs)

    -- It is opened under its name.
    pub first_opened :
        length filename < 32 → open_file m (create_file m fs filename).1 filename ≡ some 0
    first_opened short =
        (open_file-create_file m k fs filename 0 f.on f.valid vs first-IsCreated.0 f.directory
          short).0

    inode_is : at (create_file m fs filename).1.inodes 0 ≡ named (at fs.inodes 0) filename
    inode_is =
        ap (λ xs. at xs 0) first-IsCreated.1.update.table
        ∙ get_or-set_self fs.inodes 0 (named (at fs.inodes 0) filename) blank
            first-IsCreated.1.slot.inside

    pub in_use : ((at (create_file m fs filename).1.inodes 0).type == type_empty) ≡ false
    unfolding named
    in_use = ap (λ (x : Inode). x.type == type_empty) inode_is

    -- It has no sector yet, and will get the first.
    pub first_sector_is : first_sector m k (create_file m fs filename).1 0 ≡ data_start_sec
    unfolding named
    first_sector_is =
        ap
          (λ (x : Inode).
            if x.start_sector == 0
            then u32 (data_start_sec + (create_file m fs filename).1.superblock.used_sectors)
            else x.start_sector)
          inode_is
        ∙ ap (λ (sb : Superblock). u32 (data_start_sec + sb.used_sectors))
            first-IsCreated.1.update.super
        ∙ ap (λ n. u32 (data_start_sec + n)) f.unused

    pub first_written :
        (buffer : List ℕ) (size : ℕ)
        → IsBytes buffer
        → size < 2 ^ 31
        → ((write_file m (create_file m fs filename).1 (some 0) buffer size).0 ≡ some size)
          × HasFile m k []
              (write_file m (create_file m fs filename).1 (some 0) buffer size).1
              0
              (named (at fs.inodes 0) filename).name
              data_start_sec
              buffer
              size
    first_written buffer size vb small =
        subst₂
          (λ (x : Inode) start.
            ((write_file m (create_file m fs filename).1 (some 0) buffer size).0 ≡ some size)
            × HasFile m k [] (write_file m (create_file m fs filename).1 (some 0) buffer size).1 0
                x.name start buffer size)
          inode_is first_sector_is
          (with_size (
            write_file-HasFile m k (create_file m fs filename).1 0 buffer size
              first-IsCreated.1.update.valid vb (first-IsCreated.1.update.stays ∙ f.on) in_use
              (omega arith)
              (subst (λ s. HasRoom m k s size) (sym first_sector_is)
                (first_room size (omega (arith, small))))))
      where
        with_size :
            {A : Type 0}
            → ((write_file m (create_file m fs filename).1 (some 0) buffer size).0
                ≡ count_result size)
              × A
            → ((write_file m (create_file m fs filename).1 (some 0) buffer size).0 ≡ some size) × A
        with_size (e, file) = (e ∙ count_result-lt size small, file)

    file-Kept :
        (buffer target : List ℕ) (size request limit : ℕ)
        → length filename < 32
        → IsBytes buffer
        → 0 < size
        → size < 2 ^ 31
        → IsLimit limit size request
        → request < 2 ^ 32
        → limit ≤ length target
        → Kept fs filename buffer target size request limit
    file-Kept buffer target size request limit short vb nonempty small l lt fits =
        let w = first_written buffer size vb small in
        record {
          created = first-IsCreated.0;
          opened = first_opened short;
          written = w.0;
          read =
              read_file-Shows m k [] (omega arith)
                (write_file m (create_file m fs filename).1 (some 0) buffer size).1 0 _
                data_start_sec buffer size w.1 target request limit l
                (first_room size (omega (arith, small))) (omega arith) nonempty lt
                (omega (arith, small, IsLimit-le limit size request l)) fits;
        }

  -- A formatted disk, mounted.
  pub format-IsFresh :
      (fs fresh : FileSystem m) (label : List ℕ)
      → IsValid m k fs
      → IsBytes label
      → fresh.world ≡ (format m fs label).1.world
      → length fresh.inodes ≡ 64
      → ((mount m fresh).0 ≡ true) × IsFresh (mount m fresh).1
  format-IsFresh fs fresh label v b same_world e =
      let r = mount-format m k fs fresh label v b same_world e in
      (
        r.0,
        record {
          valid = record {
            ready = r.1.ready;
            table_len = ap length r.1.shows_table ∙ length-reset_inodes fs.inodes ∙ v.table_len;
            table =
                subst AllInodes (sym r.1.shows_table) (reset_inodes-AllInodes fs.inodes v.table);
            super =
                subst IsSuperblock (sym r.1.shows_super)
                  (formatted-IsSuperblock m k fs label v.super b);
          };
          on = r.1.is_mounted;
          empty =
              subst (λ xs. (i : ℕ) → is_empty (at xs i) ≡ true) (sym r.1.shows_table)
                (reset_inodes-empty fs.inodes);
          directory = r.2;
          unused = ap (λ (sb : Superblock). sb.used_sectors) r.1.shows_super;
        },
      )

  pub format-Kept :
      (fs fresh : FileSystem m) (label filename buffer target : List ℕ) (size request limit : ℕ)
      → IsValid m k fs
      → IsBytes label
      → fresh.world ≡ (format m fs label).1.world
      → length fresh.inodes ≡ 64
      → IsString filename
      → length filename < 32
      → IsBytes buffer
      → 0 < size
      → size < 2 ^ 31
      → IsLimit limit size request
      → request < 2 ^ 32
      → limit ≤ length target
      → ((mount m fresh).0 ≡ true)
        × Kept (mount m fresh).1 filename buffer target size request limit
  format-Kept fs fresh label filename buffer target size request limit v b same_world e vs short vb
        nonempty small l lt fits =
      let r = format-IsFresh fs fresh label v b same_world e in
      (
        r.0,
        file-Kept (mount m fresh).1 filename r.1 vs buffer target size request limit short vb
            nonempty small l lt fits,
      )
