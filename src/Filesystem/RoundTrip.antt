-- ===== src/Filesystem/RoundTrip.antt =====
-- `ReadFile` after `WriteFile` on any file of the directory.
use mathlib.Core.Path.{subst₂}
use hydra_os.Common.{
  ℕ, ◌^◌, ◌≤◌, ◌<◌, ◌≡◌, ◌∙◌, sym, ap, subst, true, false, List, [], Option, some, length, arith,
  ◌==◌,
}
use hydra_os.Common.ByteLists.{IsBytes}
use hydra_os.Filesystem.Layout.{type_empty}
use hydra_os.Filesystem.Machine.{Machine, Working}
use hydra_os.Filesystem.Store.{FileSystem}
use hydra_os.Filesystem.Data.{
  count_result, count_result-lt, write_data, write_file, place_file, read_file,
}
use hydra_os.Filesystem.Table.{at}
use hydra_os.Filesystem.Mounting.{IsValid}
use hydra_os.Filesystem.Reading.{IsLimit, IsLimit-le}
use hydra_os.Filesystem.Contents.{HasFile, HasRoom, write_data-HasFile}
use hydra_os.Filesystem.Fetching.{Shows, read_file-Shows}
use hydra_os.Filesystem.Placing.{first_sector, Placed, place_file-Placed, write_file-eq}

module _ (m : Machine) (k : Working m) where
  open m use {World}
  open k use {Holding, content}

  -- What `WriteFile` leaves.
  pub write_file-HasFile :
      (fs : FileSystem m) (i : ℕ) (buffer : List ℕ) (size : ℕ)
      → IsValid m k fs
      → IsBytes buffer
      → fs.mounted ≡ true
      → ((at fs.inodes i).type == type_empty) ≡ false
      → i < 64
      → HasRoom m k (first_sector m k fs i) size
      → ((write_file m fs (some i) buffer size).0 ≡ count_result size)
        × HasFile m k []
            (write_file m fs (some i) buffer size).1
            i
            (at fs.inodes i).name
            (first_sector m k fs i)
            buffer
            size
  write_file-HasFile fs i buffer size v vb on used lt room =
      subst
        (λ (r : Option ℕ × FileSystem m).
          (r.0 ≡ count_result size)
          × HasFile m k [] r.1 i (at fs.inodes i).name (first_sector m k fs i) buffer size)
        (sym (write_file-eq m k fs i buffer size on used lt))
        (subst₂
          (λ name s.
            ((write_data m (place_file m fs i) i buffer size).0 ≡ count_result size)
            × HasFile m k [] (write_data m (place_file m fs i) i buffer size).1 i name s buffer
                size)
          p.same_name p.starts
          (write_data-HasFile m k (place_file m fs i) i buffer size p.valid vb lt
            (subst (λ s. HasRoom m k s size) (sym p.starts) room) (p.stays ∙ on)
            (ap (λ t. t == type_empty) p.same_type ∙ used)))
    where
      p : Placed m k fs (place_file m fs i) i (first_sector m k fs i)
      p = place_file-Placed m k fs i v lt

  -- On a valid mounted file system, WriteFile of at least one byte, and of less than 2 ^ 31,
  -- from a buffer of bytes to an inode in use answers the size, when the sectors from the
  -- file's first one on are data sectors with 28-bit numbers; and ReadFile after it answers as
  -- many bytes as the request and the file have, puts the written bytes into the buffer, which
  -- has room for them, and changes neither the rest of the buffer nor the disk.
  pub read_file-write_file :
      (fs : FileSystem m) (i : ℕ) (buffer : List ℕ) (size : ℕ) (target : List ℕ) (request limit : ℕ)
      → IsValid m k fs
      → IsBytes buffer
      → fs.mounted ≡ true
      → ((at fs.inodes i).type == type_empty) ≡ false
      → i < 64
      → HasRoom m k (first_sector m k fs i) size
      → 0 < size
      → size < 2 ^ 31
      → IsLimit limit size request
      → request < 2 ^ 32
      → limit ≤ length target
      → ((write_file m fs (some i) buffer size).0 ≡ some size)
        × Shows m k []
            (write_file m fs (some i) buffer size).1
            limit
            buffer
            target
            (read_file m (write_file m fs (some i) buffer size).1 (some i) target request)
  read_file-write_file fs i buffer size target request limit v vb on used lt room nonempty positive
        l small fits =
      let w = write_file-HasFile fs i buffer size v vb on used lt room in
      (
        w.0 ∙ count_result-lt size positive,
        read_file-Shows m k [] (omega arith) (write_file m fs (some i) buffer size).1 i
            (at fs.inodes i).name (first_sector m k fs i) buffer size w.1 target request limit l
            room lt nonempty small (omega (arith, IsLimit-le limit size request l)) fits,
      )
