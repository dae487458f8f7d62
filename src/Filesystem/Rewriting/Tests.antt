-- ===== src/Filesystem/Rewriting/Tests.antt =====
-- Five bytes are written to the first file of a RAM disk.
use hydra_os.Common.{refl, sym, subst, some, arith}
use hydra_os.Filesystem.Data.{write_file, sectors_for}
use hydra_os.Filesystem.Store.{FileSystem}
use hydra_os.Filesystem.Files.{create_file}
use hydra_os.Filesystem.Contents.{HasRoom}
use hydra_os.Filesystem.Placing.{first_sector}
use hydra_os.Filesystem.Operations.{IsCreated}
use hydra_os.Filesystem.Opening.{open_file-create_file}
use hydra_os.Filesystem.Session.{IsFresh, first-IsCreated, in_use, first_room, first_sector_is}
use hydra_os.Filesystem.Rewriting.{Rewritten, write_file-Rewritten}
use hydra_os.Filesystem.Tests.{
  ram, ram-Working, fs0, fs0-IsValid, fs0-IsDirectory, blanks-empty, name_a, name_a-IsString, hello,
  hello-IsBytes,
}

fs0-IsFresh : IsFresh ram ram-Working fs0
fs0-IsFresh = record {
  valid = fs0-IsValid;
  on = refl;
  empty = blanks-empty 64;
  directory = fs0-IsDirectory;
  unused = refl;
}

abbrev with_file : FileSystem ram
with_file = (create_file ram fs0 name_a).1

made : IsCreated ram ram-Working fs0 with_file name_a 0
made = (first-IsCreated ram ram-Working fs0 name_a fs0-IsFresh name_a-IsString).1

with_file-HasRoom : HasRoom ram ram-Working (first_sector ram ram-Working with_file 0) 5
with_file-HasRoom =
    subst (λ s. HasRoom ram ram-Working s 5)
      (sym (first_sector_is ram ram-Working fs0 name_a fs0-IsFresh name_a-IsString))
      (first_room ram ram-Working 5 (omega arith))

write_file-Rewritten_example :
    Rewritten ram ram-Working with_file
      (write_file ram with_file (some 0) hello 5).1
      0
      (first_sector ram ram-Working with_file 0)
      (sectors_for 5)
write_file-Rewritten_example =
    write_file-Rewritten ram ram-Working with_file 0 hello 5 made.update.valid
      (open_file-create_file ram ram-Working fs0 name_a 0 refl fs0-IsValid name_a-IsString
        (first-IsCreated ram ram-Working fs0 name_a fs0-IsFresh name_a-IsString).0 fs0-IsDirectory
        (omega arith)).2
      made.update.stores.super hello-IsBytes made.update.stays
      (in_use ram ram-Working fs0 name_a fs0-IsFresh name_a-IsString) (omega arith)
      with_file-HasRoom
