-- ===== src/Shell/Files/Printing.antt =====
-- `CommandCat` on a file that holds the test data.
use hydra_os.Common.{
  ℕ, ◌+◌, ◌%◌, ◌<◌, ◌≡◌, ◌∙◌, inl, refl, sym, ap, ap₂, subst, false, not, ◌&&◌, Option, none, some,
  List, [], ◌∷◌, length, get_or, set, arith, ◌==◌, u32, if◌then◌else◌,
}
use hydra_os.Filesystem.Layout.{Inode, data_start_sec}
use hydra_os.Filesystem.Machine.{Machine, Working}
use hydra_os.Filesystem.Store.{FileSystem}
use hydra_os.Filesystem.Files.{named, open_file, get_file_size, names_match}
use hydra_os.Filesystem.Data.{read_file}
use hydra_os.Filesystem.Table.{at}
use hydra_os.Filesystem.Names.{IsString, names_match-copy_string, take_all}
use hydra_os.Filesystem.Lookup.{find_file-IsFirst}
use hydra_os.Filesystem.Operations.{open_file-mounted}
use hydra_os.Filesystem.Persist.{nonzero}
use hydra_os.Filesystem.Contents.{HasFile}
use hydra_os.Filesystem.Fetching.{Shows, read_file-Shows}
use hydra_os.Filesystem.Session.{first_room}
use hydra_os.Shell.Output.{Output, color, text, chars}
use hydra_os.Shell.Colors.{light_brown, white}
use hydra_os.Shell.Files.{
  is_nonzero, is_empty_text, red_text, content_text, print_file, command_cat,
}
use hydra_os.Shell.Files.TestData.{data_bytes, data_size, content_text-data}

module _ (m : Machine) (k : Working m) where
  open m use {World, malloc, free, stale}
  open k use {Holding, content}

  -- A file that lies there under a name is opened by the name.
  pub open_file-HasFile :
      (fs : FileSystem m) (filename : List ℕ) (x : Inode) (start : ℕ) (buffer : List ℕ) (size : ℕ)
      → IsString filename
      → length filename < 32
      → length x.name ≡ 32
      → HasFile m k [] fs 0 (named x filename).name start buffer size
      → open_file m fs filename ≡ some 0
  unfolding named
  open_file-HasFile fs filename x start buffer size vs short len file =
      open_file-mounted m k fs filename file.on
      ∙ find_file-IsFirst filename fs.inodes 0 (record {
        inside = file.inside;
        passes =
            ap₂ (λ b c. not b && c) file.used
              (ap (λ n. names_match n filename) file.name_is
                ∙ (names_match-copy_string filename filename x.name len vs vs).1
                    (sym (take_all 31 filename (omega arith))));
        before = λ j lt. absurd (omega arith);
      })

  get_file_size-HasFile :
      (fs : FileSystem m) (filename name : List ℕ) (start : ℕ) (buffer : List ℕ) (size : ℕ)
      → open_file m fs filename ≡ some 0
      → HasFile m k [] fs 0 name start buffer size
      → get_file_size m fs filename ≡ size
  unfolding get_file_size
  get_file_size-HasFile fs filename name start buffer size e file =
      ap (λ (o : Option ℕ). elim o [ none ↦ 0 | some i ↦ (at fs.inodes i).size ]) e ∙ file.size_is

  -- The buffer of `CommandCat`, with room for a terminator.
  abbrev allotted : FileSystem m → ℕ × World
  allotted fs = malloc fs.world (u32 (data_size + 1))

  -- The buffer is had.
  with_buffer : FileSystem m → FileSystem m
  with_buffer fs = record fs { world = (allotted fs).1 }

  buffer-HasFile :
      (fs : FileSystem m) (name : List ℕ)
      → HasFile m k [] fs 0 name data_start_sec data_bytes data_size
      → HasFile m k
          ((allotted fs).0 ∷ [])
          (with_buffer fs)
          0
          name
          data_start_sec
          data_bytes
          data_size
  unfolding with_buffer
  buffer-HasFile fs name file = record {
    holding =
        (k.malloc_grants (u32 (data_size + 1)) (omega arith) [] fs.world file.holding
          (omega arith)).1;
    inside = file.inside;
    name_is = file.name_is;
    on = file.on;
    used = file.used;
    size_is = file.size_is;
    start_is = file.start_is;
    bytes = λ q lt.
        ap (λ c. get_or c (q % 512) 0) (k.content-malloc fs.world (u32 (data_size + 1)) _)
        ∙ file.bytes q lt;
  }

  -- What `CommandCat` reads, and what it does then.
  fetched : FileSystem m → Option ℕ × List ℕ × FileSystem m
  unfolding with_buffer
  fetched fs =
      let (p, w) = allotted fs in read_file m (with_buffer fs) (some 0) (stale w p) data_size

  fetched-Shows :
      (fs : FileSystem m) (name : List ℕ)
      → HasFile m k [] fs 0 name data_start_sec data_bytes data_size
      → Shows m k
          ((allotted fs).0 ∷ [])
          (with_buffer fs)
          data_size
          data_bytes
          (stale (allotted fs).1 (allotted fs).0)
          (fetched fs)
  unfolding fetched
  fetched-Shows fs name file =
      read_file-Shows m k _ (omega arith) (with_buffer fs) 0 name data_start_sec data_bytes
        data_size (buffer-HasFile fs name file) _ data_size data_size (inl (refl, omega arith))
        (first_room m k data_size (omega arith)) (omega arith) (omega arith) (omega arith)
        (omega arith) (omega (arith, k.length-stale (allotted fs).1 (allotted fs).0))

  finished : FileSystem m → List Output × FileSystem m
  unfolding fetched
  finished fs =
      let (count, buffer, fs') = fetched fs in
      (
        if is_nonzero count
            then content_text (set buffer data_size 0) data_size
            else red_text "Failed to read file.\n",
        record fs' { world = free fs'.world (allotted fs).0 },
      )

  print_file-finished :
      (fs : FileSystem m) → Holding [] fs.world → print_file m fs 0 data_size ≡ finished fs
  unfolding print_file finished with_buffer
  print_file-finished fs h =
      ap
        (λ b.
          if b
          then (red_text "Out of memory.\n", record fs { world = (allotted fs).1 })
          else finished fs)
        (nonzero m k _
          (k.malloc_grants (u32 (data_size + 1)) (omega arith) [] fs.world h (omega arith)).0)

  -- The test data is printed, the buffers are given back, and the disk is as it was.
  pub record Prints (fs : FileSystem m) (r : List Output × FileSystem m) : Type 0 where
    pub output : r.0 ≡ color white ∷ chars data_bytes ∷ []
    pub holding : Holding [] r.1.world
    pub same_disk : (t : ℕ) → content r.1.world t ≡ content fs.world t

  finished-Prints :
      (fs : FileSystem m) (name : List ℕ)
      → HasFile m k [] fs 0 name data_start_sec data_bytes data_size
      → Prints fs (finished fs)
  unfolding finished with_buffer
  finished-Prints fs name file = record {
    output =
        ap
          (λ o.
            if is_nonzero o
            then content_text (set (fetched fs).1 data_size 0) data_size
            else red_text "Failed to read file.\n")
          shows.count
        ∙ unfold is_nonzero in
          content_text-data (fetched fs).1
            (omega (arith, shows.same_length, k.length-stale (allotted fs).1 (allotted fs).0))
            shows.read;
    holding = k.free_returns _ [] _ shows.holding;
    same_disk = λ t.
        k.content-free _ _ t
        ∙ shows.same_disk t
        ∙ k.content-malloc fs.world (u32 (data_size + 1)) t;
  }
    where
      shows :
          Shows m k
            ((allotted fs).0 ∷ [])
            (with_buffer fs)
            data_size
            data_bytes
            (stale (allotted fs).1 (allotted fs).0)
            (fetched fs)
      shows = fetched-Shows fs name file

  pub command_cat-Prints :
      (fs : FileSystem m) (filename name : List ℕ)
      → is_empty_text filename ≡ false
      → open_file m fs filename ≡ some 0
      → HasFile m k [] fs 0 name data_start_sec data_bytes data_size
      → Prints fs (command_cat m fs filename)
  unfolding command_cat
  command_cat-Prints fs filename name given e file =
      subst (Prints fs)
        (sym (
          ap
            (λ b.
              if b
              then (red_text "Usage: cat <filename>\n", fs)
              else opened (open_file m fs filename) (get_file_size m fs filename))
            given
          ∙ ap (λ o. opened o (get_file_size m fs filename)) e
          ∙ ap (opened (some 0))
              (get_file_size-HasFile fs filename name data_start_sec data_bytes data_size e file)
          ∙ print_file-finished fs file.holding))
        (finished-Prints fs name file)
    where
      opened : Option ℕ → ℕ → List Output × FileSystem m
      opened o size = elim o [
        | none ↦ (red_text "File not found.\n", fs)
        | some fd ↦
            if size == 0
            then (color light_brown ∷ text "(empty file)\n" ∷ [], fs)
            else print_file m fs fd size
      ]
