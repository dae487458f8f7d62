-- ===== src/Shell/Files/Contents.antt =====
-- `CommandCat` prints what `CommandWrite` wrote to a file that `CommandTouch` made.
use hydra_os.Common.{
  ℕ, ◌<◌, ◌≡◌, ◌∙◌, refl, sym, ap, subst, false, Option, none, some, List, [], ◌∷◌, ◌++◌, length,
  arith, if◌then◌else◌,
}
use hydra_os.Filesystem.Machine.{Machine, Working}
use hydra_os.Filesystem.Store.{FileSystem}
use hydra_os.Filesystem.Files.{create_file, open_file}
use hydra_os.Filesystem.Data.{write_file}
use hydra_os.Filesystem.Table.{at}
use hydra_os.Filesystem.Names.{IsString, IsString-IsBytes}
use hydra_os.Filesystem.Session.{IsFresh, first-IsCreated, first_opened, first_written}
use hydra_os.Shell.Output.{Output, color, text, chars, number}
use hydra_os.Shell.Colors.{light_green, light_brown}
use hydra_os.Shell.Files.{
  is_nonzero, is_empty_text, named_text, red_text, command_touch, write_test_data, command_write,
  command_cat,
}
use hydra_os.Shell.Files.TestData.{data_bytes, data_size, data-IsString}
use hydra_os.Shell.Files.Printing.{Prints, open_file-HasFile, command_cat-Prints}

has_text : (cs : List ℕ) → 0 < length cs → is_empty_text cs ≡ false
unfolding is_empty_text
has_text [] lt = absurd (omega arith)
has_text (c ∷ cs) lt = refl

module _ (m : Machine) (k : Working m) where
  -- What `CommandWrite` prints.
  abbrev pub wrote_text : List ℕ → List Output
  wrote_text filename =
      color light_green
      ∷ text "Wrote "
      ∷ number data_size
      ∷ text " bytes to '"
      ∷ chars filename
      ∷ text "'\n"
      ∷ []

  command_touch-eq :
      (fs : FileSystem m) (filename : List ℕ)
      → is_empty_text filename ≡ false
      → (create_file m fs filename).0 ≡ some 0
      → command_touch m fs filename
        ≡ (named_text filename "' created.\n", (create_file m fs filename).1)
  unfolding command_touch
  command_touch-eq fs filename given e =
      ap
        (λ b.
          if b
          then (red_text "Usage: touch <filename>\n", fs)
          else (answer (create_file m fs filename).0, (create_file m fs filename).1))
        given
      ∙ ap (λ o. (answer o, (create_file m fs filename).1)) e
    where
      answer : Option ℕ → List Output
      answer o = elim o [
        | none ↦
            red_text "Failed to create file.\n"
            ++ color light_brown ∷ text "Make sure to run 'format' and 'mount' first.\n" ∷ []
        | some i ↦ named_text filename "' created.\n"
      ]

  command_write-eq :
      (fs : FileSystem m) (filename : List ℕ)
      → is_empty_text filename ≡ false
      → open_file m fs filename ≡ some 0
      → (write_file m fs (some 0) data_bytes data_size).0 ≡ some data_size
      → command_write m fs filename
        ≡ (wrote_text filename, (write_file m fs (some 0) data_bytes data_size).1)
  unfolding command_write write_test_data is_nonzero
  command_write-eq fs filename given e wrote =
      ap
        (λ b.
          if b
          then (red_text "Usage: write <filename>\n", fs)
          else opened (open_file m fs filename))
        given
      ∙ ap opened e
      ∙ ap
          (λ o. (
            if is_nonzero o then wrote_text filename else red_text "Failed to write to file.\n",
            (write_file m fs (some 0) data_bytes data_size).1,
          ))
          wrote
    where
      opened : Option ℕ → List Output × FileSystem m
      opened o = elim o [
        | none ↦ (red_text "File not found. Use 'touch' to create it first.\n", fs)
        | some fd ↦ write_test_data m fs filename fd
      ]

  -- On a working disk and heap, with a valid mounted file system that has no file and has
  -- handed out no sector, and for a name of 1 to 31 characters: touch prints that the file is
  -- created, write then prints that it wrote the 52 bytes of the test data to it, and cat then
  -- prints exactly the test data, gives its buffers back and leaves the disk as it was.
  pub command_cat-command_write :
      (fs : FileSystem m) (filename : List ℕ)
      → IsFresh m k fs
      → IsString filename
      → 0 < length filename
      → length filename < 32
      → (let touched = command_touch m fs filename in
          let wrote = command_write m touched.1 filename in
          (touched.0 ≡ named_text filename "' created.\n")
          × (wrote.0 ≡ wrote_text filename)
          × Prints m k wrote.1 (command_cat m wrote.1 filename))
  command_cat-command_write fs filename f vs some' short =
      let given = has_text filename some' in
      let touch = command_touch-eq fs filename given (first-IsCreated m k fs filename f vs).0 in
      let w =
        first_written m k fs filename f vs data_bytes data_size
          (IsString-IsBytes data_bytes data-IsString) (omega arith) in
      let write =
        ap (λ (r : List Output × FileSystem m). command_write m r.1 filename) touch
        ∙ command_write-eq (create_file m fs filename).1 filename given
            (first_opened m k fs filename f vs short) w.0 in
      (
        ap (λ (r : List Output × FileSystem m). r.0) touch,
        ap (λ (r : List Output × FileSystem m). r.0) write,
        subst (λ (r : List Output × FileSystem m). Prints m k r.1 (command_cat m r.1 filename))
            (sym write)
            (command_cat-Prints m k
              (write_file m (create_file m fs filename).1 (some 0) data_bytes data_size).1 filename
              _ given
              (open_file-HasFile m k
                (write_file m (create_file m fs filename).1 (some 0) data_bytes data_size).1
                filename (at fs.inodes 0) _ _ _ vs short (f.valid.table 0).name_len w.1)
              w.1),
      )
