-- ===== src/Shell/Files.antt =====
-- shell.cpp: the commands on the file system. Each gives its outputs and the file system after it.
pub mod TestData
pub mod Printing
pub mod Contents
mod Tests
use hydra_os.Common.{
  ℕ, ◌+◌, ◌-◌, Bool, true, false, not, ◌&&◌, Option, none, some, List, [], ◌∷◌, ◌++◌, String, codes,
  length, take, get_or, set, u32, ltb, ◌==◌, if◌then◌else◌,
}
use hydra_os.Filesystem.Layout.{Inode, type_regular}
use hydra_os.Filesystem.Machine.{Machine}
use hydra_os.Filesystem.Store.{FileSystem}
use hydra_os.Filesystem.Files.{format, mount, create_file, open_file, get_file_size, delete_file}
use hydra_os.Filesystem.Data.{write_file, read_file}
use hydra_os.Shell.Output.{Output, color, text, chars, number}
use hydra_os.Shell.Colors.{light_green, light_cyan, light_red, light_brown, white}

-- The characters before the terminator.
abbrev pub c_string : List ℕ → List ℕ
c_string [] = []
c_string (c ∷ cs) = if c == 0 then [] else c ∷ c_string cs

-- The test `if(n)` of an `int32_t`, where `none` is -1.
pub is_nonzero : Option ℕ → Bool
is_nonzero none = true
is_nonzero (some n) = ltb 0 n

-- `args[0] == '\0'`.
pub is_empty_text : List ℕ → Bool
is_empty_text [] = true
is_empty_text (c ∷ cs) = false

abbrev pub red_text : String → List Output
red_text message = color light_red ∷ text message ∷ []

abbrev pub named_text : List ℕ → String → List Output
named_text args end = color light_green ∷ text "File '" ∷ chars args ∷ text end ∷ []

abbrev pub test_data : String
test_data = "Hello from HydraOS filesystem!\nThis is a test file.\n"

-- An inode that `CommandLs` lists.
pub is_listed : Inode → Bool
is_listed x = (x.type == type_regular) && not (get_or x.name 0 0 == 0)

pub list_entry : Inode → List Output
list_entry x =
    color white
    ∷ text "  "
    ∷ chars (c_string (take 32 x.name ++ 0 ∷ []))
    ∷ text " ("
    ∷ number x.size
    ∷ text " bytes)\n"
    ∷ []

-- The loop of `CommandLs`: what it prints, and `count`.
pub list_loop : List Inode → ℕ → List Output × ℕ
unfolding is_listed list_entry
list_loop [] count = ([], count)
list_loop (x ∷ xs) count =
    let rest = list_loop xs (if is_listed x then count + 1 else count) in
    if is_listed x then (list_entry x ++ rest.0, rest.1) else rest

-- What `CommandCat` prints of the bytes that it has read.
pub content_text : List ℕ → ℕ → List Output
content_text buffer size =
    color white
    ∷ chars (c_string buffer)
    ∷ (if not (get_or buffer (size - 1) 0 == 10) then text "\n" ∷ [] else [])

module _ (m : Machine) where
  open m use {World, malloc, free, stale}

  pub command_format : FileSystem m → List Output × FileSystem m
  command_format fs =
      let (done, fs') = format m fs (codes "HydraOS") in
      (
        color light_brown
            ∷ text "Formatting file system...\n"
            ∷ (if done
                then color light_green ∷ text "File system formatted successfully!\n" ∷ []
                else red_text "Failed to format file system.\n"),
        fs',
      )

  pub command_mount : FileSystem m → List Output × FileSystem m
  command_mount fs =
      let (done, fs') = mount m fs in
      (
        color light_cyan
            ∷ text "Mounting file system...\n"
            ∷ (if done
                then color light_green ∷ text "File system mounted successfully!\n" ∷ []
                else red_text "Failed to mount file system. Try 'format' first.\n"),
        fs',
      )

  pub command_ls : FileSystem m → List Output
  unfolding list_loop
  command_ls fs =
      let (entries, count) = list_loop fs.inodes 0 in
      color light_cyan ∷ text "Files:\n" ∷ entries
      ++ (if count == 0
          then color light_brown
            ∷ text "  (empty)\n"
            ∷ text "  Tip: Use 'format' and 'mount' if not done yet\n"
            ∷ []
          else [])
      ++ color white ∷ text "Total: " ∷ number count ∷ text " file(s)\n" ∷ []

  pub command_touch : FileSystem m → List ℕ → List Output × FileSystem m
  command_touch fs args =
      if is_empty_text args
      then (red_text "Usage: touch <filename>\n", fs)
      else let (fd, fs') = create_file m fs args in
        (
          elim fd [
            | none ↦
                red_text "Failed to create file.\n"
                ++ color light_brown ∷ text "Make sure to run 'format' and 'mount' first.\n" ∷ []
            | some i ↦ named_text args "' created.\n"
          ],
          fs',
        )

  -- `CommandWrite`, once the file is open.
  pub write_test_data : FileSystem m → List ℕ → ℕ → List Output × FileSystem m
  unfolding is_nonzero
  write_test_data fs args fd =
      let len = length (codes test_data) in
      let (written, fs') = write_file m fs (some fd) (codes test_data) len in
      (
        if is_nonzero written
            then color light_green
              ∷ text "Wrote "
              ∷ number len
              ∷ text " bytes to '"
              ∷ chars args
              ∷ text "'\n"
              ∷ []
            else red_text "Failed to write to file.\n",
        fs',
      )

  pub command_write : FileSystem m → List ℕ → List Output × FileSystem m
  unfolding write_test_data
  command_write fs args =
      if is_empty_text args
      then (red_text "Usage: write <filename>\n", fs)
      else elim (open_file m fs args) [
        | none ↦ (red_text "File not found. Use 'touch' to create it first.\n", fs)
        | some fd ↦ write_test_data fs args fd
      ]

  -- `CommandCat`, once the file is open and known not to be empty.
  pub print_file : FileSystem m → ℕ → ℕ → List Output × FileSystem m
  unfolding is_nonzero content_text
  print_file fs fd size =
      let (p, w) = malloc fs.world (u32 (size + 1)) in
      let (count, buffer, fs') = read_file m (record fs { world = w }) (some fd) (stale w p) size in
      if p == 0 then (red_text "Out of memory.\n", record fs { world = w }) else (
        if is_nonzero count
            then content_text (set buffer size 0) size
            else red_text "Failed to read file.\n",
        record fs' { world = free fs'.world p },
      )

  pub command_cat : FileSystem m → List ℕ → List Output × FileSystem m
  unfolding print_file
  command_cat fs args =
      if is_empty_text args
      then (red_text "Usage: cat <filename>\n", fs)
      else elim (open_file m fs args) [
        | none ↦ (red_text "File not found.\n", fs)
        | some fd ↦
            let size = get_file_size m fs args in
            if size == 0
            then (color light_brown ∷ text "(empty file)\n" ∷ [], fs)
            else print_file fs fd size
      ]

  pub command_rm : FileSystem m → List ℕ → List Output × FileSystem m
  command_rm fs args =
      if is_empty_text args
      then (red_text "Usage: rm <filename>\n", fs)
      else let (done, fs') = delete_file m fs args in
        (
          if done
              then named_text args "' deleted.\n"
              else red_text "Failed to delete file. File may not exist.\n",
          fs',
        )
