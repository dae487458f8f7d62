-- ===== src/Shell/Editor.antt =====
-- shell.cpp: the shell's state, the line editor and the dispatch of commands.
pub mod Safety
pub mod Line
pub mod Keys
pub mod Session
pub mod Words
pub mod Typing
pub mod Commands
pub mod Tests
use hydra_os.Common.{
  ℕ, zero, suc, ◌+◌, ◌-◌, Bool, true, false, not, ◌&&◌, ◌||◌, List, [], ◌∷◌, ◌++◌, String, codes,
  length, replicate, set, u8, ltb, ◌==◌, if◌then◌else◌,
}
use hydra_os.TextMode.{Screen}
use hydra_os.Timer.{Timer}
use hydra_os.Filesystem.Machine.{Machine}
use hydra_os.Filesystem.Store.{FileSystem}
use hydra_os.Shell.Output.{Output, color, text, chars, char, show}
use hydra_os.Shell.Colors.{light_red, white}
use hydra_os.Shell.Info.{
  print_prompt, start, command_help, command_about, command_meminfo, command_uname, command_syscall,
  command_clear, command_echo,
}
use hydra_os.Shell.Uptime.{command_uptime}
use hydra_os.Shell.Files.{
  c_string, command_format, command_mount, command_ls, command_touch, command_write, command_cat,
  command_rm,
}
use hydra_os.Shell.Disk.{command_disk}

abbrev pub blank_char : ℕ
blank_char = 32

-- `while(*s == ' ') s++;`.
pub skip_spaces : List ℕ → List ℕ
skip_spaces [] = []
skip_spaces (c ∷ cs) = if c == blank_char then skip_spaces cs else c ∷ cs

-- The loop that copies the first word to `cmd`, with room for `n` characters: the word, and the
-- text at `command + i`.
pub first_word : ℕ → List ℕ → List ℕ × List ℕ
first_word zero cs = ([], cs)
first_word (suc n) [] = ([], [])
first_word (suc n) (c ∷ cs) =
    let rest = first_word n cs in
    if not (c == blank_char) then (c ∷ rest.0, rest.1) else ([], c ∷ cs)

-- `strcmp`, on C strings as lists of characters.
pub same_text : List ℕ → List ℕ → Bool
same_text [] [] = true
same_text [] (d ∷ ds) = false
same_text (c ∷ cs) [] = false
same_text (c ∷ cs) (d ∷ ds) = if not (c == d) then false else same_text cs ds

module _ (m : Machine) where
  pub record Shell : Type 0 where
    pub vga : Screen
    pub timer : Timer
    pub file_system : FileSystem m
    pub command_buffer : List ℕ
    pub buffer_index : ℕ

  -- The constructor.
  pub init : Screen → Timer → FileSystem m → Shell
  init vga timer fs = record {
    vga = vga;
    timer = timer;
    file_system = fs;
    command_buffer = replicate 256 0;
    buffer_index = 0;
  }

  -- The chain of comparisons of `ExecuteCommand`.
  pub dispatch : Timer → FileSystem m → List ℕ → List ℕ → List Output × FileSystem m
  dispatch timer fs cmd args =
      let is = λ (name : String). same_text cmd (codes name) in
      if is "help"
      then (command_help, fs)
      else if is "clear" || is "cls"
      then (command_clear, fs)
      else if is "echo"
      then (command_echo args, fs)
      else if is "uptime"
      then (command_uptime timer, fs)
      else if is "about"
      then (command_about, fs)
      else if is "meminfo"
      then (command_meminfo, fs)
      else if is "uname"
      then (command_uname, fs)
      else if is "syscall"
      then (command_syscall, fs)
      else if is "disk"
      then command_disk m fs
      else if is "format"
      then command_format m fs
      else if is "mount"
      then command_mount m fs
      else if is "ls"
      then (command_ls m fs, fs)
      else if is "touch"
      then command_touch m fs args
      else if is "write"
      then command_write m fs args
      else if is "cat"
      then command_cat m fs args
      else if is "rm"
      then command_rm m fs args
      else (
        color light_red
            ∷ text "Unknown command: "
            ∷ color white
            ∷ chars cmd
            ∷ text "\nType 'help' for available commands\n"
            ∷ [],
        fs,
      )

  pub execute_command : Timer → FileSystem m → List ℕ → List Output × FileSystem m
  execute_command timer fs command =
      let line = skip_spaces command in
      let (cmd, rest) = first_word 63 line in
      if length line == 0 then ([], fs) else dispatch timer fs cmd (skip_spaces rest)

  -- Output on the shell's screen.
  abbrev pub tell : Shell → List Output → Shell
  tell s out = record s { vga = show s.vga out }

  -- The key '\n'.
  pub enter : Shell → Shell
  enter s =
      let buffer = set s.command_buffer s.buffer_index 0 in
      let (out, fs) = execute_command s.timer s.file_system (c_string buffer) in
      let run : Shell =
        if ltb 0 s.buffer_index
        then record (tell s (text "\n" ∷ out)) { file_system = fs }
        else tell s (text "\n" ∷ []) in
      tell (record run { command_buffer = replicate 256 0; buffer_index = 0 }) print_prompt

  -- The key '\b'.
  pub erase : Shell → Shell
  erase s =
      if ltb 0 s.buffer_index
      then record (tell s (char 8 ∷ [])) {
        command_buffer = set s.command_buffer (s.buffer_index - 1) 0;
        buffer_index = s.buffer_index - 1;
      }
      else s

  -- `if(bufferIndex < 255) { commandBuffer[bufferIndex++] = c; vga->PutChar(c); }`.
  pub insert : Shell → ℕ → Shell
  insert s c =
      if ltb s.buffer_index 255
      then record (tell s (char c ∷ [])) {
        command_buffer = set s.command_buffer s.buffer_index c;
        buffer_index = u8 (s.buffer_index + 1);
      }
      else s

  -- The loop of the key '\t', which ends when the line is full, with `n` spaces left.
  pub insert_spaces : ℕ → Shell → Shell
  insert_spaces zero s = s
  insert_spaces (suc n) s = insert_spaces n (insert s blank_char)

  pub handle_key_press : Shell → ℕ → Shell
  handle_key_press s c =
      if c == 10
      then enter s
      else if c == 8
      then erase s
      else if c == 9
      then insert_spaces 4 s
      else insert s c

  -- `Start`.
  pub greet : Shell → Shell
  greet s = tell s start

  -- The keys pressed one after the other.
  unfoldable pub press : Shell → List ℕ → Shell
  press s [] = s
  press s (c ∷ cs) = press (handle_key_press s c) cs
