-- ===== src/Shell/Editor/Commands.antt =====
-- The commands on files, as they are typed.
use hydra_os.Common.{
  Bool, true, ◌&&◌, ltb, leb, ℕ, suc, ◌+◌, ◌≤◌, ◌<◌, ◌≡◌, ◌∙◌, refl, ap, List, [], ◌∷◌, ◌++◌, map,
  String, codes, length, length-append, arith,
}
use hydra_os.Timer.{Timer}
use hydra_os.Filesystem.Machine.{Machine}
use hydra_os.Filesystem.Store.{FileSystem}
use hydra_os.Shell.Output.{Output, char, text, show}
use hydra_os.Shell.Info.{print_prompt}
use hydra_os.Shell.Files.{command_touch, command_write, command_cat, command_rm}
use hydra_os.Shell.Editor.{
  Shell, press, dispatch, same_text, execute_command, skip_spaces, blank_char,
}
use hydra_os.Shell.Editor.Keys.{Holds}
use hydra_os.Shell.Editor.Session.{Follows}
use hydra_os.Shell.Editor.Words.{
  is_word, is_word-IsWord, StartsFull, blank, skip_spaces-full, execute_command_lem,
}
use hydra_os.Shell.Editor.Typing.{
  IsTyped, is_typed, is_typed-IsTyped, IsTyped-append_all, key, executed, after, press-typed,
}

-- A file name that can be typed behind a command: no blank at its start, no key that the editor
-- treats specially, and room for it in the line.
pub record IsArgument (name : List ℕ) : Type 0 where
  pub typed : IsTyped name
  pub starts : StartsFull name
  pub fits : length name < 250

-- The command, a blank and the argument.
abbrev pub line : String → List ℕ → List ℕ
line command name = codes command ++ blank_char ∷ name

-- A command without blanks, of at most five characters.
record IsCommand (command : String) : Type 0 where
  word : is_word (codes command) ≡ true
  typed : is_typed (codes command) ≡ true
  some' : 0 < length (codes command)
  short : length (codes command) ≤ 5

abbrev is_command : String → Bool
is_command command =
    is_word (codes command)
    && is_typed (codes command)
    && (ltb 0 (length (codes command)) && leb (length (codes command)) 5)

is_command-IsCommand : (command : String) → is_command command ≡ true → IsCommand command
is_command-IsCommand command e = record {
  word = ground (arith, e);
  typed = ground (arith, e);
  some' = ground (arith, e);
  short = ground (arith, e);
}

module _ (m : Machine) where
  -- What the shell does with a command that is typed with one argument.
  press-line :
      (h : Shell m) (command : String) (name : List ℕ)
      → IsCommand command
      → IsArgument name
      → Holds m h []
      → Follows m h (press m h (line command name ++ 10 ∷ [])) (
          after m h.timer
            (map char (line command name))
            (executed m h.timer h.file_system (line command name)))
  press-line h command name c a v =
      press-typed m h (line command name) v
        (IsTyped-append_all (codes command) (blank_char ∷ name)
          (is_typed-IsTyped (codes command) c.typed)
          (key (omega arith) (omega arith) (omega arith) (omega arith) a.typed))
        (omega (arith, size, c.some')) (omega (arith, size, c.short, a.fits))
    where
      size : length (line command name) ≡ length (codes command) + suc (length name)
      size = length-append (codes command) (blank_char ∷ name)

  executes :
      (timer : Timer) (fs : FileSystem m) (command : String) (name : List ℕ)
      → IsCommand command
      → IsArgument name
      → execute_command m timer fs (line command name) ≡ dispatch m timer fs (codes command) name
  unfolding skip_spaces
  executes timer fs command name c a =
      execute_command_lem m timer fs 0 (codes command) (blank_char ∷ name)
        (is_word-IsWord (codes command) c.word) c.some' (omega (arith, c.short)) blank
      ∙ ap (dispatch m timer fs (codes command)) (skip_spaces-full name a.starts)

  -- A session that types a command with a file name.
  pub record Runs (h h' : Shell m) (r : List Output × FileSystem m) (typed : List ℕ) : Type 0 where
    pub holds : Holds m h' []
    pub files : h'.file_system ≡ r.1
    pub clock : h'.timer ≡ h.timer
    pub screen : h'.vga ≡ show h.vga (map char typed ++ (text "\n" ∷ r.0 ++ print_prompt))

  press-dispatch :
      (h : Shell m) (command : String) (name : List ℕ) (r : List Output × FileSystem m)
      → IsCommand command
      → IsArgument name
      → Holds m h []
      → dispatch m h.timer h.file_system (codes command) name ≡ r
      → Runs h (press m h (line command name ++ 10 ∷ [])) r (line command name)
  unfolding executed after
  press-dispatch h command name r c a v e =
      let f = press-line h command name c a v in
      let runs : execute_command m h.timer h.file_system (line command name) ≡ r =
        executes h.timer h.file_system command name c a ∙ e in
      record {
        holds = f.holds;
        files = f.files ∙ ap (λ (q : List Output × FileSystem m). q.1) runs;
        clock = f.clock;
        screen =
            f.screen
            ∙ ap
                (λ (q : List Output × FileSystem m).
                  show h.vga (map char (line command name) ++ (text "\n" ∷ q.0 ++ print_prompt)))
                runs;
      }

  module _ (h : Shell m) (name : List ℕ) (v : Holds m h []) (a : IsArgument name) where
    pub touch_typed :
        Runs h
          (press m h (line "touch" name ++ 10 ∷ []))
          (command_touch m h.file_system name)
          (line "touch" name)
    unfolding dispatch same_text
    touch_typed =
        press-dispatch h "touch" name (command_touch m h.file_system name)
          (is_command-IsCommand _ refl) a v refl

    pub write_typed :
        Runs h
          (press m h (line "write" name ++ 10 ∷ []))
          (command_write m h.file_system name)
          (line "write" name)
    unfolding dispatch same_text
    write_typed =
        press-dispatch h "write" name (command_write m h.file_system name)
          (is_command-IsCommand _ refl) a v refl

    pub cat_typed :
        Runs h
          (press m h (line "cat" name ++ 10 ∷ []))
          (command_cat m h.file_system name)
          (line "cat" name)
    unfolding dispatch same_text
    cat_typed =
        press-dispatch h "cat" name (command_cat m h.file_system name) (is_command-IsCommand _ refl)
          a v refl

    -- When rm, a blank and a file name are typed at an empty line, and then Enter, the shell
    -- shows the characters, the output of the command rm on that name and the prompt, holds an
    -- empty line, and has the file system that the command leaves; the name has no control key
    -- or leading blank and fits in the line.
    pub rm_typed :
        Runs h
          (press m h (line "rm" name ++ 10 ∷ []))
          (command_rm m h.file_system name)
          (line "rm" name)
    unfolding dispatch same_text
    rm_typed =
        press-dispatch h "rm" name (command_rm m h.file_system name) (is_command-IsCommand _ refl) a
          v refl
