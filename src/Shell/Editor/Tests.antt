-- ===== src/Shell/Editor/Tests.antt =====
-- A shell on the RAM disk of the file system's tests.
use hydra_os.Common.{ℕ, refl, List, [], ◌∷◌, ◌++◌, codes, replicate, arith}
use hydra_os.TextMode.{Screen}
use hydra_os.Filesystem.Tests.{ram, fs0, name_a}
use hydra_os.Shell.Files.{command_rm}
use hydra_os.Shell.Editor.{Shell, press}
use hydra_os.Shell.Editor.Keys.{Holds}
use hydra_os.Shell.Editor.Session.{Follows, respond_all, press_refines}
use hydra_os.Shell.Editor.Typing.{is_typed-IsTyped}
use hydra_os.Shell.Editor.Words.{full}
use hydra_os.Shell.Editor.Commands.{line, Runs, rm_typed}

abbrev screen0 : Screen
screen0 = record {
  video_memory = λ q. 0;
  cursor_x = 0;
  cursor_y = 24;
  foreground_color = 15;
  background_color = 0;
  ports = [];
}

abbrev pub shell0 : Shell ram
shell0 = record {
  vga = screen0;
  timer = record { ticks = 0; frequency = 100; ports = [] };
  file_system = fs0;
  command_buffer = replicate 256 0;
  buffer_index = 0;
}

pub shell0-Holds : Holds ram shell0 []
shell0-Holds = record { fits = omega arith; buffer = refl; index = refl }

-- "ls", a tab, a backspace and Enter.
abbrev keys : List ℕ
keys = codes "ls\t" ++ 8 ∷ 10 ∷ []

press_refines_example :
    Follows ram shell0 (press ram shell0 keys) (respond_all ram shell0.timer fs0 [] keys)
press_refines_example = press_refines ram keys shell0 [] shell0-Holds

rm_typed_example :
    Runs ram shell0
      (press ram shell0 (line "rm" name_a ++ 10 ∷ []))
      (command_rm ram fs0 name_a)
      (line "rm" name_a)
rm_typed_example = rm_typed ram shell0 name_a shell0-Holds (record {
  typed = is_typed-IsTyped name_a refl;
  starts = full (omega arith);
  fits = omega arith;
})
