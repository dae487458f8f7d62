-- ===== src/Kernel/Tests.antt =====
-- The kernel on the RAM disk of the file system's tests.
use hydra_os.Common.{ℕ, ◌≡◌, none, some, List, [], ◌∷◌, map, false, ◌+◌}
use hydra_os.Controller.Tests.{chip, chip0}
use hydra_os.Memory.{chunk}
use hydra_os.Multitasking.{CpuState}
use hydra_os.Filesystem.Tests.{ram, fs0}
use hydra_os.Mouse.{MouseDriver}
use hydra_os.Shell.Editor.Tests.{shell0, shell0-Holds}
use hydra_os.Shell.Editor.Session.{Follows, respond_all}
use hydra_os.Kernel.{SharedHeap, World, run}
use hydra_os.Kernel.Boot.{keyboard, PowerOn}
use hydra_os.Kernel.Typing.{typed, key_interrupt, run-Follows}

-- No system call allocates.
abbrev no_heap : SharedHeap ram
no_heap = record { heap = λ w. none; set_heap = λ w h. w }

abbrev no_strings : ℕ → List ℕ
no_strings address = []

abbrev frame : CpuState
frame = record {
  eax = 3;
  ebx = 7;
  ecx = 0;
  edx = 0;
  esi = 0;
  edi = 0;
  ebp = 0;
  error = 0;
  eip = 0;
  cs = 16;
  eflags = 0x202;
  esp = 0;
  ss = 0;
}

abbrev mouse_memory : MouseDriver
mouse_memory = record { has_handler = false; buffer = 0 ∷ 0 ∷ 0 ∷ []; offset = 2; buttons = 5 }

abbrev power : PowerOn ram no_heap no_strings chip 2
power = record {
  video_memory = λ q. q;
  heap = λ p. chunk 0 0 false 0;
  disk = λ heap. fs0.world;
  inodes = fs0.inodes;
  superblock = fs0.superblock;
  frequency = 0;
  mouse = mouse_memory;
  pointer = record { x = 200; y = 99 };
  drivers = λ i. keyboard;
  table = λ n. record {
    handler_address_low_bits = 0;
    gdt_code_segment_selector = 0;
    reserved = 0;
    access = 0;
    handler_address_high_bits = 0;
  };
  stubs = record { ignore = 0; exception = λ n. 0x1000 + n; request = λ n. 0x2000 + n };
  task1 = 0x5000;
  task2 = 0x7000;
  frame = frame;
  controller_state = chip0;
}

-- "ls", a key that goes up, and Enter.
abbrev scan_codes : List ℕ
scan_codes = 0x26 ∷ 0xA6 ∷ 0x1F ∷ 0x1C ∷ []

abbrev running : World ram no_heap no_strings
running = record {
  shell = shell0;
  mouse = mouse_memory;
  pointer = record { x = 40; y = 12 };
  console_x = 0;
  console_y = 0;
  status = 0;
  key_byte = 0;
  frame = frame;
}

run-Follows_example :
    (w : World ram no_heap no_strings) × (run ram no_heap no_strings
        (some running)
        (map (key_interrupt ram no_heap no_strings frame) scan_codes)
      ≡ some w)
    × Follows ram shell0 w.shell
        (respond_all ram shell0.timer shell0.file_system [] (typed scan_codes))
run-Follows_example = run-Follows ram no_heap no_strings frame scan_codes [] running shell0-Holds
