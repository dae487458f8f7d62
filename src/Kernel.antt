-- ===== src/Kernel.antt =====
-- kernel.cpp: the parts that kernelMain has built, and the interrupts that reach them.
pub mod Boot
pub mod Safety
pub mod Running
pub mod Typing
mod Tests
use hydra_os.Common.{
  ℕ, ◌+◌, Bool, true, false, Option, none, some, List, [], ◌∷◌, String, codes, u8, if◌then◌else◌,
}
use hydra_os.Memory.Globals.{Active}
use hydra_os.Multitasking.{CpuState}
use hydra_os.TextMode.{Screen}
use hydra_os.Console.{Console, printf, printf_hex}
use hydra_os.Timer.{tick}
use hydra_os.Filesystem.Machine.{Machine}
use hydra_os.Interrupts.{Handler, InterruptManager, Outcome, register, do_handle_interrupt}
use hydra_os.Syscalls.{Kernel, screen_of}
use hydra_os.Syscalls
use hydra_os.Keyboard
use hydra_os.Mouse.{MouseDriver, Event, activate, move, down, up}
use hydra_os.Mouse
use hydra_os.Pointer.{MouseToConsole, on_activate, on_mouse_move}
use hydra_os.Shell.Editor.{Shell, handle_key_press}

-- The world of the file system holds the heap that the system calls use.
pub record SharedHeap (m : Machine) : Type 0 where
  pub heap : m.World → Active
  pub set_heap : m.World → Active → m.World

module _ (m : Machine) (shared : SharedHeap m) (strings : ℕ → List ℕ) where
  -- The shell has the screen, the timer and the file system; `console_x` and `console_y` are the
  -- static variables of `printf`. `status` and `key_byte` are what the ports 0x64 and 0x60 answer,
  -- and `frame` is what stands at the stack pointer of an interrupt.
  pub record World : Type 0 where
    pub shell : Shell m
    pub mouse : MouseDriver
    pub pointer : MouseToConsole
    pub console_x : ℕ
    pub console_y : ℕ
    pub status : ℕ
    pub key_byte : ℕ
    pub frame : CpuState

  pub with_screen : World → Screen → World
  with_screen w s = record w { shell = record w.shell { vga = s } }

  pub with_video : World → (ℕ → ℕ) → World
  unfolding with_screen
  with_video w v = with_screen w (record w.shell.vga { video_memory = v })

  -- `ProgrammableIntervalTimer::HandleInterrupt`.
  pub on_timer : World → World
  on_timer w = record w { shell = record w.shell { timer = tick w.shell.timer } }

  -- `ShellKeyboardEventHandler::OnKeyDown`; the shell is there before the first interrupt.
  pub on_key_down : World → ℕ → World
  on_key_down w c = record w { shell = handle_key_press m w.shell c }

  pub on_key : World → Option ℕ → World
  unfolding on_key_down
  on_key w none = w
  on_key w (some c) = on_key_down w c

  pub on_keyboard : World → World
  unfolding on_key
  on_keyboard w = on_key w (Keyboard.handle_interrupt true w.key_byte)

  -- `MouseToConsole` hears two of the calls.
  pub hear : World → Event → World
  unfolding with_video
  hear w activate =
      let (c, v) = on_activate w.shell.vga.video_memory in with_video (record w { pointer = c }) v
  hear w (move dx dy) =
      let (c, v) = on_mouse_move w.pointer w.shell.vga.video_memory dx dy in
      with_video (record w { pointer = c }) v
  hear w (down button) = w
  hear w (up button) = w

  pub hear_all : World → List Event → World
  unfolding hear
  hear_all w [] = w
  hear_all w (e ∷ es) = hear_all (hear w e) es

  pub on_mouse : World → World
  unfolding hear_all
  on_mouse w =
      let (d, events) = Mouse.handle_interrupt w.mouse w.status w.key_byte in
      hear_all (record w { mouse = d }) events

  -- What the handler of the system calls reaches.
  pub reached : World → Kernel
  reached w = record { vga = some w.shell.vga; heap = shared.heap w.shell.file_system.world }

  pub after_call : World → CpuState × Kernel → World
  unfolding with_screen screen_of
  after_call w (cpu, k) =
      let w' : World = with_screen (record w { frame = cpu }) (screen_of k.vga w.shell.vga) in
      let fs = w'.shell.file_system in
      record w' {
        shell = record w'.shell {
          file_system = record fs { world = shared.set_heap fs.world k.heap };
        };
      }

  -- A system call that does not return is `none`.
  pub returned : World → Option (CpuState × Kernel) → Option World
  unfolding after_call
  returned w none = none
  returned w (some r) = some (after_call w r)

  pub on_syscall : World → Option World
  unfolding returned reached
  on_syscall w = returned w (Syscalls.handle_interrupt strings w.frame (reached w))

  -- The handler objects; the kernel that does not go on is `none`.
  pub handler : (World → Option World) → Handler (Option World)
  handler f none esp = (esp, none)
  handler f (some w) esp = (esp, f w)

  abbrev pub offset : ℕ
  offset = 0x20

  -- The manager with the handlers in the order of their constructors.
  pub interrupts : InterruptManager (Option World)
  unfolding handler
  interrupts =
      let W = Option World in
      let built : InterruptManager W = record {
        hardware_interrupt_offset = offset;
        handlers = λ n. none;
      } in
      let timed = register W built (u8 (offset + 0x00)) (handler (λ w. some (on_timer w))) in
      let called = register W timed 0x80 (handler on_syscall) in
      let keyed = register W called (u8 (offset + 0x01)) (handler (λ w. some (on_keyboard w))) in
      register W keyed (u8 (offset + 0x0C)) (handler (λ w. some (on_mouse w)))

  -- `printf("UNHANDLED INTERRUPT 0x"); printfHex(interrupt);`.
  pub report : ℕ → World → World
  unfolding with_video
  report interrupt w =
      let k : Console = record {
        video_memory = w.shell.vga.video_memory;
        x = w.console_x;
        y = w.console_y;
      } in
      let k' = printf_hex (printf k (codes "UNHANDLED INTERRUPT 0x")) interrupt in
      with_video (record w { console_x = k'.x; console_y = k'.y }) k'.video_memory

  pub reported_to : Bool → ℕ → Option World → Option World
  unfolding report
  reported_to b interrupt none = none
  reported_to b interrupt (some w) = some (if b then report interrupt w else w)

  -- An interrupt, with what the ports and the stack hold when it comes.
  pub record Interrupt : Type 0 where
    pub number : ℕ
    pub esp : ℕ
    pub status : ℕ
    pub key_byte : ℕ
    pub frame : CpuState

  pub arrives : Interrupt → World → World
  arrives i w = record w { status = i.status; key_byte = i.key_byte; frame = i.frame }

  pub handle : Option World → Interrupt → Option World
  unfolding interrupts reported_to arrives
  handle none i = none
  handle (some w) i =
      let r =
        do_handle_interrupt (Option World) interrupts i.number i.esp (some (arrives i w)) [] in
      reported_to r.reported i.number r.world

  pub run : Option World → List Interrupt → Option World
  unfolding handle
  run w [] = w
  run w (i ∷ is) = run (handle w i) is
