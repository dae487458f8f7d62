-- ===== src/Kernel/Boot.antt =====
-- kernel.cpp: kernelMain, which builds the parts in their order and tells the screen of each. The
-- drivers' Activate talks to the PS/2 controller on its ports; the result is `none` if a wait for
-- the controller does not end.
pub mod Startup
use hydra_os.Common.{
  ℕ, ◌+◌, ◌*◌, Bool, true, false, Option, none, some, List, [], ◌∷◌, ◌++◌, String,
}
use hydra_os.Memory.{Heap}
use hydra_os.Memory.Globals.{Active, construct}
use hydra_os.Gdt.{GlobalDescriptorTable, global_descriptor_table, code_segment_selector_offset}
use hydra_os.TextMode.{Screen, clear}
use hydra_os.TextMode
use hydra_os.Timer
use hydra_os.Filesystem.Layout.{Inode, Superblock}
use hydra_os.Filesystem.Machine.{Machine}
use hydra_os.Filesystem.Store
use hydra_os.Shell.Output.{Output, color, text, show}
use hydra_os.Shell.Colors.{light_green, light_cyan, light_brown, white}
use hydra_os.Shell.Editor.{Shell, greet}
use hydra_os.Shell.Editor
use hydra_os.Multitasking.{CpuState, TaskManager, add_task}
use hydra_os.Multitasking
use hydra_os.Interrupts.{Table, Stubs, fill_table, remap}
use hydra_os.Interrupts
use hydra_os.Drivers.{DriverManager, add_drivers, activate_all}
use hydra_os.Drivers
use hydra_os.Mouse.{MouseDriver, activated}
use hydra_os.Pointer.{MouseToConsole}
use hydra_os.Ports.{Ports}
use hydra_os.Controller.{activate_keyboard, activate_mouse}
use hydra_os.Kernel.{SharedHeap, World, hear_all}

-- A line that reports a part: its mark, and its name.
pub done : String → String → List Output
done mark name = color light_green ∷ text mark ∷ color white ∷ text name ∷ []

pub banner : List Output
banner =
    color light_cyan
    ∷ text "=====================================\n"
    ∷ color light_green
    ∷ text "    HydraOS v0.1 - System Boot\n"
    ∷ color light_cyan
    ∷ text "=====================================\n\n"
    ∷ color white
    ∷ text "Initializing system components...\n\n"
    ∷ []

-- What is printed before the drivers are activated.
pub building : List Output
unfolding done banner
building =
    banner
    ++ (done "[OK] " "Global Descriptor Table (GDT)\n"
        ++ (done "[OK] " "Memory Manager (Heap: "
            ++ (text "10 MB)\n"
                ∷ (done "[OK] " "Interrupt Manager\n"
                    ++ (done "[OK] " "Programmable Interval Timer (100 Hz)\n"
                        ++ (done "[OK] " "ATA/IDE Driver (Primary Master)\n"
                            ++ (done "[OK] " "File System\n"
                                ++ (done "[OK] " "Shell\n"
                                    ++ (done "[OK] " "Task Manager (2 tasks)\n"
                                        ++ (done "[OK] " "System Call Handler (int 0x80)\n"
                                            ++ (color light_brown
                                                ∷ text "\nInitializing Hardware Drivers:\n"
                                                ∷ (done "  [OK] " "Keyboard Driver\n"
                                                    ++ (done "  [OK] " "Mouse Driver\n"
                                                        ++ (color light_brown
                                                            ∷ text "\nActivating all drivers...\n"
                                                            ∷ []))))))))))))))

-- What is printed after that.
pub finishing : List Output
unfolding done
finishing =
    done "[OK] " "All drivers activated\n"
    ++ (color light_brown
        ∷ text "\nEnabling interrupts...\n"
        ∷ (done "[OK] " "Interrupts enabled\n\n"
            ++ (color light_cyan
                ∷ text "=====================================\n"
                ∷ color light_green
                ∷ text "     System Boot Complete!\n"
                ∷ color light_cyan
                ∷ text "=====================================\n"
                ∷ [])))

-- The two drivers that are added.
pub data Driver : Type 0 where
  keyboard : Driver
  mouse : Driver

-- `callConstructors`, on the list between `start_ctors` and `end_ctors`, which the linker makes.
pub call_constructors : {S : Type 0} → List (S → S) → S → S
call_constructors [] s = s
call_constructors (i ∷ rest) s = call_constructors rest (i s)

-- `heapSize`, and the address of the heap.
abbrev pub heap_size : ℕ
heap_size = 1024 * 1024 * 10

-- Each wait for the controller has `fuel` rounds.
module _ (m : Machine) (shared : SharedHeap m) (strings : ℕ → List ℕ) (controller : Ports)
    (fuel : ℕ) where
  -- The kernel and the controller, unless a wait has not ended.
  abbrev pub Activation : Type 0
  Activation = Option (World m shared strings × controller.State)

  -- What the memory holds before kernelMain, where the linker put the stubs and the tasks are, and
  -- the file system's world on a heap.
  pub record PowerOn : Type 0 where
    pub video_memory : ℕ → ℕ
    pub heap : Heap
    pub disk : Active → m.World
    pub inodes : List Inode
    pub superblock : Superblock
    pub frequency : ℕ
    pub mouse : MouseDriver
    pub pointer : MouseToConsole
    pub drivers : ℕ → Driver
    pub table : Table
    pub stubs : Stubs
    pub task1 : ℕ
    pub task2 : ℕ
    pub frame : CpuState
    pub controller_state : controller.State

  -- The parts that are not reached by an interrupt, and those that are.
  pub record System : Type 0 where
    pub gdt : GlobalDescriptorTable
    pub interrupt_table : Table
    pub controllers : List (ℕ × ℕ)
    pub active : Option ℕ × Bool
    pub task_manager : TaskManager
    pub world : Activation

  -- The fields of the mouse driver, and the call of its handler.
  pub start_mouse : World m shared strings → World m shared strings
  start_mouse w =
      let (d, events) = activated w.mouse in
      hear_all m shared strings (record w { mouse = d }) events

  -- The kernel beside what a dialogue with the controller leaves.
  pub beside : World m shared strings → Option controller.State → Activation
  beside w none = none
  beside w (some s) = some (w, s)

  -- `Activate` of a driver.
  pub activate_driver : Driver → Activation → Activation
  unfolding start_mouse beside
  activate_driver d none = none
  activate_driver keyboard (some (w, s)) = beside w (activate_keyboard controller fuel s)
  activate_driver mouse (some (w, s)) = beside (start_mouse w) (activate_mouse controller fuel s)

  pub tell : World m shared strings → List Output → World m shared strings
  tell w os = record w { shell = record w.shell { vga = show w.shell.vga os } }

  -- The parts when the drivers are to be activated; the shell and the file system do nothing yet.
  pub built : PowerOn → World m shared strings
  unfolding building
  built p =
      let vga = clear (TextMode.init p.video_memory []) in
      let heap = construct p.heap heap_size heap_size in
      let files = Store.init m p.inodes p.superblock (p.disk heap) in
      let shell = Editor.init m vga (Timer.init p.frequency []) files in
      record {
        shell = record shell { vga = show vga building };
        mouse = record p.mouse { has_handler = true };
        pointer = p.pointer;
        console_x = 0;
        console_y = 0;
        status = 0;
        key_byte = 0;
        frame = p.frame;
      }

  -- What follows `ActivateAll`, up to `Start`.
  pub finish : Activation → Activation
  unfolding tell finishing
  finish none = none
  finish (some (w, s)) =
      let ready = tell w finishing in some (record ready { shell = greet m ready.shell }, s)

  -- From `ActivateAll` on.
  pub started : Option (DriverManager Driver) → Activation → Activation
  unfolding finish activate_driver
  started none a = none
  started (some manager) a = finish (activate_all activate_driver manager a)

  -- `this` is the address of the interrupt manager.
  pub kernel_main : ℕ → PowerOn → System
  unfolding started built
  kernel_main this p =
      let with_first = (add_task Multitasking.init p.task1).1 in
      record {
        gdt = global_descriptor_table;
        interrupt_table = fill_table p.stubs 0x20 code_segment_selector_offset p.table;
        controllers = remap 0x20 [];
        active = Interrupts.activate this (none, false);
        task_manager = (add_task with_first p.task2).1;
        world =
            started (add_drivers (some (Drivers.init p.drivers)) (keyboard ∷ mouse ∷ []))
              (some (built p, p.controller_state));
      }
