-- ===== src/Kernel/Boot/Startup.antt =====
-- kernelMain builds a kernel that keeps the screen in bounds whatever interrupts come.
use hydra_os.Common.{ℕ, ◌≡◌, Option, some, List, []}
use hydra_os.TextMode.{Screen}
use hydra_os.TextMode
use hydra_os.Filesystem.Machine.{Machine}
use hydra_os.Ports.{Ports}
use hydra_os.Controller.Protocol.{View, IsController}
use hydra_os.Controller.Activation.{with_keyboard, with_mouse}
use hydra_os.Kernel.{SharedHeap, World, Interrupt, run}
use hydra_os.Shell.Editor.Keys.{Holds}
use hydra_os.Timer
use hydra_os.Filesystem.Store
use hydra_os.Kernel.Safety.{IsFine}
use hydra_os.Kernel.Running.{GoesFine, IsCalled}
use hydra_os.Kernel.Boot.{PowerOn}

module _ (m : Machine) (shared : SharedHeap m) (strings : ℕ → List ℕ) (controller : Ports)
    (fuel : ℕ) where
  open controller use {State}

  abbrev W : Type 0
  W = World m shared strings

  module _ (view : State → View) (c : IsController controller view)
      (p : PowerOn m shared strings controller fuel) where
    abbrev Fine : W → Type 0
    Fine = IsFine m shared strings p.video_memory

    abbrev HasEmptyLine : W → Type 0
    HasEmptyLine w = Holds m w.shell []

    -- What kernelMain leaves, and what any interrupts then leave.
    pub record Boots (result : Option (W × State)) : Type 0 where
      pub world : W
      pub state : State
      pub runs : result ≡ some (world, state)
      pub byte :
          (view state).command_byte
          ≡ with_mouse (with_keyboard (view p.controller_state).command_byte)
      pub starts : IsFine m shared strings p.video_memory world
      pub line : Holds m world.shell []
      pub goes_on :
          (is : List (Interrupt m shared strings))
          → GoesFine m shared strings p.video_memory
              (IsCalled m shared strings is)
              (run m shared strings (some world) is)
