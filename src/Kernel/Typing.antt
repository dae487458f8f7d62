-- ===== src/Kernel/Typing.antt =====
-- Keys that are pressed reach the shell through interrupt 0x21.
use hydra_os.Common.{
  ℕ, ◌≡◌, ◌∙◌, refl, sym, ap, subst, true, false, Option, none, some, List, [], ◌∷◌, map, arith,
}
use hydra_os.Multitasking.{CpuState}
use hydra_os.Filesystem.Machine.{Machine}
use hydra_os.Interrupts.{Outcome, register, do_handle_interrupt}
use hydra_os.Interrupts.Dispatch.{do_handle_interrupt-register, commands}
use hydra_os.Keyboard
use hydra_os.Shell.Editor.{Shell, press}
use hydra_os.Shell.Editor.Keys.{Holds}
use hydra_os.Shell.Editor.Session.{Follows, respond_all, press_refines}
use hydra_os.Kernel.{
  SharedHeap, World, on_keyboard, on_key, on_key_down, on_mouse, handler, interrupts, reported_to,
  Interrupt, arrives, handle, run,
}

-- The characters of the bytes that the keyboard sends.
unfoldable pub typed : List ℕ → List ℕ
typed [] = []
typed (b ∷ bs) = elim (Keyboard.handle_interrupt true b) [ none ↦ typed bs | some c ↦ c ∷ typed bs ]

module _ (m : Machine) (shared : SharedHeap m) (strings : ℕ → List ℕ) where
  abbrev W : Type 0
  W = World m shared strings

  -- The interrupt of a byte; the registers are any, and no handler looks at the stack pointer.
  pub key_interrupt : CpuState → ℕ → Interrupt m shared strings
  key_interrupt frame b = record { number = 0x21; esp = 0; status = 1; key_byte = b; frame = frame }

  -- The handler of the keyboard is not the last one that was registered.
  interrupts-key :
      (x : Option W)
      → do_handle_interrupt (Option W) (interrupts m shared strings) 0x21 0 x [] ≡ record {
        esp = (handler m shared strings (λ w. some (on_keyboard m shared strings w)) x 0).0;
        world = (handler m shared strings (λ w. some (on_keyboard m shared strings w)) x 0).1;
        reported = false;
        ports = commands 0x20 0x21 [];
      }
  unfolding interrupts register
  interrupts-key x =
      (do_handle_interrupt-register (Option W) _ 0x2C
          (handler m shared strings (λ w. some (on_mouse m shared strings w))) 0x21 0 x []).1
        (λ e. absurd (omega arith))
      ∙ (do_handle_interrupt-register (Option W) _ 0x21
          (handler m shared strings (λ w. some (on_keyboard m shared strings w))) 0x21 0 x []).0

  handle-key :
      (frame : CpuState) (b : ℕ) (w : W)
      → handle m shared strings (some w) (key_interrupt frame b)
        ≡ some (on_keyboard m shared strings (arrives m shared strings (key_interrupt frame b) w))
  unfolding handle key_interrupt reported_to handler
  handle-key frame b w =
      ap (λ (r : Outcome (Option W)). reported_to m shared strings r.reported 0x21 r.world)
        (interrupts-key (some (arrives m shared strings (key_interrupt frame b) w)))

  -- The shell that a kernel has, if it goes on.
  pub record Runs (o : Option W) (h : Shell m) : Type 0 where
    pub world : W
    pub goes_on : o ≡ some world
    pub shell : world.shell ≡ h

  on_keyboard-press :
      (w : W) (b : ℕ) (bs : List ℕ)
      → w.key_byte ≡ b
      → press m (on_keyboard m shared strings w).shell (typed bs) ≡ press m w.shell (typed (b ∷ bs))
  unfolding on_keyboard typed on_key on_key_down press
  on_keyboard-press w b bs e =
      ap
        (λ k.
          press m (on_key m shared strings w (Keyboard.handle_interrupt true k)).shell (typed bs))
        e
      ∙ by_cases (Keyboard.handle_interrupt true b)
    where
      by_cases :
          (o : Option ℕ)
          → press m (on_key m shared strings w o).shell (typed bs)
            ≡ press m w.shell (elim o [ none ↦ typed bs | some c ↦ c ∷ typed bs ])
      by_cases none = refl
      by_cases (some c) = refl

  run-keys :
      (frame : CpuState) (bs : List ℕ) (w : W)
      → Runs
          (run m shared strings (some w) (map (key_interrupt frame) bs))
          (press m w.shell (typed bs))
  unfolding run press typed
  run-keys frame [] w = record { world = w; goes_on = refl; shell = refl }
  run-keys frame (b ∷ bs) w =
      let next = arrives m shared strings (key_interrupt frame b) w in
      let rest = run-keys frame bs (on_keyboard m shared strings next) in
      record {
        world = rest.world;
        goes_on =
            ap (λ o. run m shared strings o (map (key_interrupt frame) bs)) (handle-key frame b w)
            ∙ rest.goes_on;
        shell =
            rest.shell
            ∙ on_keyboard-press next b bs (unfold arrives key_interrupt in refl)
            ∙ ap (λ h. press m h (typed (b ∷ bs))) (unfold arrives in refl);
      }

  -- When bytes of the keyboard come by interrupts to a kernel whose shell holds a line, the
  -- kernel goes on, and its shell then holds the line, shows the output and has the file system
  -- that the line editor and the commands it runs give for the characters of the keys that go
  -- down.
  pub run-Follows :
      (frame : CpuState) (bs line : List ℕ) (w : W)
      → Holds m w.shell line
      → (w' : W) × (run m shared strings (some w) (map (key_interrupt frame) bs) ≡ some w')
        × Follows m w.shell w'.shell
            (respond_all m w.shell.timer w.shell.file_system line (typed bs))
  run-Follows frame bs line w h =
      let r = run-keys frame bs w in
      (
        r.world,
        r.goes_on,
        subst
            (λ s.
              Follows m w.shell s (respond_all m w.shell.timer w.shell.file_system line (typed bs)))
            (sym r.shell) (press_refines m (typed bs) w.shell line h),
      )
