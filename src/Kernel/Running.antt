-- ===== src/Kernel/Running.antt =====
-- Every interrupt but a system call for memory keeps the screen in bounds, and so does any run.
use hydra_os.Common.{
  ℕ, ◌≡◌, ◌⊎◌, inl, inr, ◌∙◌, refl, sym, subst, Bool, true, false, Option, none, some, List, [],
  ◌∷◌,
}
use hydra_os.Multitasking.{CpuState}
use hydra_os.Filesystem.Machine.{Machine}
use hydra_os.Syscalls.{Kernel}
use hydra_os.Syscalls.Showing.{IsMemoryCall, ShowsSafe, handle_interrupt-ShowsSafe}
use hydra_os.Interrupts.Keeping.{Keeps, register-Keeps, do_handle_interrupt-keeps}
use hydra_os.Kernel.{
  SharedHeap, World, with_screen, on_timer, on_keyboard, on_mouse, reached, after_call, returned,
  on_syscall, handler, interrupts, reported_to, Interrupt, arrives, handle, run,
}
use hydra_os.Kernel.Safety.{
  IsFine, on_timer-IsFine, on_keyboard-IsFine, on_mouse-IsFine, report-IsFine,
}

module _ (m : Machine) (shared : SharedHeap m) (strings : ℕ → List ℕ) where
  abbrev W : Type 0
  W = World m shared strings

  -- The interrupt is a system call for memory.
  unfoldable pub ReachesHeap : Interrupt m shared strings → Type 0
  ReachesHeap i = (i.number ≡ 0x80) × IsMemoryCall i.frame

  -- One of the interrupts is.
  unfoldable pub IsCalled : List (Interrupt m shared strings) → Type 0
  IsCalled [] = ⊥
  IsCalled (i ∷ is) = ReachesHeap i ⊎ IsCalled is

  -- `Called` is that there was one.
  module _ (v : ℕ → ℕ) (Called : Type 0) where
    -- The kernel goes on and is fine, or there was one.
    unfoldable pub GoesFine : Option W → Type 0
    GoesFine none = Called
    GoesFine (some w) = Called ⊎ IsFine m shared strings v w

    called-GoesFine : Called → (o : Option W) → GoesFine o
    unfolding GoesFine
    called-GoesFine c none = c
    called-GoesFine c (some w) = inl c

    returned-GoesFine :
        (w : W) (o : Option (CpuState × Kernel))
        → IsFine m shared strings v w
        → ShowsSafe Called w.shell.vga o
        → GoesFine (returned m shared strings w o)
    unfolding returned after_call with_screen ShowsSafe GoesFine
    returned-GoesFine w none f called = called
    returned-GoesFine w (some (cpu, k)) f (inl called) = inl called
    returned-GoesFine w (some (cpu, k)) f (inr safe) = inr record {
      cursor = safe.on_screen;
      pointer = f.pointer;
      console_column = f.console_column;
      console_row = f.console_row;
      cells = λ q le. safe.cells q le ∙ f.cells q le;
    }

    on_syscall-GoesFine :
        (w : W)
        → (IsMemoryCall w.frame → Called)
        → IsFine m shared strings v w
        → GoesFine (on_syscall m shared strings w)
    unfolding on_syscall reached
    on_syscall-GoesFine w called f = returned-GoesFine w _ f (
        handle_interrupt-ShowsSafe Called w.shell.vga f.cursor strings w.frame
          (shared.heap w.shell.file_system.world) called)

    -- A handler on the world `w`.
    handler-fine :
        (f : W → Option W) (w : W)
        → GoesFine (f w)
        → (o : Option W) (esp : ℕ) → o ≡ some w
        → GoesFine (handler m shared strings f o esp).1
    unfolding handler
    handler-fine f w g o esp e =
        subst (λ o'. GoesFine (handler m shared strings f o' esp).1) (sym e) g

    interrupts-Keeps :
        (n : ℕ) (w : W)
        → IsFine m shared strings v w
        → (n ≡ 0x80 → IsMemoryCall w.frame → Called)
        → Keeps (Option W) (λ o. o ≡ some w) GoesFine ((interrupts m shared strings).handlers n)
    unfolding interrupts GoesFine Keeps
    interrupts-Keeps n w f called =
        register-Keeps _ _ GoesFine _ _ _ n
          (register-Keeps _ _ GoesFine _ _ _ n
            (register-Keeps _ _ GoesFine _ _ _ n
              (register-Keeps _ _ GoesFine _ _ _ n tt (λ e.
                handler-fine (λ w'. some (on_timer m shared strings w')) w
                  (inr (on_timer-IsFine m shared strings v w f))))
              (λ e.
                handler-fine (on_syscall m shared strings) w (on_syscall-GoesFine w (called e) f)))
            (λ e.
              handler-fine (λ w'. some (on_keyboard m shared strings w')) w
                (inr (on_keyboard-IsFine m shared strings v w f))))
          (λ e.
            handler-fine (λ w'. some (on_mouse m shared strings w')) w
              (inr (on_mouse-IsFine m shared strings v w f)))

    reported_to-GoesFine :
        (b : Bool) (n : ℕ) (w : Option W)
        → GoesFine w
        → GoesFine (reported_to m shared strings b n w)
    unfolding reported_to GoesFine
    reported_to-GoesFine b n none g = g
    reported_to-GoesFine b n (some w) (inl c) = inl c
    reported_to-GoesFine true n (some w) (inr f) = inr (report-IsFine m shared strings v n w f)
    reported_to-GoesFine false n (some w) (inr f) = inr f

    arrives-IsFine :
        (i : Interrupt m shared strings) (w : W)
        → IsFine m shared strings v w
        → IsFine m shared strings v (arrives m shared strings i w)
    unfolding arrives
    arrives-IsFine i w f = record {
      cursor = f.cursor;
      pointer = f.pointer;
      console_column = f.console_column;
      console_row = f.console_row;
      cells = f.cells;
    }

    handle-GoesFine :
        (i : Interrupt m shared strings) (w : Option W)
        → (ReachesHeap i → Called)
        → GoesFine w
        → GoesFine (handle m shared strings w i)
    unfolding handle GoesFine
    handle-GoesFine i none called g = g
    handle-GoesFine i (some w) called (inl c) = called-GoesFine c _
    handle-GoesFine i (some w) called (inr f) = reported_to-GoesFine _ i.number _ (
        do_handle_interrupt-keeps (Option W) (λ o. o ≡ some (arrives m shared strings i w)) GoesFine
          (interrupts m shared strings) i.number i.esp (some (arrives m shared strings i w)) []
          (λ e. inr fine)
          (interrupts-Keeps i.number (arrives m shared strings i w) fine
            (λ e memory. called (unfold ReachesHeap in (e, unfold arrives in memory))))
          refl)
      where
        fine : IsFine m shared strings v (arrives m shared strings i w)
        fine = arrives-IsFine i w f

    pub run-GoesFine :
        (is : List (Interrupt m shared strings)) (w : Option W)
        → (IsCalled is → Called)
        → GoesFine w
        → GoesFine (run m shared strings w is)
    unfolding run IsCalled
    run-GoesFine [] w called g = g
    run-GoesFine (i ∷ is) w called g =
        run-GoesFine is (handle m shared strings w i) (λ c. called (inr c))
          (handle-GoesFine i w (λ e. called (inl e)) g)
