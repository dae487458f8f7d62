-- ===== src/Syscalls/Showing.antt =====
-- What a system call leaves of the screen, whatever the heap is.
use hydra_os.Common.{
  ℕ, ◌≡◌, ◌⊎◌, inl, inr, refl, arith, Bool, true, false, Option, none, some, List, ◌==◌,
  if◌then◌else◌,
}
use hydra_os.Memory.Globals.{Active}
use hydra_os.Multitasking.{CpuState}
use hydra_os.TextMode.{Screen}
use hydra_os.TextMode.Cursor.{OnScreen, Safe}
use hydra_os.TextMode.Drawing.{same_Safe}
use hydra_os.Syscalls.{Kernel, screen_of, print_to, answer, dispatch, handle_interrupt}
use hydra_os.Syscalls.Laws.{print_call-Safe}

-- A call of malloc or free, which reaches the heap.
unfoldable pub IsMemoryCall : CpuState → Type 0
IsMemoryCall cpu = (cpu.eax ≡ 6) ⊎ (cpu.eax ≡ 7)

-- `Reaches` is that the call is one of these.
module _ (Reaches : Type 0) where
  -- If the call is not for the heap, it returns, and the screen that was `s` is in bounds.
  unfoldable pub ShowsSafe : Screen → Option (CpuState × Kernel) → Type 0
  unfolding screen_of
  ShowsSafe s none = Reaches
  ShowsSafe s (some (cpu, k)) = Reaches ⊎ Safe s (screen_of k.vga s)

  reaches-ShowsSafe : Reaches → (s : Screen) (o : Option (CpuState × Kernel)) → ShowsSafe s o
  unfolding ShowsSafe
  reaches-ShowsSafe r s none = r
  reaches-ShowsSafe r s (some (cpu, k)) = inl r

  module _ (s : Screen) (on : OnScreen s) where
    abbrev at : Active → Kernel
    at heap = record { vga = some s; heap = heap }

    answer-ShowsSafe :
        (cpu : CpuState) (heap : Active) (v : ℕ) → ShowsSafe s (answer cpu (at heap) v)
    unfolding ShowsSafe answer screen_of
    answer-ShowsSafe cpu heap v = inr (same_Safe s on)

    print-ShowsSafe :
        (strings : ℕ → List ℕ) (cpu : CpuState) (heap : Active)
        → ShowsSafe s (answer cpu (record (at heap) { vga = print_to strings (some s) cpu.ebx }) 0)
    unfolding ShowsSafe answer print_to screen_of
    print-ShowsSafe strings cpu heap = inr (print_call-Safe strings s cpu.ebx on)

    either :
        (b : Bool) (x y : Option (CpuState × Kernel))
        → ShowsSafe s x
        → ShowsSafe s y
        → ShowsSafe s (if b then x else y)
    either true x y p q = p
    either false x y p q = q

    heap_call :
        (b : Bool) (x y : Option (CpuState × Kernel))
        → (b ≡ true → Reaches)
        → ShowsSafe s y
        → ShowsSafe s (if b then x else y)
    heap_call true x y r q = reaches-ShowsSafe (r refl) s x
    heap_call false x y r q = q

    pub handle_interrupt-ShowsSafe :
        (strings : ℕ → List ℕ) (cpu : CpuState) (heap : Active)
        → (IsMemoryCall cpu → Reaches)
        → ShowsSafe s (handle_interrupt strings cpu (at heap))
    unfolding handle_interrupt dispatch IsMemoryCall
    handle_interrupt-ShowsSafe strings cpu heap reaches =
        either (cpu.eax == 1) _ _ (print-ShowsSafe strings cpu heap) (
          either (cpu.eax == 2) _ _ (answer-ShowsSafe cpu heap 0) (
            either (cpu.eax == 3) _ _ (answer-ShowsSafe cpu heap cpu.ebx) (
              either (cpu.eax == 4) _ _ (answer-ShowsSafe cpu heap 0) (
                either (cpu.eax == 5) _ _ (answer-ShowsSafe cpu heap 0) (
                  heap_call (cpu.eax == 6) _ _ (λ e. reaches (inl (ground (arith, e))))
                    (heap_call (cpu.eax == 7) _ _ (λ e. reaches (inr (ground (arith, e))))
                      (answer-ShowsSafe cpu heap 0xFFFFFFFF)))))))
