-- ===== src/Syscalls/Wrappers.antt =====
-- syscalls.cpp, the functions `syscall_*` that a program calls: each puts the call's number and
-- argument into EAX and EBX and executes `int 0x80`, which the stub of interruptstubs.s takes to
-- the handler. The outer option is the allocator's search that ran out of fuel; the inner one is
-- `none` when the stub faults, so that the instruction does not return.
use hydra_os.Common.{ℕ, ◌≡◌, ◌≤◌, ◌⊎◌, inl, inr, ap, Option, none, some, List, arith}
use hydra_os.Multitasking.{CpuState}
use hydra_os.Interrupts.Stub.{
  Registers, pushed, as_cpu_state, from_cpu_state, takes_selector, popped,
}
use hydra_os.Syscalls.{Kernel, handle_interrupt, dispatch, answer}

module _ (strings : ℕ → List ℕ) (stack : List ℕ) where
  -- The registers of the program after the instruction, with the handler's result.
  pub after : Registers → Option (CpuState × Kernel) → Option (Option Registers × Kernel)
  after r none = none
  after r (some (cpu, k)) = some (popped r.esp (from_cpu_state cpu (pushed r stack)), k)

  -- `int $0x80`.
  pub int80 : Registers → Kernel → Option (Option Registers × Kernel)
  unfolding after
  int80 r k = after r (handle_interrupt strings (as_cpu_state (pushed r stack)) k)

  -- The result in EAX, as the wrappers read it.
  pub result : Option (Option Registers × Kernel) → Option (Option ℕ × Kernel)
  result none = none
  result (some (none, k)) = some (none, k)
  result (some (some r, k)) = some (some r.eax, k)

  pub syscall_printf : Registers → Kernel → ℕ → Option (Option Registers × Kernel)
  unfolding int80
  syscall_printf r k str = int80 (record r { eax = 1; ebx = str }) k

  pub syscall_getchar : Registers → Kernel → Option (Option ℕ × Kernel)
  unfolding int80 result
  syscall_getchar r k = result (int80 (record r { eax = 2 }) k)

  pub syscall_exit : Registers → Kernel → ℕ → Option (Option Registers × Kernel)
  unfolding int80
  syscall_exit r k code = int80 (record r { eax = 3; ebx = code }) k

  pub syscall_sleep : Registers → Kernel → ℕ → Option (Option Registers × Kernel)
  unfolding int80
  syscall_sleep r k ms = int80 (record r { eax = 4; ebx = ms }) k

  pub syscall_get_uptime : Registers → Kernel → Option (Option ℕ × Kernel)
  unfolding int80 result
  syscall_get_uptime r k = result (int80 (record r { eax = 5 }) k)

  pub syscall_malloc : Registers → Kernel → ℕ → Option (Option ℕ × Kernel)
  unfolding int80 result
  syscall_malloc r k size = result (int80 (record r { eax = 6; ebx = size }) k)

  pub syscall_free : Registers → Kernel → ℕ → Option (Option Registers × Kernel)
  unfolding int80
  syscall_free r k ptr = int80 (record r { eax = 7; ebx = ptr }) k

  -- The handler reads the number of the call where the stub has put GS, and answers there.
  unknown_call :
      (cpu : CpuState) (k : Kernel)
      → (cpu.eax ≡ 0) ⊎ (8 ≤ cpu.eax)
      → handle_interrupt strings cpu k ≡ some (record cpu { eax = 0xFFFFFFFF }, k)
  unfolding handle_interrupt dispatch answer
  unknown_call cpu k (inl e) = ap (λ n. dispatch strings n cpu k) e
  unknown_call cpu k (inr le) = ground arith

  -- No segment register takes that answer.
  int80_lem : (r : Registers) (k : Kernel) → (r.gs ≡ 0) ⊎ (8 ≤ r.gs) → int80 r k ≡ some (none, k)
  unfolding int80 after pushed as_cpu_state from_cpu_state popped takes_selector
  int80_lem r k h = ap (after r) (unknown_call (as_cpu_state (pushed r stack)) k h)

  -- The handler reads the number of a call where the stub has put GS, and puts its answer
  -- there. In a program whose GS is 0, the null selector, or 8 or more, as are the selectors of
  -- the segments of the descriptor table, the number is unknown to the handler: on each of the
  -- seven wrappers the kernel stays as it was, and the stub faults when it pops the answer into
  -- GS, so that no wrapper returns to the program.
  pub unknown_calls :
      (r : Registers) (k : Kernel) (arg : ℕ)
      → (r.gs ≡ 0) ⊎ (8 ≤ r.gs)
      → (syscall_printf r k arg ≡ some (none, k))
        × (syscall_getchar r k ≡ some (none, k))
        × (syscall_exit r k arg ≡ some (none, k))
        × (syscall_sleep r k arg ≡ some (none, k))
        × (syscall_get_uptime r k ≡ some (none, k))
        × (syscall_malloc r k arg ≡ some (none, k))
        × (syscall_free r k arg ≡ some (none, k))
  unfolding syscall_printf syscall_getchar syscall_exit syscall_sleep syscall_get_uptime
      syscall_malloc syscall_free result
  unknown_calls r k arg h = (
    int80_lem (record r { eax = 1; ebx = arg }) k h,
    ap result (int80_lem (record r { eax = 2 }) k h),
    int80_lem (record r { eax = 3; ebx = arg }) k h,
    int80_lem (record r { eax = 4; ebx = arg }) k h,
    ap result (int80_lem (record r { eax = 5 }) k h),
    ap result (int80_lem (record r { eax = 6; ebx = arg }) k h),
    int80_lem (record r { eax = 7; ebx = arg }) k h,
  )
