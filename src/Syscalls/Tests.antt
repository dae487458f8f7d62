-- ===== src/Syscalls/Tests.antt =====
-- A program asks for memory and gives it back, on the small heap of 200 bytes.
use hydra_os.Common.{ℕ, ◌≡◌, refl, inr, some, none, List, [], arith}
use hydra_os.Memory.{MemoryManager}
use hydra_os.Memory.Laws.{Holds}
use hydra_os.Memory.Tests.{m0, m1, blocks0, m0-Holds, malloc0}
use hydra_os.Multitasking.{CpuState}
use hydra_os.Syscalls.{Kernel, handle_interrupt}
use hydra_os.Interrupts.Stub.{Registers}
use hydra_os.Syscalls.Wrappers
use hydra_os.Syscalls.Laws.{holds, Returns, handle_interrupt-Returns, free-malloc_call}

abbrev registers : ℕ → ℕ → CpuState
registers eax ebx = record {
  eax = eax;
  ebx = ebx;
  ecx = 0;
  edx = 0;
  esi = 0;
  edi = 0;
  ebp = 0;
  error = 0;
  eip = 0;
  cs = 16;
  eflags = 0x202;
  esp = 0;
  ss = 0;
}

abbrev no_strings : ℕ → List ℕ
no_strings p = []

abbrev kernel : Kernel
kernel = record { vga = none; heap = some m0 }

handle_interrupt-Returns_example :
    (r : CpuState × Kernel) × (handle_interrupt no_strings (registers 6 40) kernel ≡ some r)
    × Returns (registers 6 40) kernel r
handle_interrupt-Returns_example =
    handle_interrupt-Returns no_strings (registers 6 40) kernel (holds m0 16 blocks0 refl m0-Holds)
      (λ e. absurd (omega arith))

free-malloc_call_example :
    (k' : Kernel) × (m'' : MemoryManager) × (handle_interrupt no_strings (registers 6 40) kernel
      ≡ some (registers 32 40, k'))
    × (handle_interrupt no_strings (registers 7 32) k'
        ≡ some (registers 0 32, record kernel { heap = some m'' }))
    × Holds m'' 16 blocks0
free-malloc_call_example =
    free-malloc_call no_strings (registers 6 40) (registers 7 32) kernel m0 m1 16 32 blocks0 refl
      m0-Holds refl malloc0 (λ e. absurd (omega arith)) refl refl

-- A program whose segments are the data segment.
abbrev program : Registers
program = record {
  eax = 0;
  ecx = 0;
  edx = 0;
  ebx = 0;
  esp = 0x9000;
  ebp = 0;
  esi = 0;
  edi = 0;
  ds = 0x10;
  es = 0x10;
  fs = 0x10;
  gs = 0x10;
  eip = 0x5000;
  cs = 0x10;
  eflags = 0x202;
}

unknown_calls_example :
    (Wrappers.syscall_printf no_strings [] program kernel 64 ≡ some (none, kernel))
    × (Wrappers.syscall_getchar no_strings [] program kernel ≡ some (none, kernel))
    × (Wrappers.syscall_exit no_strings [] program kernel 64 ≡ some (none, kernel))
    × (Wrappers.syscall_sleep no_strings [] program kernel 64 ≡ some (none, kernel))
    × (Wrappers.syscall_get_uptime no_strings [] program kernel ≡ some (none, kernel))
    × (Wrappers.syscall_malloc no_strings [] program kernel 64 ≡ some (none, kernel))
    × (Wrappers.syscall_free no_strings [] program kernel 64 ≡ some (none, kernel))
unknown_calls_example = Wrappers.unknown_calls no_strings [] program kernel 64 (inr (omega arith))
