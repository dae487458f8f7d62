-- ===== src/Syscalls.antt =====
-- syscalls.cpp: the handler of interrupt 0x80, on the registers that the program passes. The
-- outer option of a result is the allocator's search that ran out of fuel. The heap, video memory
-- and the saved registers are separate memories, which is what they are for the pointers that malloc
-- gave: `free` of any other address would write a header there, which is not modelled.
pub mod Laws
pub mod Showing
pub mod Wrappers
mod Tests
use hydra_os.Common.{ℕ, ◌^◌, Option, none, some, List, [], ◌∷◌, ◌==◌, if◌then◌else◌}
use hydra_os.Memory.Globals.{Active}
use hydra_os.Memory.Globals
use hydra_os.Multitasking.{CpuState}
use hydra_os.TextMode.{Screen, set_color, print, print_hex32}

-- What the handler reaches: the screen, where `vga` is not null, and the kernel's heap.
pub record Kernel : Type 0 where
  pub vga : Option Screen
  pub heap : Active

-- What the pointer `vga` leads to, in place of `otherwise`.
unfoldable pub screen_of : Option Screen → Screen → Screen
screen_of none otherwise = otherwise
screen_of (some s) otherwise = s

-- "[SYSCALL START] arg1=0x".
abbrev pub start_text : List ℕ
start_text =
    91 ∷ 83 ∷ 89 ∷ 83 ∷ 67 ∷ 65 ∷ 76 ∷ 76 ∷ 32 ∷ 83 ∷ 84 ∷ 65 ∷ 82 ∷ 84 ∷ 93 ∷ 32 ∷ 97 ∷ 114 ∷ 103
    ∷ 49 ∷ 61 ∷ 48 ∷ 120 ∷ []

-- "String ptr: 0x".
abbrev pub pointer_text : List ℕ
pointer_text = 83 ∷ 116 ∷ 114 ∷ 105 ∷ 110 ∷ 103 ∷ 32 ∷ 112 ∷ 116 ∷ 114 ∷ 58 ∷ 32 ∷ 48 ∷ 120 ∷ []

-- " Content: ".
abbrev pub content_text : List ℕ
content_text = 32 ∷ 67 ∷ 111 ∷ 110 ∷ 116 ∷ 101 ∷ 110 ∷ 116 ∷ 58 ∷ 32 ∷ []

-- "(null string)\n".
abbrev pub null_text : List ℕ
null_text = 40 ∷ 110 ∷ 117 ∷ 108 ∷ 108 ∷ 32 ∷ 115 ∷ 116 ∷ 114 ∷ 105 ∷ 110 ∷ 103 ∷ 41 ∷ 10 ∷ []

-- "[SYSCALL END]\n".
abbrev pub end_text : List ℕ
end_text = 91 ∷ 83 ∷ 89 ∷ 83 ∷ 67 ∷ 65 ∷ 76 ∷ 76 ∷ 32 ∷ 69 ∷ 78 ∷ 68 ∷ 93 ∷ 10 ∷ []

-- `SYSCALL_PRINTF`; `strings` gives the C string at an address.
pub print_call : (ℕ → List ℕ) → Screen → ℕ → Screen
print_call strings s arg1 =
    let s1 = print (print_hex32 (print (set_color s 14 0) start_text) arg1) (10 ∷ []) in
    let s2 = print (print_hex32 (print s1 pointer_text) arg1) content_text in
    let s3 = if arg1 == 0 then print s1 null_text else print (set_color s2 15 0) (strings arg1) in
    set_color (print (set_color s3 14 0) end_text) 15 0

pub print_to : (ℕ → List ℕ) → Option Screen → ℕ → Option Screen
unfolding print_call
print_to strings none arg1 = none
print_to strings (some s) arg1 = some (print_call strings s arg1)

-- `cpu->eax = v`.
pub answer : CpuState → Kernel → ℕ → Option (CpuState × Kernel)
answer cpu k v = some (record cpu { eax = v }, k)

-- `SYSCALL_MALLOC`.
pub malloc_call : CpuState → Kernel → Option (CpuState × Kernel)
malloc_call cpu k = elim (Globals.malloc k.heap cpu.ebx) [
  | none ↦ none
  | some (p, heap) ↦ some (record cpu { eax = p }, record k { heap = heap })
]

-- The `switch` on the call's number. `SYSCALL_SLEEP` counts to a number and changes nothing else.
pub dispatch : (ℕ → List ℕ) → ℕ → CpuState → Kernel → Option (CpuState × Kernel)
unfolding answer malloc_call print_to
dispatch strings number cpu k =
    if number == 1
    then answer cpu (record k { vga = print_to strings k.vga cpu.ebx }) 0
    else if number == 2
    then answer cpu k 0
    else if number == 3
    then answer cpu k cpu.ebx
    else if number == 4
    then answer cpu k 0
    else if number == 5
    then answer cpu k 0
    else if number == 6
    then malloc_call cpu k
    else if number == 7
    then answer cpu (record k { heap = Globals.free k.heap cpu.ebx }) 0
    else answer cpu k 0xFFFFFFFF

-- `HandleInterrupt`: the call's number is in EAX, its first argument in EBX.
pub handle_interrupt : (ℕ → List ℕ) → CpuState → Kernel → Option (CpuState × Kernel)
unfolding dispatch
handle_interrupt strings cpu k = dispatch strings cpu.eax cpu k
