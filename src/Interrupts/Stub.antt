-- ===== src/Interrupts/Stub.antt =====
-- hardwarecommunication/interruptstubs.s, `int_bottom`, and what the handlers in C++ see of it:
-- the registers that it pushes, read as a `CPUState` of multitasking.h.
use hydra_os.Common.{
  ℕ, Bool, ◌&&◌, ◌||◌, leb, ◌==◌, if◌then◌else◌, u16, Option, some, none, List, [], ◌∷◌, get_or,
}
use hydra_os.Gdt.{code_segment_selector_offset, data_segment_selector_offset}
use hydra_os.Multitasking.{CpuState}

pub record Registers : Type 0 where
  pub eax : ℕ
  pub ecx : ℕ
  pub edx : ℕ
  pub ebx : ℕ
  pub esp : ℕ
  pub ebp : ℕ
  pub esi : ℕ
  pub edi : ℕ
  pub ds : ℕ
  pub es : ℕ
  pub fs : ℕ
  pub gs : ℕ
  pub eip : ℕ
  pub cs : ℕ
  pub eflags : ℕ

-- The words at the stack pointer after the interrupt, `pusha` and the four `pushl`, and `stack`
-- behind them: what was on the stack of the program, since no stack is switched.
unfoldable pub pushed : Registers → List ℕ → List ℕ
pushed r stack =
    r.gs ∷ r.fs ∷ r.es ∷ r.ds ∷ r.edi ∷ r.esi ∷ r.ebp ∷ r.esp ∷ r.ebx ∷ r.edx ∷ r.ecx ∷ r.eax
    ∷ r.eip ∷ r.cs ∷ r.eflags ∷ stack

-- `(CPUState*)esp`.
unfoldable pub as_cpu_state : List ℕ → CpuState
as_cpu_state words = record {
  eax = get_or words 0 0;
  ebx = get_or words 1 0;
  ecx = get_or words 2 0;
  edx = get_or words 3 0;
  esi = get_or words 4 0;
  edi = get_or words 5 0;
  ebp = get_or words 6 0;
  error = get_or words 7 0;
  eip = get_or words 8 0;
  cs = get_or words 9 0;
  eflags = get_or words 10 0;
  esp = get_or words 11 0;
  ss = get_or words 12 0;
}

-- What the handler has written through that pointer.
unfoldable pub from_cpu_state : CpuState → List ℕ → List ℕ
from_cpu_state c words =
    c.eax
    ∷ c.ebx
    ∷ c.ecx
    ∷ c.edx
    ∷ c.esi
    ∷ c.edi
    ∷ c.ebp
    ∷ c.error
    ∷ c.eip
    ∷ c.cs
    ∷ c.eflags
    ∷ c.esp
    ∷ c.ss
    ∷ get_or words 13 0
    ∷ get_or words 14 0
    ∷ []

-- Whether a segment register takes the word that is popped into it: its lower half is a selector,
-- null or of a segment that can be read, the third or the fourth of the descriptor table, at
-- privilege 0. Any other selector is a general-protection fault.
unfoldable pub takes_selector : ℕ → Bool
takes_selector word =
    let selector = u16 word in
    leb selector 3
    || (selector == code_segment_selector_offset)
    || (selector == data_segment_selector_offset)

-- The registers that the words at the stack pointer hold.
unfoldable pub restored : ℕ → List ℕ → Registers
restored esp words = record {
  gs = get_or words 0 0;
  fs = get_or words 1 0;
  es = get_or words 2 0;
  ds = get_or words 3 0;
  edi = get_or words 4 0;
  esi = get_or words 5 0;
  ebp = get_or words 6 0;
  esp = esp;
  ebx = get_or words 8 0;
  edx = get_or words 9 0;
  ecx = get_or words 10 0;
  eax = get_or words 11 0;
  eip = get_or words 12 0;
  cs = get_or words 13 0;
  eflags = get_or words 14 0;
}

-- The four `pop`, `popa`, which drops the stack pointer, and `iret`. The result is `none` if a
-- segment register faults: the program does not go on then.
unfoldable pub popped : ℕ → List ℕ → Option Registers
unfolding takes_selector restored
popped esp words =
    if takes_selector (get_or words 0 0)
      && takes_selector (get_or words 1 0)
      && takes_selector (get_or words 2 0)
      && takes_selector (get_or words 3 0)
    then some (restored esp words)
    else none
