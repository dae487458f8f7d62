-- ===== src/Interrupts.antt =====
-- hardwarecommunication/interrupts.cpp: the interrupt descriptor table, the handlers and the
-- dispatch. The addresses of the assembly stubs are the linker's, and a handler object is a
-- function on the state `W` of the other parts; port writes are pairs of port and byte, the latest
-- first.
pub mod Entries
pub mod Dispatch
pub mod Keeping
pub mod Stub
mod Tests
use Prim.Native.Nat.{bit_or}
use hydra_os.Common.{
  ℕ, zero, suc, ◌+◌, ◌*◌, ◌/◌, ◌%◌, ◌^◌, Bool, true, false, not, ◌&&◌, Option, none, some, List, [],
  ◌∷◌, ◌++◌, u8, u16, ltb, leb, ◌==◌, if◌then◌else◌,
}

pub record GateDescriptor : Type 0 where
  pub handler_address_low_bits : ℕ
  pub gdt_code_segment_selector : ℕ
  pub reserved : ℕ
  pub access : ℕ
  pub handler_address_high_bits : ℕ

abbrev pub Table : Type 0
Table = ℕ → GateDescriptor

pub gate : ℕ → ℕ → ℕ → ℕ → GateDescriptor
gate code_segment handler privilege type = record {
  handler_address_low_bits = handler % 2 ^ 16;
  gdt_code_segment_selector = code_segment;
  reserved = 0;
  access = bit_or (bit_or 0x80 type) (privilege % 4 * 2 ^ 5);
  handler_address_high_bits = handler / 2 ^ 16 % 2 ^ 16;
}

-- `SetInterruptDescriptorTableEntry`; the interrupt's number is a byte.
pub set_entry : Table → ℕ → GateDescriptor → Table
set_entry t interrupt g n = if n == u8 interrupt then g else t n

abbrev pub interrupt_gate : ℕ
interrupt_gate = 0xE

-- The loop of the constructor, from `i` down to 1.
pub ignore_entries : ℕ → GateDescriptor → Table → Table
unfolding set_entry
ignore_entries zero g t = t
ignore_entries (suc i) g t = ignore_entries i g (set_entry t (suc i) g)

-- The source writes the calls for `base + i` and the numbers after it one by one, `n` of them.
pub set_entries : ℕ → ℕ → ℕ → (ℕ → GateDescriptor) → Table → Table
unfolding set_entry
set_entries zero i base g t = t
set_entries (suc n) i base g t = set_entries n (i + 1) base g (set_entry t (base + i) (g i))

-- The addresses of `InterruptIgnore`, `HandleException0x..` and `HandleInterruptRequest0x..`.
pub record Stubs : Type 0 where
  pub ignore : ℕ
  pub exception : ℕ → ℕ
  pub request : ℕ → ℕ

-- The table that the constructor fills.
pub fill_table : Stubs → ℕ → ℕ → Table → Table
fill_table s offset code_segment t =
    let entry : ℕ → GateDescriptor = λ handler. gate code_segment handler 0 interrupt_gate in
    let t1 = set_entry (ignore_entries 255 (entry s.ignore) t) 0 (entry s.ignore) in
    let t2 = set_entries 20 0 0 (λ i. entry (s.exception i)) t1 in
    let t3 = set_entry t2 0x80 (entry (s.exception 0x80)) in
    set_entries 16 0 offset (λ i. entry (s.request i)) t3

-- The initialisation of the two interrupt controllers.
pub remap : ℕ → List (ℕ × ℕ) → List (ℕ × ℕ)
remap offset ports =
    (0xA1, 0x00)
    ∷ (0x21, 0x00)
    ∷ (0xA1, 0x01)
    ∷ (0x21, 0x01)
    ∷ (0xA1, 0x02)
    ∷ (0x21, 0x04)
    ∷ (0xA1, u8 (offset + 8))
    ∷ (0x21, u8 offset)
    ∷ (0xA0, 0x11)
    ∷ (0x20, 0x11)
    ∷ ports

-- `Activate` and `Deactivate` of the manager `this`, on `ActiveInterruptManager`: the manager that
-- is active afterwards, and whether interrupts are on.
pub deactivate : ℕ → Option ℕ × Bool → Option ℕ × Bool
deactivate this (none, enabled) = (none, enabled)
deactivate this (some active, enabled) =
    if active == this then (none, false) else (some active, enabled)

pub activate : ℕ → Option ℕ × Bool → Option ℕ × Bool
unfolding deactivate
activate this (none, enabled) = (some this, true)
activate this (some active, enabled) =
    let stopped = deactivate active (some active, enabled) in (some this, true)

module _ (W : Type 0) where
  -- `InterruptHandler::HandleInterrupt` of a handler object.
  abbrev pub Handler : Type 0
  Handler = W → ℕ → ℕ × W

  pub record InterruptManager : Type 0 where
    pub hardware_interrupt_offset : ℕ
    pub handlers : ℕ → Option Handler

  -- The constructor of `InterruptHandler` enters itself.
  unfoldable pub register : InterruptManager → ℕ → Handler → InterruptManager
  register manager number h = record manager {
    handlers = λ n. if n == number then some h else manager.handlers n;
  }

  -- The destructor of `InterruptHandler`; `is_this` is the comparison with the object's address.
  pub unregister : InterruptManager → ℕ → (Option Handler → Bool) → InterruptManager
  unregister manager number is_this =
      if is_this (manager.handlers number)
      then record manager { handlers = λ n. if n == number then none else manager.handlers n }
      else manager

  -- The stack pointer to go on with, the state of the handlers, whether an unhandled interrupt
  -- was printed, and the port writes.
  pub record Outcome : Type 0 where
    pub esp : ℕ
    pub world : W
    pub reported : Bool
    pub ports : List (ℕ × ℕ)

  -- "hardware interrupts must be acknowledged".
  pub acknowledge : ℕ → ℕ → List (ℕ × ℕ) → List (ℕ × ℕ)
  acknowledge offset interrupt ports =
      if leb offset interrupt && ltb interrupt (offset + 16)
      then if leb (offset + 8) interrupt
        then (0xA0, 0x20) ∷ (0x20, 0x20) ∷ ports
        else (0x20, 0x20) ∷ ports
      else ports

  pub do_handle_interrupt : InterruptManager → ℕ → ℕ → W → List (ℕ × ℕ) → Outcome
  unfolding acknowledge
  do_handle_interrupt manager interrupt esp w ports =
      let offset = manager.hardware_interrupt_offset in
      elim (manager.handlers interrupt) [
        | none ↦ record {
          esp = esp;
          world = w;
          reported = not (interrupt == offset);
          ports = acknowledge offset interrupt ports;
        }
        | some h ↦ record {
          esp = (h w esp).0;
          world = (h w esp).1;
          reported = false;
          ports = acknowledge offset interrupt ports;
        }
      ]

  -- The static `HandleInterrupt`, which the stubs call.
  pub handle_interrupt : Option InterruptManager → ℕ → ℕ → W → List (ℕ × ℕ) → Outcome
  unfolding do_handle_interrupt
  handle_interrupt none interrupt esp w ports = record {
    esp = esp;
    world = w;
    reported = false;
    ports = ports;
  }
  handle_interrupt (some manager) interrupt esp w ports =
      do_handle_interrupt manager interrupt esp w ports
