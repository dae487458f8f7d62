-- ===== src/Interrupts/Tests.antt =====
-- Stubs at made-up addresses, and a handler that counts its calls.
use hydra_os.Common.{ℕ, ◌+◌, ◌≡◌, ◌≢◌, none, false, [], arith}
use hydra_os.Interrupts.{
  Table, Stubs, fill_table, Handler, InterruptManager, register, do_handle_interrupt,
}
use hydra_os.Interrupts.Entries.{address, stub_for, fill_table_lem}
use hydra_os.Interrupts.Dispatch.{commands, do_handle_interrupt-register}

abbrev stubs : Stubs
stubs = record { ignore = 4096; exception = λ i. 8192; request = λ i. 12288 }

abbrev zeroed : Table
zeroed n = record {
  handler_address_low_bits = 0;
  gdt_code_segment_selector = 0;
  reserved = 0;
  access = 0;
  handler_address_high_bits = 0;
}

fill_table_example :
    (address (fill_table stubs 0x20 16 zeroed 0x21) ≡ stub_for stubs 0x20 0x21)
    × ((fill_table stubs 0x20 16 zeroed 0x21).gdt_code_segment_selector ≡ 16)
    × ((fill_table stubs 0x20 16 zeroed 0x21).access ≡ 0x8E)
fill_table_example =
    fill_table_lem stubs 0x20 16 zeroed 0x21 (omega arith) (omega arith) (λ i. omega arith)
      (λ i. omega arith) (omega arith)

abbrev count_calls : Handler ℕ
count_calls w esp = (esp, w + 1)

abbrev manager : InterruptManager ℕ
manager = record { hardware_interrupt_offset = 0x20; handlers = λ n. none }

abbrev keyboard : ℕ
keyboard = 0x21

abbrev mouse : ℕ
mouse = 0x2C

do_handle_interrupt_example :
    (let after = do_handle_interrupt ℕ (register ℕ manager mouse count_calls) in
      (after mouse 1000 0 []
        ≡ record { esp = 1000; world = 0 + 1; reported = false; ports = commands 0x20 mouse [] })
      × (keyboard ≢ mouse
          → after keyboard 1000 0 [] ≡ do_handle_interrupt ℕ manager keyboard 1000 0 []))
do_handle_interrupt_example =
    do_handle_interrupt-register ℕ manager mouse count_calls keyboard 1000 0 []
