-- ===== src/Keyboard/Tests.antt =====
-- The key A.
use hydra_os.Common.{◌≡◌, refl, true, some, none, arith}
use hydra_os.Keyboard.{handle_interrupt, key_char}
use hydra_os.Keyboard.Scancodes.{pressed, handle_interrupt-layout}

key_a : handle_interrupt true 0x1E ≡ some 97
unfolding handle_interrupt key_char
key_a = refl

-- Going up, it is the byte 0x9E.
key_a_up : handle_interrupt true 0x9E ≡ none
unfolding handle_interrupt key_char
key_a_up = refl

handle_interrupt_example : handle_interrupt true 0x1E ≡ pressed true 0x1E
handle_interrupt_example = handle_interrupt-layout true 0x1E (omega arith)
