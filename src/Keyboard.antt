-- ===== src/Keyboard.antt =====
-- drivers/keyboard.cpp: the keyboard driver, from a scan code to the call of its handler.
pub mod Scancodes
mod Tests
use hydra_os.Common.{
  ℕ, ◌+◌, ◌<◌, Bool, true, false, not, Option, none, some, List, [], ◌∷◌, ltb, ◌==◌, if◌then◌else◌,
}

-- The cases of the `switch` that call the handler, as pairs of scan code and character, in the order of the source.
abbrev pub scan_codes : List (ℕ × ℕ)
scan_codes =
    (0x01, 27)
    ∷ (0x0E, 8)
    ∷ (0x0F, 9)
    ∷ (0x1C, 10)
    ∷ (0x39, 32)
    ∷ (0x02, 49)
    ∷ (0x03, 50)
    ∷ (0x04, 51)
    ∷ (0x05, 52)
    ∷ (0x06, 53)
    ∷ (0x07, 54)
    ∷ (0x08, 55)
    ∷ (0x09, 56)
    ∷ (0x0A, 57)
    ∷ (0x0B, 48)
    ∷ (0x0C, 45)
    ∷ (0x0D, 61)
    ∷ (0x10, 113)
    ∷ (0x11, 119)
    ∷ (0x12, 101)
    ∷ (0x13, 114)
    ∷ (0x14, 116)
    ∷ (0x15, 121)
    ∷ (0x16, 117)
    ∷ (0x17, 105)
    ∷ (0x18, 111)
    ∷ (0x19, 112)
    ∷ (0x1A, 91)
    ∷ (0x1B, 93)
    ∷ (0x1E, 97)
    ∷ (0x1F, 115)
    ∷ (0x20, 100)
    ∷ (0x21, 102)
    ∷ (0x22, 103)
    ∷ (0x23, 104)
    ∷ (0x24, 106)
    ∷ (0x25, 107)
    ∷ (0x26, 108)
    ∷ (0x27, 59)
    ∷ (0x28, 39)
    ∷ (0x29, 96)
    ∷ (0x2B, 92)
    ∷ (0x2C, 122)
    ∷ (0x2D, 120)
    ∷ (0x2E, 99)
    ∷ (0x2F, 118)
    ∷ (0x30, 98)
    ∷ (0x31, 110)
    ∷ (0x32, 109)
    ∷ (0x33, 44)
    ∷ (0x34, 46)
    ∷ (0x35, 47)
    ∷ []

-- The `switch`: the character of the first case that matches.
pub key_char : List (ℕ × ℕ) → ℕ → Option ℕ
key_char [] key = none
key_char ((code, c) ∷ rest) key = if key == code then some c else key_char rest key

-- `HandleInterrupt` on the byte that the data port reads: the argument of `OnKeyDown`, if it is
-- called.
pub handle_interrupt : Bool → ℕ → Option ℕ
unfolding key_char
handle_interrupt has_handler key =
    if not has_handler then none else if ltb key 0x80 then key_char scan_codes key else none
