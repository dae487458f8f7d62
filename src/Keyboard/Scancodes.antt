-- ===== src/Keyboard/Scancodes.antt =====
-- The scan codes against the layout of the keyboard.
use hydra_os.Common.{
  ℕ, ◌+◌, ◌-◌, ◌<◌, ◌≡◌, refl, ap, Bool, true, false, ◌&&◌, Option, none, some, List, [], ◌∷◌,
  length, get_or, codes, ltb, leb, ◌==◌, if◌then◌else◌, arith,
}
use hydra_os.Common.Table.{each_below, each_below_lem}
use hydra_os.Keyboard.{key_char, handle_interrupt}

-- The unshifted keys of a US keyboard, row by row from left to right: the scan code of the first key
-- of a run of neighbours, whose codes follow one another, and their characters. The keys apart are
-- escape, backspace with tab, enter and space.
abbrev pub layout : List (ℕ × List ℕ)
layout =
    (2, codes "1234567890-=")
    ∷ (16, codes "qwertyuiop[]")
    ∷ (30, codes "asdfghjkl;'`")
    ∷ (43, codes "\\zxcvbnm,./")
    ∷ (57, codes " ")
    ∷ (1, 27 ∷ [])
    ∷ (14, 8 ∷ 9 ∷ [])
    ∷ (28, 10 ∷ [])
    ∷ []

-- The character at the place of a scan code in the first run that reaches it.
pub character : List (ℕ × List ℕ) → ℕ → Option ℕ
character [] key = none
character ((first, run) ∷ rest) key =
    if leb first key && ltb key (first + length run)
    then some (get_or run (key - first) 0)
    else character rest key

-- What a driver with a handler or without one passes on.
pub pressed : Bool → ℕ → Option ℕ
unfolding character
pressed false key = none
pressed true key = character layout key

same : Option ℕ → Option ℕ → Bool
same none none = true
same (some a) (some b) = a == b
same _ _ = false

same-eq : (a b : Option ℕ) → same a b ≡ true → a ≡ b
unfolding same
same-eq none none e = refl
same-eq (some a) (some b) e = ap some (ground arith)
same-eq none (some b) e = absurd (cc)
same-eq (some a) none e = absurd (cc)

agrees : ℕ → Bool
unfolding same pressed
agrees key = same (handle_interrupt true key) (pressed true key)

all_agree : each_below agrees 256 ≡ true
unfolding each_below agrees handle_interrupt key_char
all_agree = refl

-- For every byte that the data port reads, the driver calls OnKeyDown exactly when it has a
-- handler and the byte is the scan code of a key of the layout that goes down, and with the
-- character of that key: the digits, letters and signs in the order of the rows of a US
-- keyboard, space, escape, backspace, tab and enter. On the byte of a key that goes up, and on
-- any other, it makes no call.
pub handle_interrupt-layout :
    (handler : Bool) (key : ℕ) → key < 256 → handle_interrupt handler key ≡ pressed handler key
unfolding handle_interrupt pressed
handle_interrupt-layout false key lt = refl
handle_interrupt-layout true key lt =
    same-eq _ _ (unfold agrees in each_below_lem agrees 256 key lt all_agree)
