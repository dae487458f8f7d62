-- ===== src/Mouse.antt =====
-- drivers/mouse.cpp: the PS/2 mouse driver, from the bytes of the controller to the calls of its
-- handler. An `int` is its 32-bit word.
pub mod Buttons
mod Tests
use hydra_os.Common.{
  ℕ, zero, suc, ◌+◌, ◌-◌, ◌*◌, ◌/◌, ◌%◌, ◌^◌, Bool, true, false, not, ◌&&◌, ◌||◌, List, [], ◌∷◌,
  ◌++◌, u32, get_or, set, ltb, ◌==◌, if◌then◌else◌,
}

-- The calls of the handler.
pub data Event : Type 0 where
  activate : Event
  move : ℕ → ℕ → Event
  down : ℕ → Event
  up : ℕ → Event

pub record MouseDriver : Type 0 where
  pub has_handler : Bool
  pub buffer : List ℕ
  pub offset : ℕ
  pub buttons : ℕ

-- `Activate` on the driver's own state; the rest of it talks to the controller.
pub activated : MouseDriver → MouseDriver × List Event
activated d = (record d { offset = 0; buttons = 0 }, if d.has_handler then activate ∷ [] else [])

-- `(int8_t)b` as an `int`.
pub sign_extend : ℕ → ℕ
sign_extend b = if ltb b 128 then b else 2 ^ 32 - 2 ^ 8 + b

pub negate : ℕ → ℕ
negate x = u32 (2 ^ 32 - x)

-- Bit `i`, as `b & (0x1 << i)` tests it.
pub bit : ℕ → ℕ → Bool
bit b i = b / 2 ^ i % 2 == 1

-- The round of the loop for button `i`: a change of its bit is an event.
pub button_event : ℕ → ℕ → ℕ → List Event
unfolding bit
button_event now before i =
    if bit now i
    then (if bit before i then [] else down (i + 1) ∷ [])
    else if bit before i
    then up (i + 1) ∷ []
    else []

pub button_events : ℕ → ℕ → List Event
unfolding button_event
button_events now before =
    button_event now before 0 ++ (button_event now before 1 ++ button_event now before 2)

pub move_event : List ℕ → List Event
unfolding sign_extend negate
move_event buffer =
    let dx = get_or buffer 1 0 in
    let dy = get_or buffer 2 0 in
    if not (dx == 0) || not (dy == 0)
    then move (sign_extend dx) (negate (sign_extend dy)) ∷ []
    else []

-- An interrupt: `status` is what the command port reads, `byte` what the data port does.
pub handle_interrupt : MouseDriver → ℕ → ℕ → MouseDriver × List Event
unfolding bit button_events move_event
handle_interrupt d status byte =
    let buffer = set d.buffer d.offset byte in
    let offset = (d.offset + 1) % 3 in
    if not (bit status 5)
    then (d, [])
    else if not d.has_handler
    then (record d { buffer = buffer }, [])
    else if offset == 0
    then (
      record d { buffer = buffer; offset = offset; buttons = get_or buffer 0 0 },
      move_event buffer ++ button_events (get_or buffer 0 0) d.buttons,
    )
    else (record d { buffer = buffer; offset = offset }, [])
