-- ===== src/Controller/Tests.antt =====
-- A controller with a key that nobody read, whose devices acknowledge each byte.
use hydra_os.Common.{
  ℕ, ◌%◌, ◌≡◌, refl, ap, true, false, some, List, [], ◌∷◌, ◌++◌, get_or, drop, ◌==◌, if◌then◌else◌,
  arith,
}
use hydra_os.Ports.{Ports}
use hydra_os.Controller.{activate_keyboard, activate_mouse}
use hydra_os.Controller.Protocol.{View, IsController, full}
use hydra_os.Controller.Activation.{
  Rests, with_keyboard, with_mouse, activate_mouse-activate_keyboard,
}
use Prim.Native.Nat.{bit_and}

abbrev take_command : View → ℕ → View
take_command s v =
    if v == 0x20
    then record s { output = s.output ++ s.command_byte ∷ [] }
    else if v == 0x60
    then record s { writing = true }
    else if v == 0xAE
    then record s { command_byte = bit_and s.command_byte 0xEF }
    else if v == 0xA8
    then record s { command_byte = bit_and s.command_byte 0xDF }
    else s

abbrev take_byte : View → ℕ → View
take_byte s v =
    if s.writing
    then record s { command_byte = v; writing = false }
    else record s { output = s.output ++ 0xFA ∷ [] }

abbrev pub chip : Ports
chip = record {
  State = View;
  in8 = λ s port.
      if port == 0x64
      then (full s.output, s)
      else (get_or s.output 0 0, record s { output = drop 1 s.output });
  out8 = λ s port v. if port == 0x64 then take_command s v else take_byte s v;
  in16 = λ s port. (0, s);
  out16 = λ s port v. s;
  in32 = λ s port. (0, s);
  out32 = λ s port w. s;
}

full-bit : (bs : List ℕ) → full bs % 2 ≡ full bs
full-bit [] = refl
full-bit (b ∷ bs) = refl

head : (o bs : List ℕ) (b : ℕ) → o ≡ b ∷ bs → get_or o 0 0 ≡ b
head o bs b e = ap (λ l. get_or l 0 0) e

pub chip-IsController : IsController chip (λ s. s)
chip-IsController = record {
  status_bit = λ s. full-bit s.output;
  view-status = λ s. refl;
  first_byte = λ s b bs e. head s.output bs b e;
  view-data = λ s. refl;
  view-ask = λ s. refl;
  view-put = λ s. refl;
  view-store = λ s v e. rw e refl;
  view-keyboard = λ s. refl;
  view-mouse = λ s. refl;
  view-prefix = λ s. refl;
  view-device = λ s v e. (0xFA ∷ [], omega arith, rw e refl);
}

-- Both ports are off.
abbrev pub chip0 : View
chip0 = record { output = 0x1E ∷ []; command_byte = 0x30; writing = false }

activate_mouse-activate_keyboard_example :
    (s : View) × (activate_keyboard chip 2 chip0 ≡ some s)
    × Rests chip
        (λ s. s)
        chip-IsController
        (activate_mouse chip 2 s)
        (with_mouse (with_keyboard 0x30))
activate_mouse-activate_keyboard_example =
    activate_mouse-activate_keyboard chip (λ s. s) chip-IsController 2 chip0 refl (omega arith)
      (omega arith)
