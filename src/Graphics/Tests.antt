-- ===== src/Graphics/Tests.antt =====
-- A frame buffer at 0xA0000, and pixels on and off the screen.
use hydra_os.Common.{
  Bool, true, false, ◌%◌, ◌<◌, ◌==◌, if◌then◌else◌, ap, arith, ℕ, ◌+◌, ◌≡◌, refl, List, [], ◌∷◌,
}
use hydra_os.Ports.{Ports}
use hydra_os.Graphics.{set_mode}
use hydra_os.Graphics.Pixels.{
  Pixel, Shows, shown, draw, draw_all, IsMapped, base, put_pixels, put_pixels_refines,
}
use hydra_os.Graphics.Registers.{
  Card, write_sequencer, write_crtc, write_graphics, write_attribute, IsCard,
}
use hydra_os.Graphics.Mode.{SetsMode, set_mode-SetsMode}

-- Every read answers 4, and the state counts the writes.
abbrev card : Ports
card = record {
  State = ℕ;
  in8 = λ s port. (4, s);
  out8 = λ s port value. s + 1;
  in16 = λ s port. (0, s);
  out16 = λ s port value. s;
  in32 = λ s port. (0, s);
  out32 = λ s port w. s;
}

abbrev pixels : List Pixel
pixels =
    record { x = 0; y = 0; color = 1 }
    ∷ record { x = 319; y = 199; color = 2 }
    ∷ record { x = 320; y = 5; color = 3 }
    ∷ record { x = 0; y = 0; color = 4 }
    ∷ []

card-IsMapped : IsMapped card (λ s. Unit) 4
card-IsMapped = record { answer = λ s r. refl; still = λ s r. tt }

put_pixels_refines_example :
    Shows
      (base card 4)
      (λ q. 0)
      (put_pixels card ((λ q. 0), 0) pixels).0
      (draw_all (shown (base card 4) (λ q. 0)) pixels)
put_pixels_refines_example =
    put_pixels_refines card (λ s. Unit) 4 card-IsMapped (λ q. 0) 0 pixels tt

drawn : draw_all (λ x y. 0) pixels 319 199 ≡ 2
unfolding draw_all draw
drawn = refl

-- 126 writes to the ports.
set_mode-writes : (set_mode card 320 200 8 0).1 ≡ 126
unfolding set_mode
set_mode-writes = refl

-- A card with its index registers, and whether port 0x3C0 takes an index next.
record Chip : Type 0 where
  registers : Card
  sequencer_index : ℕ
  crtc_index : ℕ
  graphics_index : ℕ
  attribute_index : ℕ
  indexed : Bool

abbrev chip_attribute : Chip → ℕ → Chip
chip_attribute s v =
    if s.indexed
    then record s {
      attribute_index = v;
      indexed = false;
      registers = if v == 0x20 then record s.registers { blank = false } else s.registers;
    }
    else record s { registers = write_attribute s.registers s.attribute_index v; indexed = true }

abbrev chip_write : Chip → ℕ → ℕ → Chip
chip_write s port v =
    if port == 0x3C2
    then record s { registers = record s.registers { misc = v } }
    else if port == 0x3C4
    then record s { sequencer_index = v }
    else if port == 0x3C5
    then record s { registers = write_sequencer s.registers s.sequencer_index v }
    else if port == 0x3D4
    then record s { crtc_index = v }
    else if port == 0x3D5
    then record s { registers = write_crtc s.registers s.crtc_index v }
    else if port == 0x3CE
    then record s { graphics_index = v }
    else if port == 0x3CF
    then record s { registers = write_graphics s.registers s.graphics_index v }
    else chip_attribute s v

abbrev chip : Ports
chip = record {
  State = Chip;
  in8 = λ s port.
      if port == 0x3DA
      then (0, record s { indexed = true })
      else (s.registers.crtc s.crtc_index % 256, s);
  out8 = chip_write;
  in16 = λ s port. (0, s);
  out16 = λ s port v. s;
  in32 = λ s port. (0, s);
  out32 = λ s port w. s;
}

chip-attribute :
    (s : Chip) (i v : ℕ)
    → i < 32
    → (chip_write (chip_write (record s { indexed = true }) 0x3C0 i) 0x3C0 v).registers
      ≡ write_attribute s.registers i v
chip-attribute s i v lt =
    ap (λ b. write_attribute (if b then record s.registers { blank = false } else s.registers) i v)
      (other i lt)
  where
    other : (i : ℕ) → i < 32 → (i == 0x20) ≡ false
    other i lt = ground arith

chip-IsCard : IsCard chip (λ s. s.registers)
chip-IsCard = record {
  view-misc = λ s v. refl;
  view-sequencer = λ s i v. refl;
  view-crtc = λ s i v. refl;
  view-crtc_read = λ s i v. refl;
  crtc_byte = λ s i. omega arith;
  view-graphics = λ s i v. refl;
  view-attribute = chip-attribute;
  view-unblank = λ s. refl;
}

-- A card whose CRTC registers are protected.
abbrev chip0 : Chip
chip0 = record {
  registers = record {
    misc = 0;
    sequencer = λ i. 0;
    crtc = λ i. 0xFF;
    protected = true;
    graphics = λ i. 0;
    attribute = λ i. 0;
    blank = false;
  };
  sequencer_index = 0;
  crtc_index = 0;
  graphics_index = 0;
  attribute_index = 0;
  indexed = false;
}

set_mode-SetsMode_example :
    SetsMode chip (λ s. s.registers) chip-IsCard true chip0 (set_mode chip 320 200 8 chip0)
set_mode-SetsMode_example = set_mode-SetsMode chip (λ s. s.registers) chip-IsCard 320 200 8 chip0
