-- ===== src/Graphics.antt =====
-- drivers/vga.cpp, `VideoGraphicsArray`: the 320 by 200 graphics mode, on a machine of ports and a
-- memory of bytes. An `int32_t` is its 32 bits as a number.
pub mod Pixels
pub mod Registers
pub mod Mode
mod Tests
use Prim.Native.Nat.{bit_and, bit_or}
use hydra_os.Common.{
  ℕ, zero, suc, ◌+◌, ◌*◌, ◌^◌, Bool, true, false, not, ◌&&◌, ◌||◌, List, [], ◌∷◌, get_or, set, drop,
  leb, ◌==◌, if◌then◌else◌,
}
use hydra_os.Bytes.{Bytes, poke}
use hydra_os.Ports.{Ports}

-- `i < 0`.
abbrev pub is_negative : ℕ → Bool
is_negative i = leb (2 ^ 31) i

pub supports_mode : ℕ → ℕ → ℕ → Bool
supports_mode width height color_depth = (width == 320) && ((height == 200) && (color_depth == 8))

-- `g_320x200x256`.
abbrev pub mode_registers : List ℕ
mode_registers =
    0x63 ∷ 0x03 ∷ 0x01 ∷ 0x0F ∷ 0x00 ∷ 0x0E ∷ 0x5F ∷ 0x4F ∷ 0x50 ∷ 0x82 ∷ 0x54 ∷ 0x80 ∷ 0xBF ∷ 0x1F
    ∷ 0x00 ∷ 0x41 ∷ 0x00 ∷ 0x00 ∷ 0x00 ∷ 0x00 ∷ 0x00 ∷ 0x00 ∷ 0x9C ∷ 0x0E ∷ 0x8F ∷ 0x28 ∷ 0x40
    ∷ 0x96 ∷ 0xB9 ∷ 0xA3 ∷ 0xFF ∷ 0x00 ∷ 0x00 ∷ 0x00 ∷ 0x00 ∷ 0x00 ∷ 0x40 ∷ 0x05 ∷ 0x0F ∷ 0xFF
    ∷ 0x00 ∷ 0x01 ∷ 0x02 ∷ 0x03 ∷ 0x04 ∷ 0x05 ∷ 0x06 ∷ 0x07 ∷ 0x08 ∷ 0x09 ∷ 0x0A ∷ 0x0B ∷ 0x0C
    ∷ 0x0D ∷ 0x0E ∷ 0x0F ∷ 0x41 ∷ 0x00 ∷ 0x0F ∷ 0x00 ∷ 0x00 ∷ []

-- The two CRTC registers that must stay unlocked.
pub unlock : List ℕ → List ℕ
unlock registers =
    let first = set registers 0x03 (bit_or (get_or registers 0x03 0) 0x80) in
    set first 0x11 (bit_and (get_or first 0x11 0) 0x7F)

pub get_color_index : ℕ → ℕ → ℕ → ℕ
get_color_index r g b =
    if (r == 0) && ((g == 0) && (b == 0))
    then 0
    else if (r == 0) && ((g == 0) && (b == 0xA8))
    then 1
    else if (r == 0) && ((g == 0xA8) && (b == 0))
    then 2
    else if (r == 0xA8) && ((g == 0) && (b == 0))
    then 4
    else if (r == 0xFF) && ((g == 0xFF) && (b == 0xFF))
    then 0x3F
    else 0

-- The `switch` of `GetFrameBufferSegment`.
pub segment_address : ℕ → ℕ
segment_address segment_number =
    if segment_number == 4
    then 0xA0000
    else if segment_number == 8
    then 0xB0000
    else if segment_number == 12
    then 0xB8000
    else 0

module _ (p : Ports) where
  open p use {State, in8, out8}

  -- `for(i = 0; i < n; i++) { indexPort.Write(i); dataPort.Write(*(registers++)); }`, with `n`
  -- rounds left.
  pub write_indexed : ℕ → ℕ → ℕ → ℕ → List ℕ → State → State
  write_indexed zero i index_port data_port registers s = s
  write_indexed (suc n) i index_port data_port registers s =
      write_indexed n (i + 1) index_port data_port (drop 1 registers)
        (out8 (out8 s index_port i) data_port (get_or registers 0 0))

  -- The attribute controller takes index and data through one port, which a read of another one
  -- resets.
  pub write_attributes : ℕ → ℕ → List ℕ → State → State
  write_attributes zero i registers s = s
  write_attributes (suc n) i registers s =
      write_attributes n (i + 1) (drop 1 registers)
        (out8 (out8 (in8 s 0x3DA).1 0x3C0 i) 0x3C0 (get_or registers 0 0))

  -- "Unlock CRTC registers".
  pub unlock_crtc : State → State
  unlock_crtc s =
      let s1 = out8 s 0x3D4 0x03 in
      let (v, s2) = in8 s1 0x3D5 in
      let s3 = out8 (out8 s2 0x3D5 (bit_or v 0x80)) 0x3D4 0x11 in
      let (w, s4) = in8 s3 0x3D5 in out8 s4 0x3D5 (bit_and w 0x7F)

  pub write_registers : List ℕ → State → State
  unfolding write_indexed write_attributes unlock_crtc unlock
  write_registers registers s =
      let s1 = out8 s 0x3C2 (get_or registers 0 0) in
      let s2 = unlock_crtc (write_indexed 5 0 0x3C4 0x3C5 (drop 1 registers) s1) in
      let crtc = unlock (drop 6 registers) in
      let s3 = write_indexed 25 0 0x3D4 0x3D5 crtc s2 in
      let s4 = write_indexed 9 0 0x3CE 0x3CF (drop 25 crtc) s3 in
      let s5 = write_attributes 21 0 (drop 34 crtc) s4 in out8 (in8 s5 0x3DA).1 0x3C0 0x20

  pub set_mode : ℕ → ℕ → ℕ → State → Bool × State
  unfolding supports_mode write_registers
  set_mode width height color_depth s =
      if not (supports_mode width height color_depth)
      then (false, s)
      else (true, write_registers mode_registers s)

  pub get_frame_buffer_segment : State → ℕ × State
  unfolding segment_address
  get_frame_buffer_segment s =
      let (v, s') = in8 (out8 s 0x3CE 0x06) 0x3CF in (segment_address (bit_and v 12), s')

  pub put_pixel : Bytes × State → ℕ → ℕ → ℕ → Bytes × State
  unfolding get_frame_buffer_segment
  put_pixel (memory, s) x y color_index =
      let (segment, s') = get_frame_buffer_segment s in
      if (is_negative x || leb 320 x) || (is_negative y || leb 200 y)
      then (memory, s)
      else (poke memory (segment + 320 * y + x) color_index, s')

  pub put_pixel_rgb : Bytes × State → ℕ → ℕ → ℕ → ℕ → ℕ → Bytes × State
  unfolding put_pixel get_color_index
  put_pixel_rgb c x y r g b = put_pixel c x y (get_color_index r g b)
