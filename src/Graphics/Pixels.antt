-- ===== src/Graphics/Pixels.antt =====
-- Pixels are drawn into a picture.
use Prim.Native.Nat.{bit_and}
use hydra_os.Common.{
  ℕ, ◌+◌, ◌*◌, ◌≤◌, ◌<◌, ◌≡◌, ◌∙◌, refl, sym, true, ◌&&◌, ◌||◌, List, [], ◌∷◌, ltb, leb, ◌==◌,
  if◌then◌else◌, arith, Bool-cases, inl, inr,
}
use hydra_os.Bytes.{Bytes, poke}
use hydra_os.Ports.{Ports}
use hydra_os.Graphics.{is_negative, segment_address, get_frame_buffer_segment, put_pixel}

-- Colours by column and row.
abbrev pub Picture : Type 0
Picture = ℕ → ℕ → ℕ

pub record Pixel : Type 0 where
  pub x : ℕ
  pub y : ℕ
  pub color : ℕ

-- A pixel outside 320 by 200 is not drawn.
unfoldable pub draw : Picture → Pixel → Picture
draw picture d x y =
    if (ltb d.x 320 && ltb d.y 200) && ((x == d.x) && (y == d.y)) then d.color else picture x y

unfoldable pub draw_all : Picture → List Pixel → Picture
draw_all picture [] = picture
draw_all picture (d ∷ ds) = draw_all (draw picture d) ds

-- The picture in the frame buffer at `segment`.
abbrev pub shown : ℕ → Bytes → Picture
shown segment memory x y = memory (segment + 320 * y + x)

-- A picture shown at `segment`, in a memory that is elsewhere the one of `before`.
pub record Shows (segment : ℕ) (before memory : Bytes) (picture : Picture) : Type 0 where
  pub inside : (x y : ℕ) → x < 320 → y < 200 → shown segment memory x y ≡ picture x y
  pub below : (q : ℕ) → q < segment → memory q ≡ before q
  pub above : (q : ℕ) → segment + 64000 ≤ q → memory q ≡ before q

-- Two pixels of the screen have one address only if they are one.
pub address_inj :
    (x y x' y' : ℕ) → x < 320 → x' < 320 → 320 * y + x ≡ 320 * y' + x' → (x ≡ x') × (y ≡ y')
address_inj x y x' y' lt lt' e = (omega arith, omega arith)

poke-Shows :
    (segment : ℕ) (before memory : Bytes) (picture : Picture) (d : Pixel)
    → Shows segment before memory picture
    → d.x < 320
    → d.y < 200
    → Shows segment before (poke memory (segment + 320 * d.y + d.x) d.color) (draw picture d)
unfolding poke draw
poke-Shows segment before memory picture d v column row = record {
  inside = λ x y lt lt'. ground (arith, v.inside x y lt lt');
  below = λ q lt. ground (arith, v.below q lt);
  above = λ q le. ground (arith, v.above q le);
}

draw-outside :
    (picture : Picture) (d : Pixel) (x y : ℕ)
    → (is_negative d.x || leb 320 d.x) || (is_negative d.y || leb 200 d.y) ≡ true
    → draw picture d x y ≡ picture x y
unfolding draw
draw-outside picture d x y e = ground (arith, e)

module _ (p : Ports) where
  open p use {State, in8, out8}

  -- The graphics controller answers `v` for its register 6, in the states of `Ready` and after
  -- every access.
  pub record IsMapped (Ready : State → Type 0) (v : ℕ) : Type 0 where
    pub answer : (s : State) → Ready s → (in8 (out8 s 0x3CE 0x06) 0x3CF).0 ≡ v
    pub still : (s : State) → Ready s → Ready (in8 (out8 s 0x3CE 0x06) 0x3CF).1

  pub put_pixels : Bytes × State → List Pixel → Bytes × State
  put_pixels c [] = c
  put_pixels c (d ∷ ds) = put_pixels (put_pixel p c d.x d.y d.color) ds

  abbrev pub base : ℕ → ℕ
  base v = segment_address (bit_and v 12)

  module _ (Ready : State → Type 0) (v : ℕ) (mapped : IsMapped Ready v) where
    record Drawn (before : Bytes) (picture : Picture) (c : Bytes × State) : Type 0 where
      shows : Shows (base v) before c.0 picture
      ready : Ready c.1

    put_pixel-Drawn :
        (before : Bytes) (picture : Picture) (c : Bytes × State) (d : Pixel)
        → Drawn before picture c
        → Drawn before (draw picture d) (put_pixel p c d.x d.y d.color)
    unfolding put_pixel get_frame_buffer_segment
    put_pixel-Drawn before picture (memory, s) d w =
        elim (Bool-cases ((is_negative d.x || leb 320 d.x) || (is_negative d.y || leb 200 d.y))) [
          | inl e ↦ rw e (record {
            shows = record {
              inside = λ x y lt lt'. w.shows.inside x y lt lt' ∙ sym (draw-outside picture d x y e);
              below = w.shows.below;
              above = w.shows.above;
            };
            ready = w.ready;
          })
          | inr n ↦ rw n (record {
            shows = rw (mapped.answer s w.ready) (
                poke-Shows (base v) before memory picture d w.shows (ground (arith, n))
                  (ground (arith, n)));
            ready = mapped.still s w.ready;
          })
        ]

    put_pixels-Drawn :
        (before : Bytes) (picture : Picture) (ds : List Pixel) (c : Bytes × State)
        → Drawn before picture c
        → Drawn before (draw_all picture ds) (put_pixels c ds)
    unfolding draw_all put_pixels
    put_pixels-Drawn before picture [] c w = w
    put_pixels-Drawn before picture (d ∷ ds) c w =
        put_pixels-Drawn before (draw picture d) ds (put_pixel p c d.x d.y d.color)
          (put_pixel-Drawn before picture c d w)

    -- On a card that answers the same value for register 6 of the graphics controller, after
    -- any calls of PutPixel the frame buffer shows the picture in which the pixels inside 320
    -- by 200 are drawn in their order and those outside are left out, and no byte below the
    -- frame buffer or beyond its 64000 bytes has changed.
    pub put_pixels_refines :
        (memory : Bytes) (s : State) (ds : List Pixel)
        → Ready s
        → Shows (base v) memory (put_pixels (memory, s) ds).0 (draw_all (shown (base v) memory) ds)
    put_pixels_refines memory s ds ready =
        (put_pixels-Drawn memory (shown (base v) memory) ds (memory, s) start).shows
      where
        start : Drawn memory (shown (base v) memory) (memory, s)
        start = record {
          shows = record {
            inside = λ x y lt lt'. refl;
            below = λ q lt. refl;
            above = λ q le. refl;
          };
          ready = ready;
        }
