-- ===== src/Graphics/Registers.antt =====
-- The card's registers, and the writes of a list to them.
use Prim.Native.Nat.{bit_and, bit_or}
use hydra_os.Common.{
  ℕ, zero, suc, ◌+◌, ◌<◌, ◌≤◌, ◌≡◌, ◌∙◌, refl, ap, Bool, true, false, not, ◌&&◌, List, get_or, drop,
  ltb, ◌==◌, if◌then◌else◌, arith,
}
use hydra_os.Common.Table.{each_below, each_below_lem}
use hydra_os.Ports.{Ports}
use hydra_os.Graphics.{write_indexed, write_attributes, unlock_crtc}

-- The registers that the ports reach; `protected` is bit 7 of CRTC register 0x11, which protects
-- the first eight.
pub record Card : Type 0 where
  pub misc : ℕ
  pub sequencer : ℕ → ℕ
  pub crtc : ℕ → ℕ
  pub protected : Bool
  pub graphics : ℕ → ℕ
  pub attribute : ℕ → ℕ
  pub blank : Bool

abbrev pub put : (ℕ → ℕ) → ℕ → ℕ → ℕ → ℕ
put f i v j = if j == i then v else f j

abbrev pub write_sequencer : Card → ℕ → ℕ → Card
write_sequencer c i v = record c { sequencer = put c.sequencer i v }

abbrev pub write_crtc : Card → ℕ → ℕ → Card
write_crtc c i v =
    if i == 0x11
    then record c { crtc = put c.crtc i v; protected = not (bit_and v 0x80 == 0) }
    else if c.protected && ltb i 8
    then c
    else record c { crtc = put c.crtc i v }

abbrev pub write_graphics : Card → ℕ → ℕ → Card
write_graphics c i v = record c { graphics = put c.graphics i v }

-- An index below 32 takes the palette from the screen.
abbrev pub write_attribute : Card → ℕ → ℕ → Card
write_attribute c i v = record c { attribute = put c.attribute i v; blank = true }

-- The registers from `i` on, `n` of them, take the values of a list.
unfoldable pub fill : (Card → ℕ → ℕ → Card) → ℕ → ℕ → List ℕ → Card → Card
fill write zero i values c = c
fill write (suc n) i values c = fill write n (i + 1) (drop 1 values) (write c i (get_or values 0 0))

module _ (p : Ports) where
  open p use {State, in8, out8}

  -- A card with its registers behind index and data ports.
  pub record IsCard (view : State → Card) : Type 0 where
    pub view-misc : (s : State) (v : ℕ) → view (out8 s 0x3C2 v) ≡ record (view s) { misc = v }
    pub view-sequencer :
        (s : State) (i v : ℕ) → view (out8 (out8 s 0x3C4 i) 0x3C5 v) ≡ write_sequencer (view s) i v
    pub view-crtc :
        (s : State) (i v : ℕ) → view (out8 (out8 s 0x3D4 i) 0x3D5 v) ≡ write_crtc (view s) i v
    -- A read between the two does not matter, and gives a byte.
    pub view-crtc_read :
        (s : State) (i v : ℕ)
        → view (out8 (in8 (out8 s 0x3D4 i) 0x3D5).1 0x3D5 v) ≡ write_crtc (view s) i v
    pub crtc_byte : (s : State) (i : ℕ) → (in8 (out8 s 0x3D4 i) 0x3D5).0 < 256
    pub view-graphics :
        (s : State) (i v : ℕ) → view (out8 (out8 s 0x3CE i) 0x3CF v) ≡ write_graphics (view s) i v
    pub view-attribute :
        (s : State) (i v : ℕ)
        → i < 32
        → view (out8 (out8 (in8 s 0x3DA).1 0x3C0 i) 0x3C0 v) ≡ write_attribute (view s) i v
    -- Index 0x20 gives the palette back to the screen.
    pub view-unblank :
        (s : State) → view (out8 (in8 s 0x3DA).1 0x3C0 0x20) ≡ record (view s) { blank = false }

  module _ (view : State → Card) (card : IsCard view) where
    pub write_indexed-fill :
        (write : Card → ℕ → ℕ → Card) (index_port data_port : ℕ)
        → ((s : State) (i v : ℕ)
            → view (out8 (out8 s index_port i) data_port v) ≡ write (view s) i v)
        → (n i : ℕ) (values : List ℕ) (s : State)
        → view (write_indexed p n i index_port data_port values s) ≡ fill write n i values (view s)
    unfolding write_indexed fill
    write_indexed-fill write ip dp law zero i values s = refl
    write_indexed-fill write ip dp law (suc n) i values s =
        write_indexed-fill write ip dp law n (i + 1) (drop 1 values) _
        ∙ ap (fill write n (i + 1) (drop 1 values)) (law s i (get_or values 0 0))

    pub write_attributes-fill :
        (n i : ℕ) (values : List ℕ) (s : State)
        → i + n ≤ 32
        → view (write_attributes p n i values s) ≡ fill write_attribute n i values (view s)
    unfolding write_attributes fill
    write_attributes-fill zero i values s le = refl
    write_attributes-fill (suc n) i values s le =
        write_attributes-fill n (i + 1) (drop 1 values) _ (omega arith)
        ∙ ap (fill write_attribute n (i + 1) (drop 1 values))
            (card.view-attribute s i (get_or values 0 0) (omega arith))

    low_bits : (v : ℕ) → v < 256 → (bit_and (bit_and v 0x7F) 0x80 == 0) ≡ true
    low_bits v lt =
        each_below_lem (λ v. bit_and (bit_and v 0x7F) 0x80 == 0) 256 v lt
          (unfold each_below in refl)

    either_crtc :
        (b : Bool) (c : Card) (f : ℕ → ℕ)
        → (g : ℕ → ℕ) × ((if b then c else record c { crtc = f }) ≡ record c { crtc = g })
    either_crtc true c f = (c.crtc, refl)
    either_crtc false c f = (f, refl)

    -- The CRTC registers that unlocking leaves, and nothing else changed.
    pub unlock_crtc-view :
        (s : State)
        → (f : ℕ → ℕ) × (view (unlock_crtc p s) ≡ record (view s) { crtc = f; protected = false })
    unfolding unlock_crtc
    unlock_crtc-view s = (
      f,
      card.view-crtc_read a 0x11 w
          ∙ ap (λ b. record (view a) { crtc = f; protected = not b })
              (low_bits (in8 (out8 a 0x3D4 0x11) 0x3D5).0 (card.crtc_byte a 0x11))
          ∙ ap (λ (c : Card). record c { crtc = f; protected = false })
              (card.view-crtc_read s 0x03 v ∙ touched.1),
    )
      where
        v : ℕ
        v = bit_or (in8 (out8 s 0x3D4 0x03) 0x3D5).0 0x80

        a : State
        a = out8 (in8 (out8 s 0x3D4 0x03) 0x3D5).1 0x3D5 v

        w : ℕ
        w = bit_and (in8 (out8 a 0x3D4 0x11) 0x3D5).0 0x7F

        f : ℕ → ℕ
        f = put (view a).crtc 0x11 w

        touched : (g : ℕ → ℕ) × (write_crtc (view s) 0x03 v ≡ record (view s) { crtc = g })
        touched = either_crtc ((view s).protected && true) (view s) (put (view s).crtc 0x03 v)
