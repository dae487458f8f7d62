-- ===== src/Graphics/Mode.antt =====
-- SetMode leaves the mode's table in the card's registers.
use hydra_os.Common.{
  ℕ, ◌+◌, ◌<◌, ◌≡◌, ◌∙◌, refl, sym, ap, subst, Bool, true, false, not, ◌&&◌, List, get_or, drop,
  ◌==◌, if◌then◌else◌, arith,
}
use hydra_os.Common.Table.{each_below, each_below_lem}
use hydra_os.Ports.{Ports}
use hydra_os.Graphics.{
  mode_registers, unlock, write_indexed, write_attributes, unlock_crtc, write_registers, set_mode,
  supports_mode,
}
use hydra_os.Graphics.Registers.{
  Card, write_sequencer, write_crtc, write_graphics, write_attribute, fill, IsCard,
  write_indexed-fill, write_attributes-fill, unlock_crtc-view,
}

-- The registers hold the values of the mode's table.
pub record HasMode (c : Card) : Type 0 where
  pub misc : c.misc ≡ 0x63
  pub sequencer : (i : ℕ) → i < 5 → c.sequencer i ≡ get_or mode_registers (1 + i) 0
  pub crtc : (i : ℕ) → i < 25 → c.crtc i ≡ get_or mode_registers (6 + i) 0
  pub graphics : (i : ℕ) → i < 9 → c.graphics i ≡ get_or mode_registers (31 + i) 0
  pub attribute : (i : ℕ) → i < 21 → c.attribute i ≡ get_or mode_registers (40 + i) 0
  pub shown : c.blank ≡ false

-- A check of the first registers.
agree : (n : ℕ) (f g : ℕ → ℕ) → each_below (λ i. f i == g i) n ≡ true → (i : ℕ) → i < n → f i ≡ g i
agree n f g all i lt = let e = each_below_lem (λ i. f i == g i) n i lt all in ground (arith, e)

-- What the writes come to, after the first two steps.
abbrev filled : Card → Card
filled c =
    let crtc = unlock (drop 6 mode_registers) in
    record (fill write_attribute 21 0 (drop 34 crtc)
      (fill write_graphics 9 0 (drop 25 crtc) (fill write_crtc 25 0 crtc c))) { blank = false }

abbrev begun : Card → Card
begun c = fill write_sequencer 5 0 (drop 1 mode_registers) (record c { misc = 0x63 })

filled-HasMode :
    (c : Card) (f : ℕ → ℕ) → HasMode (filled (record (begun c) { crtc = f; protected = false }))
unfolding fill unlock each_below
filled-HasMode c f = record {
  misc = refl;
  sequencer = agree 5 _ _ refl;
  crtc = agree 25 _ _ refl;
  graphics = agree 9 _ _ refl;
  attribute = agree 21 _ _ refl;
  shown = refl;
}

module _ (p : Ports) where
  open p use {State, in8, out8}

  module _ (view : State → Card) (card : IsCard p view) where
    begun-view :
        (s : State)
        → view (write_indexed p 5 0 0x3C4 0x3C5 (drop 1 mode_registers) (out8 s 0x3C2 0x63))
          ≡ begun (view s)
    begun-view s =
        write_indexed-fill p view card write_sequencer 0x3C4 0x3C5 card.view-sequencer 5 0
          (drop 1 mode_registers) (out8 s 0x3C2 0x63)
        ∙ ap (fill write_sequencer 5 0 (drop 1 mode_registers)) (card.view-misc s 0x63)

    write_registers-view :
        (s : State)
        → (f : ℕ → ℕ) × (view (write_registers p mode_registers s)
            ≡ filled (record (begun (view s)) { crtc = f; protected = false }))
    unfolding write_registers
    write_registers-view s = (
      unlocked.0,
      card.view-unblank s5
          ∙ ap (λ (c : Card). record c { blank = false })
              (write_attributes-fill p view card 21 0 (drop 34 crtc) s4 (omega arith)
                ∙ ap (fill write_attribute 21 0 (drop 34 crtc)) (
                    write_indexed-fill p view card write_graphics 0x3CE 0x3CF card.view-graphics 9 0
                      (drop 25 crtc) s3
                    ∙ ap (fill write_graphics 9 0 (drop 25 crtc)) (
                        write_indexed-fill p view card write_crtc 0x3D4 0x3D5 card.view-crtc 25 0
                          crtc s2
                        ∙ ap (fill write_crtc 25 0 crtc) (
                            unlocked.1
                            ∙ ap (λ (c : Card). record c { crtc = unlocked.0; protected = false })
                                (begun-view s))))),
    )
      where
        crtc : List ℕ
        crtc = unlock (drop 6 mode_registers)

        s1 : State
        s1 = write_indexed p 5 0 0x3C4 0x3C5 (drop 1 mode_registers) (out8 s 0x3C2 0x63)

        unlocked :
            (f : ℕ → ℕ) × (view (unlock_crtc p s1)
              ≡ record (view s1) { crtc = f; protected = false })
        unlocked = unlock_crtc-view p view card s1

        s2 : State
        s2 = unlock_crtc p s1

        s3 : State
        s3 = write_indexed p 25 0 0x3D4 0x3D5 crtc s2

        s4 : State
        s4 = write_indexed p 9 0 0x3CE 0x3CF (drop 25 crtc) s3

        s5 : State
        s5 = write_attributes p 21 0 (drop 34 crtc) s4

    -- What SetMode does on a mode, by whether it is supported.
    pub SetsMode : Bool → State → Bool × State → Type 0
    SetsMode true s r = (r.0 ≡ true) × HasMode (view r.1)
    SetsMode false s r = r ≡ (false, s)

    -- On a card whose registers follow the documented ports, also where the first CRTC
    -- registers are protected, SetMode of 320 by 200 with 8 bits answers true and leaves the
    -- mode's table in the card's miscellaneous, sequencer, CRTC, graphics and attribute
    -- registers, with the screen shown; for every other mode it answers false and touches no
    -- port.
    pub set_mode-SetsMode :
        (width height color_depth : ℕ) (s : State)
        → SetsMode
            ((width == 320) && ((height == 200) && (color_depth == 8)))
            s
            (set_mode p width height color_depth s)
    unfolding set_mode supports_mode SetsMode
    set_mode-SetsMode width height color_depth s =
        by_cases ((width == 320) && ((height == 200) && (color_depth == 8)))
      where
        by_cases :
            (b : Bool)
            → SetsMode b s
                (if not b then (false, s) else (true, write_registers p mode_registers s))
        by_cases true = (
          refl,
          subst HasMode (sym (write_registers-view s).1)
              (filled-HasMode (view s) (write_registers-view s).0),
        )
        by_cases false = refl
