-- ===== src/Controller/Activation.antt =====
-- What the two drivers leave of a controller.
use Prim.Native.Nat.{bit_and, bit_or}
use hydra_os.Common.{
  ℕ, ◌≤◌, ◌<◌, ◌≡◌, ◌∙◌, refl, sym, ap, subst, true, false, Option, some, List, [], ◌∷◌, ◌++◌,
  length, drop, arith,
}
use hydra_os.Ports.{Ports}
use hydra_os.Controller.{
  clear_output, wait_output, read_command_byte, enable_keyboard, activate_keyboard, enable_mouse,
  activate_mouse,
}
use hydra_os.Controller.Protocol.{
  View, IsController, Leaves, clear_output-Leaves, wait_output-Leaves,
}

-- The command byte with the keyboard's interrupt and clock on, and with the mouse's.
abbrev pub with_keyboard : ℕ → ℕ
with_keyboard b = bit_and (bit_or (bit_and b 0xEF) 1) 0xEF

abbrev pub with_mouse : ℕ → ℕ
with_mouse b = bit_or (bit_and b 0xDF) 2

module _ (p : Ports) where
  open p use {State, in8, out8}

  module _ (view : State → View) (c : IsController p view) where
    -- The controller at rest with the command byte `b`, and with `bs` to be read.
    abbrev pub holding : List ℕ → ℕ → View
    holding bs b = record { output = bs; command_byte = b; writing = false }

    read_command_byte-Leaves :
        (fuel enable b b' : ℕ) (s : State)
        → view s ≡ holding [] b
        → view (out8 s 0x64 enable) ≡ record (view s) { command_byte = b' }
        → 0 < fuel
        → Leaves p view c (read_command_byte p fuel enable (some s)) (holding (b' ∷ []) b')
    unfolding read_command_byte
    read_command_byte-Leaves fuel enable b b' s at enabled lt = record {
      state = r.state;
      returns = r.returns;
      shows = r.shows ∙ asked;
    }
      where
        asked : view (out8 (out8 s 0x64 enable) 0x64 0x20) ≡ holding (b' ∷ []) b'
        asked =
            c.view-ask (out8 s 0x64 enable)
            ∙ ap (λ (v : View). record v { output = v.output ++ v.command_byte ∷ [] })
                (enabled ∙ ap (λ (v : View). record v { command_byte = b' }) at)

        r :
            Leaves p view c
              (wait_output p fuel (out8 (out8 s 0x64 enable) 0x64 0x20))
              (view (out8 (out8 s 0x64 enable) 0x64 0x20))
        r = wait_output-Leaves p view c fuel _ b' [] (ap (λ v. v.output) asked) lt

    -- A controller at rest with a command byte, and at most one answer of a device.
    pub record Rests (o : Option State) (b : ℕ) : Type 0 where
      pub state : State
      pub returns : o ≡ some state
      pub byte : (view state).command_byte ≡ b
      pub idle : (view state).writing ≡ false
      pub few : length (view state).output ≤ 1

    -- The byte read, and a new command byte written.
    view-rewrite :
        (s : State) (b v : ℕ)
        → view s ≡ holding (b ∷ []) b
        → view (out8 (out8 (in8 s 0x60).1 0x64 0x60) 0x60 v) ≡ holding [] v
    view-rewrite s b v at =
        c.view-store (out8 (in8 s 0x60).1 0x64 0x60) v (ap (λ w. w.writing) put)
        ∙ ap (λ (w : View). record w { command_byte = v; writing = false }) put
      where
        put :
            view (out8 (in8 s 0x60).1 0x64 0x60)
            ≡ record { output = []; command_byte = b; writing = true }
        put =
            c.view-put (in8 s 0x60).1
            ∙ ap (λ (w : View). record w { writing = true }) (c.view-data s)
            ∙ ap (λ (w : View). record w { output = drop 1 w.output; writing = true }) at

    enable_keyboard-Rests :
        (s : State) (b : ℕ)
        → view s ≡ holding (b ∷ []) b
        → Rests (enable_keyboard p (some s)) (bit_and (bit_or b 1) 0xEF)
    unfolding enable_keyboard
    enable_keyboard-Rests s b at = record {
      state = _;
      returns = refl;
      byte = ap (λ v. v.command_byte) end ∙ ap (λ v. bit_and (bit_or v 1) 0xEF) read;
      idle = ap (λ v. v.writing) end;
      few = subst (λ v. length v.output ≤ 1) (sym end) answer.1;
    }
      where
        read : (in8 s 0x60).0 ≡ b
        read = c.first_byte s b [] (ap (λ v. v.output) at)

        status : ℕ
        status = bit_and (bit_or (in8 s 0x60).0 1) 0xEF

        written : State
        written = out8 (out8 (in8 s 0x60).1 0x64 0x60) 0x60 status

        at_rest : view written ≡ holding [] status
        at_rest = view-rewrite s b status at

        answer :
            (bs : List ℕ) × (length bs ≤ 1)
            × (view (out8 written 0x60 0xF4)
                ≡ record (view written) { output = (view written).output ++ bs })
        answer = c.view-device written 0xF4 (ap (λ v. v.writing) at_rest)

        end : view (out8 written 0x60 0xF4) ≡ holding answer.0 status
        end = answer.2 ∙ ap (λ (v : View). record v { output = v.output ++ answer.0 }) at_rest

    enable_mouse-Rests :
        (s : State) (b : ℕ)
        → view s ≡ holding (b ∷ []) b
        → Rests (enable_mouse p (some s)) (bit_or b 2)
    unfolding enable_mouse
    enable_mouse-Rests s b at = record {
      state = _;
      returns = refl;
      byte = ap (λ v. v.command_byte) end ∙ ap (λ v. bit_or v 2) read;
      idle = ap (λ v. v.writing) end;
      few = subst (λ v. length v.output ≤ 1) (sym end) (drop-le answer.0 answer.1);
    }
      where
        read : (in8 s 0x60).0 ≡ b
        read = c.first_byte s b [] (ap (λ v. v.output) at)

        status : ℕ
        status = bit_or (in8 s 0x60).0 2

        written : State
        written = out8 (out8 (out8 (in8 s 0x60).1 0x64 0x60) 0x60 status) 0x64 0xD4

        at_rest : view written ≡ holding [] status
        at_rest = c.view-prefix _ ∙ view-rewrite s b status at

        answer :
            (bs : List ℕ) × (length bs ≤ 1)
            × (view (out8 written 0x60 0xF4)
                ≡ record (view written) { output = (view written).output ++ bs })
        answer = c.view-device written 0xF4 (ap (λ v. v.writing) at_rest)

        end : view (in8 (out8 written 0x60 0xF4) 0x60).1 ≡ holding (drop 1 answer.0) status
        end =
            c.view-data (out8 written 0x60 0xF4)
            ∙ ap (λ (v : View). record v { output = drop 1 v.output })
                (answer.2 ∙ ap (λ (v : View). record v { output = v.output ++ answer.0 }) at_rest)

        drop-le : (bs : List ℕ) → length bs ≤ 1 → length (drop 1 bs) ≤ 1
        drop-le [] le = omega arith
        drop-le (b ∷ bs) le = omega arith

    -- The command byte is read after a command that changes it by `f`.
    asked-Leaves :
        (fuel enable : ℕ) (f : ℕ → ℕ) (s : State)
        → ((t : State)
            → view (out8 t 0x64 enable)
              ≡ record (view t) { command_byte = f (view t).command_byte })
        → (view s).writing ≡ false
        → length (view s).output < fuel
        → Leaves p view c
            (read_command_byte p fuel enable (clear_output p fuel s))
            (holding (f (view s).command_byte ∷ []) (f (view s).command_byte))
    asked-Leaves fuel enable f s changes idle lt = record {
      state = r.state;
      returns = ap (read_command_byte p fuel enable) cleared.returns ∙ r.returns;
      shows = r.shows;
    }
      where
        b : ℕ
        b = (view s).command_byte

        cleared : Leaves p view c (clear_output p fuel s) (record (view s) { output = [] })
        cleared = clear_output-Leaves p view c fuel s (view s).output refl lt

        at : view cleared.state ≡ holding [] b
        at = cleared.shows ∙ ap (λ w. record { output = []; command_byte = b; writing = w }) idle

        r :
            Leaves p view c
              (read_command_byte p fuel enable (some cleared.state))
              (holding (f b ∷ []) (f b))
        r =
            read_command_byte-Leaves fuel enable b (f b) cleared.state at
              (changes cleared.state
                ∙ ap (λ n. record (view cleared.state) { command_byte = f n })
                    (ap (λ v. v.command_byte) at))
              (omega arith)

    pub activate_keyboard-Rests :
        (fuel : ℕ) (s : State)
        → (view s).writing ≡ false
        → length (view s).output < fuel
        → Rests (activate_keyboard p fuel s) (with_keyboard (view s).command_byte)
    unfolding activate_keyboard
    activate_keyboard-Rests fuel s idle lt =
        let asked = asked-Leaves fuel 0xAE (λ b. bit_and b 0xEF) s c.view-keyboard idle lt in
        subst (λ o. Rests o (with_keyboard (view s).command_byte))
          (sym (ap (enable_keyboard p) asked.returns))
          (enable_keyboard-Rests asked.state (bit_and (view s).command_byte 0xEF) asked.shows)

    pub activate_mouse-Rests :
        (fuel : ℕ) (s : State)
        → (view s).writing ≡ false
        → length (view s).output < fuel
        → Rests (activate_mouse p fuel s) (with_mouse (view s).command_byte)
    unfolding activate_mouse
    activate_mouse-Rests fuel s idle lt =
        let asked = asked-Leaves fuel 0xA8 (λ b. bit_and b 0xDF) s c.view-mouse idle lt in
        subst (λ o. Rests o (with_mouse (view s).command_byte))
          (sym (ap (enable_mouse p) asked.returns))
          (enable_mouse-Rests asked.state (bit_and (view s).command_byte 0xDF) asked.shows)

    -- On a controller that answers as documented and does not wait for a command byte, with
    -- rounds for the bytes that are left in it and one more, and at least two, Activate of the
    -- keyboard driver and then that of the mouse driver end: the command byte is then the old
    -- one as the two drivers have changed it, the controller again does not wait for one, and
    -- at most one byte is left in it.
    pub activate_mouse-activate_keyboard :
        (fuel : ℕ) (s : State)
        → (view s).writing ≡ false
        → length (view s).output < fuel
        → 1 < fuel
        → (s' : State) × (activate_keyboard p fuel s ≡ some s')
          × Rests (activate_mouse p fuel s') (with_mouse (with_keyboard (view s).command_byte))
    activate_mouse-activate_keyboard fuel s idle lt more =
        let k = activate_keyboard-Rests fuel s idle lt in
        (
          k.state,
          k.returns,
          subst (λ b. Rests (activate_mouse p fuel k.state) (with_mouse b)) k.byte
              (activate_mouse-Rests fuel k.state k.idle (omega (arith, k.few))),
        )
