-- ===== src/Mouse/Buttons.antt =====
-- The handler hears of every press and every release.
use hydra_os.Common.{
  ℕ, zero, suc, ◌+◌, ◌<◌, ◌≡◌, ◌≢◌, ◌∙◌, refl, ap, Bool, true, false, List, [], ◌∷◌, ◌++◌, ◌==◌,
  if◌then◌else◌, arith,
}
use hydra_os.Mouse.{
  activated, activate, Event, activate, move, down, up, MouseDriver, bit, button_event,
  button_events, move_event, handle_interrupt,
}

-- A handler that keeps the state of button `n`, from the calls that it gets.
pub tracked : ℕ → Bool → List Event → Bool
tracked n held [] = held
tracked n held (activate ∷ es) = tracked n held es
tracked n held (move x y ∷ es) = tracked n held es
tracked n held (down k ∷ es) = tracked n (if k == n then true else held) es
tracked n held (up k ∷ es) = tracked n (if k == n then false else held) es

tracked-append :
    (n : ℕ) (es fs : List Event) (held : Bool)
    → tracked n held (es ++ fs) ≡ tracked n (tracked n held es) fs
unfolding tracked
tracked-append n [] fs held = refl
tracked-append n (activate ∷ es) fs held = tracked-append n es fs held
tracked-append n (move x y ∷ es) fs held = tracked-append n es fs held
tracked-append n (down k ∷ es) fs held = tracked-append n es fs (if k == n then true else held)
tracked-append n (up k ∷ es) fs held = tracked-append n es fs (if k == n then false else held)

tracked-button_event_self :
    (now before i : ℕ) → tracked (i + 1) (bit before i) (button_event now before i) ≡ bit now i
unfolding tracked button_event
tracked-button_event_self now before i = picks (bit now i) (bit before i) refl refl
  where
    picks :
        (a b : Bool)
        → bit now i ≡ a
        → bit before i ≡ b
        → tracked
            (i + 1)
            b
            (if a then (if b then [] else down (i + 1) ∷ []) else if b then up (i + 1) ∷ [] else [])
          ≡ a
    picks true true p q = refl
    picks true false p q = ground arith
    picks false true p q = ground arith
    picks false false p q = refl

tracked-button_event_ne :
    (now before i n : ℕ) (held : Bool)
    → n ≢ i + 1
    → tracked n held (button_event now before i) ≡ held
unfolding tracked button_event
tracked-button_event_ne now before i n held ne = picks (bit now i) (bit before i)
  where
    picks :
        (a b : Bool)
        → tracked n held
            (if a then (if b then [] else down (i + 1) ∷ []) else if b then up (i + 1) ∷ [] else [])
          ≡ held
    picks true true = refl
    picks true false = ground arith
    picks false true = ground arith
    picks false false = refl

tracked-move_event :
    (n : ℕ) (held : Bool) (buffer : List ℕ) → tracked n held (move_event buffer) ≡ held
unfolding tracked move_event
tracked-move_event n held buffer = ground arith

-- The calls for a packet leave the handler with the bit of the button.
tracked-button_events :
    (now before i : ℕ)
    → i < 3
    → tracked (i + 1) (bit before i) (button_events now before) ≡ bit now i
unfolding button_events
tracked-button_events now before zero lt =
    tracked-append 1 (button_event now before 0) _ (bit before 0)
    ∙ ap (λ b. tracked 1 b (button_event now before 1 ++ button_event now before 2))
        (tracked-button_event_self now before 0)
    ∙ tracked-append 1 (button_event now before 1) _ (bit now 0)
    ∙ ap (λ b. tracked 1 b (button_event now before 2))
        (tracked-button_event_ne now before 1 1 _ (λ e. absurd (omega arith)))
    ∙ tracked-button_event_ne now before 2 1 _ (λ e. absurd (omega arith))
tracked-button_events now before (suc zero) lt =
    tracked-append 2 (button_event now before 0) _ (bit before 1)
    ∙ ap (λ b. tracked 2 b (button_event now before 1 ++ button_event now before 2))
        (tracked-button_event_ne now before 0 2 _ (λ e. absurd (omega arith)))
    ∙ tracked-append 2 (button_event now before 1) _ (bit before 1)
    ∙ ap (λ b. tracked 2 b (button_event now before 2)) (tracked-button_event_self now before 1)
    ∙ tracked-button_event_ne now before 2 2 _ (λ e. absurd (omega arith))
tracked-button_events now before (suc (suc zero)) lt =
    tracked-append 3 (button_event now before 0) _ (bit before 2)
    ∙ ap (λ b. tracked 3 b (button_event now before 1 ++ button_event now before 2))
        (tracked-button_event_ne now before 0 3 _ (λ e. absurd (omega arith)))
    ∙ tracked-append 3 (button_event now before 1) _ (bit before 2)
    ∙ ap (λ b. tracked 3 b (button_event now before 2))
        (tracked-button_event_ne now before 1 3 _ (λ e. absurd (omega arith)))
    ∙ tracked-button_event_self now before 2
tracked-button_events now before (suc (suc (suc i))) lt = absurd (omega arith)

-- The interrupts of a list of pairs of status and byte.
pub deliver : MouseDriver → List (ℕ × ℕ) → MouseDriver × List Event
unfolding handle_interrupt
deliver d [] = (d, [])
deliver d ((status, byte) ∷ bytes) =
    let (d', es) = handle_interrupt d status byte in
    let (d'', fs) = deliver d' bytes in (d'', es ++ fs)

append_nil : (es : List Event) → es ++ [] ≡ es
append_nil [] = refl
append_nil (e ∷ es) = ap (λ r. e ∷ r) (append_nil es)

-- A driver between two packets.
abbrev pub ready : ℕ → ℕ → ℕ → ℕ → MouseDriver
ready x y z buttons = record {
  has_handler = true;
  buffer = x ∷ y ∷ z ∷ [];
  offset = 0;
  buttons = buttons;
}

deliver-packet :
    (x y z buttons s t u a b c : ℕ)
    → bit s 5 ≡ true
    → bit t 5 ≡ true
    → bit u 5 ≡ true
    → deliver (ready x y z buttons) ((s, a) ∷ (t, b) ∷ (u, c) ∷ [])
      ≡ (ready a b c a, move_event (a ∷ b ∷ c ∷ []) ++ button_events a buttons)
unfolding deliver handle_interrupt move_event button_events
deliver-packet x y z buttons s t u a b c hs ht hu =
    rw (hs, ht, hu)
      (ap (λ es. (ready a b c a, es))
        (append_nil (move_event (a ∷ b ∷ c ∷ []) ++ button_events a buttons)))

-- After the three bytes of a packet, each with the mouse bit of the status set, a driver with a
-- handler that was between two packets is between two packets again, with the buttons of the
-- first byte; and a handler that knew the state of each of the three buttons and follows its
-- calls knows the new state.
pub deliver_lem :
    (x y z buttons s t u a b c i : ℕ)
    → bit s 5 ≡ true
    → bit t 5 ≡ true
    → bit u 5 ≡ true
    → i < 3
    → (let r = deliver (ready x y z buttons) ((s, a) ∷ (t, b) ∷ (u, c) ∷ []) in
        (r.0 ≡ ready a b c a) × (tracked (i + 1) (bit buttons i) r.1 ≡ bit a i))
deliver_lem x y z buttons s t u a b c i hs ht hu lt =
    let e = deliver-packet x y z buttons s t u a b c hs ht hu in
    (
      ap (λ (r : MouseDriver × List Event). r.0) e,
      ap (λ (r : MouseDriver × List Event). tracked (i + 1) (bit buttons i) r.1) e
          ∙ tracked-append (i + 1) (move_event (a ∷ b ∷ c ∷ [])) (button_events a buttons)
              (bit buttons i)
          ∙ ap (λ h. tracked (i + 1) h (button_events a buttons))
              (tracked-move_event (i + 1) (bit buttons i) (a ∷ b ∷ c ∷ []))
          ∙ tracked-button_events a buttons i lt,
    )

pub activated-events : (d : MouseDriver) → d.has_handler ≡ true → (activated d).1 ≡ activate ∷ []
unfolding activated
activated-events d e = ground (arith, e)
