-- ===== src/Controller/Protocol.antt =====
-- A controller that answers, and what the two drivers leave of it.
use Prim.Native.Nat.{bit_and}
use hydra_os.Common.{
  ℕ, zero, suc, ◌%◌, ◌≤◌, ◌<◌, ◌≡◌, ◌∙◌, refl, ap, Bool, true, false, Option, some, List, [], ◌∷◌,
  ◌++◌, length, drop, ◌==◌, arith,
}
use hydra_os.Ports.{Ports}
use hydra_os.Controller.{clear_output, wait_output}

-- The bytes that wait to be read, the command byte, and whether the next byte to the data port is
-- a new command byte.
pub record View : Type 0 where
  pub output : List ℕ
  pub command_byte : ℕ
  pub writing : Bool

-- Bit 0 of the status.
abbrev pub full : List ℕ → ℕ
full [] = 0
full (b ∷ bs) = 1

module _ (p : Ports) where
  open p use {State, in8, out8}

  -- A controller whose devices send nothing of themselves meanwhile; a device answers a byte by at
  -- most one.
  pub record IsController (view : State → View) : Type 0 where
    pub status_bit : (s : State) → (in8 s 0x64).0 % 2 ≡ full (view s).output
    pub view-status : (s : State) → view (in8 s 0x64).1 ≡ view s
    pub first_byte :
        (s : State) (b : ℕ) (bs : List ℕ) → (view s).output ≡ b ∷ bs → (in8 s 0x60).0 ≡ b
    pub view-data :
        (s : State) → view (in8 s 0x60).1 ≡ record (view s) { output = drop 1 (view s).output }
    pub view-ask :
        (s : State)
        → view (out8 s 0x64 0x20)
          ≡ record (view s) { output = (view s).output ++ (view s).command_byte ∷ [] }
    pub view-put : (s : State) → view (out8 s 0x64 0x60) ≡ record (view s) { writing = true }
    pub view-store :
        (s : State) (v : ℕ)
        → (view s).writing ≡ true
        → view (out8 s 0x60 v) ≡ record (view s) { command_byte = v; writing = false }
    -- The commands that enable a port clear its bit of the command byte.
    pub view-keyboard :
        (s : State)
        → view (out8 s 0x64 0xAE)
          ≡ record (view s) { command_byte = bit_and (view s).command_byte 0xEF }
    pub view-mouse :
        (s : State)
        → view (out8 s 0x64 0xA8)
          ≡ record (view s) { command_byte = bit_and (view s).command_byte 0xDF }
    pub view-prefix : (s : State) → view (out8 s 0x64 0xD4) ≡ view s
    pub view-device :
        (s : State) (v : ℕ)
        → (view s).writing ≡ false
        → (bs : List ℕ) × (length bs ≤ 1)
          × (view (out8 s 0x60 v) ≡ record (view s) { output = (view s).output ++ bs })

  module _ (view : State → View) (c : IsController view) where
    -- A result with the view `v`.
    pub record Leaves (o : Option State) (v : View) : Type 0 where
      pub state : State
      pub returns : o ≡ some state
      pub shows : view state ≡ v

    is_full : (s : State) (n : ℕ) → full (view s).output ≡ n → ((in8 s 0x64).0 % 2 == 1) ≡ (n == 1)
    is_full s n e = ground (arith, c.status_bit s, e)

    -- A byte that is read from the data port, after the status.
    view-read :
        (s : State)
        → view (in8 (in8 s 0x64).1 0x60).1 ≡ record (view s) { output = drop 1 (view s).output }
    view-read s =
        c.view-data (in8 s 0x64).1
        ∙ ap (λ (v : View). record v { output = drop 1 v.output }) (c.view-status s)

    pub clear_output-Leaves :
        (fuel : ℕ) (s : State) (bs : List ℕ)
        → (view s).output ≡ bs
        → length bs < fuel
        → Leaves (clear_output p fuel s) (record (view s) { output = [] })
    unfolding clear_output
    clear_output-Leaves zero s bs e lt = absurd (omega arith)
    clear_output-Leaves (suc fuel) s [] e lt = rw (is_full s 0 (ap full e)) (record {
      state = (in8 s 0x64).1;
      returns = refl;
      shows = c.view-status s ∙ ap (λ o. record (view s) { output = o }) e;
    })
    clear_output-Leaves (suc fuel) s (b ∷ bs) e lt =
        let next = (in8 (in8 s 0x64).1 0x60).1 in
        let rest =
          clear_output-Leaves fuel next bs (ap (λ v. v.output) (view-read s) ∙ ap (drop 1) e)
            (omega arith) in
        rw (is_full s 1 (ap full e)) (record {
          state = rest.state;
          returns = rest.returns;
          shows = rest.shows ∙ ap (λ (v : View). record v { output = [] }) (view-read s);
        })

    pub wait_output-Leaves :
        (fuel : ℕ) (s : State) (b : ℕ) (bs : List ℕ)
        → (view s).output ≡ b ∷ bs
        → 0 < fuel
        → Leaves (wait_output p fuel s) (view s)
    unfolding wait_output
    wait_output-Leaves zero s b bs e lt = absurd (omega arith)
    wait_output-Leaves (suc fuel) s b bs e lt =
        rw (is_full s 1 (ap full e))
          (record { state = (in8 s 0x64).1; returns = refl; shows = c.view-status s })
