-- ===== src/Ata/Drive/Polling.antt =====
-- The loops that wait for the drive end in time.
use hydra_os.Common.{
  ℕ, zero, suc, ◌<◌, ◌≡◌, ◌∙◌, refl, sym, ap, subst, inl, inr, Bool, true, false, not, ◌&&◌, ltb,
  ◌==◌, if◌then◌else◌, arith, Bool-cases,
}
use hydra_os.Ports.{Ports}
use hydra_os.Ata.{
  Ata, has, poll_limit, is_busy, no_data, get_status, poll, wait_ready, wait_data, wait, wait_loop,
}
use hydra_os.Ata.Drive.{View, Phase, asks, IsDrive}

module _ (p : Ports) (ata : Ata) (d : IsDrive p ata) where
  open p use {State}
  open d use {view}

  -- A poll that ended in time, on a status without errors.
  record Polled (s : State) (r : ℕ × ℕ × State) : Type 0 where
    in_time : (r.1 == 0) ≡ false
    settled : view r.2 ≡ record (view s) { delay = 0 }
    no_error : has r.0 0x01 ≡ false
    no_fault : has r.0 0x20 ≡ false

  -- The test says of each status whether the drive is still busy, in the phase that `s` is in.
  Agrees : (ℕ → Bool) → Phase → Type 0
  Agrees test ph =
      (s : State) → (view s).phase ≡ ph → test (get_status p ata s).0 ≡ ltb 0 (view s).delay

  poll_step :
      (test : ℕ → Bool) (timeout status : ℕ) (s : State)
      → test status ≡ true
      → poll p ata test (suc timeout) status s
        ≡ poll p ata test timeout (get_status p ata s).0 (get_status p ata s).1
  unfolding poll
  poll_step test timeout status s e =
      ap
        (λ b.
          if b
          then poll p ata test timeout (get_status p ata s).0 (get_status p ata s).1
          else (status, suc timeout, s))
        e

  poll_stop :
      (test : ℕ → Bool) (timeout status : ℕ) (s : State)
      → test status ≡ false
      → poll p ata test (suc timeout) status s ≡ (status, suc timeout, s)
  unfolding poll
  poll_stop test timeout status s e =
      ap
        (λ b.
          if b
          then poll p ata test timeout (get_status p ata s).0 (get_status p ata s).1
          else (status, suc timeout, s))
        e

  -- From the status of the state before.
  poll_lem :
      (test : ℕ → Bool) (ph : Phase) (timeout : ℕ) (s : State)
      → Agrees test ph
      → (view s).phase ≡ ph
      → (view s).delay < timeout
      → Polled s (poll p ata test timeout (get_status p ata s).0 (get_status p ata s).1)
  unfolding Agrees
  poll_lem test ph zero s agrees e lt = absurd (omega arith)
  poll_lem test ph (suc timeout) s agrees e lt = elim (Bool-cases (ltb 0 (view s).delay)) [
    | inr over ↦ subst (Polled s) (sym (poll_stop test timeout _ _ (agrees s e ∙ over))) (record {
      in_time = ground arith;
      settled = d.status_view s ∙ ap (λ n. record (view s) { delay = n }) (ground (arith, over));
      no_error = d.status_error s;
      no_fault = d.status_fault s;
    })
    | inl more ↦
        let next = (get_status p ata s).1 in
        let rest =
          poll_lem test ph timeout next agrees (ap (λ (v : View). v.phase) (d.status_view s) ∙ e)
            (ground (arith, more, ap (λ (v : View). v.delay) (d.status_view s))) in
        subst (Polled s) (sym (poll_step test timeout _ _ (agrees s e ∙ more))) (record {
          in_time = rest.in_time;
          settled = rest.settled ∙ ap (λ (v : View). record v { delay = 0 }) (d.status_view s);
          no_error = rest.no_error;
          no_fault = rest.no_fault;
        })
  ]

  busy-Agrees : (ph : Phase) → Agrees is_busy ph
  unfolding Agrees is_busy
  busy-Agrees ph s e = d.status_busy s

  no_data-Agrees : (ph : Phase) → asks ph ≡ true → Agrees no_data ph
  unfolding Agrees no_data
  no_data-Agrees ph wants s e =
      ap not (d.status_data s ∙ ap (λ b. ((view s).delay == 0) && b) (ap asks e ∙ wants))
      ∙ flipped (view s).delay
    where
      flipped : (n : ℕ) → not ((n == 0) && true) ≡ ltb 0 n
      flipped n = ground arith

  -- Nothing but the delay changes, which is over.
  abbrev pub Settled : State → State → Type 0
  Settled s s' = view s' ≡ record (view s) { delay = 0 }

  pub wait_ready_lem :
      (s : State)
      → (view s).delay < poll_limit
      → ((wait_ready p ata s).0 ≡ true) × Settled s (wait_ready p ata s).1
  unfolding wait_ready
  wait_ready_lem s lt =
      let r = poll_lem is_busy (view s).phase poll_limit s (busy-Agrees (view s).phase) refl lt in
      (ground (arith, r.in_time, r.no_error, r.no_fault), r.settled)

  pub wait_data_lem :
      (s : State)
      → asks (view s).phase ≡ true
      → (view s).delay < poll_limit
      → ((wait_data p ata s).0 ≡ true) × Settled s (wait_data p ata s).1
  unfolding wait_data
  wait_data_lem s wants lt =
      let r =
        poll_lem no_data (view s).phase poll_limit s (no_data-Agrees (view s).phase wants) refl
          lt in
      (ap not r.in_time, r.settled)

  wait_loop_lem : (n : ℕ) (s : State) → (view s).delay ≡ 0 → view (wait_loop p ata n s) ≡ view s
  unfolding wait_loop
  wait_loop_lem zero s e = refl
  wait_loop_lem (suc n) s e =
      wait_loop_lem n (get_status p ata s).1
        (ap (λ (v : View). v.delay) (d.status_view s) ∙ omega (arith, e))
      ∙ d.status_view s
      ∙ ap (λ k. record (view s) { delay = k }) (omega (arith, e))

  pub wait_lem : (s : State) → (view s).delay ≡ 0 → view (wait p ata s) ≡ view s
  unfolding wait
  wait_lem s e = wait_loop_lem 4 s e
