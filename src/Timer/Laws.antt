-- ===== src/Timer/Laws.antt =====
-- `Sleep` waits its time and ends.
use hydra_os.Common.{
  ℕ, zero, suc, ◌+◌, ◌-◌, ◌*◌, ◌/◌, ◌^◌, ◌≤◌, ◌<◌, ◌≡◌, ◌∙◌, ap, Bool, true, false, Option, some,
  u32, sub32, ltb, if◌then◌else◌, arith, lt_cases, inl, inr,
}
use hydra_os.Timer.{Timer, tick, target_ticks, wait_loop, sleep, get_milliseconds}

-- `n` interrupts.
pub ticked : ℕ → Timer → Timer
ticked n t = record t { ticks = u32 (t.ticks + n) }

-- After `done` of `target` interrupts, the loop waits for the others, also across a wrap of the counter.
wait_loop_lem :
    (fuel target done start : ℕ) (t : Timer)
    → start < 2 ^ 32
    → target < 2 ^ 32
    → done ≤ target
    → target - done < fuel
    → t.ticks ≡ u32 (start + done)
    → wait_loop fuel start target t ≡ some (record t { ticks = u32 (start + target) })
unfolding wait_loop
wait_loop_lem zero target done start t hs ht le lt e = absurd (omega arith)
wait_loop_lem (suc fuel) target done start t hs ht le lt e = elim (lt_cases done target) [
  | inl more ↦
      ap picks (going more)
      ∙ wait_loop_lem fuel target (done + 1) start (tick t) hs ht (omega arith) (omega arith)
          (unfold tick in omega (arith, e))
  | inr (inl ends) ↦
      ap picks (ended ends)
      ∙ ap (λ n. some (record t { ticks = n })) (e ∙ ap (λ n. u32 (start + n)) ends)
  | inr (inr over) ↦ absurd (omega arith)
]
  where
    picks : Bool → Option Timer
    picks b = if b then wait_loop fuel start target (tick t) else some t

    elapsed : sub32 t.ticks start ≡ done
    elapsed = omega (arith, e)

    going : done < target → ltb (sub32 t.ticks start) target ≡ true
    going more = ground (arith, elapsed)

    ended : done ≡ target → ltb (sub32 t.ticks start) target ≡ false
    ended ends = ground (arith, elapsed)

target_ticks-lt : (t : Timer) (milliseconds : ℕ) → target_ticks t milliseconds < 2 ^ 32
unfolding target_ticks
target_ticks-lt t milliseconds = omega arith

-- The number of ticks is the one whose time the milliseconds reach and whose next they do not.
target_ticks-fits :
    (t : Timer) (milliseconds n : ℕ)
    → milliseconds * t.frequency < 2 ^ 32
    → n * 1000 ≤ milliseconds * t.frequency
    → milliseconds * t.frequency < (n + 1) * 1000
    → target_ticks t milliseconds ≡ n
unfolding target_ticks
target_ticks-fits t milliseconds n = fits (milliseconds * t.frequency)
  where
    fits : (p : ℕ) → p < 2 ^ 32 → n * 1000 ≤ p → p < (n + 1) * 1000 → u32 p / 1000 ≡ n
    fits p lt reached next = omega arith

-- Where the milliseconds times the frequency in Hz fit 32 bits, let n be the whole number of
-- periods of the timer in the milliseconds: n * 1000 is at most that product, which is less
-- than (n + 1) * 1000. Sleep, with fuel for more than n rounds, returns after exactly n
-- interrupts, from any 32-bit tick count, also where the counter wraps.
pub sleep_lem :
    (fuel milliseconds n : ℕ) (t : Timer)
    → t.ticks < 2 ^ 32
    → milliseconds * t.frequency < 2 ^ 32
    → n * 1000 ≤ milliseconds * t.frequency
    → milliseconds * t.frequency < (n + 1) * 1000
    → n < fuel
    → sleep fuel t milliseconds ≡ some (ticked n t)
unfolding sleep ticked
sleep_lem fuel milliseconds n t lt small reached next enough =
    wait_loop_lem fuel (target_ticks t milliseconds) 0 t.ticks t lt (target_ticks-lt t milliseconds)
      (omega arith) (omega (arith, target_ticks-fits t milliseconds n small reached next))
      (omega arith)
    ∙ ap (λ k. some (record t { ticks = u32 (t.ticks + k) }))
        (target_ticks-fits t milliseconds n small reached next)

-- At 100 Hz the milliseconds are ten for each tick, as long as they fit 32 bits.
pub get_milliseconds_lem :
    (t : Timer) → t.frequency ≡ 100 → t.ticks * 1000 < 2 ^ 32 → get_milliseconds t ≡ 10 * t.ticks
unfolding get_milliseconds
get_milliseconds_lem t e lt = ap (λ f. u32 (t.ticks * 1000) / f) e ∙ omega arith
