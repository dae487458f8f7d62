-- ===== src/Multitasking/Tests.antt =====
-- Three tasks at 100, 200 and 300, of which the second runs.
use hydra_os.Common.{ℕ, zero, suc, ◌+◌, ◌<◌, ◌≡◌, refl, some, some_inj, [], ◌∷◌, arith}
use hydra_os.Multitasking.{TaskManager, TaskMemory, task_at}
use hydra_os.Multitasking.RoundRobin.{IsManager, Distinct, run, schedule_round}

abbrev three : TaskManager
three = record { tasks = 100 ∷ 200 ∷ 300 ∷ []; current_task = some 1 }

abbrev memory : TaskMemory
memory q = q + 1

three-IsManager : IsManager three
three-IsManager = record { bound = omega arith; current = λ i e. omega (arith, some_inj e) }

three-Distinct : Distinct three
unfolding task_at
three-Distinct = record { apart = λ i j li lj e. apart i j li lj e }
  where
    apart : (i j : ℕ) → i < 3 → j < 3 → task_at three i ≡ task_at three j → i ≡ j
    apart zero zero li lj e = refl
    apart zero (suc zero) li lj e = absurd (omega arith)
    apart zero (suc (suc zero)) li lj e = absurd (omega arith)
    apart (suc zero) zero li lj e = absurd (omega arith)
    apart (suc zero) (suc zero) li lj e = refl
    apart (suc zero) (suc (suc zero)) li lj e = absurd (omega arith)
    apart (suc (suc zero)) zero li lj e = absurd (omega arith)
    apart (suc (suc zero)) (suc zero) li lj e = absurd (omega arith)
    apart (suc (suc zero)) (suc (suc zero)) li lj e = refl
    apart (suc (suc (suc i))) j li lj e = absurd (omega arith)
    apart i (suc (suc (suc j))) li lj e = absurd (omega arith)

schedule_round_example :
    ((run (7 ∷ 8 ∷ 9 ∷ []) 0 three memory).0 ≡ 7)
    × ((run (7 ∷ 8 ∷ 9 ∷ []) 0 three memory).1.current_task ≡ some 1)
schedule_round_example =
    schedule_round three memory 1 7 0 (8 ∷ 9 ∷ []) three-IsManager three-Distinct refl refl
