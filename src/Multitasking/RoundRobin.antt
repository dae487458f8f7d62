-- ===== src/Multitasking/RoundRobin.antt =====
-- Round robin: the tasks take turns, and each goes on where it was interrupted.
use hydra_os.Common.{
  ℕ, suc, ◌+◌, ◌≤◌, ◌<◌, ◌≡◌, ◌≢◌, ◌∙◌, ◌⊎◌, inl, inr, sym, ap, subst, false, Option, none, some,
  List, [], ◌∷◌, length, leb, ◌==◌, if◌then◌else◌, arith, length-append,
}
use hydra_os.Multitasking.{TaskManager, TaskMemory, add_task, task_at, save, advance, schedule}

-- A timer interrupt after another, each with the state that it interrupted: what the last call of
-- `Schedule` returned, and the manager and the memory after it.
pub run : List ℕ → ℕ → TaskManager → TaskMemory → ℕ × TaskManager × TaskMemory
unfolding schedule
run [] last m memory = (last, m, memory)
run (c ∷ cs) last m memory = let (next, m', memory') = schedule m memory c in run cs next m' memory'

-- The tasks are some objects, at most 256 of them, and the current one is among them.
pub record IsManager (m : TaskManager) : Type 0 where
  pub bound : length m.tasks ≤ 256
  pub current : (i : ℕ) → m.current_task ≡ some i → i < length m.tasks

pub record Distinct (m : TaskManager) : Type 0 where
  pub apart :
      (i j : ℕ) → i < length m.tasks → j < length m.tasks → task_at m i ≡ task_at m j → i ≡ j

-- `AddTask` refuses the 257th task, and appends every other.
pub add_task-IsManager : (m : TaskManager) (task : ℕ) → IsManager m → IsManager (add_task m task).1
unfolding add_task
add_task-IsManager m task v = record {
  bound = ground (arith, v.bound, length-append m.tasks (task ∷ []));
  current = λ i e. ground (arith, v.current i, length-append m.tasks (task ∷ []));
}

-- A turn of a manager that runs task `i`.
schedule-eq :
    (m : TaskManager) (memory : TaskMemory) (c : ℕ)
    → 0 < length m.tasks
    → schedule m memory c ≡ (
      save m memory c (task_at m (advance m)),
      record m { current_task = some (advance m) },
      save m memory c,
    )
unfolding schedule
schedule-eq m memory c lt =
    ap
      (λ b. if b then (c, m, memory) else (
        save m memory c (task_at m (advance m)),
        record m { current_task = some (advance m) },
        save m memory c,
      ))
      (none_empty (length m.tasks) lt)
  where
    none_empty : (n : ℕ) → 0 < n → (n == 0) ≡ false
    none_empty n lt = ground arith

advance-eq :
    (m : TaskManager) (j : ℕ)
    → m.current_task ≡ some j
    → advance m ≡ (if leb (length m.tasks) (j + 1) then 0 else j + 1)
unfolding advance
advance-eq m j e =
    ap
      (λ (o : Option ℕ).
        let next : ℕ = elim o [ none ↦ 0 | some i ↦ i + 1 ] in
        if leb (length m.tasks) next then 0 else next)
      e

save-eq :
    (m : TaskManager) (memory : TaskMemory) (c j q : ℕ)
    → m.current_task ≡ some j
    → save m memory c q ≡ (if q == task_at m j then c else memory q)
unfolding save
save-eq m memory c j q e =
    ap
      (λ (o : Option ℕ). elim o [
        | none ↦ memory q
        | some i ↦ if q == task_at m i then c else memory q
      ])
      e

-- From `j` it takes `k` turns to come to `i`, and `i` is not met before.
Away : ℕ → ℕ → ℕ → ℕ → Type 0
Away n j i k = (j < n) × (i < n) × (0 < k) × ((j + k ≡ i) ⊎ ((j + k ≡ i + n) × (i < j)))

turn : ℕ → ℕ → ℕ
turn n j = if leb n (j + 1) then 0 else j + 1

here : (n j i k : ℕ) → Away n j i k → j < n
unfolding Away
here n j i k a = a.0

there : (n j i k : ℕ) → Away n j i k → i < n
unfolding Away
there n j i k a = a.1

some_turns : (n j i k : ℕ) → Away n j i k → 0 < k
unfolding Away
some_turns n j i k a = a.2

turn-Away :
    (n j i k : ℕ)
    → Away n j i (suc k)
    → (j ≢ i) × (((k ≡ 0) × (turn n j ≡ i)) ⊎ Away n (turn n j) i k)
unfolding Away turn
turn-Away n j i k a = ground arith

turn-start : (n i k : ℕ) → i < n → n ≡ suc k → ((k ≡ 0) × (turn n i ≡ i)) ⊎ Away n (turn n i) i k
unfolding Away turn
turn-start n i k lt e = ground arith

-- The manager after a turn.
turned : TaskManager → TaskManager
turned m = record m { current_task = some (advance m) }

run-cons :
    (d : ℕ) (cs : List ℕ) (r : ℕ) (m : TaskManager) (memory : TaskMemory)
    → 0 < length m.tasks
    → run (d ∷ cs) r m memory
      ≡ run cs (save m memory d (task_at m (advance m))) (turned m) (save m memory d)
unfolding run turned
run-cons d cs r m memory lt =
    ap (λ (t : ℕ × TaskManager × TaskMemory). run cs t.0 t.1 t.2) (schedule-eq m memory d lt)

kept :
    (m : TaskManager) (memory : TaskMemory) (d i j : ℕ)
    → Distinct m
    → m.current_task ≡ some j
    → i < length m.tasks
    → j < length m.tasks
    → j ≢ i
    → save m memory d (task_at m i) ≡ memory (task_at m i)
kept m memory d i j apart at li lj ne =
    save-eq m memory d j (task_at m i) at
    ∙ ap (λ b. if b then d else memory (task_at m i))
        (test (task_at m i) (task_at m j) (λ e. ne (sym (apart.apart i j li lj e))))
  where
    test : (a b : ℕ) → a ≢ b → (a == b) ≡ false
    test a b ne = ground arith

Comes : ℕ → ℕ → ℕ × TaskManager × TaskMemory → Type 0
Comes c i t = (t.0 ≡ c) × (t.1.current_task ≡ some i)

turned-Distinct : (m : TaskManager) → Distinct m → Distinct (turned m)
unfolding turned task_at
turned-Distinct m d = record { apart = d.apart }

turned-current :
    (m : TaskManager) (j : ℕ)
    → m.current_task ≡ some j
    → (turned m).current_task ≡ some (turn (length m.tasks) j)
unfolding turned turn
turned-current m j at = ap some (advance-eq m j at)

-- The last of the turns that lead to `i` returns the state of task `i`.
arrived :
    (m : TaskManager) (memory : TaskMemory) (j i c : ℕ) (cs : List ℕ)
    → m.current_task ≡ some j
    → turn (length m.tasks) j ≡ i
    → length cs ≡ 0
    → memory (task_at m i) ≡ c
    → Comes c i (run cs (memory (task_at m (advance m))) (turned m) memory)
unfolding run Comes turn
arrived m memory j i c [] at comes e holds = (
  ap (λ n. memory (task_at m n)) (advance-eq m j at ∙ comes) ∙ holds,
  turned-current m j at ∙ ap some comes,
)
arrived m memory j i c (d ∷ cs) at comes e holds = absurd (omega arith)

come_back :
    (cs : List ℕ) (r : ℕ) (m : TaskManager) (memory : TaskMemory) (j i c : ℕ)
    → Distinct m
    → m.current_task ≡ some j
    → Away (length m.tasks) j i (length cs)
    → memory (task_at m i) ≡ c
    → Comes c i (run cs r m memory)
come_back [] r m memory j i c apart at away holds = absurd (omega (arith, some_turns _ _ _ _ away))
come_back (d ∷ cs) r m memory j i c apart at away holds =
    let (ne, next) = turn-Away (length m.tasks) j i (length cs) away in
    let held : save m memory d (task_at m i) ≡ c =
      kept m memory d i j apart at (there _ _ _ _ away) (here _ _ _ _ away) ne ∙ holds in
    subst (Comes c i) (sym (run-cons d cs r m memory (omega (arith, here _ _ _ _ away))))
      (elim next [
        | inl (e, comes) ↦ arrived m (save m memory d) j i c cs at comes e held
        | inr further ↦
            come_back cs _ (turned m) (save m memory d) (turn (length m.tasks) j) i c
              (turned-Distinct m apart) (turned-current m j at) (unfold turned in further)
              (unfold turned task_at in held)
      ])

-- With distinct tasks, a running task that is interrupted in some state is resumed with exactly
-- that state by the n-th call of Schedule from there on, where n is the number of tasks.
pub schedule_round :
    (m : TaskManager) (memory : TaskMemory) (i c last : ℕ) (cs : List ℕ)
    → IsManager m
    → Distinct m
    → m.current_task ≡ some i
    → length (c ∷ cs) ≡ length m.tasks
    → ((run (c ∷ cs) last m memory).0 ≡ c) × ((run (c ∷ cs) last m memory).1.current_task ≡ some i)
unfolding Comes
schedule_round m memory i c last cs v apart at e =
    subst (Comes c i) (sym (run-cons c cs last m memory (omega arith)))
      (elim (turn-start (length m.tasks) i (length cs) (v.current i at) (sym e)) [
        | inl (none_more, comes) ↦ arrived m (save m memory c) i i c cs at comes none_more saved
        | inr further ↦
            come_back cs _ (turned m) (save m memory c) (turn (length m.tasks) i) i c
              (turned-Distinct m apart) (turned-current m i at) (unfold turned in further)
              (unfold turned task_at in saved)
      ])
  where
    saved : save m memory c (task_at m i) ≡ c
    saved = save-eq m memory c i (task_at m i) at ∙ same (task_at m i) c (memory (task_at m i))
      where
        same : (a b d : ℕ) → (if a == a then b else d) ≡ b
        same a b d = ground arith
