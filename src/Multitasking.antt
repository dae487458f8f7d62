-- ===== src/Multitasking.antt =====
-- multitasking.cpp: the tasks and the round-robin scheduler. A task and a saved CPU state are
-- addresses; the memory of the tasks maps each task to its `cpustate`.
pub mod RoundRobin
mod Tests
use hydra_os.Common.{
  ℕ, zero, suc, ◌+◌, ◌-◌, Bool, true, false, Option, none, some, List, [], ◌∷◌, ◌++◌, length,
  get_or, leb, ◌==◌, if◌then◌else◌,
}
use hydra_os.Gdt.{code_segment_selector_offset}

pub record CpuState : Type 0 where
  pub eax : ℕ
  pub ebx : ℕ
  pub ecx : ℕ
  pub edx : ℕ
  pub esi : ℕ
  pub edi : ℕ
  pub ebp : ℕ
  pub error : ℕ
  pub eip : ℕ
  pub cs : ℕ
  pub eflags : ℕ
  pub esp : ℕ
  pub ss : ℕ

-- What the constructor of `Task` leaves at the top of the stack, which held `memory`.
pub start_state : CpuState → ℕ → CpuState
start_state memory entrypoint = record memory {
  eax = 0;
  ebx = 0;
  ecx = 0;
  edx = 0;
  esi = 0;
  edi = 0;
  ebp = 0;
  eip = entrypoint;
  cs = code_segment_selector_offset;
  eflags = 0x202;
}

-- `tasks[0 .. numTasks)`, and `currentTask`, where `none` is -1.
pub record TaskManager : Type 0 where
  pub tasks : List ℕ
  pub current_task : Option ℕ

pub init : TaskManager
init = record { tasks = []; current_task = none }

abbrev pub max_tasks : ℕ
max_tasks = 256

pub add_task : TaskManager → ℕ → Bool × TaskManager
add_task m task =
    if leb max_tasks (length m.tasks)
    then (false, m)
    else (true, record m { tasks = m.tasks ++ task ∷ [] })

-- `tasks[i]`.
pub task_at : TaskManager → ℕ → ℕ
task_at m i = get_or m.tasks i 0

abbrev pub TaskMemory : Type 0
TaskMemory = ℕ → ℕ

-- "Save current task state".
pub save : TaskManager → TaskMemory → ℕ → TaskMemory
unfolding task_at
save m memory cpustate q = elim m.current_task [
  | none ↦ memory q
  | some i ↦ if q == task_at m i then cpustate else memory q
]

-- `currentTask++; if(currentTask >= numTasks) currentTask = 0;`.
pub advance : TaskManager → ℕ
advance m =
    let next : ℕ = elim m.current_task [ none ↦ 0 | some i ↦ i + 1 ] in
    if leb (length m.tasks) next then 0 else next

-- The state to go on with, the manager and the memory of the tasks.
pub schedule : TaskManager → TaskMemory → ℕ → ℕ × TaskManager × TaskMemory
unfolding save advance task_at
schedule m memory cpustate =
    let memory' = save m memory cpustate in
    let next = advance m in
    if length m.tasks == 0
    then (cpustate, m, memory)
    else (memory' (task_at m next), record m { current_task = some next }, memory')
