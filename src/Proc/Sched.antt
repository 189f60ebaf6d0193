-- ===== src/Proc/Sched.antt =====
-- The round-robin scheduler, VinixOS/kernel/src/kernel/scheduler/scheduler.c. What the CPU does in
-- `context_switch` and `start_first_task` is not part of the state: a call that ends in a switch says
-- from which task to which.
pub mod Search
pub mod Inv
pub mod Yield
pub mod RoundRobin
use vinix_os.Base.{
  ℕ, zero, suc, ◌+◌, ◌-◌, ◌%◌, ◌^◌, Bool, true, false, not, ◌&&◌, Option, none, some, List, [], ◌∷◌,
  ◌==◌, ltb, leb, if◌then◌else◌, get_or, set, replicate,
}
use vinix_os.Base.Int.{ℤ, pos, minus_one}
use vinix_os.Proc.Task.{
  TaskState, ready, running, blocked, zombie, is_ready, is_running, is_zombie, Task, Memory, write,
  set_state, max_tasks, stack_canary_value, Sched,
}

-- How a call of the scheduler ends: it returns, it switches from one task to another, or it panics.
pub data Ending : Type 0 where
  returned : Sched → Ending
  switched : (prev next : ℕ) → Sched → Ending
  panicked : Ending

-- The slot, the null pointer out of range.
abbrev pub slot : Sched → ℕ → ℕ
slot s i = get_or s.tasks i 0

unfoldable pub scheduler_init : Sched → Sched
scheduler_init s = record s {
  tasks = replicate max_tasks 0;
  task_count = 0;
  current_task = 0;
  current_task_index = 0;
  scheduler_started = false;
}

-- `kernel_pgd` is what `mmu_kernel_pgd_pa` returns. The result is the slot, or -1.
unfoldable pub scheduler_add_task : (kernel_pgd : ℕ) → ℕ → Sched → ℤ × Sched
scheduler_add_task kernel_pgd p s = if leb max_tasks s.task_count then (minus_one, s) else (
  pos s.task_count,
  record s {
    tasks = set s.tasks s.task_count p;
    memory = write s.memory p (record (s.memory p) {
      id = s.task_count;
      state = ready;
      pid = pos s.task_count;
      ppid = minus_one;
      exit_status = pos 0;
      pgd_pa = if (s.memory p).pgd_pa == 0 then kernel_pgd else (s.memory p).pgd_pa;
    });
    task_count = s.task_count + 1;
  },
)

-- `none` where there is no task to run: the call spins for ever.
unfoldable pub scheduler_start : Sched → Option Sched
scheduler_start s =
    if s.task_count == 0
    then none
    else some (record s {
      memory = set_state s.memory (slot s 0) running;
      current_task = slot s 0;
      current_task_index = 0;
      scheduler_started = true;
    })

-- The search loop of `scheduler_yield`: the first slot after `index`, going round, with a READY task.
unfoldable pub find_ready : (rounds index : ℕ) → Sched → Option ℕ
find_ready zero index s = none
find_ready (suc rounds) index s =
    let next = (index + 1) % max_tasks in
    let rest = find_ready rounds next s in
    if not (slot s next == 0) && is_ready (s.memory (slot s next)).state then some next else rest

-- The states and the current task after a switch.
unfoldable pub switch_tasks : (prev next index : ℕ) → Sched → Sched
switch_tasks prev next index s =
    let m = if is_running (s.memory prev).state then set_state s.memory prev ready else s.memory in
    record s { memory = set_state m next running; current_task_index = index; current_task = next }

-- `scheduler_yield` from the switch of states on: `next` is the task to run, in slot `index`.
unfoldable pub dispatch : (prev next index : ℕ) → Sched → Ending
unfolding switch_tasks
dispatch prev next index s = switched prev next (switch_tasks prev next index s)

-- The check that the task is READY, which falls back to the task in slot 0.
unfoldable pub checked_dispatch : (prev next index : ℕ) → Sched → Ending
checked_dispatch prev next index s =
    if is_ready (s.memory next).state
    then dispatch prev next index s
    else if slot s 0 == 0
    then panicked
    else dispatch prev (slot s 0) 0 (record s { memory = set_state s.memory (slot s 0) ready })

-- What happens when the search has given no task but the current one.
unfoldable pub no_other : ℕ → Sched → Ending
no_other prev s =
    if is_zombie (s.memory prev).state
    then (if not (slot s 0 == 0) && not (is_zombie (s.memory (slot s 0)).state)
        then checked_dispatch prev (slot s 0) 0
            (record s { memory = set_state s.memory (slot s 0) ready })
        else panicked)
    else returned s

unfoldable pub choose : ℕ → Sched → Option ℕ → Ending
choose prev s none = no_other prev s
choose prev s (some i) =
    if slot s i == prev then no_other prev s else checked_dispatch prev (slot s i) i s

unfoldable pub scheduler_yield : Sched → Ending
scheduler_yield s =
    let s' = record s { need_reschedule = false } in
    if not s.need_reschedule
    then returned s
    else if not (s.current_task == 0)
        && not ((s.memory s.current_task).canary == stack_canary_value)
    then panicked
    else if s.task_count == 1
    then returned s'
    else choose s.current_task s' (find_ready max_tasks s.current_task_index s')

-- A task that is killed by an exception.
unfoldable pub scheduler_terminate_task : ℕ → Sched → Ending
scheduler_terminate_task id s =
    if leb max_tasks id
    then returned s
    else if slot s id == 0
    then returned s
    else (let s' = record s { memory = set_state s.memory (slot s id) zombie } in
        if s.current_task == slot s id
        then scheduler_yield (record s' { need_reschedule = true })
        else returned s')

unfoldable pub scheduler_current_task : Sched → ℕ
scheduler_current_task s = s.current_task

unfoldable pub tasks_array_get : ℕ → Sched → ℕ
tasks_array_get idx s = if leb max_tasks idx then 0 else slot s idx

unfoldable pub scheduler_add_forked : ℕ → Sched → ℤ × Sched
scheduler_add_forked p s =
    let i = (s.memory p).id in
    if leb max_tasks i
    then (minus_one, s)
    else if slot s i == 0
    then (
      pos i,
      record s {
        tasks = set s.tasks i p;
        memory = set_state s.memory p ready;
        task_count = s.task_count + 1;
      },
    )
    else (minus_one, s)

unfoldable pub scheduler_release_slot : ℕ → Sched → Sched
scheduler_release_slot idx s =
    if leb max_tasks idx then s else if slot s idx == 0 then s else record s {
      tasks = set s.tasks idx 0;
      task_count = if ltb 0 s.task_count then s.task_count - 1 else s.task_count;
    }
