-- ===== src/Proc/Tests.antt =====
-- The scheduler, the sleep list and the queue of waiting parents at concrete states: runs of the
-- code, and the theorems applied.
use vinix_os.Base.{
  ℕ, zero, suc, ◌+◌, ◌*◌, ◌<◌, ◌≡◌, ◌≢◌, ◌∙◌, refl, true, false, ◌&&◌, some, List, [], ◌∷◌, ◌==◌,
  leb, if◌then◌else◌, arith,
}
use vinix_os.Base.Int.{ℤ, pos, minus_one}
use vinix_os.Proc.Task.{
  TaskState, ready, running, blocked, zombie, Task, Memory, max_tasks, stack_canary_value, Sched,
}
use vinix_os.Base.Linked.{has}
use vinix_os.Proc.Sched.{
  slot, returned, switched, panicked, find_ready, choose, checked_dispatch, dispatch, switch_tasks,
  scheduler_yield, tasks_array_get, scheduler_current_task,
}
use vinix_os.Proc.Sched.Search.{Next}
use vinix_os.Proc.Sched.Inv.{used_slots, IsValid, After, scheduler_yield-IsValid}
use vinix_os.Proc.Sched.Yield.{Switch, scheduler_yield-Switch, scheduler_yield-ne-panicked}
use vinix_os.Proc.Sched.RoundRobin.{scheduler_yield-round_robin}
use vinix_os.Proc.Sleep.{msleep, enter_sleep, sleep_tick}
use vinix_os.Proc.Sleep.Chain.{Chain, kept}
use vinix_os.Proc.Sleep.Tick.{sleep_tick-kept}
use vinix_os.Proc.Sleep.Enter.{time_passes, msleep-duration, enter_sleep-wraps}
use vinix_os.Proc.Wait.Owned.{IsZombieChild, GivesBack}
use vinix_os.Proc.Wait.{zombie_child, Release, reaped, asleep, do_wait, do_kill_by_pid, killable}
use vinix_os.Proc.Wait.Kill.{IsTarget, do_kill_by_pid-states, do_kill_by_pid-sleeper}
use vinix_os.Proc.Wait.Reap.{do_wait-reaps, do_wait-asleep}
use vinix_os.Proc.Wait.Wake.{Queue}

abbrev task : ℕ → TaskState → ℤ → ℕ → ℕ → Task
task n st ppid sleep wake = record {
  state = st;
  id = n;
  canary = stack_canary_value;
  wait_next = 0;
  sleep_next = sleep;
  wake_tick = wake;
  pid = pos n;
  ppid = ppid;
  exit_status = pos 7;
  pgd_pa = 0x81004000;
  user_pa = 0x81100000;
  user_order = 8;
  kstack_pa = 0x81008000;
  kstack_order = 1;
}

-- The idle task at 100, the shell at 200, which runs, and a child of the shell at 300.
abbrev family : Task → Memory
family child p =
    if p == 100
    then task 0 ready minus_one 0 0
    else if p == 200
    then task 1 running (pos 0) 0 0
    else child

abbrev system : Task → Sched
system child = record {
  memory = family child;
  tasks = 100 ∷ 200 ∷ 300 ∷ 0 ∷ 0 ∷ [];
  task_count = 3;
  current_task = 200;
  current_task_index = 1;
  scheduler_started = true;
  need_reschedule = true;
  jiffies = 41;
  sleep_head = 0;
  parent_wq = 0;
}

abbrev with_ready : Sched
with_ready = system (task 2 ready (pos 1) 0 0)

abbrev with_zombie : Sched
with_zombie = system (task 2 zombie (pos 1) 0 0)

-- The child sleeps until tick 42.
abbrev with_sleeper : Sched
with_sleeper = record (system (task 2 blocked (pos 1) 0 42)) { sleep_head = 300 }

-- The child waits for children of its own.
abbrev with_waiter : Sched
with_waiter = record (system (task 2 blocked (pos 1) 0 0)) { parent_wq = 300 }

system-slot :
    (child : Task) (i : ℕ) → slot (system child) i ≢ 0 → slot (system child) i ≡ 100 * (i + 1)
system-slot child zero h = refl
system-slot child (suc zero) h = refl
system-slot child (suc (suc zero)) h = refl
system-slot child (suc (suc (suc zero))) h = absurd (h refl)
system-slot child (suc (suc (suc (suc zero)))) h = absurd (h refl)
system-slot child (suc (suc (suc (suc (suc i))))) h = absurd (h refl)

system-running :
    (child : Task) (i : ℕ)
    → child.state ≢ running
    → slot (system child) i ≢ 0
    → ((system child).memory (slot (system child) i)).state ≡ running
    → slot (system child) i ≡ 200
system-running child zero ne h r = cc r
system-running child (suc zero) ne h r = refl
system-running child (suc (suc zero)) ne h r = absurd (ne r)
system-running child (suc (suc (suc zero))) ne h r = absurd (h refl)
system-running child (suc (suc (suc (suc zero)))) ne h r = absurd (h refl)
system-running child (suc (suc (suc (suc (suc i))))) ne h r = absurd (h refl)

system-IsValid : (child : Task) → child.state ≢ running → IsValid (system child)
unfolding used_slots
system-IsValid child ne = record {
  size = refl;
  counted = refl;
  distinct =
      λ i j h e. omega (arith, system-slot child i h, system-slot child j (λ z. h (e ∙ z)), e);
  index = omega arith;
  current = refl;
  alive = λ e. ground arith;
  one_running = λ i h r. system-running child i ne h r;
}

scheduler_yield-IsValid_example : After IsValid (scheduler_yield with_ready)
scheduler_yield-IsValid_example =
    scheduler_yield-IsValid (system-IsValid (task 2 ready (pos 1) 0 0) (λ e. cc e))

scheduler_yield-Switch_example :
    Switch with_ready 200 300
      (switch_tasks 200 300 2 (record with_ready { need_reschedule = false }))
unfolding scheduler_yield choose find_ready checked_dispatch dispatch
scheduler_yield-Switch_example = scheduler_yield-Switch with_ready refl

scheduler_yield-ne-panicked_example : scheduler_yield with_zombie ≢ panicked
scheduler_yield-ne-panicked_example =
    scheduler_yield-ne-panicked with_zombie
      (record { idle = λ e. ground arith; idle_alive = λ e. cc e; canary = refl })

scheduler_yield-round_robin_example :
    (i : ℕ) × (s' : Sched) × Next with_ready 1 max_tasks i
    × (scheduler_yield with_ready ≡ switched 200 (slot with_ready i) s')
    × (s'.current_task_index ≡ i)
scheduler_yield-round_robin_example =
    scheduler_yield-round_robin with_ready 2 (system-IsValid (task 2 ready (pos 1) 0 0) (λ e. cc e))
      refl refl (λ e. ground arith) (λ e. cc e) (omega arith) refl

sleeper_alone : Chain with_sleeper.memory with_sleeper.sleep_head (300 ∷ [])
sleeper_alone = (refl, (λ e. ground arith), refl, refl)

sleep_tick-kept_example :
    (s' : Sched) × (sleep_tick 2 with_sleeper ≡ some s')
    × Chain s'.memory s'.sleep_head (kept with_sleeper.memory 42 (300 ∷ []))
    × ((p : ℕ)
        → (s'.memory p).state ≡ (
            if has p (300 ∷ []) && leb (with_sleeper.memory p).wake_tick 42
            then ready
            else (with_sleeper.memory p).state))
    × ((p : ℕ) → has p (300 ∷ []) ≡ false → s'.memory p ≡ with_sleeper.memory p)
sleep_tick-kept_example = sleep_tick-kept 2 with_sleeper (300 ∷ []) sleeper_alone (omega arith)

-- The shell sleeps for 25 ms behind the sleeper: two ticks.
msleep-duration_example :
    (msleep 0 with_sleeper ≡ returned with_sleeper)
    × ((s0 : Sched) × (msleep 25 with_sleeper ≡ scheduler_yield s0)
        × ((n : ℕ)
            → n < 2
            → (s' : Sched) × (time_passes 3 n s0 ≡ some s') × ((s'.memory 200).state ≡ blocked))
        × ((s' : Sched) × (time_passes 3 2 s0 ≡ some s') × ((s'.memory 200).state ≡ ready)))
msleep-duration_example =
    msleep-duration 3 25 with_sleeper (300 ∷ []) (omega arith) (λ e. ground arith) sleeper_alone
      refl (omega arith) (omega arith)

abbrev near_wrap : Sched
near_wrap = record with_ready { jiffies = 4294967290 }

-- The shell is to sleep for a minute, 6000 ticks, and wakes after one.
enter_sleep-wraps_example :
    (s' : Sched) × (sleep_tick 2 (enter_sleep 60000 near_wrap) ≡ some s')
    × ((s'.memory 200).state ≡ ready)
enter_sleep-wraps_example =
    enter_sleep-wraps 2 60000 near_wrap [] (λ e. ground arith) refl refl (omega arith) (omega arith)
      (omega arith) (omega arith)

child-IsTarget :
    (st : TaskState) (sleep wake head queue : ℕ)
    → st ≢ zombie
    → IsTarget
        (record (system (task 2 st (pos 1) sleep wake)) { sleep_head = head; parent_wq = queue })
        2
unfolding killable scheduler_current_task
child-IsTarget st sleep wake head queue alive = record {
  inside = omega arith;
  allowed = refl;
  alive = ground arith;
}

do_kill_by_pid-states_example :
    (s' : Sched) × (do_kill_by_pid 1 (pos 2) (pos 9) with_waiter ≡ some (pos 0, s'))
    × (s'.parent_wq ≡ 0)
    × ((s'.memory 300).exit_status ≡ pos 9)
    × ((s'.memory 300).state ≡ ready)
    × ((p : ℕ) → has p (300 ∷ []) ≡ true → (s'.memory p).state ≡ ready)
    × ((p : ℕ) → p ≢ 300 → has p (300 ∷ []) ≡ false → s'.memory p ≡ with_waiter.memory p)
do_kill_by_pid-states_example =
    do_kill_by_pid-states 1 2 (pos 9) with_waiter (300 ∷ [])
      (child-IsTarget blocked 0 0 0 300 (λ e. cc e)) (refl, (λ e. ground arith), refl, refl)
      (omega arith)

do_kill_by_pid-sleeper_example :
    (s' : Sched) × (s'' : Sched) × (do_kill_by_pid 2 (pos 2) (pos 9) with_sleeper
      ≡ some (pos 0, s'))
    × ((s'.memory 300).state ≡ zombie)
    × (sleep_tick 2 s' ≡ some s'')
    × ((s''.memory 300).state ≡ ready)
do_kill_by_pid-sleeper_example =
    do_kill_by_pid-sleeper 2 2 (pos 9) with_sleeper [] (300 ∷ [])
      (child-IsTarget blocked 0 42 300 0 (λ e. cc e)) refl sleeper_alone refl refl refl
      (omega arith) (omega arith)

do_wait-reaps_example :
    (j : ℕ) × (rs : List Release) × (s' : Sched) × IsZombieChild with_zombie j
    × GivesBack 0x80004000 (slot with_zombie j) (with_zombie.memory (slot with_zombie j)) rs
    × (do_wait 0x80004000 with_zombie
        ≡ reaped
            (with_zombie.memory (slot with_zombie j)).pid
            (with_zombie.memory (slot with_zombie j)).exit_status
            rs
            s')
    × (slot s' j ≡ 0)
    × ((k : ℕ) → k ≢ j → slot s' k ≡ slot with_zombie k)
    × (s'.memory ≡ with_zombie.memory)
    × IsValid s'
do_wait-reaps_example =
    do_wait-reaps 0x80004000 with_zombie 2 (system-IsValid (task 2 zombie (pos 1) 0 0) (λ e. cc e))
      refl
      (record {
        inside = omega arith;
        present = λ e. ground (arith, e);
        parent = refl;
        dead = refl;
      })

no_zombie : (i : ℕ) → i < max_tasks → zombie_child (pos 1) i with_ready ≡ false
unfolding zombie_child tasks_array_get
no_zombie zero lt = refl
no_zombie (suc zero) lt = refl
no_zombie (suc (suc zero)) lt = refl
no_zombie (suc (suc (suc zero))) lt = refl
no_zombie (suc (suc (suc (suc zero)))) lt = refl
no_zombie (suc (suc (suc (suc (suc i))))) lt = absurd (omega arith)

do_wait-asleep_example :
    (s' : Sched) × (do_wait 0x80004000 with_ready ≡ asleep (scheduler_yield s'))
    × Queue s'.memory s'.parent_wq (200 ∷ [])
    × ((s'.memory 200).state ≡ blocked)
    × ((p : ℕ) → p ≢ 200 → s'.memory p ≡ with_ready.memory p)
    × (s'.need_reschedule ≡ true)
do_wait-asleep_example =
    do_wait-asleep 0x80004000 with_ready [] (λ e. ground arith) no_zombie refl refl
