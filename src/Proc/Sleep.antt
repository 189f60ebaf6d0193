-- ===== src/Proc/Sleep.antt =====
-- Sleeping, VinixOS/kernel/src/kernel/sync/sleep.c, and the timer tick of
-- VinixOS/kernel/src/kernel/scheduler/scheduler.c that wakes sleepers.
pub mod Chain
pub mod Tick
pub mod Asleep
pub mod Enter
use vinix_os.Base.{
  ℕ, zero, suc, ◌+◌, ◌/◌, ◌%◌, ◌^◌, Bool, true, false, not, Option, none, some, ◌==◌, leb,
  if◌then◌else◌,
}
use vinix_os.Proc.Task.{ready, blocked, Task, Memory, write, Sched, Link, head, next_of}
use vinix_os.Proc.Sched.{Ending, returned, scheduler_yield}

abbrev pub tick_ms : ℕ
tick_ms = 10

-- `ms / TICK_MS`, at least 1
abbrev pub ticks_of : ℕ → ℕ
ticks_of ms = if ms / tick_ms == 0 then 1 else ms / tick_ms

-- The part of `msleep` that runs with interrupts off.
unfoldable pub enter_sleep : ℕ → Sched → Sched
enter_sleep ms s = if s.current_task == 0 then s else record s {
  memory = write s.memory s.current_task (record (s.memory s.current_task) {
    wake_tick = (s.jiffies + ticks_of ms) % 2 ^ 32;
    sleep_next = s.sleep_head;
    state = blocked;
  });
  sleep_head = s.current_task;
  need_reschedule = true;
}

unfoldable pub msleep : ℕ → Sched → Ending
msleep ms s = if ms == 0 then returned s else scheduler_yield (enter_sleep ms s)

-- `*pp`, and `*pp = p`
unfoldable pub load_link : Link → Sched → ℕ
load_link head s = s.sleep_head
load_link (next_of q) s = (s.memory q).sleep_next

unfoldable pub store_link : Link → ℕ → Sched → Sched
store_link head p s = record s { sleep_head = p }
store_link (next_of q) p s = record s {
  memory = write s.memory q (record (s.memory q) { sleep_next = p });
}

unfoldable pub wake_task : ℕ → Sched → Sched
wake_task t s = record s {
  memory = write s.memory t (record (s.memory t) { sleep_next = 0; wake_tick = 0; state = ready });
}

-- The loop of `sleep_tick`. Each round takes a task off the list or steps over one, so one round more
-- than there are tasks is enough; `none` where the rounds run out.
unfoldable pub walk_sleepers : ℕ → Link → Sched → Option Sched
walk_sleepers zero pp s = none
walk_sleepers (suc rounds) pp s =
    let t = load_link pp s in
    let off = walk_sleepers rounds pp (wake_task t (store_link pp (s.memory t).sleep_next s)) in
    let over = walk_sleepers rounds (next_of t) s in
    if t == 0 then some s else if leb (s.memory t).wake_tick s.jiffies then off else over

unfoldable pub sleep_tick : ℕ → Sched → Option Sched
sleep_tick rounds s = walk_sleepers rounds head (record s { jiffies = (s.jiffies + 1) % 2 ^ 32 })

unfoldable pub scheduler_tick : ℕ → Sched → Option Sched
scheduler_tick rounds s = if not s.scheduler_started then some s else elim (sleep_tick rounds s) [
  | none ↦ none
  | some s' ↦ some (record s' { need_reschedule = true })
]
