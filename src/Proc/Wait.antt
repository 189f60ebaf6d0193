-- ===== src/Proc/Wait.antt =====
-- The queue of waiting parents, VinixOS/kernel/src/kernel/sync/wait_queue.c and the macro
-- `wait_event` of VinixOS/kernel/include/wait_queue.h, and the end of a process,
-- VinixOS/kernel/src/kernel/proc/wait.c.
pub mod Owned
pub mod Wake
pub mod Kill
pub mod Reap
use vinix_os.Base.{
  ℕ, zero, suc, ◌+◌, Bool, true, false, not, ◌&&◌, ◌||◌, Option, none, some, List, [], ◌∷◌, ◌++◌,
  ◌==◌, leb, if◌then◌else◌,
}
use vinix_os.Base.Int.{ℤ, pos, negsuc, minus_one, is_neg, ◌==ℤ◌}
use vinix_os.Proc.Task.{ready, blocked, zombie, is_zombie, Task, Memory, write, max_tasks, Sched}
use vinix_os.Proc.Sched.{
  Ending, scheduler_yield, tasks_array_get, scheduler_current_task, scheduler_release_slot,
}

unfoldable pub wake_up : Sched → Sched
wake_up s =
    let t = s.parent_wq in
    if t == 0 then s else record s {
      memory = write s.memory t (record (s.memory t) { wait_next = 0; state = ready });
      parent_wq = (s.memory t).wait_next;
    }

-- The loop of `do_exit` and `do_kill_by_pid` that wakes every waiting parent, with one round for each
-- of them; `none` where the rounds run out.
unfoldable pub wake_all : (rounds : ℕ) → Sched → Option Sched
wake_all zero s = if s.parent_wq == 0 then some s else none
wake_all (suc rounds) s =
    let rest = wake_all rounds (wake_up s) in if s.parent_wq == 0 then some s else rest

-- The test of `has_zombie_child` and of the loop of `do_wait`, on slot `i`.
unfoldable pub zombie_child : ℤ → ℕ → Sched → Bool
zombie_child ppid i s =
    let t = tasks_array_get i s in
    not (t == 0) && (Task.ppid (s.memory t) ==ℤ ppid) && is_zombie (s.memory t).state

-- The loop over the slots from `i` on.
unfoldable pub find_zombie : (rounds : ℕ) → ℤ → ℕ → Sched → Option ℕ
find_zombie zero ppid i s = none
find_zombie (suc rounds) ppid i s =
    let rest = find_zombie rounds ppid (i + 1) s in if zombie_child ppid i s then some i else rest

-- `wait_event` before it yields: the current task goes to the head of the queue.
unfoldable pub enqueue : Sched → Sched
enqueue s =
    let me = scheduler_current_task s in
    if me == 0 then s else record s {
      memory =
          write s.memory me (record (s.memory me) { wait_next = s.parent_wq; state = blocked });
      parent_wq = me;
      need_reschedule = true;
    }

-- `kfree`, `mmu_free_pgd` and `free_pages`, with their arguments.
pub data Release : Type 0 where
  task_struct : ℕ → Release
  page_table : ℕ → Release
  pages : (pa order : ℕ) → Release

-- What `do_wait` gives back of task `t` at `p`, in its order. `kernel_pgd` is what
-- `mmu_kernel_pgd_pa` returns.
unfoldable pub releases : (kernel_pgd : ℕ) → ℕ → Task → List Release
releases kernel_pgd p t =
    task_struct p
    ∷ ((if not (t.pgd_pa == 0) && not (t.pgd_pa == kernel_pgd)
          then page_table t.pgd_pa ∷ []
          else [])
        ++ (if t.user_pa == 0 then [] else pages t.user_pa t.user_order ∷ [])
        ++ (if t.kstack_pa == 0 then [] else pages t.kstack_pa t.kstack_order ∷ []))

-- How one round of `do_wait` ends: there is no current task, or a child is reaped, with its pid, its
-- status and what is given back, or the caller has gone to sleep. When it runs again the next round
-- starts.
pub data Waited : Type 0 where
  no_task : Waited
  reaped : (pid status : ℤ) → List Release → Sched → Waited
  asleep : Ending → Waited

unfoldable pub do_wait : (kernel_pgd : ℕ) → Sched → Waited
do_wait kernel_pgd s =
    let me = scheduler_current_task s in
    if me == 0 then no_task else elim (find_zombie max_tasks (s.memory me).pid 0 s) [
      | none ↦ asleep (scheduler_yield (enqueue s))
      | some i ↦
          let t = s.memory (tasks_array_get i s) in
          reaped t.pid t.exit_status (releases kernel_pgd (tasks_array_get i s) t)
            (scheduler_release_slot i s)
    ]

-- `p` becomes a ZOMBIE with this status.
unfoldable pub bury : ℕ → ℤ → Sched → Sched
bury p status s = record s {
  memory = write s.memory p (record (s.memory p) { exit_status = status; state = zombie });
}

-- `none` where the rounds of the loop run out. Without a current task nothing happens.
unfoldable pub do_exit : (rounds : ℕ) → ℤ → Sched → Option Ending
do_exit rounds status s =
    let me = scheduler_current_task s in
    if me == 0 then some (Ending.returned s) else elim (wake_all rounds (bury me status s)) [
      | none ↦ none
      | some s' ↦ some (scheduler_yield (record s' { need_reschedule = true }))
    ]

-- The slot that a pid names; `none` if the pid is out of range.
abbrev pub slot_of : ℤ → Option ℕ
slot_of (pos n) = if leb max_tasks n then none else some n
slot_of (negsuc n) = none

-- Whether `do_kill_by_pid` may kill the task at `p`, for which it was called with this pid.
unfoldable pub killable : ℤ → ℕ → Sched → Bool
killable pid p s =
    let me = scheduler_current_task s in
    not (not (me == 0) && ((s.memory me).pid ==ℤ pid))
    && not (p == 0)
    && not (is_neg (s.memory p).ppid)

-- The result is what the call returns, with the state after it; `none` where the rounds run out.
unfoldable pub do_kill_by_pid : (rounds : ℕ) → ℤ → ℤ → Sched → Option (ℤ × Sched)
do_kill_by_pid rounds pid exit_status s = elim (slot_of pid) [
  | none ↦ some (minus_one, s)
  | some n ↦
      let t = tasks_array_get n s in
      if not (killable pid t s)
      then some (minus_one, s)
      else if is_zombie (s.memory t).state
      then some (pos 0, s)
      else elim (wake_all rounds (bury t exit_status s)) [
        | none ↦ none
        | some s' ↦ some (pos 0, s')
      ]
]
