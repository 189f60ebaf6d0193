-- ===== src/Proc/Sched/RoundRobin.antt =====
-- `scheduler_yield` of scheduler.c takes the next READY task going round.
use vinix_os.Base.{
  ℕ, ◌<◌, ◌≡◌, ◌≢◌, refl, sym, ap, ◌∙◌, true, false, some, ◌==◌, arith, inl, inr, Option-cases,
}
use vinix_os.Proc.Task.{ready, max_tasks, stack_canary_value, Sched}
use vinix_os.Proc.Sched.{
  switched, slot, find_ready, dispatch, switch_tasks, choose, scheduler_yield,
}
use vinix_os.Proc.Sched.Search.{Next, runnable, find_ready-Next, find_ready-none}
use vinix_os.Proc.Sched.Inv.{IsValid}
use vinix_os.Proc.Sched.Yield.{checked_dispatch-ready}

scheduler_yield-choose :
    (s : Sched)
    → s.need_reschedule ≡ true
    → (s.memory s.current_task).canary ≡ stack_canary_value
    → s.task_count ≢ 1
    → scheduler_yield s
      ≡ choose s.current_task
          (record s { need_reschedule = false })
          (find_ready max_tasks s.current_task_index (record s { need_reschedule = false }))
unfolding scheduler_yield
scheduler_yield-choose s due canary several = ground arith

choose-dispatch :
    (s : Sched) (i : ℕ)
    → runnable s i ≡ true
    → (s.memory s.current_task).state ≢ ready
    → choose s.current_task s (some i) ≡ dispatch s.current_task (slot s i) i s
unfolding choose
choose-dispatch s i run busy =
    let is : (s.memory (slot s i)).state ≡ ready = ground arith in
    let other : (slot s i == s.current_task) ≡ false =
      not_same (slot s i) s.current_task (λ e. busy (ap (λ p. (s.memory p).state) (sym e) ∙ is)) in
    rw other (checked_dispatch-ready s.current_task (slot s i) i s is)
  where
    not_same : (a b : ℕ) → a ≢ b → (a == b) ≡ false
    not_same a b h = ground arith

-- From a valid state with more than one task, in which a switch is due, the canary stands and the
-- current task is not READY itself: if some slot has a READY task, `scheduler_yield` switches to the
-- first one after the current slot, going round.
pub scheduler_yield-round_robin :
    (s : Sched) (j : ℕ)
    → IsValid s
    → s.need_reschedule ≡ true
    → (s.memory s.current_task).canary ≡ stack_canary_value
    → s.task_count ≢ 1
    → (s.memory s.current_task).state ≢ ready
    → j < max_tasks
    → runnable s j ≡ true
    → (i : ℕ) × (s' : Sched) × Next s s.current_task_index max_tasks i
      × (scheduler_yield s ≡ switched s.current_task (slot s i) s')
      × (s'.current_task_index ≡ i)
unfolding dispatch
scheduler_yield-round_robin s j v due canary several busy inside run =
    elim (Option-cases (find_ready max_tasks s.current_task_index s1)) [
      | inl gone ↦ absurd (cc (find_ready-none s.current_task_index s1 v.index gone j inside))
      | inr (i, found) ↦
          let n = find_ready-Next max_tasks s.current_task_index s1 found in
          (
            i,
            switch_tasks s.current_task (slot s i) i s1,
            record {
              steps = n.steps;
              in_time = n.in_time;
              place = n.place;
              found = n.found;
              passed = n.passed;
            },
            scheduler_yield-choose s due canary several
                ∙ ap (choose s.current_task s1) found
                ∙ choose-dispatch s1 i n.found busy,
            refl,
          )
    ]
  where
    s1 : Sched
    s1 = record s { need_reschedule = false }
