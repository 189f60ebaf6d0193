-- ===== src/Proc/Sched/Yield.antt =====
-- What `scheduler_yield` of scheduler.c does with the tasks: the switch that it makes, and
-- that it does not panic while the idle task is there.
use mathlib.Core.Path.{subst}
use vinix_os.Base.{
  ℕ, ◌≡◌, ◌≢◌, refl, ap, Bool, true, false, not, ◌&&◌, ◌⊎◌, Option, none, some, ◌==◌, if◌then◌else◌,
  arith, inl, inr, ne_of_==,
}
use vinix_os.Proc.Task.{
  TaskState, ready, running, zombie, is_running, is_zombie, Task, Memory, write, set_state,
  max_tasks, stack_canary_value, Sched, write_self, write_self,
}
use vinix_os.Proc.Sched.{
  Ending, returned, switched, panicked, slot, find_ready, dispatch, checked_dispatch, no_other,
  choose, scheduler_yield,
}
use vinix_os.Proc.Sched.Search.{runnable, find_ready-Next}

-- The switch from one task to another: the new one was READY, or it is the task in slot 0 and the
-- old one is a ZOMBIE. It runs now; the old one is READY again only if it was RUNNING; no other task
-- and no slot changes.
pub record Switch (s : Sched) (prev next : ℕ) (s' : Sched) : Type 0 where
  pub from : prev ≡ s.current_task
  pub to : next ≡ s'.current_task
  pub other_task : next ≢ prev
  pub in_slot : slot s s'.current_task_index ≡ next
  pub was_ready :
      ((s.memory next).state ≡ ready) ⊎ (((s.memory prev).state ≡ zombie) × (next ≡ slot s 0))
  pub runs : (s'.memory next).state ≡ running
  pub put_back :
      (s'.memory prev).state
      ≡ (if is_running (s.memory prev).state then ready else (s.memory prev).state)
  pub others : (p : ℕ) → p ≢ prev → p ≢ next → s'.memory p ≡ s.memory p
  pub slots : s'.tasks ≡ s.tasks

-- A switch, if there is one, is as described, and there is no panic if `calm` holds.
abbrev Ends : Sched → (calm : Type 0) → Ending → Type 0
Ends s calm (returned s') = Unit {0}
Ends s calm (switched prev next s') = Switch s prev next s'
Ends s calm panicked = calm → ⊥

if_Ends :
    (s : Sched) (calm : Type 0) (t : Bool) (x y : Ending)
    → (t ≡ true → Ends s calm x)
    → (t ≡ false → Ends s calm y)
    → Ends s calm (if t then x else y)
if_Ends s calm true x y hx hy = hx refl
if_Ends s calm false x y hx hy = hy refl

-- The idle task is in slot 0 and is no ZOMBIE, and the canary of the current task stands.
pub record IsCalm (s : Sched) : Type 0 where
  pub idle : slot s 0 ≢ 0
  pub idle_alive : (s.memory (slot s 0)).state ≢ zombie
  pub canary : (s.memory s.current_task).canary ≡ stack_canary_value

dispatch-Ends :
    (s : Sched) (calm : Type 0) (index : ℕ)
    → slot s index ≢ s.current_task
    → ((s.memory (slot s index)).state ≡ ready)
      ⊎ (((s.memory s.current_task).state ≡ zombie) × (slot s index ≡ slot s 0))
    → Ends s calm (dispatch s.current_task (slot s index) index s)
unfolding dispatch write
dispatch-Ends s calm index other was = record {
  from = refl;
  to = refl;
  other_task = other;
  in_slot = refl;
  was_ready = was;
  runs = ground arith;
  put_back = ground arith;
  others = λ p h k. ground arith;
  slots = refl;
}

pub checked_dispatch-ready :
    (prev next index : ℕ) (s : Sched)
    → (s.memory next).state ≡ ready
    → checked_dispatch prev next index s ≡ dispatch prev next index s
unfolding checked_dispatch
checked_dispatch-ready prev next index s h = rw h

-- The fallback to the task in slot 0, where the current task is a ZOMBIE.
idle-Ends :
    (s : Sched) (calm : Type 0)
    → slot s 0 ≢ s.current_task
    → (s.memory s.current_task).state ≡ zombie
    → Ends s calm (
        checked_dispatch s.current_task
          (slot s 0)
          0
          (record s { memory = set_state s.memory (slot s 0) ready }))
unfolding dispatch
idle-Ends s calm other dead =
    rw
      (checked_dispatch-ready s.current_task (slot s 0) 0 (record s { memory = m })
        (ap Task.state (write_self s.memory (slot s 0) _)))
      (record {
        from = refl;
        to = refl;
        other_task = other;
        in_slot = refl;
        was_ready = inr (dead, refl);
        runs = ap Task.state (write_self _ (slot s 0) _);
        put_back = after (slot s 0) s.current_task other dead;
        others = λ p h k. elsewhere (slot s 0) s.current_task p other h k;
        slots = refl;
      })
  where
    m : Memory
    m = set_state s.memory (slot s 0) ready

    again : ℕ → ℕ → Memory
    again p q =
        let m' = set_state s.memory p ready in
        if is_running (m' q).state then set_state m' q ready else m'

    after :
        (p q : ℕ)
        → p ≢ q
        → (s.memory q).state ≡ zombie
        → (set_state (again p q) p running q).state
          ≡ (if is_running (s.memory q).state then ready else (s.memory q).state)
    after p q ne z = unfold write in ground arith

    elsewhere : (p q r : ℕ) → p ≢ q → r ≢ q → r ≢ p → set_state (again p q) p running r ≡ s.memory r
    elsewhere p q r ne h k = unfold write in ground arith

no_other-Ends :
    (s : Sched) {calm : Type 0}
    → (calm → slot s 0 ≢ 0)
    → (calm → (s.memory (slot s 0)).state ≢ zombie)
    → Ends s calm (no_other s.current_task s)
unfolding no_other
no_other-Ends s {calm} idle alive =
    if_Ends s calm (is_zombie (s.memory s.current_task).state) _ _
      (λ dead.
        if_Ends s calm (not (slot s 0 == 0) && not (is_zombie (s.memory (slot s 0)).state)) _ _
          (λ here.
            idle-Ends s calm (λ e. ground (arith, ap (λ p. (s.memory p).state) e))
              (is_dead (s.memory s.current_task).state dead))
          (λ gone ok. ground (arith, idle ok, alive ok)))
      (λ _. tt)
  where
    is_dead : (st : TaskState) → is_zombie st ≡ true → st ≡ zombie
    is_dead st h = ground arith

choose-Ends :
    (s : Sched) {calm : Type 0} (found : Option ℕ)
    → ((i : ℕ) → found ≡ some i → runnable s i ≡ true)
    → (calm → slot s 0 ≢ 0)
    → (calm → (s.memory (slot s 0)).state ≢ zombie)
    → Ends s calm (choose s.current_task s found)
unfolding choose
choose-Ends s none h idle alive = no_other-Ends s idle alive
choose-Ends s {calm} (some i) h idle alive =
    if_Ends s calm (slot s i == s.current_task) _ _ (λ _. no_other-Ends s idle alive)
      (λ other.
        let is : (s.memory (slot s i)).state ≡ ready = ground (arith, h i refl) in
        rw (checked_dispatch-ready s.current_task (slot s i) i s is)
          (dispatch-Ends s calm i (ne_of_== _ _ other) (inl is)))

-- What holds of a switch from a state holds of one from the state before the flag was cleared.
unflag :
    (s : Sched) (b : Bool) (calm : Type 0) (e : Ending)
    → Ends (record s { need_reschedule = b }) calm e
    → Ends s calm e
unflag s b calm (returned s') h = tt
unflag s b calm (switched prev next s') w = record {
  from = w.from;
  to = w.to;
  other_task = w.other_task;
  in_slot = w.in_slot;
  was_ready = w.was_ready;
  runs = w.runs;
  put_back = w.put_back;
  others = w.others;
  slots = w.slots;
}
unflag s b calm panicked h = h

scheduler_yield-Ends : (s : Sched) → Ends s (IsCalm s) (scheduler_yield s)
unfolding scheduler_yield
scheduler_yield-Ends s =
    if_Ends s (IsCalm s) (not s.need_reschedule) _ _ (λ _. tt)
      (λ _.
        if_Ends s (IsCalm s)
          (not (s.current_task == 0)
            && not ((s.memory s.current_task).canary == stack_canary_value))
          _ _ (λ broken calm. ground (arith, calm.canary))
          (λ _.
            if_Ends s (IsCalm s) (s.task_count == 1) _ _ (λ _. tt)
              (λ _. unflag s false (IsCalm s) _ (
                choose-Ends s' (find_ready max_tasks s.current_task_index s')
                  (λ i e. (find_ready-Next max_tasks s.current_task_index s' e).found)
                  (λ calm. calm.idle) (λ calm. calm.idle_alive)))))
  where
    s' : Sched
    s' = record s { need_reschedule = false }

-- A switch that `scheduler_yield` makes is as described by `Switch`.
pub scheduler_yield-Switch :
    (s : Sched) {s' : Sched} {prev next : ℕ}
    → scheduler_yield s ≡ switched prev next s'
    → Switch s prev next s'
scheduler_yield-Switch s e = subst (Ends s (IsCalm s)) e (scheduler_yield-Ends s)

-- While the idle task is in slot 0 and no ZOMBIE, and the canary of the current task stands,
-- `scheduler_yield` does not panic.
pub scheduler_yield-ne-panicked : (s : Sched) → IsCalm s → scheduler_yield s ≢ panicked
scheduler_yield-ne-panicked s calm e = subst (Ends s (IsCalm s)) e (scheduler_yield-Ends s) calm
