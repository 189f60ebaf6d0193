-- ===== src/Proc/Sched/Inv.antt =====
-- The invariant of the scheduler of scheduler.c while tasks run, and that `scheduler_yield` keeps it.
use vinix_os.Base.{
  ℕ, ◌+◌, ◌<◌, ◌≡◌, ◌≢◌, refl, Bool, true, false, not, ◌&&◌, Option, none, some, List, [], ◌∷◌,
  ◌==◌, if◌then◌else◌, length, arith, inl, inr, Bool-cases, ne_of_==,
}
use vinix_os.Proc.Task.{
  TaskState, ready, running, is_ready, is_zombie, write, set_state, max_tasks, stack_canary_value,
  Sched,
}
use vinix_os.Proc.Sched.Search.{Next, Next-lt, Next-taken, find_ready-Next}
use vinix_os.Proc.Sched.{
  Ending, returned, switched, panicked, slot, find_ready, dispatch, checked_dispatch, no_other,
  choose, scheduler_yield,
}

-- How many slots are taken.
unfoldable pub used_slots : List ℕ → ℕ
used_slots [] = 0
used_slots (p ∷ ps) = (if p == 0 then 0 else 1) + used_slots ps

-- The slots hold distinct tasks, their number is kept, the current task is in the current slot, and
-- no other task is RUNNING.
pub record IsValid (s : Sched) : Type 0 where
  pub size : length s.tasks ≡ max_tasks
  pub counted : s.task_count ≡ used_slots s.tasks
  pub distinct : (i j : ℕ) → slot s i ≢ 0 → slot s i ≡ slot s j → i ≡ j
  pub index : s.current_task_index < max_tasks
  pub current : slot s s.current_task_index ≡ s.current_task
  pub alive : s.current_task ≢ 0
  pub one_running :
      (i : ℕ) → slot s i ≢ 0 → (s.memory (slot s i)).state ≡ running → slot s i ≡ s.current_task

-- `P` holds of the state with which a call ends, if it does not panic.
abbrev pub After : (Sched → Type 0) → Ending → Type 0
After P (returned s) = P s
After P (switched prev next s) = P s
After P panicked = Unit {0}

if_After :
    (P : Sched → Type 0) (t : Bool) (x y : Ending)
    → After P x
    → After P y
    → After P (if t then x else y)
if_After P true x y hx hy = hx
if_After P false x y hx hy = hy

-- A change of the state of one task, to one other than RUNNING.
set_state-IsValid :
    {s : Sched} (p : ℕ) (st : TaskState)
    → st ≢ running
    → IsValid s
    → IsValid (record s { memory = set_state s.memory p st })
unfolding write
set_state-IsValid {s} p st ne v = record {
  size = v.size;
  counted = v.counted;
  distinct = v.distinct;
  index = v.index;
  current = v.current;
  alive = v.alive;
  one_running = λ i at h. ground (arith, v.one_running i at);
}

pub dispatch-IsValid :
    {s : Sched} (index : ℕ)
    → index < max_tasks
    → slot s index ≢ 0
    → IsValid s
    → After IsValid (dispatch s.current_task (slot s index) index s)
unfolding dispatch write
dispatch-IsValid {s} index inside at v = record {
  size = v.size;
  counted = v.counted;
  distinct = v.distinct;
  index = inside;
  current = refl;
  alive = at;
  one_running = λ i at' h. ground (arith, v.one_running i at');
}

checked_dispatch-IsValid :
    {s : Sched} (index : ℕ)
    → index < max_tasks
    → slot s index ≢ 0
    → IsValid s
    → After IsValid (checked_dispatch s.current_task (slot s index) index s)
unfolding checked_dispatch
checked_dispatch-IsValid {s} index inside at v =
    elim (Bool-cases (is_ready (s.memory (slot s index)).state)) [
      | inl yes_ready ↦ rw yes_ready (dispatch-IsValid index inside at v)
      | inr not_ready ↦ rw not_ready (elim (Bool-cases (slot s 0 == 0)) [
        | inl none_left ↦ rw none_left tt
        | inr idle ↦ rw idle (
            dispatch-IsValid {s = record s { memory = set_state s.memory (slot s 0) ready }} 0
              (omega arith) (ne_of_== _ _ idle) (set_state-IsValid (slot s 0) ready (λ e. cc) v))
      ])
    ]

no_other-IsValid : {s : Sched} → IsValid s → After IsValid (no_other s.current_task s)
unfolding no_other
no_other-IsValid {s} v = elim (Bool-cases (is_zombie (s.memory s.current_task).state)) [
  | inl dead ↦
      rw dead
        (elim (Bool-cases (not (slot s 0 == 0) && not (is_zombie (s.memory (slot s 0)).state))) [
          | inl idle ↦ rw idle (
              checked_dispatch-IsValid
                {s = record s { memory = set_state s.memory (slot s 0) ready }} 0 (omega arith)
                (ground arith) (set_state-IsValid (slot s 0) ready (λ e. cc) v))
          | inr stuck ↦ rw stuck tt
        ])
  | inr still ↦ rw still v
]

choose-IsValid :
    {s : Sched} (found : Option ℕ)
    → ((i : ℕ) → found ≡ some i → Next s s.current_task_index max_tasks i)
    → IsValid s
    → After IsValid (choose s.current_task s found)
unfolding choose
choose-IsValid none h v = no_other-IsValid v
choose-IsValid {s} (some i) h v = elim (Bool-cases (slot s i == s.current_task)) [
  | inl same ↦ rw same (no_other-IsValid v)
  | inr other ↦ rw other (checked_dispatch-IsValid i (Next-lt (h i refl)) (Next-taken (h i refl)) v)
]

-- From a valid state, `scheduler_yield` ends in a valid state, whether it returns or switches.
pub scheduler_yield-IsValid : {s : Sched} → IsValid s → After IsValid (scheduler_yield s)
unfolding scheduler_yield
scheduler_yield-IsValid {s} v = if_After IsValid (not s.need_reschedule) _ _ v (
    if_After IsValid
      (not (s.current_task == 0) && not ((s.memory s.current_task).canary == stack_canary_value)) _
      _ tt
      (if_After IsValid (s.task_count == 1) _ _ v' (
        choose-IsValid {s = s'} (find_ready max_tasks s.current_task_index s')
          (λ i. find_ready-Next max_tasks s.current_task_index s') v')))
  where
    s' : Sched
    s' = record s { need_reschedule = false }

    v' : IsValid s'
    v' = record {
      size = v.size;
      counted = v.counted;
      distinct = v.distinct;
      index = v.index;
      current = v.current;
      alive = v.alive;
      one_running = v.one_running;
    }
