-- ===== src/Proc/Task.antt =====
-- The task structure of VinixOS/kernel/include/task.h, the static variables of the scheduler, of the
-- sleep list and of the queue of waiting parents, and how the code reads and writes a task through
-- its pointer. A pointer is a number, 0 the null pointer; memory maps pointers to tasks.
use vinix_os.Base.{
  ℕ, ◌≡◌, ◌≢◌, ◌∙◌, refl, Bool, true, false, List, arith, ◌==◌, if◌then◌else◌, ap, inl, inr,
  Bool-cases, eq_of_==,
}
use vinix_os.Base.Int.{ℤ}

-- TASK_STATE_READY, TASK_STATE_RUNNING, TASK_STATE_BLOCKED, TASK_STATE_ZOMBIE
pub data TaskState : Type 0 where
  ready running blocked zombie : TaskState

abbrev pub is_ready : TaskState → Bool
is_ready ready = true
is_ready running = false
is_ready blocked = false
is_ready zombie = false

abbrev pub is_running : TaskState → Bool
is_running running = true
is_running ready = false
is_running blocked = false
is_running zombie = false

abbrev pub is_zombie : TaskState → Bool
is_zombie zombie = true
is_zombie ready = false
is_zombie running = false
is_zombie blocked = false

-- The word at `stack_base` is `canary`.
pub record Task : Type 0 where
  pub state : TaskState
  pub id : ℕ
  pub canary : ℕ
  pub wait_next : ℕ
  pub sleep_next : ℕ
  pub wake_tick : ℕ
  pub pid : ℤ
  pub ppid : ℤ
  pub exit_status : ℤ
  pub pgd_pa : ℕ
  pub user_pa : ℕ
  pub user_order : ℕ
  pub kstack_pa : ℕ
  pub kstack_order : ℕ

abbrev pub Memory : Type 0
Memory = ℕ → Task

-- `*p = t`
unfoldable pub write : Memory → ℕ → Task → Memory
write m p t q = if p == q then t else m q

abbrev pub set_state : Memory → ℕ → TaskState → Memory
set_state m p st = write m p (record (m p) { state = st })

abbrev pub max_tasks : ℕ
max_tasks = 5

abbrev pub stack_canary_value : ℕ
stack_canary_value = 0xDEADBEEF

pub record Sched : Type 0 where
  pub memory : Memory
  pub tasks : List ℕ
  pub task_count : ℕ
  pub current_task : ℕ
  pub current_task_index : ℕ
  pub scheduler_started : Bool
  pub need_reschedule : Bool
  pub jiffies : ℕ
  pub sleep_head : ℕ
  pub parent_wq : ℕ

-- A pointer to the field that holds a link of the sleep list: the list's head, or a task's `sleep_next`.
pub data Link : Type 0 where
  head : Link
  next_of : ℕ → Link

pub write_self : (m : Memory) (p : ℕ) (t : Task) → write m p t p ≡ t
unfolding write
write_self m p t = ground arith

pub write_ne : (m : Memory) (p q : ℕ) (t : Task) → p ≢ q → write m p t q ≡ m q
unfolding write
write_ne m p q t h = ground arith

-- A write that leaves a field as it is leaves it everywhere.
pub write-field :
    {A : Type 0} (field : Task → A) (m : Memory) (p q : ℕ) (t : Task)
    → field t ≡ field (m p)
    → field (write m p t q) ≡ field (m q)
unfolding write
write-field field m p q t h = elim (Bool-cases (p == q)) [
  | inl e ↦ rw e (h ∙ ap (λ r. field (m r)) (eq_of_== p q e))
  | inr other ↦ rw other refl
]
