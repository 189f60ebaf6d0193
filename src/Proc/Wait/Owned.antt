-- ===== src/Proc/Wait/Owned.antt =====
-- What `do_wait` of wait.c looks for and what it gives back, described without its code: a ZOMBIE child
-- of the current task, and the memory that a task owns.
use vinix_os.Base.{ℕ, ◌<◌, ◌≡◌, ◌≢◌, ◌⊎◌, refl, true, false, ◌==◌, List, [], ◌∷◌, leb, arith}
use vinix_os.Base.Int.{eq_of_==ℤ, ==ℤ_refl}
use vinix_os.Proc.Task.{TaskState, zombie, is_zombie, Task, Sched, max_tasks}
use vinix_os.Proc.Sched.{slot, tasks_array_get}
use vinix_os.Proc.Wait.{zombie_child, Release, task_struct, page_table, pages, releases}

-- Slot `i` holds a ZOMBIE child of the current task.
pub record IsZombieChild (s : Sched) (i : ℕ) : Type 0 where
  pub inside : i < max_tasks
  pub present : slot s i ≢ 0
  pub parent : (s.memory (slot s i)).ppid ≡ (s.memory s.current_task).pid
  pub dead : (s.memory (slot s i)).state ≡ zombie

pub tasks_array_get-inside : (i : ℕ) (s : Sched) → i < max_tasks → tasks_array_get i s ≡ slot s i
unfolding tasks_array_get
tasks_array_get-inside i s lt =
    let inside : leb max_tasks i ≡ false = ground arith in rw inside refl

eq_of_is_zombie : (st : TaskState) → is_zombie st ≡ true → st ≡ zombie
eq_of_is_zombie st h = ground arith

-- The test of the code finds what is described.
pub zombie_child-IsZombieChild :
    (s : Sched) (i : ℕ)
    → i < max_tasks
    → zombie_child (s.memory s.current_task).pid i s ≡ true
    → IsZombieChild s i
unfolding zombie_child
zombie_child-IsZombieChild s i lt h =
    let got = tasks_array_get-inside i s lt in
    record {
      inside = lt;
      present = λ z. ground (arith, h, got, z);
      parent = eq_of_==ℤ _ _ (ground (arith, h, got));
      dead = eq_of_is_zombie _ (ground (arith, h, got));
    }

pub IsZombieChild-zombie_child :
    (s : Sched) (i : ℕ) → IsZombieChild s i → zombie_child (s.memory s.current_task).pid i s ≡ true
unfolding zombie_child
IsZombieChild-zombie_child s i c =
    let some_task : (slot s i == 0) ≡ false = ground (arith, c.present) in
    rw (tasks_array_get-inside i s c.inside, some_task, c.parent, c.dead, ==ℤ_refl) refl

-- The task structs, the page tables and the runs of pages in a list of what is given back.
abbrev pub task_structs : List Release → List ℕ
task_structs [] = []
task_structs (task_struct p ∷ rs) = p ∷ task_structs rs
task_structs (page_table pa ∷ rs) = task_structs rs
task_structs (pages pa order ∷ rs) = task_structs rs

abbrev pub page_tables : List Release → List ℕ
page_tables [] = []
page_tables (task_struct p ∷ rs) = page_tables rs
page_tables (page_table pa ∷ rs) = pa ∷ page_tables rs
page_tables (pages pa order ∷ rs) = page_tables rs

abbrev pub page_runs : List Release → List (ℕ × ℕ)
page_runs [] = []
page_runs (task_struct p ∷ rs) = page_runs rs
page_runs (page_table pa ∷ rs) = page_runs rs
page_runs (pages pa order ∷ rs) = (pa, order) ∷ page_runs rs

-- `rs` is what the task `t` at `p` owns, everything once: its struct; its page table, unless it has
-- none or the kernel's; the pages of its image and those of its kernel stack, as far as it has any.
pub record GivesBack (kernel_pgd p : ℕ) (t : Task) (rs : List Release) : Type 0 where
  pub itself : task_structs rs ≡ p ∷ []
  pub own_table : t.pgd_pa ≢ 0 → t.pgd_pa ≢ kernel_pgd → page_tables rs ≡ t.pgd_pa ∷ []
  pub no_table : (t.pgd_pa ≡ 0) ⊎ (t.pgd_pa ≡ kernel_pgd) → page_tables rs ≡ []
  pub image_and_stack :
      t.user_pa ≢ 0
      → t.kstack_pa ≢ 0
      → page_runs rs ≡ (t.user_pa, t.user_order) ∷ (t.kstack_pa, t.kstack_order) ∷ []
  pub image_only : t.user_pa ≢ 0 → t.kstack_pa ≡ 0 → page_runs rs ≡ (t.user_pa, t.user_order) ∷ []
  pub stack_only :
      t.user_pa ≡ 0 → t.kstack_pa ≢ 0 → page_runs rs ≡ (t.kstack_pa, t.kstack_order) ∷ []
  pub no_pages : t.user_pa ≡ 0 → t.kstack_pa ≡ 0 → page_runs rs ≡ []

pub releases-GivesBack :
    (kernel_pgd p : ℕ) (t : Task) → GivesBack kernel_pgd p t (releases kernel_pgd p t)
unfolding releases
releases-GivesBack kernel_pgd p t = record {
  itself = ground arith;
  own_table = λ a b. ground (arith, a, b);
  no_table = λ e. ground (arith, e);
  image_and_stack = λ a b. ground (arith, a, b);
  image_only = λ a b. ground (arith, a, b);
  stack_only = λ a b. ground (arith, a, b);
  no_pages = λ a b. ground (arith, a, b);
}
