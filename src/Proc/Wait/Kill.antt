-- ===== src/Proc/Wait/Kill.antt =====
-- `do_kill_by_pid` of wait.c: which task it makes a ZOMBIE, and what a queue that the task stands in
-- does with it afterwards.
use mathlib.Core.Path.{subst}
use vinix_os.Base.{
  ℕ, suc, ◌+◌, ◌%◌, ◌^◌, ◌<◌, ◌≡◌, ◌≢◌, refl, sym, ap, ◌∙◌, true, false, some, List, leb, length,
  if◌then◌else◌, arith,
}
use vinix_os.Base.Int.{ℤ, pos}
use vinix_os.Proc.Task.{
  ready, zombie, is_zombie, Task, Sched, max_tasks, write_self, write_ne, write-field,
}
use vinix_os.Base.Linked.{has, Linked, Linked-frame}
use vinix_os.Proc.Sched.{slot, tasks_array_get}
use vinix_os.Proc.Sleep.{sleep_tick}
use vinix_os.Proc.Sleep.Chain.{Chain}
use vinix_os.Proc.Sleep.Tick.{sleep_tick-kept}
use vinix_os.Proc.Wait.{wake_all, bury, killable, do_kill_by_pid}
use vinix_os.Proc.Wait.Wake.{Queue, wake_all-Woken}

-- The target of the kill may be killed and is alive.
pub record IsTarget (s : Sched) (n : ℕ) : Type 0 where
  pub inside : n < max_tasks
  pub allowed : killable (pos n) (slot s n) s ≡ true
  pub alive : is_zombie (s.memory (slot s n)).state ≡ false

bury-link :
    (next : Task → ℕ) (p : ℕ) (status : ℤ) (s : Sched) (q : ℕ)
    → next (record (s.memory p) { exit_status = status; state = zombie }) ≡ next (s.memory p)
    → next ((bury p status s).memory q) ≡ next (s.memory q)
unfolding bury
bury-link next p status s q h = write-field next s.memory p q _ h

-- A list of tasks stays as it is.
bury-Linked :
    (next : Task → ℕ) (p : ℕ) (status : ℤ) (s : Sched) (q : ℕ) (xs : List ℕ)
    → next (record (s.memory p) { exit_status = status; state = zombie }) ≡ next (s.memory p)
    → Linked next s.memory q xs
    → Linked next (bury p status s).memory q xs
bury-Linked next p status s q xs h l =
    Linked-frame next s.memory (bury p status s).memory q xs (λ r _. bury-link next p status s r h)
      l

do_kill_by_pid-bury :
    (rounds n : ℕ) (status : ℤ) (s : Sched) {s' : Sched}
    → IsTarget s n
    → wake_all rounds (bury (slot s n) status s) ≡ some s'
    → do_kill_by_pid rounds (pos n) status s ≡ some (pos 0, s')
unfolding do_kill_by_pid tasks_array_get
do_kill_by_pid-bury rounds n status s h e =
    rw (in_range n h.inside, do_kill_by_pid)
      (rw (in_range n h.inside) (rw (h.allowed, h.alive, e) refl))
  where
    in_range : (i : ℕ) → i < max_tasks → leb max_tasks i ≡ false
    in_range i lt = ground arith

-- If the queue of waiting parents holds the tasks `ws` and the loop may take as many rounds, a kill
-- of the task in slot `n` returns 0, sets the status, wakes every waiting parent and changes no task
-- but these and the target. The target is a ZOMBIE if it does not stand in the queue itself; if it
-- does, it is READY.
pub do_kill_by_pid-states :
    (rounds n : ℕ) (status : ℤ) (s : Sched) (ws : List ℕ)
    → IsTarget s n
    → Queue s.memory s.parent_wq ws
    → length ws < suc rounds
    → (s' : Sched) × (do_kill_by_pid rounds (pos n) status s ≡ some (pos 0, s'))
      × (s'.parent_wq ≡ 0)
      × ((s'.memory (slot s n)).exit_status ≡ status)
      × ((s'.memory (slot s n)).state ≡ (if has (slot s n) ws then ready else zombie))
      × ((p : ℕ) → has p ws ≡ true → (s'.memory p).state ≡ ready)
      × ((p : ℕ) → p ≢ slot s n → has p ws ≡ false → s'.memory p ≡ s.memory p)
unfolding bury
do_kill_by_pid-states rounds n status s ws h q fuel =
    let (s', e, w) =
      wake_all-Woken rounds (bury (slot s n) status s) ws
        (bury-Linked Task.wait_next (slot s n) status s s.parent_wq ws refl q) fuel in
    (
      s',
      do_kill_by_pid-bury rounds n status s h e,
      w.empty,
      w.exit_status (slot s n) ∙ ap Task.exit_status (write_self s.memory (slot s n) _),
      w.states (slot s n)
          ∙ ap (λ t. if has (slot s n) ws then ready else Task.state t)
              (write_self s.memory (slot s n) _),
      λ p inside. ground (arith, w.states p),
      λ p ne out. w.others p out ∙ write_ne s.memory (slot s n) p _ (λ e. ne (sym e)),
    )

-- A kill does not take its target off the sleep list. If the target sleeps and its time comes at the
-- next tick, then after the kill the next call of `sleep_tick` makes the ZOMBIE READY.
pub do_kill_by_pid-sleeper :
    (rounds n : ℕ) (status : ℤ) (s : Sched) (ws xs : List ℕ)
    → IsTarget s n
    → Queue s.memory s.parent_wq ws
    → Chain s.memory s.sleep_head xs
    → has (slot s n) xs ≡ true
    → has (slot s n) ws ≡ false
    → leb (s.memory (slot s n)).wake_tick ((s.jiffies + 1) % 2 ^ 32) ≡ true
    → length ws < rounds
    → length xs < rounds
    → (s' s'' : Sched) × (do_kill_by_pid rounds (pos n) status s ≡ some (pos 0, s'))
      × ((s'.memory (slot s n)).state ≡ zombie)
      × (sleep_tick rounds s' ≡ some s'')
      × ((s''.memory (slot s n)).state ≡ ready)
unfolding bury
do_kill_by_pid-sleeper rounds n status s ws xs h q c asleep apart due fuel fuel' =
    let (s', e, w) =
      wake_all-Woken rounds (bury (slot s n) status s) ws
        (bury-Linked Task.wait_next (slot s n) status s s.parent_wq ws refl q) (omega arith) in
    let same : s'.sleep_head ≡ s.sleep_head = ap Sched.sleep_head w.rest in
    let same_time : s'.jiffies ≡ s.jiffies = ap Sched.jiffies w.rest in
    let tick : (s'.memory (slot s n)).wake_tick ≡ (s.memory (slot s n)).wake_tick =
      w.wake_tick (slot s n) ∙ ap Task.wake_tick (write_self s.memory (slot s n) _) in
    let c' : Chain s'.memory s'.sleep_head xs =
      subst (λ p. Chain s'.memory p xs) (sym same)
        (Linked-frame Task.sleep_next (bury (slot s n) status s).memory s'.memory s.sleep_head xs
          (λ p _. w.sleep_next p)
          (bury-Linked Task.sleep_next (slot s n) status s s.sleep_head xs refl c)) in
    let (s'', e', _, states, _) = sleep_tick-kept rounds s' xs c' fuel' in
    (
      s',
      s'',
      do_kill_by_pid-bury rounds n status s h e,
      w.states (slot s n) ∙ rw apart (ap Task.state (write_self s.memory (slot s n) _)),
      e',
      states (slot s n) ∙ rw (asleep, tick, same_time, due) refl,
    )
