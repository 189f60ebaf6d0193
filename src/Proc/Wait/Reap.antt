-- ===== src/Proc/Wait/Reap.antt =====
-- `do_wait` of wait.c: it reaps a ZOMBIE child if there is one, and queues the caller if there is none.
use mathlib.Core.Path.{subst}
use vinix_os.Base.{
  ℕ, zero, suc, ◌+◌, ◌-◌, ◌<◌, ◌≤◌, ◌≡◌, ◌≢◌, refl, sym, ap, ◌∙◌, true, false, none, some, ◌==◌,
  List, [], ◌∷◌, ltb, get_or, set, if◌then◌else◌, arith, inl, inr, Bool-cases, Option-cases,
  eq_of_==, ne_of_==, get_or-set_self, get_or-set_ne, length-set,
}
use vinix_os.Base.Int.{ℤ}
use vinix_os.Proc.Task.{running, blocked, Task, write, Sched, max_tasks, write_self, write_ne}
use vinix_os.Base.Linked.{has, Linked-frame, ne_of_has}
use vinix_os.Proc.Sched.{slot, scheduler_current_task, scheduler_release_slot, scheduler_yield}
use vinix_os.Proc.Sched.Inv.{used_slots, IsValid}
use vinix_os.Proc.Wait.{
  zombie_child, find_zombie, enqueue, Release, releases, reaped, asleep, do_wait,
}
use vinix_os.Proc.Wait.Owned.{
  IsZombieChild, GivesBack, releases-GivesBack, zombie_child-IsZombieChild,
  IsZombieChild-zombie_child, tasks_array_get-inside,
}
use vinix_os.Proc.Wait.Wake.{Queue}

find_zombie-some :
    (rounds : ℕ) (ppid : ℤ) (i : ℕ) (s : Sched) {j : ℕ}
    → find_zombie rounds ppid i s ≡ some j
    → (j < i + rounds) × (zombie_child ppid j s ≡ true)
unfolding find_zombie
find_zombie-some zero ppid i s e = absurd (cc e)
find_zombie-some (suc rounds) ppid i s {j} e = elim (Bool-cases (zombie_child ppid i s)) [
  | inl here ↦ ground (arith, e, here)
  | inr next ↦
      let (lt, found) = find_zombie-some rounds ppid (i + 1) s (sym (rw next refl) ∙ e) in
      (omega arith, found)
]

find_zombie-none :
    (rounds : ℕ) (ppid : ℤ) (i : ℕ) (s : Sched) (j : ℕ)
    → find_zombie rounds ppid i s ≡ none
    → i ≤ j
    → j < i + rounds
    → zombie_child ppid j s ≡ false
unfolding find_zombie
find_zombie-none zero ppid i s j e le lt = absurd (omega arith)
find_zombie-none (suc rounds) ppid i s j e le lt = elim (Bool-cases (zombie_child ppid i s)) [
  | inl here ↦ absurd (cc (e, here))
  | inr next ↦ elim (Bool-cases (i == j)) [
    | inl same ↦ ap (λ k. zombie_child ppid k s) (sym (eq_of_== i j same)) ∙ next
    | inr other ↦
        find_zombie-none rounds ppid (i + 1) s j (sym (rw next refl) ∙ e) (ground arith)
          (omega arith)
  ]
]

used_slots-set :
    (ps : List ℕ) (i : ℕ) → get_or ps i 0 ≢ 0 → suc (used_slots (set ps i 0)) ≡ used_slots ps
unfolding used_slots
used_slots-set [] i h = absurd (h refl)
used_slots-set (p ∷ ps) zero h = ground arith
used_slots-set (p ∷ ps) (suc i) h = omega (arith, used_slots-set ps i h)

-- The state after a slot that is taken has been released.
released : ℕ → Sched → Sched
released i s = record s {
  tasks = set s.tasks i 0;
  task_count = if ltb 0 s.task_count then s.task_count - 1 else s.task_count;
}

scheduler_release_slot-taken :
    (i : ℕ) (s : Sched) → i < max_tasks → slot s i ≢ 0 → scheduler_release_slot i s ≡ released i s
unfolding scheduler_release_slot released
scheduler_release_slot-taken i s lt taken = ground arith

released-IsValid :
    {s : Sched} (i : ℕ)
    → IsValid s
    → i < max_tasks
    → slot s i ≢ 0
    → i ≢ s.current_task_index
    → IsValid (released i s)
unfolding released
released-IsValid {s} i v lt taken other = record {
  size = length-set s.tasks i 0 ∙ v.size;
  counted = ground (arith, v.counted, used_slots-set s.tasks i taken);
  distinct = λ a b ha e.
      v.distinct a b (λ z. ha (hole a z)) (kept a ha ∙ e ∙ sym (kept b (λ z. ha (e ∙ z))));
  index = v.index;
  current = get_or-set_ne s.tasks i s.current_task_index 0 0 other ∙ v.current;
  alive = v.alive;
  one_running = λ a ha r.
      sym (kept a ha)
      ∙ v.one_running a (λ z. ha (hole a z)) (ap (λ p. (s.memory p).state) (kept a ha) ∙ r);
}
  where
    cleared : get_or (set s.tasks i 0) i 0 ≡ 0
    cleared = get_or-set_self s.tasks i 0 0 (ground (arith, v.size))

    kept : (a : ℕ) → get_or (set s.tasks i 0) a 0 ≢ 0 → slot s a ≡ get_or (set s.tasks i 0) a 0
    kept a h = sym (
        get_or-set_ne s.tasks i a 0 0
          (λ e. h (ap (λ k. get_or (set s.tasks i 0) k 0) (sym e) ∙ cleared)))

    hole : (a : ℕ) → slot s a ≡ 0 → get_or (set s.tasks i 0) a 0 ≡ 0
    hole a z = elim (Bool-cases (i == a)) [
      | inl e ↦ ap (λ k. get_or (set s.tasks i 0) k 0) (sym (eq_of_== i a e)) ∙ cleared
      | inr ne ↦ get_or-set_ne s.tasks i a 0 0 (ne_of_== i a ne) ∙ z
    ]

-- From a valid state in which the current task runs and some slot holds a ZOMBIE child of it,
-- `do_wait` reaps such a child, a ZOMBIE task whose ppid is the caller's pid: it returns the child's
-- pid and status, gives back exactly what the child owns, as described by `GivesBack`, empties the
-- child's slot and no other, leaves the tasks' memory as it is, and the state is valid again.
pub do_wait-reaps :
    (kernel_pgd : ℕ) (s : Sched) (i : ℕ)
    → IsValid s
    → (s.memory s.current_task).state ≡ running
    → IsZombieChild s i
    → (j : ℕ) × (rs : List Release) × (s' : Sched) × IsZombieChild s j
      × GivesBack kernel_pgd (slot s j) (s.memory (slot s j)) rs
      × (do_wait kernel_pgd s
          ≡ reaped (s.memory (slot s j)).pid (s.memory (slot s j)).exit_status rs s')
      × (slot s' j ≡ 0)
      × ((k : ℕ) → k ≢ j → slot s' k ≡ slot s k)
      × (s'.memory ≡ s.memory)
      × IsValid s'
unfolding do_wait scheduler_current_task released
do_wait-reaps kernel_pgd s i v runs child =
    elim (Option-cases (find_zombie max_tasks (s.memory s.current_task).pid 0 s)) [
      | inl e ↦ absurd (
          cc (
            find_zombie-none max_tasks _ 0 s i e (omega arith) (omega (arith, child.inside)),
            IsZombieChild-zombie_child s i child,
          ))
      | inr (j, e) ↦
          let (lt', found) = find_zombie-some max_tasks _ 0 s e in
          let is : IsZombieChild s j = zombie_child-IsZombieChild s j lt' found in
          let got = tasks_array_get-inside j s lt' in
          let other : j ≢ s.current_task_index = λ same. absurd (
            cc (
              is.dead,
              runs,
              ap (λ k. (s.memory (slot s k)).state) same,
              ap (λ p. (s.memory p).state) v.current,
            )) in
          (
            j,
            releases kernel_pgd (slot s j) (s.memory (slot s j)),
            released j s,
            is,
            releases-GivesBack kernel_pgd (slot s j) (s.memory (slot s j)),
            rw (me, e) (rw (got, scheduler_release_slot-taken j s lt' is.present) refl),
            get_or-set_self s.tasks j 0 0 (ground (arith, v.size)),
            λ k ne. get_or-set_ne s.tasks j k 0 0 (λ same. ne (sym same)),
            refl,
            released-IsValid j v lt' is.present other,
          )
    ]
  where
    me : (s.current_task == 0) ≡ false
    me = ground (arith, v.alive)

-- If the current task stands in no queue and has no ZOMBIE child in any slot, `do_wait` yields with
-- the caller BLOCKED at the head of the queue, the other waiting parents behind it, no other task
-- changed and a switch due.
pub do_wait-asleep :
    (kernel_pgd : ℕ) (s : Sched) (ws : List ℕ)
    → s.current_task ≢ 0
    → ((i : ℕ) → i < max_tasks → zombie_child (s.memory s.current_task).pid i s ≡ false)
    → Queue s.memory s.parent_wq ws
    → has s.current_task ws ≡ false
    → (s' : Sched) × (do_wait kernel_pgd s ≡ asleep (scheduler_yield s'))
      × Queue s'.memory s'.parent_wq (s.current_task ∷ ws)
      × ((s'.memory s.current_task).state ≡ blocked)
      × ((p : ℕ) → p ≢ s.current_task → s'.memory p ≡ s.memory p)
      × (s'.need_reschedule ≡ true)
unfolding do_wait scheduler_current_task enqueue
do_wait-asleep kernel_pgd s ws some_task no_child queue out =
    elim (Option-cases (find_zombie max_tasks (s.memory s.current_task).pid 0 s)) [
      | inr (j, e) ↦
          let (lt, found) = find_zombie-some max_tasks _ 0 s e in absurd (cc (no_child j lt, found))
      | inl e ↦ (
        s',
        rw (me, e) (rw me refl),
        (refl, some_task, out, rest),
        ap Task.state (write_self s.memory s.current_task _),
        λ p ne. write_ne s.memory s.current_task p _ (λ same. ne (sym same)),
        refl,
      )
    ]
  where
    me : (s.current_task == 0) ≡ false
    me = ground arith

    s' : Sched
    s' = record s {
      memory =
          write s.memory s.current_task
            (record (s.memory s.current_task) { wait_next = s.parent_wq; state = blocked });
      parent_wq = s.current_task;
      need_reschedule = true;
    }

    rest : Queue s'.memory (s'.memory s.current_task).wait_next ws
    rest =
        subst (λ n. Queue s'.memory n ws)
          (sym (ap Task.wait_next (write_self s.memory s.current_task _)))
          (Linked-frame Task.wait_next s.memory s'.memory s.parent_wq ws
            (λ q h.
              ap Task.wait_next
                (write_ne s.memory s.current_task q _ (ne_of_has s.current_task q ws out h)))
            queue)
