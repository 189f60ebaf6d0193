-- ===== src/Proc/Wait/Wake.antt =====
-- The loop of wait.c that wakes every waiting parent.
use mathlib.Core.Path.{subst}
use vinix_os.Base.{
  ℕ, zero, suc, ◌<◌, ◌≡◌, ◌≢◌, refl, sym, ap, ◌∙◌, true, false, some, ◌==◌, List, [], ◌∷◌, length,
  if◌then◌else◌, arith, inl, inr, Bool-cases, eq_of_==,
}
use vinix_os.Proc.Task.{ready, Task, Memory, write, Sched}
use vinix_os.Base.Linked.{has, Linked, Linked-frame, ne_of_has}
use vinix_os.Proc.Wait.{wake_up, wake_all}

-- From `p` the `wait_next` pointers lead through the distinct tasks `xs` to the null pointer.
abbrev pub Queue : Memory → ℕ → List ℕ → Type 0
Queue = Linked Task.wait_next

-- The waiters `xs` are READY, and only their state and their `wait_next` have changed; the queue is
-- empty, and the rest of the scheduler's state is the same.
pub record Woken (s : Sched) (xs : List ℕ) (s' : Sched) : Type 0 where
  pub empty : s'.parent_wq ≡ 0
  pub states : (p : ℕ) → (s'.memory p).state ≡ (if has p xs then ready else (s.memory p).state)
  pub others : (p : ℕ) → has p xs ≡ false → s'.memory p ≡ s.memory p
  pub sleep_next : (p : ℕ) → (s'.memory p).sleep_next ≡ (s.memory p).sleep_next
  pub wake_tick : (p : ℕ) → (s'.memory p).wake_tick ≡ (s.memory p).wake_tick
  pub exit_status : (p : ℕ) → (s'.memory p).exit_status ≡ (s.memory p).exit_status
  pub rest : s' ≡ record s { memory = s'.memory; parent_wq = 0 }

wake_up-memory :
    (s : Sched) (x p : ℕ)
    → s.parent_wq ≡ x
    → x ≢ 0
    → (wake_up s).memory p
      ≡ (if p == x then record (s.memory x) { wait_next = 0; state = ready } else s.memory p)
unfolding wake_up write
wake_up-memory s x p at ne = rw at (ground arith)

wake_up-queue :
    (s : Sched) (x : ℕ) → s.parent_wq ≡ x → x ≢ 0 → (wake_up s).parent_wq ≡ (s.memory x).wait_next
unfolding wake_up
wake_up-queue s x at ne = rw at (ground arith)

wake_up-rest :
    (s : Sched) (m : Memory)
    → record (wake_up s) { memory = m; parent_wq = 0 } ≡ record s { memory = m; parent_wq = 0 }
unfolding wake_up
wake_up-rest s m = ground arith

Woken-step :
    {s s' : Sched} (x : ℕ) (xs : List ℕ)
    → s.parent_wq ≡ x
    → x ≢ 0
    → has x xs ≡ false
    → Woken (wake_up s) xs s'
    → Woken s (x ∷ xs) s'
Woken-step {s} {s'} x xs at ne out w = record {
  empty = w.empty;
  states = λ p. ground (arith, w.states p, mem p);
  others = λ p h. ground (arith, w.others p (ground arith), mem p);
  sleep_next = λ p. w.sleep_next p ∙ same Task.sleep_next p refl;
  wake_tick = λ p. w.wake_tick p ∙ same Task.wake_tick p refl;
  exit_status = λ p. w.exit_status p ∙ same Task.exit_status p refl;
  rest = w.rest ∙ wake_up-rest s s'.memory;
}
  where
    mem :
        (p : ℕ)
        → (wake_up s).memory p
          ≡ (if p == x then record (s.memory x) { wait_next = 0; state = ready } else s.memory p)
    mem p = wake_up-memory s x p at ne

    same :
        {A : Type 0} (field : Task → A) (p : ℕ)
        → field (record (s.memory x) { wait_next = 0; state = ready }) ≡ field (s.memory x)
        → field ((wake_up s).memory p) ≡ field (s.memory p)
    same field p h = elim (Bool-cases (p == x)) [
      | inl e ↦
          subst (λ q. field ((wake_up s).memory q) ≡ field (s.memory q)) (sym (eq_of_== p x e))
            (ap field (mem x) ∙ ground (arith, h))
      | inr other ↦ ap field (ground (arith, mem p))
    ]

-- If the queue holds the tasks `xs` and the loop may take as many rounds, it ends, and all of them
-- are woken as described by `Woken`.
pub wake_all-Woken :
    (rounds : ℕ) (s : Sched) (xs : List ℕ)
    → Queue s.memory s.parent_wq xs
    → length xs < suc rounds
    → (s' : Sched) × (wake_all rounds s ≡ some s') × Woken s xs s'
unfolding wake_all
wake_all-Woken rounds s [] at fuel = (
  s,
  none_waits rounds,
  record {
    empty = at;
    states = λ p. refl;
    others = λ p h. refl;
    sleep_next = λ p. refl;
    wake_tick = λ p. refl;
    exit_status = λ p. refl;
    rest = ap (λ q. record s { parent_wq = q }) at;
  },
)
  where
    none_waits : (n : ℕ) → wake_all n s ≡ some s
    none_waits zero = rw at refl
    none_waits (suc n) = rw at refl
wake_all-Woken zero s (x ∷ xs) q fuel = absurd (omega arith)
wake_all-Woken (suc rounds) s (x ∷ xs) (at, ne, out, more) fuel =
    let (s', e, w) = wake_all-Woken rounds (wake_up s) xs queue (omega arith) in
    (s', ground (arith, e), Woken-step x xs at ne out w)
  where
    elsewhere : (q : ℕ) → has q xs ≡ true → (wake_up s).memory q ≡ s.memory q
    elsewhere q h = ground (arith, wake_up-memory s x q at ne, ne_of_has x q xs out h)

    queue : Queue (wake_up s).memory (wake_up s).parent_wq xs
    queue =
        subst (λ n. Queue (wake_up s).memory n xs) (sym (wake_up-queue s x at ne))
          (Linked-frame Task.wait_next s.memory (wake_up s).memory (s.memory x).wait_next xs
            (λ q h. ap Task.wait_next (elsewhere q h)) more)
