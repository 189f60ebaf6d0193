-- ===== src/Proc/Sched/Search.antt =====
-- The search loop of `scheduler_yield` in scheduler.c: it finds the first READY task after the
-- current slot, going round, and misses none.
use mathlib.Core.Path.{subst}
use vinix_os.Base.{
  ℕ, zero, suc, ◌+◌, ◌-◌, ◌%◌, ◌<◌, ◌≡◌, ◌≢◌, sym, ◌∙◌, Bool, true, false, not, ◌&&◌, none, some,
  ◌==◌, arith, inl, inr, Bool-cases,
}
use vinix_os.Proc.Task.{is_ready, max_tasks, Sched}
use vinix_os.Proc.Sched.{slot, find_ready}

-- Whether slot `i` has a READY task.
abbrev pub runnable : Sched → ℕ → Bool
runnable s i = not (slot s i == 0) && is_ready (s.memory (slot s i)).state

-- What the search finds: the slot `steps + 1` places on, with a READY task, and none before it.
pub record Next (s : Sched) (index rounds i : ℕ) : Type 0 where
  pub steps : ℕ
  pub in_time : steps < rounds
  pub place : i ≡ (index + 1 + steps) % max_tasks
  pub found : runnable s i ≡ true
  pub passed : (k : ℕ) → k < steps → runnable s ((index + 1 + k) % max_tasks) ≡ false

pub Next-lt : {s : Sched} {index rounds i : ℕ} → Next s index rounds i → i < max_tasks
Next-lt n = omega (arith, n.place)

pub Next-taken : {s : Sched} {index rounds i : ℕ} → Next s index rounds i → slot s i ≢ 0
Next-taken n = ground (arith, n.found)

shift :
    (index k : ℕ) → ((index + 1) % max_tasks + 1 + k) % max_tasks ≡ (index + 1 + suc k) % max_tasks
shift index k = omega arith

first : (index : ℕ) → (index + 1 + 0) % max_tasks ≡ (index + 1) % max_tasks
first index = omega arith

passed_later :
    (s : Sched) (index : ℕ) (n : ℕ)
    → runnable s ((index + 1) % max_tasks) ≡ false
    → ((k : ℕ) → k < n → runnable s (((index + 1) % max_tasks + 1 + k) % max_tasks) ≡ false)
    → (k : ℕ) → k < suc n
    → runnable s ((index + 1 + k) % max_tasks) ≡ false
passed_later s index n here later zero lt =
    subst (λ j. runnable s j ≡ false) (sym (first index)) here
passed_later s index n here later (suc k) lt =
    subst (λ j. runnable s j ≡ false) (shift index k) (later k (omega arith))

pub find_ready-Next :
    (rounds index : ℕ) (s : Sched) {i : ℕ}
    → find_ready rounds index s ≡ some i
    → Next s index rounds i
unfolding find_ready
find_ready-Next zero index s h = cc
find_ready-Next (suc rounds) index s {i} h =
    elim (Bool-cases (runnable s ((index + 1) % max_tasks))) [
      | inl here ↦
          let at : (index + 1) % max_tasks ≡ i = ground arith in
          record {
            steps = 0;
            in_time = omega arith;
            place = sym at ∙ sym (first index);
            found = subst (λ j. runnable s j ≡ true) at here;
            passed = λ k lt. absurd (omega arith);
          }
      | inr miss ↦
          let n : Next s ((index + 1) % max_tasks) rounds i =
            find_ready-Next rounds ((index + 1) % max_tasks) s (ground arith) in
          record {
            steps = suc n.steps;
            in_time = omega (arith, n.in_time);
            place = n.place ∙ shift index n.steps;
            found = n.found;
            passed = passed_later s index n.steps miss n.passed;
          }
    ]

find_ready-none_from :
    (rounds index : ℕ) (s : Sched)
    → find_ready rounds index s ≡ none
    → (k : ℕ) → k < rounds
    → runnable s ((index + 1 + k) % max_tasks) ≡ false
unfolding find_ready
find_ready-none_from zero index s h k lt = absurd (omega arith)
find_ready-none_from (suc rounds) index s h k lt =
    elim (Bool-cases (runnable s ((index + 1) % max_tasks))) [
      | inl here ↦ absurd (ground arith)
      | inr miss ↦
          passed_later s index rounds miss
            (find_ready-none_from rounds ((index + 1) % max_tasks) s (ground arith)) k lt
    ]

-- If the search over all slots finds nothing, no slot has a READY task.
pub find_ready-none :
    (index : ℕ) (s : Sched)
    → index < max_tasks
    → find_ready max_tasks index s ≡ none
    → (i : ℕ) → i < max_tasks
    → runnable s i ≡ false
find_ready-none index s inside h i lt =
    subst (λ j. runnable s j ≡ false) round
      (find_ready-none_from max_tasks index s h ((i + 4 + (max_tasks - index)) % max_tasks)
        (omega arith))
  where
    round : (index + 1 + (i + 4 + (max_tasks - index)) % max_tasks) % max_tasks ≡ i
    round = omega arith
