-- ===== src/Proc/Sleep/Asleep.antt =====
-- A task in the sleep list of sleep.c, and what one tick does with it.
use mathlib.Core.Path.{subst}
use vinix_os.Base.{
  ℕ, suc, ◌+◌, ◌%◌, ◌^◌, ◌≤◌, ◌<◌, ◌≡◌, ◌≢◌, refl, sym, ap, ◌∙◌, true, false, some, ◌==◌, List, [],
  ◌∷◌, leb, length, arith, inl, inr, Bool-cases, eq_of_==,
}
use vinix_os.Proc.Task.{ready, blocked, Task, Memory, write, Sched, head, write_self, write_ne}
use vinix_os.Base.Linked.{has, Linked-frame, ne_of_has}
use vinix_os.Proc.Sleep.{enter_sleep, ticks_of, sleep_tick, load_link}
use vinix_os.Proc.Sleep.Chain.{Chain, kept}
use vinix_os.Proc.Sleep.Tick.{Walked, walk_sleepers-Walked}

-- The task at `p` is in the sleep list until the tick `wake`, and the loop of `sleep_tick` may take
-- enough rounds.
pub record Asleep (rounds p wake : ℕ) (s : Sched) : Type 0 where
  pub xs : List ℕ
  pub chain : Chain s.memory s.sleep_head xs
  pub inside : has p xs ≡ true
  pub fuel : length xs < rounds
  pub tick : (s.memory p).wake_tick ≡ wake
  pub waits : (s.memory p).state ≡ blocked

pub enter_sleep-Asleep :
    (rounds ms : ℕ) (s : Sched) (xs : List ℕ)
    → s.current_task ≢ 0
    → Chain s.memory s.sleep_head xs
    → has s.current_task xs ≡ false
    → suc (length xs) < rounds
    → Asleep rounds s.current_task ((s.jiffies + ticks_of ms) % 2 ^ 32) (enter_sleep ms s)
unfolding enter_sleep
enter_sleep-Asleep rounds ms s xs ne c out fuel = rw me (record {
  xs = s.current_task ∷ xs;
  chain = (refl, ne, out, rest);
  inside = ground arith;
  fuel = fuel;
  tick = ap Task.wake_tick (write_self s.memory s.current_task _);
  waits = ap Task.state (write_self s.memory s.current_task _);
})
  where
    me : (s.current_task == 0) ≡ false
    me = ground arith

    m : Memory
    m = write s.memory s.current_task (record (s.memory s.current_task) {
      wake_tick = (s.jiffies + ticks_of ms) % 2 ^ 32;
      sleep_next = s.sleep_head;
      state = blocked;
    })

    rest : Chain m (m s.current_task).sleep_next xs
    rest =
        subst (λ n. Chain m n xs) (sym (ap Task.sleep_next (write_self s.memory s.current_task _)))
          (Linked-frame Task.sleep_next s.memory m s.sleep_head xs
            (λ q h.
              ap Task.sleep_next
                (write_ne s.memory s.current_task q _ (ne_of_has s.current_task q xs out h)))
            c)

has-kept :
    (m : Memory) (now p : ℕ) (xs : List ℕ)
    → has p xs ≡ true
    → leb (m p).wake_tick now ≡ false
    → has p (kept m now xs) ≡ true
has-kept m now p [] h later = absurd (cc h)
has-kept m now p (x ∷ xs) h later = elim (Bool-cases (p == x)) [
  | inl e ↦ rw (ap (λ q. leb (m q).wake_tick now) (sym (eq_of_== p x e)) ∙ later) (rw e refl)
  | inr ne ↦ ground (arith, has-kept m now p xs (ground arith) later)
]

length-kept : (m : Memory) (now : ℕ) (xs : List ℕ) → length (kept m now xs) ≤ length xs
length-kept m now [] = omega arith
length-kept m now (x ∷ xs) = ground (arith, length-kept m now xs)

tick_Walked :
    (rounds : ℕ) (s : Sched) (xs : List ℕ)
    → Chain s.memory s.sleep_head xs
    → length xs < rounds
    → (s' : Sched) × (sleep_tick rounds s ≡ some s')
      × Walked (record s { jiffies = (s.jiffies + 1) % 2 ^ 32 }) head xs s'
unfolding sleep_tick load_link
tick_Walked rounds s xs c fuel =
    walk_sleepers-Walked rounds head (record s { jiffies = (s.jiffies + 1) % 2 ^ 32 }) xs c tt fuel

-- A tick before the time leaves the task asleep, and the time goes on.
pub sleep_tick-early :
    (rounds p wake : ℕ) (s : Sched)
    → Asleep rounds p wake s
    → s.jiffies + 1 < wake
    → wake < 2 ^ 32
    → (s' : Sched) × (sleep_tick rounds s ≡ some s')
      × Asleep rounds p wake s'
      × (s'.jiffies ≡ s.jiffies + 1)
unfolding load_link
sleep_tick-early rounds p wake s a early small =
    let (s', e, w) = tick_Walked rounds s a.xs a.chain a.fuel in
    (
      s',
      e,
      record {
        xs = kept s.memory ((s.jiffies + 1) % 2 ^ 32) a.xs;
        chain = w.chain;
        inside = has-kept s.memory ((s.jiffies + 1) % 2 ^ 32) p a.xs a.inside later;
        fuel = omega (arith, length-kept s.memory ((s.jiffies + 1) % 2 ^ 32) a.xs, a.fuel);
        tick = ground (arith, w.ticks p, later, a.tick);
        waits = ground (arith, w.states p, later, a.waits);
      },
      w.time ∙ now,
    )
  where
    now : (s.jiffies + 1) % 2 ^ 32 ≡ s.jiffies + 1
    now = omega arith

    later : leb (s.memory p).wake_tick ((s.jiffies + 1) % 2 ^ 32) ≡ false
    later = ground (arith, a.tick, now)

-- A tick at the time, or after it, makes the task READY.
pub sleep_tick-late :
    (rounds p wake : ℕ) (s : Sched)
    → Asleep rounds p wake s
    → wake ≤ (s.jiffies + 1) % 2 ^ 32
    → (s' : Sched) × (sleep_tick rounds s ≡ some s') × ((s'.memory p).state ≡ ready)
sleep_tick-late rounds p wake s a late =
    let (s', e, w) = tick_Walked rounds s a.xs a.chain a.fuel in
    (s', e, ground (arith, w.states p, a.inside, a.tick))
