-- ===== src/Proc/Sleep/Enter.antt =====
-- How long a task sleeps that calls `msleep` of sleep.c.
use mathlib.Core.Path.{subst}
use vinix_os.Base.{
  ℕ, zero, suc, ◌+◌, ◌/◌, ◌%◌, ◌^◌, ◌≤◌, ◌<◌, ◌≡◌, ◌≢◌, refl, sym, false, Option, none, some, ◌==◌,
  List, length, if◌then◌else◌, arith,
}
use vinix_os.Proc.Task.{ready, blocked, Sched}
use vinix_os.Base.Linked.{has}
use vinix_os.Proc.Sched.{returned, scheduler_yield}
use vinix_os.Proc.Sleep.{enter_sleep, msleep, tick_ms, ticks_of, sleep_tick}
use vinix_os.Proc.Sleep.Chain.{Chain}
use vinix_os.Proc.Sleep.Asleep.{Asleep, enter_sleep-Asleep, sleep_tick-early, sleep_tick-late}

-- This many calls of `sleep_tick`.
unfoldable pub time_passes : (rounds ticks : ℕ) → Sched → Option Sched
time_passes rounds zero s = some s
time_passes rounds (suc n) s = elim (time_passes rounds n s) [
  | none ↦ none
  | some s' ↦ sleep_tick rounds s'
]

time_passes-suc :
    (rounds n : ℕ) (s : Sched) {s1 s2 : Sched}
    → time_passes rounds n s ≡ some s1
    → sleep_tick rounds s1 ≡ some s2
    → time_passes rounds (suc n) s ≡ some s2
unfolding time_passes
time_passes-suc rounds n s e e' = rw (e, time_passes) e'

-- The ticks before the time.
time_passes-early :
    (rounds p wake n : ℕ) (s : Sched)
    → Asleep rounds p wake s
    → s.jiffies + n < wake
    → wake < 2 ^ 32
    → (s' : Sched) × (time_passes rounds n s ≡ some s')
      × Asleep rounds p wake s'
      × (s'.jiffies ≡ s.jiffies + n)
unfolding time_passes
time_passes-early rounds p wake zero s a early small = (s, refl, a, omega arith)
time_passes-early rounds p wake (suc n) s a early small =
    let (s1, e1, a1, t1) = time_passes-early rounds p wake n s a (omega arith) small in
    let (s2, e2, a2, t2) = sleep_tick-early rounds p wake s1 a1 (omega (arith, t1, early)) small in
    (s2, time_passes-suc rounds n s e1 e2, a2, omega (arith, t1, t2))

positive : (ms : ℕ) → (n : ℕ) × (ticks_of ms ≡ suc n)
positive ms = positive' (ms / tick_ms)
  where
    positive' : (k : ℕ) → (n : ℕ) × ((if k == 0 then 1 else k) ≡ suc n)
    positive' zero = (0, refl)
    positive' (suc k) = (k, ground arith)

-- `msleep` of 0 returns at once, without a change. If `ms` is not 0, the caller stands in no sleep list
-- and the time does not wrap round meanwhile, `msleep` yields from a state in which the caller is
-- asleep: it is BLOCKED until `ms / TICK_MS` ticks, at least one, have come, and with the last of them
-- it is READY, if nothing but ticks happens in between; the loop of `sleep_tick` may take a round more
-- than there are sleepers.
pub msleep-duration :
    (rounds ms : ℕ) (s : Sched) (xs : List ℕ)
    → 0 < ms
    → s.current_task ≢ 0
    → Chain s.memory s.sleep_head xs
    → has s.current_task xs ≡ false
    → suc (length xs) < rounds
    → s.jiffies + ticks_of ms < 2 ^ 32
    → (msleep 0 s ≡ returned s)
      × ((s0 : Sched) × (msleep ms s ≡ scheduler_yield s0)
          × ((n : ℕ)
              → n < ticks_of ms
              → (s' : Sched) × (time_passes rounds n s0 ≡ some s')
                × ((s'.memory s.current_task).state ≡ blocked))
          × ((s' : Sched) × (time_passes rounds (ticks_of ms) s0 ≡ some s')
              × ((s'.memory s.current_task).state ≡ ready)))
unfolding msleep
msleep-duration rounds ms s xs some_time ne c out fuel small = (
  refl,
  (
    s0,
    ground arith,
    λ n few.
        let (s', e, b, t) =
          time_passes-early rounds s.current_task wake n s0 a (before n few) wake_small in
        (s', e, b.waits),
    last,
  ),
)
  where
    s0 : Sched
    s0 = enter_sleep ms s

    wake : ℕ
    wake = (s.jiffies + ticks_of ms) % 2 ^ 32

    at : wake ≡ s.jiffies + ticks_of ms
    at = omega (arith, small)

    wake_small : wake < 2 ^ 32
    wake_small = omega (arith, small, at)

    a : Asleep rounds s.current_task wake s0
    a = enter_sleep-Asleep rounds ms s xs ne c out fuel

    now : s0.jiffies ≡ s.jiffies
    now = unfold enter_sleep in ground arith

    before : (n : ℕ) → n < ticks_of ms → s0.jiffies + n < wake
    before n few = omega (arith, at, now, few)

    last :
        (s' : Sched) × (time_passes rounds (ticks_of ms) s0 ≡ some s')
        × ((s'.memory s.current_task).state ≡ ready)
    last =
        let (n, is) = positive ms in
        let (s1, e1, a1, t1) =
          time_passes-early rounds s.current_task wake n s0 a (before n (omega (arith, is)))
            wake_small in
        let (s2, e2, r) =
          sleep_tick-late rounds s.current_task wake s1 a1
            (omega (arith, t1, now, at, is, small)) in
        (
          s2,
          subst (λ k. time_passes rounds k s0 ≡ some s2) (sym is)
              (time_passes-suc rounds n s0 e1 e2),
          r,
        )

-- Near the end of the 32-bit count of ticks the time to wake wraps round to a small number. If it
-- does, the first tick makes the task READY, however long it was to sleep.
pub enter_sleep-wraps :
    (rounds ms : ℕ) (s : Sched) (xs : List ℕ)
    → s.current_task ≢ 0
    → Chain s.memory s.sleep_head xs
    → has s.current_task xs ≡ false
    → suc (length xs) < rounds
    → s.jiffies + 1 < 2 ^ 32
    → 2 ^ 32 ≤ s.jiffies + ticks_of ms
    → ticks_of ms < 2 ^ 32
    → (s' : Sched) × (sleep_tick rounds (enter_sleep ms s) ≡ some s')
      × ((s'.memory s.current_task).state ≡ ready)
enter_sleep-wraps rounds ms s xs ne c out fuel small wraps few =
    sleep_tick-late rounds s.current_task ((s.jiffies + ticks_of ms) % 2 ^ 32) (enter_sleep ms s)
      (enter_sleep-Asleep rounds ms s xs ne c out fuel) late
  where
    same : (enter_sleep ms s).jiffies ≡ s.jiffies
    same = unfold enter_sleep in ground arith

    late : (s.jiffies + ticks_of ms) % 2 ^ 32 ≤ ((enter_sleep ms s).jiffies + 1) % 2 ^ 32
    late = omega (arith, same, small, wraps, few)
