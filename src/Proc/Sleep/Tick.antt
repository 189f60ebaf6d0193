-- ===== src/Proc/Sleep/Tick.antt =====
-- `sleep_tick` of sleep.c wakes exactly the sleepers whose time has come, and keeps the others.
use mathlib.Core.Path.{subst}
use vinix_os.Base.{
  ℕ, zero, suc, ◌+◌, ◌%◌, ◌^◌, ◌<◌, ◌≡◌, ◌≢◌, refl, sym, ap, ◌∙◌, true, false, ◌&&◌, some, ◌==◌,
  List, [], ◌∷◌, leb, length, if◌then◌else◌, arith, inl, inr, Bool-cases, eq_of_==,
}
use vinix_os.Proc.Task.{ready, Task, Sched, Link, head, next_of}
use vinix_os.Base.Linked.{has, Linked-frame, ne_of_has}
use vinix_os.Proc.Sleep.{load_link, walk_sleepers, sleep_tick}
use vinix_os.Proc.Sleep.Chain.{
  Chain, kept, Apart, Outside, KeepsHead, kept-frame, not-has-kept, taken_off, Apart-of_Outside,
  taken_off-other, taken_off-load, taken_off-state, taken_off-tick, taken_off-jiffies,
  taken_off-KeepsHead,
}

-- What the loop has done when it ends, started at the link `pp` to the tasks `xs`.
pub record Walked (s : Sched) (pp : Link) (xs : List ℕ) (s' : Sched) : Type 0 where
  pub chain : Chain s'.memory (load_link pp s') (kept s.memory s.jiffies xs)
  pub states :
      (p : ℕ)
      → (s'.memory p).state
        ≡ (if has p xs && leb (s.memory p).wake_tick s.jiffies then ready else (s.memory p).state)
  pub ticks :
      (p : ℕ)
      → (s'.memory p).wake_tick
        ≡ (if has p xs && leb (s.memory p).wake_tick s.jiffies then 0 else (s.memory p).wake_tick)
  pub time : s'.jiffies ≡ s.jiffies
  pub frame : (p : ℕ) → has p xs ≡ false → Apart pp p → s'.memory p ≡ s.memory p
  pub keeps_head : KeepsHead pp s s'

Walked-off :
    {s s' : Sched} (pp : Link) (x : ℕ) (xs : List ℕ)
    → has x xs ≡ false
    → Outside pp (x ∷ xs)
    → leb (s.memory x).wake_tick s.jiffies ≡ true
    → Walked (taken_off pp x s) pp xs s'
    → Walked s pp (x ∷ xs) s'
Walked-off {s} {s'} pp x xs out outside due w = record {
  chain = rw due (subst (Chain s'.memory (load_link pp s')) same_kept w.chain);
  states = λ p. states p;
  ticks = λ p. ticks p;
  time = w.time ∙ taken_off-jiffies pp x s;
  frame = λ p h apart.
      w.frame p (ground arith) apart ∙ taken_off-other pp x s p (λ e. ground arith) apart;
  keeps_head = taken_off-KeepsHead pp x s s' w.keeps_head;
}
  where
    s1 : Sched
    s1 = taken_off pp x s

    apart_in : (q : ℕ) → has q xs ≡ true → Apart pp q
    apart_in q h = Apart-of_Outside pp q (x ∷ xs) outside (ground arith)

    same_memory : (q : ℕ) → has q xs ≡ true → s1.memory q ≡ s.memory q
    same_memory q h = taken_off-other pp x s q (ne_of_has x q xs out h) (apart_in q h)

    same_kept : kept s1.memory s1.jiffies xs ≡ kept s.memory s.jiffies xs
    same_kept =
        ap (λ now. kept s1.memory now xs) (taken_off-jiffies pp x s)
        ∙ kept-frame s.memory s1.memory s.jiffies xs same_memory

    states :
        (p : ℕ)
        → (s'.memory p).state ≡ (
            if has p (x ∷ xs) && leb (s.memory p).wake_tick s.jiffies
            then ready
            else (s.memory p).state)
    states p = elim (Bool-cases (has p xs)) [
      | inl inside ↦ ground (
        arith,
        w.states p,
        ap Task.wake_tick (same_memory p inside),
        taken_off-jiffies pp x s,
        taken_off-state pp x s p,
        ne_of_has x p xs out inside,
      )
      | inr outside' ↦ elim (Bool-cases (p == x)) [
        | inl e ↦ ground (
          arith,
          w.states p,
          taken_off-state pp x s p,
          ap (λ q. (s.memory q).wake_tick) (eq_of_== p x e),
        )
        | inr ne ↦ ground (arith, w.states p, taken_off-state pp x s p)
      ]
    ]

    ticks :
        (p : ℕ)
        → (s'.memory p).wake_tick ≡ (
            if has p (x ∷ xs) && leb (s.memory p).wake_tick s.jiffies
            then 0
            else (s.memory p).wake_tick)
    ticks p = elim (Bool-cases (has p xs)) [
      | inl inside ↦ ground (
        arith,
        w.ticks p,
        ap Task.wake_tick (same_memory p inside),
        taken_off-jiffies pp x s,
        taken_off-tick pp x s p,
        ne_of_has x p xs out inside,
      )
      | inr outside' ↦ elim (Bool-cases (p == x)) [
        | inl e ↦ ground (
          arith,
          w.ticks p,
          taken_off-tick pp x s p,
          ap (λ q. (s.memory q).wake_tick) (eq_of_== p x e),
        )
        | inr ne ↦ ground (arith, w.ticks p, taken_off-tick pp x s p)
      ]
    ]

KeepsHead-of_eq : (pp : Link) (s s' : Sched) → s'.sleep_head ≡ s.sleep_head → KeepsHead pp s s'
KeepsHead-of_eq head s s' e = tt
KeepsHead-of_eq (next_of q) s s' e = e

-- Stepping over task `x` leaves the link to it.
load_over :
    {s s' : Sched} (pp : Link) (x : ℕ) (xs : List ℕ)
    → Outside pp (x ∷ xs)
    → Walked s (next_of x) xs s'
    → load_link pp s' ≡ load_link pp s
unfolding load_link
load_over head x xs outside w = w.keeps_head
load_over (next_of q) x xs outside w =
    ap Task.sleep_next (w.frame q (ground arith) (λ e. ground arith))

Walked-over :
    {s s' : Sched} (pp : Link) (x : ℕ) (xs : List ℕ)
    → x ≢ 0
    → load_link pp s ≡ x
    → has x xs ≡ false
    → Outside pp (x ∷ xs)
    → leb (s.memory x).wake_tick s.jiffies ≡ false
    → Walked s (next_of x) xs s'
    → Walked s pp (x ∷ xs) s'
unfolding load_link
Walked-over {s} {s'} pp x xs ne at out outside later w = record {
  chain =
      rw later
        (load_over pp x xs outside w ∙ at, ne, not-has-kept s.memory s.jiffies x xs out, w.chain);
  states = states;
  ticks = ticks;
  time = w.time;
  frame = λ p h apart. w.frame p (ground arith) (λ e. ground arith);
  keeps_head = KeepsHead-of_eq pp s s' w.keeps_head;
}
  where
    states :
        (p : ℕ)
        → (s'.memory p).state ≡ (
            if has p (x ∷ xs) && leb (s.memory p).wake_tick s.jiffies
            then ready
            else (s.memory p).state)
    states p = elim (Bool-cases (p == x)) [
      | inl e ↦
          subst
            (λ q. (s'.memory q).state ≡ (
              if has q (x ∷ xs) && leb (s.memory q).wake_tick s.jiffies
              then ready
              else (s.memory q).state))
            (sym (eq_of_== p x e)) (ground (arith, w.states x))
      | inr other ↦ ground (arith, w.states p)
    ]

    ticks :
        (p : ℕ)
        → (s'.memory p).wake_tick ≡ (
            if has p (x ∷ xs) && leb (s.memory p).wake_tick s.jiffies
            then 0
            else (s.memory p).wake_tick)
    ticks p = elim (Bool-cases (p == x)) [
      | inl e ↦
          subst
            (λ q. (s'.memory q).wake_tick ≡ (
              if has q (x ∷ xs) && leb (s.memory q).wake_tick s.jiffies
              then 0
              else (s.memory q).wake_tick))
            (sym (eq_of_== p x e)) (ground (arith, w.ticks x))
      | inr other ↦ ground (arith, w.ticks p)
    ]

Outside-tail : (pp : Link) (x : ℕ) (xs : List ℕ) → Outside pp (x ∷ xs) → Outside pp xs
Outside-tail head x xs h = tt
Outside-tail (next_of q) x xs h = ground arith

-- The rest of the list, after a task has been taken off.
Chain-off :
    (pp : Link) (x : ℕ) (s : Sched) (xs : List ℕ)
    → has x xs ≡ false
    → Outside pp (x ∷ xs)
    → Chain s.memory (s.memory x).sleep_next xs
    → Chain (taken_off pp x s).memory (load_link pp (taken_off pp x s)) xs
Chain-off pp x s xs off out rest =
    subst (λ n. Chain (taken_off pp x s).memory n xs) (sym (taken_off-load pp x s xs out))
      (Linked-frame Task.sleep_next s.memory (taken_off pp x s).memory (s.memory x).sleep_next xs
        (λ q h. ap Task.sleep_next (
          taken_off-other pp x s q (ne_of_has x q xs off h)
            (Apart-of_Outside pp q (x ∷ xs) out (ground arith))))
        rest)

pub walk_sleepers-Walked :
    (rounds : ℕ) (pp : Link) (s : Sched) (xs : List ℕ)
    → Chain s.memory (load_link pp s) xs
    → Outside pp xs
    → length xs < rounds
    → (s' : Sched) × (walk_sleepers rounds pp s ≡ some s') × Walked s pp xs s'
unfolding walk_sleepers load_link
walk_sleepers-Walked zero pp s xs c out fuel = absurd (omega arith)
walk_sleepers-Walked (suc rounds) pp s [] c out fuel = (
  s,
  ground arith,
  record {
    chain = c;
    states = λ p. refl;
    ticks = λ p. refl;
    time = refl;
    frame = λ p _ _. refl;
    keeps_head = KeepsHead-of_eq pp s s refl;
  },
)
walk_sleepers-Walked (suc rounds) pp s (x ∷ xs) (at, ne, off, rest) out fuel =
    rw (at, walk_sleepers)
      (elim (Bool-cases (leb (s.memory x).wake_tick s.jiffies)) [
        | inl due ↦
            let (s', e, w) =
              walk_sleepers-Walked rounds pp (taken_off pp x s) xs
                (Chain-off pp x s xs off out rest) (Outside-tail pp x xs out) (omega arith) in
            (s', ground arith, Walked-off pp x xs off out due w)
        | inr later ↦
            let (s', e, w) = walk_sleepers-Walked rounds (next_of x) s xs rest off (omega arith) in
            (s', ground arith, Walked-over pp x xs ne at off out later w)
      ])

-- If the sleep list holds the tasks `xs` and the loop has more rounds than there are tasks, a call of
-- `sleep_tick` ends. With the time one tick on, every task of the list whose time has come is READY
-- and every other task has the state that it had; the list then holds the tasks whose time has not
-- come, in the same order, and no task outside the list is changed.
pub sleep_tick-kept :
    (rounds : ℕ) (s : Sched) (xs : List ℕ)
    → Chain s.memory s.sleep_head xs
    → length xs < rounds
    → let now = (s.jiffies + 1) % 2 ^ 32 in
      (s' : Sched) × (sleep_tick rounds s ≡ some s')
      × Chain s'.memory s'.sleep_head (kept s.memory now xs)
      × ((p : ℕ)
          → (s'.memory p).state
            ≡ (if has p xs && leb (s.memory p).wake_tick now then ready else (s.memory p).state))
      × ((p : ℕ) → has p xs ≡ false → s'.memory p ≡ s.memory p)
unfolding sleep_tick load_link
sleep_tick-kept rounds s xs c fuel =
    let (s', e, w) =
      walk_sleepers-Walked rounds head (record s { jiffies = (s.jiffies + 1) % 2 ^ 32 }) xs c tt
        fuel in
    (s', e, w.chain, w.states, λ p h. w.frame p h tt)
