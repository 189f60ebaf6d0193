-- ===== src/Proc/Sleep/Chain.antt =====
-- The sleep list of sleep.c, the links to its tasks, and the state after one task has been taken off.
use vinix_os.Base.{
  ℕ, ◌≡◌, ◌≢◌, refl, ap, true, false, ◌==◌, List, [], ◌∷◌, leb, if◌then◌else◌, arith,
}
use vinix_os.Proc.Task.{ready, Task, Memory, write, Sched, Link, head, next_of}
use vinix_os.Base.Linked.{has, Linked, ne_of_has}
use vinix_os.Proc.Sleep.{load_link, store_link, wake_task}

-- From `p` the `sleep_next` pointers lead through the distinct tasks `xs` to the null pointer.
abbrev pub Chain : Memory → ℕ → List ℕ → Type 0
Chain = Linked Task.sleep_next

-- The tasks whose time has not come.
abbrev pub kept : Memory → ℕ → List ℕ → List ℕ
kept m now [] = []
kept m now (x ∷ xs) = if leb (m x).wake_tick now then kept m now xs else x ∷ kept m now xs

-- `p` does not own the link.
abbrev pub Apart : Link → ℕ → Type 0
Apart head p = Unit {0}
Apart (next_of q) p = q ≢ p

-- The owner of the link is not in the list.
abbrev pub Outside : Link → List ℕ → Type 0
Outside head xs = Unit {0}
Outside (next_of q) xs = has q xs ≡ false

abbrev pub KeepsHead : Link → Sched → Sched → Type 0
KeepsHead head s s' = Unit {0}
KeepsHead (next_of q) s s' = s'.sleep_head ≡ s.sleep_head

pub kept-frame :
    (m m' : Memory) (now : ℕ) (xs : List ℕ)
    → ((q : ℕ) → has q xs ≡ true → m' q ≡ m q)
    → kept m' now xs ≡ kept m now xs
kept-frame m m' now [] same = refl
kept-frame m m' now (x ∷ xs) same = ground (
  arith,
  ap Task.wake_tick (same x (ground arith)),
  kept-frame m m' now xs (λ q h. same q (ground arith)),
)

pub not-has-kept :
    (m : Memory) (now p : ℕ) (xs : List ℕ) → has p xs ≡ false → has p (kept m now xs) ≡ false
not-has-kept m now p [] h = refl
not-has-kept m now p (x ∷ xs) h = ground (arith, not-has-kept m now p xs)

-- The state after a task has been taken off the list and woken.
abbrev pub taken_off : Link → ℕ → Sched → Sched
taken_off pp x s = wake_task x (store_link pp (s.memory x).sleep_next s)

pub Apart-of_Outside :
    (pp : Link) (q : ℕ) (xs : List ℕ) → Outside pp xs → has q xs ≡ true → Apart pp q
Apart-of_Outside head q xs out h = tt
Apart-of_Outside (next_of p) q xs out h = ne_of_has p q xs out h

pub taken_off-other :
    (pp : Link) (x : ℕ) (s : Sched) (q : ℕ)
    → x ≢ q
    → Apart pp q
    → (taken_off pp x s).memory q ≡ s.memory q
unfolding store_link wake_task write
taken_off-other head x s q ne apart = ground arith
taken_off-other (next_of p) x s q ne apart = ground arith

pub taken_off-load :
    (pp : Link) (x : ℕ) (s : Sched) (xs : List ℕ)
    → Outside pp (x ∷ xs)
    → load_link pp (taken_off pp x s) ≡ (s.memory x).sleep_next
unfolding store_link wake_task write load_link
taken_off-load head x s xs out = refl
taken_off-load (next_of p) x s xs out = ground arith

pub taken_off-state :
    (pp : Link) (x : ℕ) (s : Sched) (p : ℕ)
    → ((taken_off pp x s).memory p).state ≡ (if p == x then ready else (s.memory p).state)
unfolding store_link wake_task write
taken_off-state head x s p = ground arith
taken_off-state (next_of q) x s p = ground arith

pub taken_off-tick :
    (pp : Link) (x : ℕ) (s : Sched) (p : ℕ)
    → ((taken_off pp x s).memory p).wake_tick ≡ (if p == x then 0 else (s.memory p).wake_tick)
unfolding store_link wake_task write
taken_off-tick head x s p = ground arith
taken_off-tick (next_of q) x s p = ground arith

pub taken_off-jiffies : (pp : Link) (x : ℕ) (s : Sched) → (taken_off pp x s).jiffies ≡ s.jiffies
unfolding store_link wake_task
taken_off-jiffies head x s = refl
taken_off-jiffies (next_of q) x s = refl

pub taken_off-KeepsHead :
    (pp : Link) (x : ℕ) (s s' : Sched) → KeepsHead pp (taken_off pp x s) s' → KeepsHead pp s s'
unfolding store_link wake_task
taken_off-KeepsHead head x s s' h = tt
taken_off-KeepsHead (next_of q) x s s' h = h
