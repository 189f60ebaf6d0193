-- ===== src/Block/Cache/Slots.antt =====
-- Finding and replacing the slots of the sector cache of buffer_cache.c.
use vinix_os.Base.{
  ℕ, zero, suc, ◌+◌, ◌<◌, ◌≤◌, ◌≡◌, ◌≢◌, refl, ap, true, false, ◌⊎◌, inl, inr, none, some, List, [],
  ◌∷◌, arith, ltb, if◌then◌else◌, length, get_elem?, get_or, set, Bool-cases, Option-cases,
}
use vinix_os.Block.Cache.{Buffer, empty_buffer, matches, find_cached, pick_from, pick_victim}

-- Slot `i` holds buffer `b`.
abbrev pub At : List Buffer → ℕ → Buffer → Type 0
At bs i b = get_elem? bs i ≡ some b

pub At-get_or : (bs : List Buffer) (i : ℕ) {b : Buffer} → At bs i b → get_or bs i empty_buffer ≡ b
At-get_or [] i h = cc
At-get_or (x ∷ bs) zero h = ground arith
At-get_or (x ∷ bs) (suc i) h = At-get_or bs i h

pub At-of_lt : (bs : List Buffer) (i : ℕ) → i < length bs → At bs i (get_or bs i empty_buffer)
At-of_lt [] i h = absurd (omega arith)
At-of_lt (x ∷ bs) zero h = refl
At-of_lt (x ∷ bs) (suc i) h = At-of_lt bs i (omega arith)

pub At-lt : (bs : List Buffer) (i : ℕ) {b : Buffer} → At bs i b → i < length bs
At-lt [] i h = cc
At-lt (x ∷ bs) zero h = omega arith
At-lt (x ∷ bs) (suc i) h = omega (arith, At-lt bs i h)

pub At-set_self : (bs : List Buffer) (i : ℕ) (n : Buffer) → i < length bs → At (set bs i n) i n
At-set_self [] i n h = absurd (omega arith)
At-set_self (x ∷ bs) zero n h = refl
At-set_self (x ∷ bs) (suc i) n h = At-set_self bs i n (omega arith)

pub At-set_ne :
    (bs : List Buffer) (i j : ℕ) (n : Buffer) → i ≢ j → get_elem? (set bs i n) j ≡ get_elem? bs j
At-set_ne [] i j n h = refl
At-set_ne (x ∷ bs) zero zero n h = absurd (h refl)
At-set_ne (x ∷ bs) zero (suc j) n h = refl
At-set_ne (x ∷ bs) (suc i) zero n h = refl
At-set_ne (x ∷ bs) (suc i) (suc j) n h = At-set_ne bs i j n (λ e. h (ap suc e))

-- Slot `i` holds the sector.
pub record Hit (bdev lba : ℕ) (bs : List Buffer) (i : ℕ) : Type 0 where
  pub buffer : Buffer
  pub at : At bs i buffer
  pub match : matches bdev lba buffer ≡ true

Hit-there :
    (bdev lba : ℕ) (b : Buffer) (bs : List Buffer) {i : ℕ}
    → Hit bdev lba bs i
    → Hit bdev lba (b ∷ bs) (suc i)
Hit-there bdev lba b bs h = record { buffer = h.buffer; at = h.at; match = h.match }

pub find_cached-Hit :
    (bdev lba : ℕ) (bs : List Buffer) {i : ℕ} → find_cached bdev lba bs ≡ some i → Hit bdev lba bs i
unfolding find_cached
find_cached-Hit bdev lba [] h = cc
find_cached-Hit bdev lba (b ∷ bs) {i} h = elim (Bool-cases (matches bdev lba b)) [
  | inl found ↦
      let first : 0 ≡ i = ground arith in
      rw (← first) (record { buffer = b; at = refl; match = found })
  | inr other ↦ elim (Option-cases (find_cached bdev lba bs)) [
    | inl gone ↦ absurd (ground arith)
    | inr (j, e) ↦
        let later : suc j ≡ i = ground arith in
        rw (← later) (Hit-there bdev lba b bs (find_cached-Hit bdev lba bs e))
  ]
]

pub find_cached-none :
    (bdev lba : ℕ) (bs : List Buffer)
    → find_cached bdev lba bs ≡ none
    → (j : ℕ) {b : Buffer} → At bs j b
    → matches bdev lba b ≡ false
unfolding find_cached
find_cached-none bdev lba [] h j at = cc
find_cached-none bdev lba (x ∷ bs) h zero {b} at =
    let same : x ≡ b = ground arith in rw (← same) (ground arith)
find_cached-none bdev lba (x ∷ bs) h (suc j) at = find_cached-none bdev lba bs (ground arith) j at

pub set_same : (bs : List Buffer) (i : ℕ) {b : Buffer} → At bs i b → set bs i b ≡ bs
set_same [] i h = refl
set_same (x ∷ bs) zero h = ground arith
set_same (x ∷ bs) (suc i) h = ap (λ t. x ∷ t) (set_same bs i h)

-- A buffer that matches as the one before leaves the search as it is.
pub find_cached-set :
    (bdev lba : ℕ) (bs : List Buffer) (i : ℕ) (b n : Buffer)
    → At bs i b
    → matches bdev lba n ≡ matches bdev lba b
    → find_cached bdev lba (set bs i n) ≡ find_cached bdev lba bs
unfolding find_cached
find_cached-set bdev lba [] i b n at e = refl
find_cached-set bdev lba (x ∷ bs) zero b n at e =
    let same : x ≡ b = ground arith in ground (arith, e, ap (matches bdev lba) same)
find_cached-set bdev lba (x ∷ bs) (suc i) b n at e =
    ground (arith, find_cached-set bdev lba bs i b n at e)

-- The loop of `pick_victim` stays in the list, at the slot that it holds or at a later one.
pick_from_bounds :
    (i victim oldest : ℕ) (bs : List Buffer)
    → (pick_from i victim oldest bs ≡ victim)
      ⊎ ((i ≤ pick_from i victim oldest bs) × (pick_from i victim oldest bs < i + length bs))
unfolding pick_from
pick_from_bounds i victim oldest [] = inl refl
pick_from_bounds i victim oldest (b ∷ bs) = ground (
  arith,
  pick_from_bounds (i + 1) (if ltb b.last_used oldest then i else victim)
      (if ltb b.last_used oldest then b.last_used else oldest) bs,
)

pub pick_victim-lt : (bs : List Buffer) → 0 < length bs → pick_victim bs < length bs
unfolding pick_victim
pick_victim-lt bs h = ground (arith, pick_from_bounds 0 0 (get_or bs 0 empty_buffer).last_used bs)
