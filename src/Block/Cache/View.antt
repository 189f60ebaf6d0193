-- ===== src/Block/Cache/View.antt =====
-- What the sector cache of buffer_cache.c shows of the media: the abstract disk behind cache and
-- drivers, the invariant of the cache, and the change of one slot.
use vinix_os.Base.{
  ℕ, ◌≡◌, ap, ◌∙◌, true, false, inl, inr, none, some, List, arith, get_or, Option-cases, eq_of_==,
  ==_refl,
}
use vinix_os.Block.Device.{Sector, Drivers}
use vinix_os.Block.Cache.{Buffer, empty_buffer, matches, find_cached}
use vinix_os.Block.Cache.Slots.{At, At-get_or, find_cached-Hit, find_cached-none}

-- Two slots that hold the same sector.
pub record SameSector (a b : Buffer) : Type 0 where
  pub valid : a.valid ≡ true
  pub valid' : b.valid ≡ true
  pub bdev : a.bdev ≡ b.bdev
  pub lba : a.lba ≡ b.lba

pub matches-eq :
    (bdev lba : ℕ) (b : Buffer)
    → matches bdev lba b ≡ true
    → (b.valid ≡ true) × (b.bdev ≡ bdev) × (b.lba ≡ lba)
matches-eq bdev lba b h = ground (arith, eq_of_== b.bdev bdev, eq_of_== b.lba lba)

pub matches_self : (b : Buffer) → b.valid ≡ true → matches b.bdev b.lba b ≡ true
matches_self b h = ground (arith, ==_refl b.bdev, ==_refl b.lba)

pub SameSector-of_matches :
    (bdev lba : ℕ) (a b : Buffer)
    → matches bdev lba a ≡ true
    → matches bdev lba b ≡ true
    → SameSector a b
SameSector-of_matches bdev lba a b h k =
    ground (arith, matches-eq bdev lba a h, matches-eq bdev lba b k)

module _ (drivers : Drivers) where
  open drivers use {State, content}

  -- The sector that a reader sees: the cached one, or else what the medium holds.
  unfoldable pub view : List Buffer → State → ℕ → ℕ → Sector
  view bs s bdev lba = elim (find_cached bdev lba bs) [
    | some i ↦ (get_or bs i empty_buffer).bytes
    | none ↦ content s bdev lba
  ]

  -- No sector is in two slots, and a clean slot holds what the medium holds.
  pub record IsCoherent (bs : List Buffer) (s : State) : Type 0 where
    pub unique : (i j : ℕ) (a b : Buffer) → At bs i a → At bs j b → SameSector a b → i ≡ j
    pub clean :
        (i : ℕ) (b : Buffer)
        → At bs i b
        → b.valid ≡ true
        → b.dirty ≡ false
        → b.bytes ≡ content s b.bdev b.lba

  module _ (bs : List Buffer) (s : State) where
    -- A slot that holds a sector is the one that a reader sees.
    pub view-Hit :
        (coherent : IsCoherent bs s) (bdev lba i : ℕ) {b : Buffer}
        → At bs i b
        → matches bdev lba b ≡ true
        → view bs s bdev lba ≡ b.bytes
    unfolding view
    view-Hit coherent bdev lba i {b} at match = elim (Option-cases (find_cached bdev lba bs)) [
      | inl gone ↦ absurd (cc (find_cached-none bdev lba bs gone i at))
      | inr (j, e) ↦
          let hit = find_cached-Hit bdev lba bs e in
          let same : j ≡ i =
            coherent.unique j i hit.buffer b hit.at at
              (SameSector-of_matches bdev lba hit.buffer b hit.match match) in
          rw (e, view)
            (ap Buffer.bytes (ap (λ k. get_or bs k empty_buffer) same ∙ At-get_or bs i at))
    ]

    -- Where no slot holds the sector, a reader sees the medium.
    pub view-none :
        (bdev lba : ℕ)
        → ((j : ℕ) (b : Buffer) → At bs j b → matches bdev lba b ≡ false)
        → view bs s bdev lba ≡ content s bdev lba
    unfolding view
    view-none bdev lba h = elim (Option-cases (find_cached bdev lba bs)) [
      | inl gone ↦ rw (gone, view)
      | inr (j, e) ↦ let hit = find_cached-Hit bdev lba bs e in absurd (cc (h j hit.buffer hit.at))
    ]
