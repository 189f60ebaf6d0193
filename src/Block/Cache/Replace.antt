-- ===== src/Block/Cache/Replace.antt =====
-- One slot of the sector cache of buffer_cache.c gets a new buffer, and the media may change: when
-- the invariant is kept, and what a reader then sees.
use vinix_os.Base.{
  ℕ, ◌<◌, ◌≡◌, ◌≢◌, ap, ◌∙◌, sym, true, false, ◌⊎◌, inl, inr, none, some, List, arith, ◌==◌, length,
  get_elem?, set, Bool-cases, Option-cases, eq_of_==, ne_of_==,
}
use mathlib.Core.Path.{subst}
use vinix_os.Block.Device.{Drivers}
use vinix_os.Block.Cache.{Buffer, matches, find_cached}
use vinix_os.Block.Cache.Slots.{At, Hit, At-set_self, At-set_ne, find_cached-Hit, find_cached-none}
use vinix_os.Block.Cache.View.{
  SameSector, IsCoherent, view, view-Hit, view-none, SameSector-of_matches,
}

pub some_eq : (a b : Buffer) → some a ≡ some b → a ≡ b
some_eq a b h = ground arith

-- What stands in a list of buffers after slot `i` has been set.
set_cases :
    (bs : List Buffer) (i j : ℕ) (n : Buffer) {b : Buffer}
    → i < length bs
    → At (set bs i n) j b
    → ((i ≡ j) × (n ≡ b)) ⊎ ((i ≢ j) × At bs j b)
set_cases bs i j n {b} inside at = elim (Bool-cases (i == j)) [
  | inl e ↦ inl (
    eq_of_== i j e,
    some_eq n b
        (sym (At-set_self bs i n inside) ∙ ap (get_elem? (set bs i n)) (eq_of_== i j e) ∙ at),
  )
  | inr e ↦ inr (ne_of_== i j e, sym (At-set_ne bs i j n (ne_of_== i j e)) ∙ at)
]

module _ (drivers : Drivers) (bs : List Buffer) (i : ℕ) (n : Buffer) where
  open drivers use {State, content}

  module _ (s s' : State) (inside : i < length bs) (coherent : IsCoherent drivers bs s) where
    pub set-IsCoherent :
        ((j : ℕ) (b : Buffer) → i ≢ j → At bs j b → SameSector n b → ⊥)
        → ((j : ℕ) (b : Buffer)
            → i ≢ j
            → At bs j b
            → b.valid ≡ true
            → content s' b.bdev b.lba ≡ content s b.bdev b.lba)
        → (n.valid ≡ true → n.dirty ≡ false → n.bytes ≡ content s' n.bdev n.lba)
        → IsCoherent drivers (set bs i n) s'
    set-IsCoherent alone kept fresh = record {
      unique = λ j k a b at at' same.
          unique j k a b (set_cases bs i j n inside at) (set_cases bs i k n inside at') same;
      clean = λ j b at valid clean. still j b (set_cases bs i j n inside at) valid clean;
    }
      where
        flip : {a b : Buffer} → SameSector a b → SameSector b a
        flip same = record {
          valid = same.valid';
          valid' = same.valid;
          bdev = sym same.bdev;
          lba = sym same.lba;
        }

        unique :
            (j k : ℕ) (a b : Buffer)
            → ((i ≡ j) × (n ≡ a)) ⊎ ((i ≢ j) × At bs j a)
            → ((i ≡ k) × (n ≡ b)) ⊎ ((i ≢ k) × At bs k b)
            → SameSector a b
            → j ≡ k
        unique j k a b (inl (e, _)) (inl (e', _)) same = omega arith
        unique j k a b (inl (e, ea)) (inr (ne, at)) same =
            absurd (alone k b ne at (subst (λ x. SameSector x b) (sym ea) same))
        unique j k a b (inr (ne, at)) (inl (e, eb)) same =
            absurd (alone j a ne at (subst (λ x. SameSector x a) (sym eb) (flip same)))
        unique j k a b (inr (ne, at)) (inr (ne', at')) same = coherent.unique j k a b at at' same

        still :
            (j : ℕ) (b : Buffer)
            → ((i ≡ j) × (n ≡ b)) ⊎ ((i ≢ j) × At bs j b)
            → b.valid ≡ true
            → b.dirty ≡ false
            → b.bytes ≡ content s' b.bdev b.lba
        still j b (inl (e, eb)) valid clean =
            subst (λ x. x.valid ≡ true → x.dirty ≡ false → x.bytes ≡ content s' x.bdev x.lba) eb
              fresh valid clean
        still j b (inr (ne, at)) valid clean =
            coherent.clean j b at valid clean ∙ sym (kept j b ne at valid)

    module _ (coherent' : IsCoherent drivers (set bs i n) s') (bdev lba : ℕ) where
      -- The sector that the new buffer holds.
      pub view-set_new : matches bdev lba n ≡ true → view drivers (set bs i n) s' bdev lba ≡ n.bytes
      view-set_new match =
          view-Hit drivers (set bs i n) s' coherent' bdev lba i (At-set_self bs i n inside) match

      module _ (v : Buffer) (old : At bs i v) where
        -- The sector that only the old buffer held.
        pub view-set_old :
            matches bdev lba n ≡ false
            → matches bdev lba v ≡ true
            → view drivers (set bs i n) s' bdev lba ≡ content s' bdev lba
        view-set_old other match =
            view-none drivers (set bs i n) s' bdev lba
              λ j b at. none_left j b (set_cases bs i j n inside at)
          where
            none_left :
                (j : ℕ) (b : Buffer)
                → ((i ≡ j) × (n ≡ b)) ⊎ ((i ≢ j) × At bs j b)
                → matches bdev lba b ≡ false
            none_left j b (inl (e, eb)) = subst (λ x. matches bdev lba x ≡ false) eb other
            none_left j b (inr (ne, at)) = elim (Bool-cases (matches bdev lba b)) [
              | inl hit ↦ absurd (
                  ne
                    (coherent.unique i j v b old at (SameSector-of_matches bdev lba v b match hit)))
              | inr miss ↦ miss
            ]

        -- Every other sector.
        pub view-set_other :
            matches bdev lba n ≡ false
            → matches bdev lba v ≡ false
            → content s' bdev lba ≡ content s bdev lba
            → view drivers (set bs i n) s' bdev lba ≡ view drivers bs s bdev lba
        view-set_other other other' same = elim (Option-cases (find_cached bdev lba bs)) [
          | inl gone ↦
              view-none drivers (set bs i n) s' bdev lba
                (λ j b at. none_left gone j b (set_cases bs i j n inside at))
              ∙ same
              ∙ sym (view-none drivers bs s bdev lba (λ j b. find_cached-none bdev lba bs gone j))
          | inr (j, e) ↦
              let hit = find_cached-Hit bdev lba bs e in
              view-Hit drivers (set bs i n) s' coherent' bdev lba j (elsewhere j hit) hit.match
              ∙ sym (view-Hit drivers bs s coherent bdev lba j hit.at hit.match)
        ]
          where
            none_left :
                find_cached bdev lba bs ≡ none
                → (j : ℕ) (b : Buffer) → ((i ≡ j) × (n ≡ b)) ⊎ ((i ≢ j) × At bs j b)
                → matches bdev lba b ≡ false
            none_left gone j b (inl (e, eb)) = subst (λ x. matches bdev lba x ≡ false) eb other
            none_left gone j b (inr (ne, at)) = find_cached-none bdev lba bs gone j at

            elsewhere : (j : ℕ) (hit : Hit bdev lba bs j) → At (set bs i n) j hit.buffer
            elsewhere j hit = elim (Bool-cases (i == j)) [
              | inl e ↦ absurd (clash j hit (eq_of_== i j e))
              | inr e ↦ At-set_ne bs i j n (ne_of_== i j e) ∙ hit.at
            ]
              where
                clash : (j : ℕ) (hit : Hit bdev lba bs j) → i ≡ j → ⊥
                clash j hit e =
                    let same : v ≡ hit.buffer =
                      some_eq v hit.buffer (sym old ∙ ap (get_elem? bs) e ∙ hit.at) in
                    cc (ap (matches bdev lba) same)
