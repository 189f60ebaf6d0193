-- ===== src/Block/Cache/Load.antt =====
-- A slot of the sector cache of buffer_cache.c is given up, filled or touched, as `bread` does: a
-- reader sees the same of the media.
use vinix_os.Base.{
  ℕ, ◌<◌, ◌≡◌, refl, ap, ◌∙◌, sym, true, false, inl, inr, none, List, arith, length, set,
  Bool-cases, length-set,
}
use vinix_os.Block.Device.{Drivers}
use vinix_os.Block.Cache.{Buffer, matches, find_cached}
use vinix_os.Block.Cache.Slots.{At, At-lt, find_cached-none}
use vinix_os.Block.Cache.View.{SameSector, IsCoherent, view, view-Hit, view-none, matches_self}
use vinix_os.Block.Cache.Replace.{set-IsCoherent, view-set_new, view-set_old, view-set_other}
use vinix_os.Block.Cache.View.{matches-eq}
use vinix_os.Block.Cache.Flush.{Transparent, flush_slot-Transparent}

module _ (drivers : Drivers) where
  open drivers use {State, content}

  -- The medium at the sector of a buffer.
  content_of_match :
      (b : Buffer) (s : State) (bdev lba : ℕ)
      → matches bdev lba b ≡ true
      → content s b.bdev b.lba ≡ content s bdev lba
  content_of_match b s bdev lba hit = let m = matches-eq bdev lba b hit in cc (m.1, m.2)

  -- Replacing a buffer that is clean or free by one that is free.
  pub drop_slot-Transparent :
      (bs : List Buffer) (i : ℕ) (b n : Buffer) (s : State)
      → At bs i b
      → IsCoherent drivers bs s
      → (b.valid ≡ true → b.dirty ≡ false)
      → n.valid ≡ false
      → Transparent drivers bs s (set bs i n) s
  drop_slot-Transparent bs i b n s at coherent clean free = record {
    coherent = coherent';
    size = length-set bs i n;
    same = λ bdev lba. elim (Bool-cases (matches bdev lba b)) [
      | inl hit ↦
          let valid : b.valid ≡ true = ground arith in
          view-set_old drivers bs i n s s inside coherent coherent' bdev lba b at
            (no_match bdev lba) hit
          ∙ sym (coherent.clean i b at valid (clean valid) ∙ content_of_match b s bdev lba hit)
          ∙ sym (view-Hit drivers bs s coherent bdev lba i at hit)
      | inr miss ↦
          view-set_other drivers bs i n s s inside coherent coherent' bdev lba b at
            (no_match bdev lba) miss refl
    ];
  }
    where
      inside : i < length bs
      inside = At-lt bs i at

      no_match : (bdev lba : ℕ) → matches bdev lba n ≡ false
      no_match bdev lba = ground arith

      coherent' : IsCoherent drivers (set bs i n) s
      coherent' =
          set-IsCoherent drivers bs i n s s inside coherent (λ j c ne at' q. cc q.valid)
            (λ j c ne at' valid. refl) (λ valid. cc)

  -- Loading a sector that is in no slot into a slot that is clean or free.
  pub fill_slot-Transparent :
      (bs : List Buffer) (i : ℕ) (b n : Buffer) (s : State)
      → At bs i b
      → IsCoherent drivers bs s
      → (b.valid ≡ true → b.dirty ≡ false)
      → find_cached n.bdev n.lba bs ≡ none
      → n.valid ≡ true
      → n.bytes ≡ content s n.bdev n.lba
      → Transparent drivers bs s (set bs i n) s
  fill_slot-Transparent bs i b n s at coherent clean absent valid loaded = record {
    coherent = coherent';
    size = length-set bs i n;
    same = λ bdev lba. elim (Bool-cases (matches bdev lba n)) [
      | inl hit ↦
          let m = matches-eq bdev lba n hit in
          view-set_new drivers bs i n s s inside coherent coherent' bdev lba hit
          ∙ loaded
          ∙ sym medium
          ∙ cc (m.1, m.2)
      | inr miss ↦ replaced bdev lba miss
    ];
  }
    where
      inside : i < length bs
      inside = At-lt bs i at

      medium : view drivers bs s n.bdev n.lba ≡ content s n.bdev n.lba
      medium =
          view-none drivers bs s n.bdev n.lba
            (λ j c at'. find_cached-none n.bdev n.lba bs absent j at')

      alone : (j : ℕ) (c : Buffer) → At bs j c → SameSector n c → ⊥
      alone j c at' q =
          let miss = find_cached-none n.bdev n.lba bs absent j at' in
          cc (miss, matches_self c q.valid', q.bdev, q.lba)

      coherent' : IsCoherent drivers (set bs i n) s
      coherent' =
          set-IsCoherent drivers bs i n s s inside coherent (λ j c ne at' q. alone j c at' q)
            (λ j c ne at' _. refl) (λ _ _. loaded)

      replaced :
          (bdev lba : ℕ)
          → matches bdev lba n ≡ false
          → view drivers (set bs i n) s bdev lba ≡ view drivers bs s bdev lba
      replaced bdev lba miss = elim (Bool-cases (matches bdev lba b)) [
        | inl hit ↦
            let held : b.valid ≡ true = (matches-eq bdev lba b hit).0 in
            view-set_old drivers bs i n s s inside coherent coherent' bdev lba b at miss hit
            ∙ sym (coherent.clean i b at held (clean held) ∙ content_of_match b s bdev lba hit)
            ∙ sym (view-Hit drivers bs s coherent bdev lba i at hit)
        | inr other ↦
            view-set_other drivers bs i n s s inside coherent coherent' bdev lba b at miss other
              refl
      ]

  -- A buffer that is marked as used, or as dirty with what it holds.
  pub touch_slot-Transparent :
      (bs : List Buffer) (i : ℕ) (b n : Buffer) (s : State)
      → At bs i b
      → IsCoherent drivers bs s
      → (n.valid ≡ b.valid) × (n.bdev ≡ b.bdev) × (n.lba ≡ b.lba) × (n.bytes ≡ b.bytes)
      → (n.dirty ≡ false → b.dirty ≡ false)
      → Transparent drivers bs s (set bs i n) s
  touch_slot-Transparent bs i b n s at coherent (valid, bdev, lba, bytes) still =
      flush_slot-Transparent drivers bs i b s at coherent (record {
        valid = valid;
        bdev = bdev;
        lba = lba;
        bytes = bytes;
        stored = λ h valid' clean.
            bytes
            ∙ h (sym valid ∙ valid') (still clean)
            ∙ ap (λ k. content s k b.lba) (sym bdev)
            ∙ ap (content s n.bdev) (sym lba);
        other = λ _ _ _. refl;
      })
