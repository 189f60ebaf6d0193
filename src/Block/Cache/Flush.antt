-- ===== src/Block/Cache/Flush.antt =====
-- `flush_buffer` of buffer_cache.c: writing a buffer back changes nothing that a reader sees of the media.
use vinix_os.Base.{
  ℕ, ◌<◌, ◌≡◌, ◌≢◌, refl, ◌∙◌, sym, true, false, ◌&&◌, ◌⊎◌, inl, inr, List, arith, ◌==◌, length,
  set, Bool-cases, ne_of_==, length-set,
}
use vinix_os.Base.Result.{Result, ok, err}
use vinix_os.Block.Device.{Sector, Drivers, block_write}
use vinix_os.Block.Cache.{Buffer, matches, flush_buffer}
use vinix_os.Block.Cache.Slots.{At, At-lt}
use vinix_os.Block.Cache.View.{
  SameSector, IsCoherent, view, view-Hit, SameSector-of_matches, matches_self,
}
use vinix_os.Block.Cache.Replace.{set-IsCoherent, view-set_new, view-set_other}

module _ (drivers : Drivers) where
  open drivers use {State, content, reads, writes, writes_other}

  -- A reader sees the same of the media before and after, and the invariant holds after.
  pub record Transparent (bs : List Buffer) (s : State) (bs' : List Buffer) (s' : State)
      : Type 0 where
    pub coherent : IsCoherent drivers bs' s'
    pub size : length bs' ≡ length bs
    pub same : (bdev lba : ℕ) → view drivers bs' s' bdev lba ≡ view drivers bs s bdev lba

  pub Transparent-refl :
      {bs : List Buffer} {s : State} → IsCoherent drivers bs s → Transparent bs s bs s
  Transparent-refl coherent = record { coherent = coherent; size = refl; same = λ bdev lba. refl }

  pub Transparent-trans :
      {bs bs' bs'' : List Buffer} {s s' s'' : State}
      → Transparent bs s bs' s'
      → Transparent bs' s' bs'' s''
      → Transparent bs s bs'' s''
  Transparent-trans p q = record {
    coherent = q.coherent;
    size = q.size ∙ p.size;
    same = λ bdev lba. q.same bdev lba ∙ p.same bdev lba;
  }

  -- A write through the drivers, as the cache uses it.
  block_write-content :
      (s : State) (bdev lba : ℕ) (d : Sector)
      → (block_write drivers bdev lba d s).0 ≡ ok tt
      → content (block_write drivers bdev lba d s).1 bdev lba ≡ d
  unfolding block_write
  block_write-content s bdev lba d h = elim (Bool-cases (drivers.has_write bdev)) [
    | inl can ↦ rw can (writes s bdev lba d (ground arith))
    | inr cannot ↦ absurd (ground arith)
  ]

  block_write-other :
      (s : State) (bdev lba : ℕ) (d : Sector) (bdev' lba' : ℕ)
      → (bdev ≢ bdev') ⊎ (lba ≢ lba')
      → content (block_write drivers bdev lba d s).1 bdev' lba' ≡ content s bdev' lba'
  unfolding block_write
  block_write-other s bdev lba d bdev' lba' h = elim (Bool-cases (drivers.has_write bdev)) [
    | inl can ↦ rw can (writes_other s bdev lba d bdev' lba' h)
    | inr cannot ↦ rw cannot
  ]

  -- A buffer keeps its sector, and the media change at most at that sector.
  pub record Rewritten (b : Buffer) (s : State) (b' : Buffer) (s' : State) : Type 0 where
    pub valid : b'.valid ≡ b.valid
    pub bdev : b'.bdev ≡ b.bdev
    pub lba : b'.lba ≡ b.lba
    pub bytes : b'.bytes ≡ b.bytes
    pub stored :
        (b.valid ≡ true → b.dirty ≡ false → b.bytes ≡ content s b.bdev b.lba)
        → b'.valid ≡ true
        → b'.dirty ≡ false
        → b'.bytes ≡ content s' b'.bdev b'.lba
    pub other :
        (bdev lba : ℕ) → matches bdev lba b ≡ false → content s' bdev lba ≡ content s bdev lba

  -- What writing back a buffer does to it and to the media.
  pub record Flushed (b : Buffer) (s : State) (rc : Result (Unit {0})) (b' : Buffer) (s' : State)
      : Type 0 where
    pub rewritten : Rewritten b s b' s'
    pub clean : rc ≡ ok tt → b'.valid ≡ true → b'.dirty ≡ false
    pub kept : rc ≢ ok tt → b' ≡ b

  -- A sector other than that of a valid buffer.
  other_sector :
      (b : Buffer) (bdev lba : ℕ)
      → b.valid ≡ true
      → matches bdev lba b ≡ false
      → (b.bdev ≢ bdev) ⊎ (b.lba ≢ lba)
  other_sector b bdev lba valid miss = elim (Bool-cases (b.bdev == bdev)) [
    | inl e ↦ inr (λ p. ground (arith, p))
    | inr e ↦ inl (ne_of_== _ _ e)
  ]

  flush_cases :
      (b : Buffer) (s : State) (rc : Result (Unit {0})) (s' : State)
      → b.valid ≡ true
      → b.dirty ≡ true
      → (rc ≡ ok tt → content s' b.bdev b.lba ≡ b.bytes)
      → ((bdev lba : ℕ)
          → (b.bdev ≢ bdev) ⊎ (b.lba ≢ lba)
          → content s' bdev lba ≡ content s bdev lba)
      → Flushed b s rc (elim rc [ ok _ ↦ record b { dirty = false } | err _ ↦ b ]) s'
  flush_cases b s (ok tt) s' valid dirty wrote others = record {
    rewritten = record {
      valid = refl;
      bdev = refl;
      lba = refl;
      bytes = refl;
      stored = λ _ _ _. sym (wrote refl);
      other = λ bdev lba miss. others bdev lba (other_sector b bdev lba valid miss);
    };
    clean = λ _ _. refl;
    kept = λ h. absurd (h refl);
  }
  flush_cases b s (err e) s' valid dirty wrote others = record {
    rewritten = record {
      valid = refl;
      bdev = refl;
      lba = refl;
      bytes = refl;
      stored = λ _ _ d. cc;
      other = λ bdev lba miss. others bdev lba (other_sector b bdev lba valid miss);
    };
    clean = λ h _. cc;
    kept = λ h. refl;
  }

  pub flush_buffer-Flushed :
      (b : Buffer) (s : State)
      → Flushed b s
          (flush_buffer drivers b s).0
          (flush_buffer drivers b s).1
          (flush_buffer drivers b s).2
  unfolding flush_buffer
  flush_buffer-Flushed b s = elim (Bool-cases (b.valid && b.dirty)) [
    | inl due ↦ rw due (
        flush_cases b s (block_write drivers b.bdev b.lba b.bytes s).0
          (block_write drivers b.bdev b.lba b.bytes s).1 (ground arith) (ground arith)
          (block_write-content s b.bdev b.lba b.bytes) (block_write-other s b.bdev b.lba b.bytes))
    | inr idle ↦ rw idle (record {
      rewritten = record {
        valid = refl;
        bdev = refl;
        lba = refl;
        bytes = refl;
        stored = λ h. h;
        other = λ _ _ _. refl;
      };
      clean = λ _ valid. ground arith;
      kept = λ _. refl;
    })
  ]

  -- Putting a buffer that has been written back into its slot.
  pub flush_slot-Transparent :
      (bs : List Buffer) (i : ℕ) (b : Buffer) (s : State) {b' : Buffer} {s' : State}
      → At bs i b
      → IsCoherent drivers bs s
      → Rewritten b s b' s'
      → Transparent bs s (set bs i b') s'
  flush_slot-Transparent bs i b s {b'} {s'} at coherent f = record {
    coherent = coherent';
    size = length-set bs i b';
    same = λ bdev lba. elim (Bool-cases (matches bdev lba b)) [
      | inl hit ↦
          view-set_new drivers bs i b' s s' inside coherent coherent' bdev lba
            (same_match bdev lba ∙ hit)
          ∙ f.bytes
          ∙ sym (view-Hit drivers bs s coherent bdev lba i at hit)
      | inr miss ↦
          view-set_other drivers bs i b' s s' inside coherent coherent' bdev lba b at
            (same_match bdev lba ∙ miss) miss (f.other bdev lba miss)
    ];
  }
    where
      inside : i < length bs
      inside = At-lt bs i at

      same_sector : {c : Buffer} → SameSector b' c → SameSector b c
      same_sector q = record {
        valid = sym f.valid ∙ q.valid;
        valid' = q.valid';
        bdev = sym f.bdev ∙ q.bdev;
        lba = sym f.lba ∙ q.lba;
      }

      apart : (j : ℕ) (c : Buffer) → i ≢ j → At bs j c → SameSector b c → ⊥
      apart j c ne at' q = ne (coherent.unique i j b c at at' q)

      same_match : (bdev lba : ℕ) → matches bdev lba b' ≡ matches bdev lba b
      same_match bdev lba = cc

      untouched :
          (j : ℕ) (c : Buffer) → i ≢ j → At bs j c → c.valid ≡ true → matches c.bdev c.lba b ≡ false
      untouched j c ne at' valid = elim (Bool-cases (matches c.bdev c.lba b)) [
        | inl hit ↦
            absurd
              (apart j c ne at' (SameSector-of_matches c.bdev c.lba b c hit (matches_self c valid)))
        | inr miss ↦ miss
      ]

      coherent' : IsCoherent drivers (set bs i b') s'
      coherent' =
          set-IsCoherent drivers bs i b' s s' inside coherent
            (λ j c ne at' q. apart j c ne at' (same_sector q))
            (λ j c ne at' valid. f.other c.bdev c.lba (untouched j c ne at' valid))
            (f.stored (λ valid clean. coherent.clean i b at valid clean))
