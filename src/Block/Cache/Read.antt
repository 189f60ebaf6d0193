-- ===== src/Block/Cache/Read.antt =====
-- `bread`, `bmark_dirty` and `bsync` of buffer_cache.c against the abstract disk: a read gives what
-- the media show and changes nothing of it.
use vinix_os.Base.{
  ℕ, ◌<◌, ◌≡◌, refl, ap, ◌∙◌, sym, true, false, inl, inr, Option, none, some, List, arith, length,
  get_or, set, Bool-cases, Option-cases,
}
use vinix_os.Base.Result.{Result, ok, err}
use vinix_os.Block.Device.{Sector, Drivers, block_read}
use vinix_os.Block.Cache.{
  Buffer, Cache, empty_buffer, matches, next32, find_cached, flush_buffer, load_slot, bread_miss,
  bread, pick_victim,
}
use vinix_os.Block.Cache.Slots.{
  At, Hit, At-get_or, At-of_lt, At-set_self, At-lt, find_cached-Hit, pick_victim-lt, set_same,
  find_cached-set,
}
use mathlib.Core.Path.{subst}
use vinix_os.Block.Cache.View.{IsCoherent, view, view-Hit, matches_self}
use vinix_os.Block.Cache.Flush.{
  Transparent, Transparent-trans, Flushed, flush_buffer-Flushed, flush_slot-Transparent,
}
use vinix_os.Block.Cache.Load.{drop_slot-Transparent, fill_slot-Transparent, touch_slot-Transparent}

some_num : (i j : ℕ) → some i ≡ some j → i ≡ j
some_num i j h = ground arith

module _ (drivers : Drivers) where
  open drivers use {State, content, reads}

  -- What `bread` promises: the media show the same as before, the invariant holds, and a slot that
  -- is returned holds the sector that was asked for.
  pub record Served (bdev lba : ℕ) (bs : List Buffer) (s : State) (r : Option ℕ × Cache × State)
      : Type 0 where
    pub transparent : Transparent drivers bs s r.1.buffers r.2
    pub hit : (i : ℕ) → r.0 ≡ some i → Hit bdev lba r.1.buffers i

  block_read-content :
      (s : State) (bdev lba : ℕ) (d : Sector)
      → block_read drivers bdev lba s ≡ ok d
      → d ≡ content s bdev lba
  unfolding block_read
  block_read-content s bdev lba d h = elim (Bool-cases (drivers.has_read bdev)) [
    | inl can ↦ reads s bdev lba (ground arith)
    | inr cannot ↦ absurd (ground arith)
  ]

  load_slot-Served :
      (i bdev lba : ℕ) (b : Buffer) (c : Cache) (s : State)
      → At c.buffers i b
      → IsCoherent drivers c.buffers s
      → (b.valid ≡ true → b.dirty ≡ false)
      → find_cached bdev lba c.buffers ≡ none
      → Served bdev lba c.buffers s (load_slot drivers i bdev lba b c s)
  unfolding load_slot
  load_slot-Served i bdev lba b c s at coherent clean absent =
      outcome (block_read drivers bdev lba s) refl
    where
      new : Sector → Buffer
      new d = record {
        bdev = bdev;
        lba = lba;
        bytes = d;
        valid = true;
        dirty = false;
        last_used = next32 c.tick_counter;
      }

      from_medium : (d : Sector) → block_read drivers bdev lba s ≡ ok d → d ≡ content s bdev lba
      from_medium d e = block_read-content s bdev lba d e

      outcome :
          (r : Result Sector)
          → block_read drivers bdev lba s ≡ r
          → Served bdev lba c.buffers s (load_slot drivers i bdev lba b c s)
      outcome (err e) eq =
          rw (eq, load_slot)
            (record {
              transparent =
                  drop_slot-Transparent drivers c.buffers i b (record b { valid = false }) s at
                    coherent clean refl;
              hit = λ j h. cc;
            })
      outcome (ok d) eq =
          rw (eq, load_slot)
            (record {
              transparent =
                  fill_slot-Transparent drivers c.buffers i b (new d) s at coherent clean absent
                    refl (from_medium d eq);
              hit = λ j h. subst (Hit bdev lba (set c.buffers i (new d))) (some_num i j h) (record {
                buffer = new d;
                at = At-set_self c.buffers i (new d) (At-lt c.buffers i at);
                match = matches_self (new d) refl;
              });
            })

  bread_miss-Served :
      (bdev lba : ℕ) (c : Cache) (s : State)
      → 0 < length c.buffers
      → IsCoherent drivers c.buffers s
      → find_cached bdev lba c.buffers ≡ none
      → Served bdev lba c.buffers s (bread_miss drivers bdev lba c s)
  unfolding bread_miss
  bread_miss-Served bdev lba c s pos coherent absent =
      outcome (flush_buffer drivers b s).0 (flush_buffer drivers b s).1 (flush_buffer drivers b s).2
        (flush_buffer-Flushed drivers b s)
    where
      i : ℕ
      i = pick_victim c.buffers

      b : Buffer
      b = get_or c.buffers i empty_buffer

      at : At c.buffers i b
      at = At-of_lt c.buffers i (pick_victim-lt c.buffers pos)

      after : Buffer → Cache
      after b' = record c { buffers = set c.buffers i b' }

      outcome :
          (rc : Result (Unit {0})) (b' : Buffer) (s' : State)
          → Flushed drivers b s rc b' s'
          → Served bdev lba c.buffers s (elim rc [
            | err _ ↦ (none, c, s')
            | ok _ ↦ load_slot drivers i bdev lba b' (after b') s'
          ])
      outcome (err e) b' s' f = record {
        transparent =
            subst (λ bs. Transparent drivers c.buffers s bs s')
              (ap (set c.buffers i) (f.kept (λ h. cc)) ∙ set_same c.buffers i at)
              (flush_slot-Transparent drivers c.buffers i b s at coherent f.rewritten);
        hit = λ j h. cc;
      }
      outcome (ok tt) b' s' f =
          let written = flush_slot-Transparent drivers c.buffers i b s at coherent f.rewritten in
          let served =
            load_slot-Served i bdev lba b' (after b') s'
              (At-set_self c.buffers i b' (At-lt c.buffers i at)) written.coherent (f.clean refl)
              (find_cached-set bdev lba c.buffers i b b' at (alike b' s' f) ∙ absent) in
          record {
            transparent = Transparent-trans drivers written served.transparent;
            hit = served.hit;
          }
        where
          alike :
              (b' : Buffer) (s' : State)
              → Flushed drivers b s (ok tt) b' s'
              → matches bdev lba b' ≡ matches bdev lba b
          alike b' s' f = cc (f.rewritten.valid, f.rewritten.bdev, f.rewritten.lba)

  bread-Served :
      (bdev lba : ℕ) (c : Cache) (s : State)
      → 0 < length c.buffers
      → IsCoherent drivers c.buffers s
      → Served bdev lba c.buffers s (bread drivers bdev lba c s)
  unfolding bread
  bread-Served bdev lba c s pos coherent = elim (Option-cases (find_cached bdev lba c.buffers)) [
    | inl absent ↦
        rw (absent, bread)
          (bread_miss-Served bdev lba (record c { stat_misses = next32 c.stat_misses }) s pos
            coherent absent)
    | inr (i, found) ↦ rw (found, bread) (touched i (find_cached-Hit bdev lba c.buffers found))
  ]
    where
      old : ℕ → Buffer
      old i = get_or c.buffers i empty_buffer

      used : ℕ → Buffer
      used i = record (old i) { last_used = next32 c.tick_counter }

      touched :
          (i : ℕ)
          → Hit bdev lba c.buffers i
          → Served bdev lba c.buffers s (
            some i,
            record c {
              buffers = set c.buffers i (used i);
              tick_counter = next32 c.tick_counter;
              stat_hits = next32 c.stat_hits;
            },
            s,
          )
      touched i hit =
          let inside = At-lt c.buffers i hit.at in
          record {
            transparent =
                touch_slot-Transparent drivers c.buffers i (old i) (used i) s
                  (At-of_lt c.buffers i inside) coherent (refl, refl, refl, refl) (λ h. h);
            hit = λ j h. subst (Hit bdev lba (set c.buffers i (used i))) (some_num i j h) (record {
              buffer = used i;
              at = At-set_self c.buffers i (used i) inside;
              match =
                  subst (λ b. matches bdev lba b ≡ true) (sym (At-get_or c.buffers i hit.at))
                    hit.match;
            });
          }

  -- From a coherent cache with at least one slot, `bread` keeps the cache coherent and changes nothing
  -- of what the media show, whether it succeeds or fails.
  pub bread-Transparent :
      (bdev lba : ℕ) (c : Cache) (s : State)
      → 0 < length c.buffers
      → IsCoherent drivers c.buffers s
      → let (r, c', s') = bread drivers bdev lba c s in
        Transparent drivers c.buffers s c'.buffers s'
  bread-Transparent bdev lba c s pos coherent = (bread-Served bdev lba c s pos coherent).transparent

  -- From a coherent cache with at least one slot, where `bread` returns a slot, that slot holds the
  -- sector that was asked for, with the bytes that the media showed before the call.
  pub bread-view :
      (bdev lba : ℕ) (c : Cache) (s : State) {i : ℕ}
      → 0 < length c.buffers
      → IsCoherent drivers c.buffers s
      → (bread drivers bdev lba c s).0 ≡ some i
      → (b : Buffer) × At (bread drivers bdev lba c s).1.buffers i b
        × (matches bdev lba b ≡ true)
        × (b.bytes ≡ view drivers c.buffers s bdev lba)
  bread-view bdev lba c s {i} pos coherent e =
      let served = bread-Served bdev lba c s pos coherent in
      let after = served.transparent in
      let hit = served.hit i e in
      (
        hit.buffer,
        hit.at,
        hit.match,
        sym (
              view-Hit drivers (bread drivers bdev lba c s).1.buffers (bread drivers bdev lba c s).2
                after.coherent bdev lba i hit.at hit.match)
            ∙ after.same bdev lba,
      )
