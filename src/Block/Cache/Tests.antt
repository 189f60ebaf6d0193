-- ===== src/Block/Cache/Tests.antt =====
-- The sector cache of buffer_cache.c over a small disk: the theorems applied.
use vinix_os.Base.{
  ℕ, zero, suc, ◌≡◌, refl, true, false, Option, some, [], ◌∷◌, arith, if◌then◌else◌,
}
use vinix_os.Base.Result.{ok}
use vinix_os.Block.Device.{Sector, block_read, block_write}
use vinix_os.Block.Cache.{
  Buffer, Cache, empty_buffer, matches, find_cached, bcache_init, bread, bsync, bmark_dirty,
  put_bytes, flush_buffer, load_slot, bread_miss, pick_victim, pick_from, sync_slots, bcache_hits,
  bcache_misses,
}
use vinix_os.Block.Cache.Sample.{Media, ram}
use vinix_os.Block.Cache.Slots.{At}
use vinix_os.Block.Cache.View.{SameSector, IsCoherent, view}
use vinix_os.Block.Cache.Flush.{Transparent}
use vinix_os.Block.Cache.Read.{bread-Transparent}
use vinix_os.Block.Cache.Write.{put_bytes-view}
use vinix_os.Block.Cache.Sync.{bsync-Transparent, bsync-content}

abbrev blank : Media
blank bdev lba = lba ∷ []

-- One dirty buffer and one that is free.
abbrev dirty_buffer : Buffer
dirty_buffer = record {
  bdev = 1;
  lba = 5;
  bytes = 7 ∷ [];
  valid = true;
  dirty = true;
  last_used = 3;
}

abbrev small : Cache
small = record {
  buffers = dirty_buffer ∷ empty_buffer ∷ [];
  tick_counter = 3;
  stat_hits = 0;
  stat_misses = 1;
}

small-IsCoherent : IsCoherent ram small.buffers blank
small-IsCoherent = record { unique = unique; clean = clean }
  where
    unique :
        (i j : ℕ) (a b : Buffer)
        → At small.buffers i a
        → At small.buffers j b
        → SameSector a b
        → i ≡ j
    unique zero zero a b p q s = refl
    unique zero (suc zero) a b p q s = absurd (ground arith)
    unique zero (suc (suc j)) a b p q s = cc
    unique (suc zero) zero a b p q s = absurd (ground arith)
    unique (suc zero) (suc zero) a b p q s = refl
    unique (suc zero) (suc (suc j)) a b p q s = cc
    unique (suc (suc i)) j a b p q s = cc

    clean :
        (i : ℕ) (b : Buffer)
        → At small.buffers i b
        → b.valid ≡ true
        → b.dirty ≡ false
        → b.bytes ≡ blank b.bdev b.lba
    clean zero b p v d = absurd (ground arith)
    clean (suc zero) b p v d = absurd (ground arith)
    clean (suc (suc i)) b p v d = cc

bread-Transparent_example :
    let (r, c', s') = bread ram 1 5 small blank in Transparent ram small.buffers blank c'.buffers s'
bread-Transparent_example = bread-Transparent ram 1 5 small blank (omega arith) small-IsCoherent

read_fills : (bread ram 1 8 small blank).0 ≡ some 1
unfolding bread bread_miss find_cached pick_victim pick_from flush_buffer load_slot block_read
    block_write
read_fills = refl

put_bytes-view_example :
    let c' = bmark_dirty 0 (put_bytes 0 (9 ∷ []) small) in
    IsCoherent ram c'.buffers blank
    × ((bdev lba : ℕ)
        → view ram c'.buffers blank bdev lba ≡ (
            if matches bdev lba dirty_buffer
            then 9 ∷ []
            else view ram small.buffers blank bdev lba))
put_bytes-view_example = put_bytes-view ram 0 (9 ∷ []) small blank small-IsCoherent refl refl

bsync-Transparent_example :
    let (rc, c', s') = bsync ram small blank in Transparent ram small.buffers blank c'.buffers s'
bsync-Transparent_example = bsync-Transparent ram small blank small-IsCoherent

sync_succeeds : (bsync ram small blank).0 ≡ ok tt
unfolding bsync sync_slots flush_buffer block_write
sync_succeeds = refl

bsync-content_example : (bsync ram small blank).2 1 5 ≡ view ram small.buffers blank 1 5
bsync-content_example = bsync-content ram small blank small-IsCoherent sync_succeeds 1 5

-- A read of a new sector evicts nothing while a slot is free, and the first dirty buffer reaches the
-- disk with `bsync`.
run_cache :
    let (r, c, s) = bread ram 1 8 small blank in
    let (rc, c', s') = bsync ram c s in
    ◌≡◌ {A = Option ℕ × Sector × ℕ × ℕ}
      (r, s' 1 5, bcache_hits c', bcache_misses c')
      (some 1, 7 ∷ [], 0, 2)
unfolding bread bread_miss find_cached pick_victim pick_from flush_buffer load_slot block_read
    block_write bsync sync_slots bcache_hits bcache_misses
run_cache = refl

-- At boot every sector is read for the first time.
boot_miss : (bread ram 1 8 bcache_init blank).1.stat_misses ≡ 1
unfolding bread bread_miss find_cached pick_victim pick_from flush_buffer load_slot block_read
    block_write bcache_init
boot_miss = refl
