-- ===== src/Block/Cache.antt =====
-- The sector cache, VinixOS/kernel/src/kernel/block/buffer_cache.c, over the block devices.
-- The file's static variables are the record `Cache`; a `struct buffer_head *` is the number of its
-- slot. The state of a call is the cache and the state of the drivers.
pub mod Slots
pub mod View
pub mod Replace
pub mod Flush
pub mod Load
pub mod Read
pub mod Write
pub mod Sync
pub mod Sample
mod Tests
use vinix_os.Base.{
  ℕ, zero, suc, ◌+◌, ◌^◌, ◌%◌, ◌≡◌, Bool, true, false, not, ◌&&◌, Option, none, some, List, [], ◌∷◌,
  ◌==◌, ltb, if◌then◌else◌, get_or, set, replicate,
}
use vinix_os.Base.Result.{Errno, Result, ok, err}
use vinix_os.Block.Device.{Sector, Drivers, block_read, block_write}

abbrev pub bcache_buffers : ℕ
bcache_buffers = 64

-- `struct buffer_head`
pub record Buffer : Type 0 where
  pub bdev : ℕ
  pub lba : ℕ
  pub bytes : Sector
  pub valid : Bool
  pub dirty : Bool
  pub last_used : ℕ

abbrev pub empty_buffer : Buffer
empty_buffer = record { bdev = 0; lba = 0; bytes = []; valid = false; dirty = false; last_used = 0 }

pub record Cache : Type 0 where
  pub buffers : List Buffer
  pub tick_counter : ℕ
  pub stat_hits : ℕ
  pub stat_misses : ℕ

unfoldable pub bcache_init : Cache
bcache_init = record {
  buffers = replicate bcache_buffers empty_buffer;
  tick_counter = 0;
  stat_hits = 0;
  stat_misses = 0;
}

-- `uint32_t` increment
abbrev pub next32 : ℕ → ℕ
next32 n = (n + 1) % 2 ^ 32

-- The test of `find_cached`.
abbrev pub matches : ℕ → ℕ → Buffer → Bool
matches bdev lba b = b.valid && (b.bdev == bdev && b.lba == lba)

-- An index into the tail of the buffers, as one into the buffers.
abbrev pub next_slot : Option ℕ → Option ℕ
next_slot none = none
next_slot (some i) = some (suc i)

-- The first slot that holds the sector.
unfoldable pub find_cached : ℕ → ℕ → List Buffer → Option ℕ
find_cached bdev lba [] = none
find_cached bdev lba (b ∷ bs) =
    if matches bdev lba b then some 0 else next_slot (find_cached bdev lba bs)

-- The loop of `pick_victim`, at slot `i`, with the oldest slot so far and its `last_used`.
unfoldable pub pick_from : ℕ → ℕ → ℕ → List Buffer → ℕ
pick_from i victim oldest [] = victim
pick_from i victim oldest (b ∷ bs) =
    let later = ltb b.last_used oldest in
    if b.valid
    then pick_from (i + 1) (if later then i else victim) (if later then b.last_used else oldest) bs
    else i

unfoldable pub pick_victim : List Buffer → ℕ
pick_victim bs = pick_from 0 0 (get_or bs 0 empty_buffer).last_used bs

module _ (drivers : Drivers) where
  open drivers use {State}

  -- A slot is written back if it is valid and dirty; it stays dirty if the write fails.
  unfoldable pub flush_buffer : Buffer → State → Result (Unit {0}) × Buffer × State
  flush_buffer b s =
      if b.valid && b.dirty
      then (let (rc, s') = block_write drivers b.bdev b.lba b.bytes s in
          (rc, elim rc [ ok _ ↦ record b { dirty = false } | err _ ↦ b ], s'))
      else (ok tt, b, s)

  -- `bread` after the victim has been written back: load the sector into slot `i`.
  unfoldable pub load_slot : ℕ → ℕ → ℕ → Buffer → Cache → State → Option ℕ × Cache × State
  load_slot i bdev lba b c s = elim (block_read drivers bdev lba s) [
    | err _ ↦ (none, record c { buffers = set c.buffers i (record b { valid = false }) }, s)
    | ok d ↦ (
      some i,
      record c {
        buffers = set c.buffers i (record {
          bdev = bdev;
          lba = lba;
          bytes = d;
          valid = true;
          dirty = false;
          last_used = next32 c.tick_counter;
        });
        tick_counter = next32 c.tick_counter;
      },
      s,
    )
  ]

  -- `bread` on a miss.
  unfoldable pub bread_miss : ℕ → ℕ → Cache → State → Option ℕ × Cache × State
  bread_miss bdev lba c s =
      let i = pick_victim c.buffers in
      let b = get_or c.buffers i empty_buffer in
      let (rc, b', s') = flush_buffer b s in
      elim rc [
        | err _ ↦ (none, c, s')
        | ok _ ↦ load_slot i bdev lba b' (record c { buffers = set c.buffers i b' }) s'
      ]

  -- The slot with the sector, or `none` for the null pointer.
  unfoldable pub bread : ℕ → ℕ → Cache → State → Option ℕ × Cache × State
  bread bdev lba c s = elim (find_cached bdev lba c.buffers) [
    | some i ↦ (
      some i,
      record c {
        buffers =
            set c.buffers i
              (record (get_or c.buffers i empty_buffer) { last_used = next32 c.tick_counter });
        tick_counter = next32 c.tick_counter;
        stat_hits = next32 c.stat_hits;
      },
      s,
    )
    | none ↦ bread_miss bdev lba (record c { stat_misses = next32 c.stat_misses }) s
  ]

  -- The loop of `bsync` over the slots, with the last error.
  unfoldable pub sync_slots :
      List Buffer → Result (Unit {0}) → State → Result (Unit {0}) × List Buffer × State
  sync_slots [] last_err s = (last_err, [], s)
  sync_slots (b ∷ bs) last_err s =
      let (rc, b', s') = flush_buffer b s in
      let (rc', bs', s'') = sync_slots bs (elim rc [ ok _ ↦ last_err | err e ↦ err e ]) s' in
      (rc', b' ∷ bs', s'')

  unfoldable pub bsync : Cache → State → Result (Unit {0}) × Cache × State
  bsync c s =
      let (rc, bs, s') = sync_slots c.buffers (ok tt) s in (rc, record c { buffers = bs }, s')

unfoldable pub bmark_dirty : ℕ → Cache → Cache
bmark_dirty i c =
    let b = get_or c.buffers i empty_buffer in
    if b.valid then record c { buffers = set c.buffers i (record b { dirty = true }) } else c

-- What a caller does that writes through `bh->data` and then marks the buffer.
unfoldable pub put_bytes : ℕ → Sector → Cache → Cache
put_bytes i d c = record c {
  buffers = set c.buffers i (record (get_or c.buffers i empty_buffer) { bytes = d });
}

unfoldable pub binvalidate : ℕ → ℕ → Cache → Cache
binvalidate bdev lba c = elim (find_cached bdev lba c.buffers) [
  | none ↦ c
  | some i ↦ record c {
    buffers =
        set c.buffers i (record (get_or c.buffers i empty_buffer) { valid = false; dirty = false });
  }
]

unfoldable pub bcache_hits : Cache → ℕ
bcache_hits c = c.stat_hits

unfoldable pub bcache_misses : Cache → ℕ
bcache_misses c = c.stat_misses
