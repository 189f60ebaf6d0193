-- ===== src/Block/Cache/Write.antt =====
-- Writing through a slot of the sector cache of buffer_cache.c, and dropping a sector from it.
use vinix_os.Base.{
  ℕ, zero, suc, ◌<◌, ◌≡◌, refl, ap, true, inl, inr, List, [], ◌∷◌, arith, if◌then◌else◌, length,
  get_or, set, Bool-cases,
}
use vinix_os.Block.Device.{Sector, Drivers}
use vinix_os.Block.Cache.{Buffer, Cache, empty_buffer, matches, bmark_dirty, put_bytes}
use vinix_os.Block.Cache.Slots.{At, At-get_or, At-set_self, At-lt}
use vinix_os.Block.Cache.View.{IsCoherent, view}
use vinix_os.Block.Cache.Replace.{set-IsCoherent, view-set_new, view-set_other}

set_twice : (bs : List Buffer) (i : ℕ) (a b : Buffer) → set (set bs i a) i b ≡ set bs i b
set_twice [] i a b = refl
set_twice (x ∷ bs) zero a b = refl
set_twice (x ∷ bs) (suc i) a b = ap (λ t. x ∷ t) (set_twice bs i a b)

module _ (i : ℕ) (d : Sector) (c : Cache) {b : Buffer} (at : At c.buffers i b)
    (valid : b.valid ≡ true) where
  abbrev pub written : Buffer
  written = record b { bytes = d; dirty = true }

  -- The slots after the bytes have been put and the buffer marked.
  pub buffers-written : (bmark_dirty i (put_bytes i d c)).buffers ≡ set c.buffers i written
  unfolding bmark_dirty put_bytes
  buffers-written =
      let here : get_or c.buffers i empty_buffer ≡ b = At-get_or c.buffers i at in
      let there : get_or (set c.buffers i (record b { bytes = d })) i empty_buffer
          ≡ record b { bytes = d } =
        At-get_or (set c.buffers i (record b { bytes = d })) i
          (At-set_self c.buffers i (record b { bytes = d }) (At-lt c.buffers i at)) in
      rw (here, there) (ground (arith, set_twice c.buffers i (record b { bytes = d }) written))

module _ (drivers : Drivers) where
  open drivers use {State, content}

  -- In a coherent cache, when a caller puts bytes into the valid buffer of slot `i` and marks it
  -- dirty, the cache stays coherent, the buffer's sector then shows those bytes, and every other
  -- sector shows what it showed before.
  pub put_bytes-view :
      (i : ℕ) (d : Sector) (c : Cache) (s : State) {b : Buffer}
      → IsCoherent drivers c.buffers s
      → At c.buffers i b
      → b.valid ≡ true
      → let c' = bmark_dirty i (put_bytes i d c) in
        IsCoherent drivers c'.buffers s
        × ((bdev lba : ℕ)
            → view drivers c'.buffers s bdev lba
              ≡ (if matches bdev lba b then d else view drivers c.buffers s bdev lba))
  put_bytes-view i d c s {b} coherent at valid =
      rw (buffers-written i d c at valid) (coherent', shown)
    where
      new : Buffer
      new = record b { bytes = d; dirty = true }

      inside : i < length c.buffers
      inside = At-lt c.buffers i at

      coherent' : IsCoherent drivers (set c.buffers i new) s
      coherent' =
          set-IsCoherent drivers c.buffers i new s s inside coherent
            (λ j x ne at' q. ne (
              coherent.unique i j b x at at'
                (record { valid = q.valid; valid' = q.valid'; bdev = q.bdev; lba = q.lba })))
            (λ j x ne at' _. refl) (λ _ h. cc)

      shown :
          (bdev lba : ℕ)
          → view drivers (set c.buffers i new) s bdev lba
            ≡ (if matches bdev lba b then d else view drivers c.buffers s bdev lba)
      shown bdev lba = elim (Bool-cases (matches bdev lba b)) [
        | inl hit ↦
            rw hit (view-set_new drivers c.buffers i new s s inside coherent coherent' bdev lba hit)
        | inr miss ↦ rw miss (
            view-set_other drivers c.buffers i new s s inside coherent coherent' bdev lba b at miss
              miss refl)
      ]
