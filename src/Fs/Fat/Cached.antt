-- ===== src/Fs/Fat/Cached.antt =====
-- The driver of fat32.c over the sector cache of buffer_cache.c.
use mathlib.Core.Path.{subst}
use vinix_os.Base.{
  ℕ, ◌<◌, ◌≡◌, ◌≢◌, refl, sym, ap, ◌∙◌, true, Option, none, some, List, ◌==◌, if◌then◌else◌, length,
  get_or, arith, inl, inr, Bool-cases, Option-cases, length-set,
}
use vinix_os.Block.Device.{Drivers}
use vinix_os.Block.Cache.{
  Buffer, Cache, empty_buffer, matches, find_cached, bread, bmark_dirty, put_bytes,
}
use vinix_os.Block.Cache.Slots.{At, At-get_or, find_cached-Hit, find_cached-none}
use vinix_os.Block.Cache.View.{IsCoherent, view, matches-eq}
use vinix_os.Block.Cache.Read.{bread-Transparent, bread-view}
use vinix_os.Block.Cache.Write.{buffers-written, put_bytes-view}
use vinix_os.Fs.Fat.Volume.{sector_size, Layout, Sectors, Disk}
use vinix_os.Fs.Fat.Chain.{fat_set_entry}
use vinix_os.Fs.Fat.Table.{IsCache, copy_sector, Merged, set_copies-Merged}

module _ (drivers : Drivers) (bdev : ℕ) where
  -- `bread` of the volume's device, with the bytes of the buffer.
  unfoldable pub get_sector :
      ℕ → Cache × Drivers.State drivers → Option (List ℕ) × (Cache × Drivers.State drivers)
  get_sector lba s =
      let (r, c, media) = bread drivers bdev lba s.0 s.1 in
      (elim r [ none ↦ none | some i ↦ some (get_or c.buffers i empty_buffer).bytes ], (c, media))

  -- Writing bytes into the buffer of a sector and marking it dirty. A sector is written only after it
  -- has been read, so it has a buffer.
  unfoldable pub put_sector :
      ℕ → List ℕ → Cache × Drivers.State drivers → Cache × Drivers.State drivers
  put_sector lba bytes s = elim (find_cached bdev lba (s.0).buffers) [
    | none ↦ s
    | some i ↦ (bmark_dirty i (put_bytes i bytes s.0), s.1)
  ]

  abbrev pub cached_sectors : Sectors
  cached_sectors = record {
    State = Cache × Drivers.State drivers;
    get = get_sector;
    put = put_sector;
  }

  -- What a sector of the device shows.
  abbrev pub shows : Cache × Drivers.State drivers → ℕ → List ℕ
  shows s i = view drivers (s.0).buffers s.1 bdev i

  -- The cache has a slot and is coherent, and the sectors of the device have 512 bytes.
  pub record IsReady (s : Cache × Drivers.State drivers) : Type 0 where
    pub some_slot : 0 < length (s.0).buffers
    pub coherent : IsCoherent drivers (s.0).buffers s.1
    pub full : (i : ℕ) → length (shows s i) ≡ sector_size

  get-IsReady :
      (lba : ℕ) (s : Cache × Drivers.State drivers) → IsReady s → IsReady (get_sector lba s).1
  unfolding get_sector
  get-IsReady lba s ready =
      let t = bread-Transparent drivers bdev lba s.0 s.1 ready.some_slot ready.coherent in
      record {
        some_slot = subst (λ n. 0 < n) (sym t.size) ready.some_slot;
        coherent = t.coherent;
        full = λ i. ap (λ d. length d) (t.same bdev i) ∙ ready.full i;
      }

  get-shows :
      (lba : ℕ) (s : Cache × Drivers.State drivers) {d : List ℕ}
      → IsReady s
      → (get_sector lba s).0 ≡ some d
      → d ≡ shows s lba
  unfolding get_sector
  get-shows lba s ready e = elim (Option-cases (bread drivers bdev lba s.0 s.1).0) [
    | inl gone ↦ absurd (ground (arith, e, gone))
    | inr (i, found) ↦
        let (b, at, match, bytes) =
          bread-view drivers bdev lba s.0 s.1 ready.some_slot ready.coherent found in
        let got = At-get_or (bread drivers bdev lba s.0 s.1).1.buffers i at in
        ground (arith, e, found, got, bytes)
  ]

  -- Putting bytes into the buffer in slot `i`, which holds the sector.
  put_bytes-shows :
      (lba : ℕ) (d : List ℕ) (s : Cache × Drivers.State drivers) (i : ℕ) (b : Buffer)
      → IsReady s
      → length d ≡ sector_size
      → At (s.0).buffers i b
      → matches bdev lba b ≡ true
      → let s' : Cache × Drivers.State drivers = (bmark_dirty i (put_bytes i d s.0), s.1) in
        IsReady s' × ((k : ℕ) → shows s' k ≡ (if lba == k then d else shows s k))
  put_bytes-shows lba d s i b ready size at match = (
    record {
      some_slot = subst (λ n. 0 < n) (sym same_length) ready.some_slot;
      coherent = after.0;
      full = λ k. ap (λ x. length x) (seen k) ∙ still_full k;
    },
    seen,
  )
    where
      is : (b.valid ≡ true) × (b.bdev ≡ bdev) × (b.lba ≡ lba)
      is = matches-eq bdev lba b match

      same_length : length (bmark_dirty i (put_bytes i d s.0)).buffers ≡ length (s.0).buffers
      same_length =
          ap (λ bs. length bs) (buffers-written i d s.0 at is.0) ∙ length-set (s.0).buffers i _

      after :
          IsCoherent drivers (bmark_dirty i (put_bytes i d s.0)).buffers s.1
          × ((bdev' lba' : ℕ)
              → view drivers (bmark_dirty i (put_bytes i d s.0)).buffers s.1 bdev' lba'
                ≡ (if matches bdev' lba' b then d else view drivers (s.0).buffers s.1 bdev' lba'))
      after = put_bytes-view drivers i d s.0 s.1 ready.coherent at is.0

      here : (k : ℕ) → matches bdev k b ≡ (lba == k)
      here k = ground (arith, is)

      seen :
          (k : ℕ)
          → view drivers (bmark_dirty i (put_bytes i d s.0)).buffers s.1 bdev k
            ≡ (if lba == k then d else shows s k)
      seen k = after.1 bdev k ∙ ap (λ t. if t then d else shows s k) (here k)

      still_full : (k : ℕ) → length (if lba == k then d else shows s k) ≡ sector_size
      still_full k = elim (Bool-cases (lba == k)) [
        | inl e ↦ rw e size
        | inr ne ↦ rw ne (ready.full k)
      ]

  -- Some slot holds the sector, so it is found.
  put-shows :
      (lba : ℕ) (d : List ℕ) (s : Cache × Drivers.State drivers) (i : ℕ) (b : Buffer)
      → IsReady s
      → length d ≡ sector_size
      → At (s.0).buffers i b
      → matches bdev lba b ≡ true
      → let s' = put_sector lba d s in
        IsReady s' × ((k : ℕ) → shows s' k ≡ (if lba == k then d else shows s k))
  unfolding put_sector
  put-shows lba d s i b ready size at match =
      elim (Option-cases (find_cached bdev lba (s.0).buffers)) [
        | inl gone ↦ absurd (cc (match, find_cached-none bdev lba (s.0).buffers gone i at))
        | inr (j, e) ↦
            let hit = find_cached-Hit bdev lba (s.0).buffers e in
            let eq : put_sector lba d s ≡ (bmark_dirty j (put_bytes j d s.0), s.1) =
              rw (e, put_sector) refl in
            subst (λ x. IsReady x × ((k : ℕ) → shows x k ≡ (if lba == k then d else shows s k)))
              (sym eq) (put_bytes-shows lba d s j hit.buffer ready size hit.at hit.match)
      ]

  -- The sector cache keeps what `fat_set_entry` relies on.
  cached_sectors-IsCache : IsCache cached_sectors shows IsReady
  unfolding get_sector
  cached_sectors-IsCache = record {
    full = λ s ready i. ready.full i;
    kept = get-IsReady;
    same = λ lba s ready i.
        (bread-Transparent drivers bdev lba s.0 s.1 ready.some_slot ready.coherent).same bdev i;
    reads = get-shows;
    puts = λ lba d s ready e size. elim (Option-cases (bread drivers bdev lba s.0 s.1).0) [
      | inl gone ↦ absurd (ground (arith, e, gone))
      | inr (i, found) ↦
          let t = bread-Transparent drivers bdev lba s.0 s.1 ready.some_slot ready.coherent in
          let (b, at, match, bytes) =
            bread-view drivers bdev lba s.0 s.1 ready.some_slot ready.coherent found in
          let (ready', seen) =
            put-shows lba d (get_sector lba s).1 i b (get-IsReady lba s ready) size at match in
          (ready', λ k. seen k ∙ ap (λ x. if lba == k then d else x) (t.same bdev k))
    ];
  }

  -- Over the sector cache, from a state in which the cache is coherent and the sectors have 512 bytes,
  -- and where the copies of the table have sectors of their own for the cluster's entry,
  -- `fat_set_entry` ends in such a state again and changes no sector but those of the copies, whether
  -- it succeeds or fails; if it succeeds, every copy holds the low 28 bits of the value at the entry.
  pub fat_set_entry-Merged :
      (fs : Layout) (cluster value : ℕ) (s : Disk cached_sectors)
      → IsReady s.state
      → ((g h : ℕ) → g < h → h < fs.num_fats → copy_sector fs cluster g ≢ copy_sector fs cluster h)
      → Merged cached_sectors shows IsReady fs cluster value fs.num_fats 0 s
          (fat_set_entry cached_sectors fs cluster value s)
  unfolding fat_set_entry
  fat_set_entry-Merged fs cluster value s ready apart =
      set_copies-Merged cached_sectors shows IsReady fs cluster value cached_sectors-IsCache
        fs.num_fats 0 s ready (λ g h le lt lt'. apart g h lt (omega arith))
