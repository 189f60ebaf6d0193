-- ===== src/Fs/Fat/Chain.antt =====
-- The file allocation table of fat32.c: the chains of clusters.
use vinix_os.Base.{
  ℕ, zero, suc, ◌+◌, ◌-◌, ◌*◌, ◌/◌, ◌%◌, ◌^◌, Bool, ◌||◌, ◌&&◌, ◌==◌, ltb, leb, if◌then◌else◌,
}
use vinix_os.Fs.Fat.Bytes.{rd32, wr32}
use vinix_os.Fs.Fat.Volume.{
  end_of_chain, sector_size, Layout, Sectors, Disk, Outcome, done, failed, spent, Io, answer,
  and_then, fat_read_sector, write_back,
}

-- The sector of the table that holds the entry of a cluster, counted from the start of the table, and
-- the place of the entry in it.
abbrev pub entry_sector : ℕ → ℕ
entry_sector cluster = cluster * 4 % 2 ^ 32 / sector_size

abbrev pub entry_offset : ℕ → ℕ
entry_offset cluster = cluster * 4 % 2 ^ 32 % sector_size

-- The low 28 bits are the entry; the high 4 bits are kept on a write.
abbrev pub merge : (old value : ℕ) → ℕ
merge old value = old / 2 ^ 28 % 2 ^ 4 * 2 ^ 28 + value % 2 ^ 28

-- The test of the loops over clusters.
abbrev pub ends_chain : ℕ → Bool
ends_chain cluster = leb end_of_chain cluster || (cluster == 0)

module _ (sectors : Sectors) (fs : Layout) where
  -- A table that cannot be read gives the end of the chain.
  unfoldable pub fat_next_cluster : ℕ → Io sectors ℕ
  fat_next_cluster cur s =
      elim (fat_read_sector sectors ((fs.fat_lba + entry_sector cur) % 2 ^ 32) s) [
        | done d s' ↦ done (rd32 d (entry_offset cur) % 2 ^ 28) s'
        | failed e s' ↦ done end_of_chain s'
        | spent ↦ spent
      ]

  -- The loop over the copies of the table from copy `f` on.
  unfoldable pub set_copies : (rounds f cluster value : ℕ) → Io sectors (Unit {0})
  set_copies zero f cluster value = answer sectors tt
  set_copies (suc rounds) f cluster value =
      let lba = (fs.fat_lba + f * fs.fat_sectors + entry_sector cluster) % 2 ^ 32 in
      and_then sectors (fat_read_sector sectors lba) (λ d.
        and_then sectors
          (write_back sectors lba
            (wr32 d (entry_offset cluster) (merge (rd32 d (entry_offset cluster)) value)))
          (λ _. set_copies rounds (f + 1) cluster value))

  unfoldable pub fat_set_entry : (cluster value : ℕ) → Io sectors (Unit {0})
  fat_set_entry = set_copies fs.num_fats 0

  -- The loop from cluster `c` on; 0 if there is no free one, or it cannot be taken.
  unfoldable pub alloc_from : (rounds c : ℕ) → Io sectors ℕ
  alloc_from zero c = answer sectors 0
  alloc_from (suc rounds) c = and_then sectors (fat_next_cluster c) (λ entry s.
      let taken : Outcome (Disk sectors) ℕ = elim (fat_set_entry c end_of_chain s) [
        | done _ s' ↦ done c s'
        | failed e s' ↦ done 0 s'
        | spent ↦ spent
      ] in
      let rest = alloc_from rounds (c + 1) s in if entry == 0 then taken else rest)

  unfoldable pub fat_alloc_cluster : Io sectors ℕ
  fat_alloc_cluster = alloc_from (fs.fat_sectors * 128 % 2 ^ 32 - 2) 2

  -- A table with a loop in a chain has no end, so the rounds may run out.
  unfoldable pub fat_free_chain : (rounds cur : ℕ) → Io sectors (Unit {0})
  fat_free_chain zero cur s = if leb 2 cur && ltb cur end_of_chain then spent else done tt s
  fat_free_chain (suc rounds) cur s =
      let rest =
        and_then sectors (fat_next_cluster cur)
          (λ next. and_then sectors (fat_set_entry cur 0) (λ _. fat_free_chain rounds next)) s in
      if leb 2 cur && ltb cur end_of_chain then rest else done tt s

  -- The cluster that is `skip` links on, 0 if the chain ends before.
  unfoldable pub walk_chain : (first skip : ℕ) → Io sectors ℕ
  walk_chain first zero = answer sectors first
  walk_chain first (suc skip) =
      and_then sectors (fat_next_cluster first)
        (λ next s. let rest = walk_chain next skip s in if ends_chain next then done 0 s else rest)
