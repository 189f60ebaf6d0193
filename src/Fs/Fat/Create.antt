-- ===== src/Fs/Fat/Create.antt =====
-- Creating and renaming files in fat32.c.
use vinix_os.Base.{
  ℕ, zero, suc, ◌+◌, ◌%◌, ◌^◌, Bool, false, ◌||◌, ◌&&◌, Option, none, some, List, [], ◌∷◌, ◌++◌,
  ◌==◌, ltb, leb, if◌then◌else◌, length, set, replicate,
}
use vinix_os.Base.Result.{fail, perm}
use vinix_os.Fs.Fat.Bytes.{byte_at}
use vinix_os.Fs.Fat.Name.{raw_to_name, name_to_raw, detect_nt_res}
use vinix_os.Fs.Fat.Volume.{
  sector_size, entry_size, end_of_chain, max_files, Layout, FatFile, Sectors, Disk, Outcome, done,
  failed, spent, Io, answer, and_then, fat_read_sector, write_back, cluster_to_sector,
}
use vinix_os.Fs.Fat.Chain.{fat_next_cluster}
use vinix_os.Fs.Fat.Dir.{Resolved, resolve_path}
use vinix_os.Fs.Fat.File.{find_file, change, new_file}

module _ (sectors : Sectors) where
  -- The test of the loop over the entries in `fat32_create`: an entry that is free.
  abbrev pub is_free_entry : ℕ → Bool
  is_free_entry first = (first == 0) || (first == 0xE5)

  -- The offset of the first free entry of a sector, from `off` on.
  unfoldable pub free_entry : (rounds off : ℕ) → List ℕ → Option ℕ
  free_entry zero off d = none
  free_entry (suc rounds) off d =
      let rest = free_entry rounds (off + entry_size) d in
      if is_free_entry (byte_at d off) then some off else rest

  -- The bytes of a sector with others from `off` on.
  abbrev pub put_from : ℕ → List ℕ → List ℕ → List ℕ
  put_from off [] d = d
  put_from off (b ∷ bs) d = put_from (off + 1) bs (set d off b)

  -- The new entry at `off`: zeros, the name, ATTR_ARCHIVE and the flags for small letters; the mark of
  -- the end of the directory moves on inside the sector.
  unfoldable pub write_entry : (off : ℕ) → (raw : List ℕ) → (nt_res : ℕ) → List ℕ → List ℕ
  write_entry off raw nt_res d =
      let written = put_from off (raw ++ 0x20 ∷ nt_res ∷ replicate 19 0) d in
      if (byte_at d off == 0) && ltb (off + entry_size) sector_size
      then set written (off + entry_size) 0
      else written

  module _ (fs : Layout) where
    abbrev pub created : (raw : List ℕ) (nt_res lba off : ℕ) → FatFile
    created raw nt_res lba off = new_file (record {
      cluster = 0;
      size = 0;
      is_dir = false;
      entry_lba = lba;
      entry_off = off;
      raw_name = raw;
      nt_res = nt_res;
    })

    -- The loop over the sectors of a cluster; the answer is the index of the new file, if there is a
    -- free entry.
    unfoldable pub create_in_cluster :
        (rounds lba : ℕ) → (raw : List ℕ) → (nt_res : ℕ) → Io sectors (Option ℕ)
    create_in_cluster zero lba raw nt_res s = done none s
    create_in_cluster (suc rounds) lba raw nt_res s =
        and_then sectors (fat_read_sector sectors lba)
          (λ d. elim (free_entry 16 0 d) [
            | none ↦ create_in_cluster rounds ((lba + 1) % 2 ^ 32) raw nt_res
            | some off ↦
                and_then sectors (write_back sectors lba (write_entry off raw nt_res d)) (λ _ s1.
                  done (some (length s1.files))
                    (record s1 { files = s1.files ++ created raw nt_res lba off ∷ [] }))
          ])
          s

    -- The loop over the clusters of the root directory.
    unfoldable pub create_in_chain :
        (rounds cluster : ℕ) → (raw : List ℕ) → (nt_res : ℕ) → Io sectors ℕ
    create_in_chain zero cluster raw nt_res s =
        if leb 2 cluster && ltb cluster end_of_chain then spent else failed fail s
    create_in_chain (suc rounds) cluster raw nt_res s =
        let rest =
          and_then sectors
            (create_in_cluster fs.sectors_per_cluster (cluster_to_sector fs cluster) raw nt_res)
            (λ made. elim made [
              | some i ↦ answer sectors i
              | none ↦
                  and_then sectors (fat_next_cluster sectors fs cluster)
                    (λ next. create_in_chain rounds next raw nt_res)
            ])
            s in
        if leb 2 cluster && ltb cluster end_of_chain then rest else failed fail s

    unfoldable pub fat32_create : (limit : ℕ) → List ℕ → Io sectors ℕ
    fat32_create limit name s =
        if leb max_files (length s.files)
        then failed fail s
        else create_in_chain limit fs.root_cluster (name_to_raw name) (detect_nt_res name) s

    -- The name and the flags of an entry are overwritten, on disk and in the table.
    unfoldable pub rename_entry : (raw : List ℕ) (nt_res : ℕ) → Resolved → Io sectors (Unit {0})
    rename_entry raw nt_res r = and_then sectors (fat_read_sector sectors r.entry_lba) (λ d.
        and_then sectors
          (write_back sectors r.entry_lba
            (set (put_from r.entry_off raw d) (r.entry_off + 12) nt_res))
          (λ _ s. elim (find_file 0 r.entry_lba r.entry_off s.files) [
            | none ↦ done tt s
            | some i ↦ done tt (record s {
              files =
                  change i
                    (λ f. record f {
                      raw_name = raw;
                      nt_res = nt_res;
                      name = raw_to_name raw nt_res;
                    })
                    s.files;
            })
          ]))

    unfoldable pub fat32_rename : (limit : ℕ) → (old_path new_path : List ℕ) → Io sectors (Unit {0})
    fat32_rename limit old_path new_path =
        and_then sectors (resolve_path sectors fs limit old_path) (λ src s.
          let free_name : Outcome (Disk sectors) (Unit {0}) =
            elim (resolve_path sectors fs limit new_path s) [
              | done _ s1 ↦ failed perm s1
              | failed e s1 ↦ rename_entry (name_to_raw new_path) (detect_nt_res new_path) src s1
              | spent ↦ spent
            ] in
          if src.is_dir then failed perm s else free_name)
