-- ===== src/Fs/Fat/File.antt =====
-- The files of fat32.c: the table of files, and the operations that `fat32_get_operations` gives to the
-- virtual file system.
use vinix_os.Base.{
  ℕ, zero, suc, ◌+◌, ◌-◌, ◌/◌, ◌%◌, ◌^◌, Bool, true, false, ◌&&◌, Option, none, some, List, [], ◌∷◌,
  ◌++◌, ◌==◌, ltb, leb, if◌then◌else◌, drop, take, length, get_elem?, get_or, set,
}
use vinix_os.Base.Result.{fail, noent, badf, mfile, perm}
use vinix_os.Fs.Fat.Bytes.{wr16, wr32}
use vinix_os.Fs.Fat.Name.{raw_to_name}
use vinix_os.Fs.Fat.Volume.{
  sector_size, max_files, Layout, FatFile, Sectors, done, failed, spent, Io, answer, and_then,
  refuse, fat_read_sector, write_back, cluster_to_sector,
}
use vinix_os.Fs.Fat.Chain.{ends_chain, fat_next_cluster, fat_free_chain, walk_chain}
use vinix_os.Fs.Fat.Dir.{Resolved, resolve_path}

-- The test for the entry of a file in the table.
abbrev pub is_entry : (lba off : ℕ) → FatFile → Bool
is_entry lba off f = f.in_use && (f.dir_entry_lba == lba) && (f.dir_entry_offset == off)

-- The first file for an entry, from index `i` on.
unfoldable pub find_file : (i lba off : ℕ) → List FatFile → Option ℕ
find_file i lba off [] = none
find_file i lba off (f ∷ files) =
    if is_entry lba off f then some i else find_file (i + 1) lba off files

abbrev pub no_file : FatFile
no_file = record {
  in_use = false;
  name = [];
  raw_name = [];
  nt_res = 0;
  first_cluster = 0;
  size = 0;
  dir_entry_lba = 0;
  dir_entry_offset = 0;
}

abbrev pub change : ℕ → (FatFile → FatFile) → List FatFile → List FatFile
change i update files = set files i (update (get_or files i no_file))

unfoldable pub new_file : Resolved → FatFile
new_file r = record {
  in_use = true;
  name = raw_to_name r.raw_name r.nt_res;
  raw_name = r.raw_name;
  nt_res = r.nt_res;
  first_cluster = r.cluster;
  size = r.size;
  dir_entry_lba = r.entry_lba;
  dir_entry_offset = r.entry_off;
}

module _ (sectors : Sectors) where
  unfoldable pub cache_file : Resolved → Io sectors ℕ
  cache_file r s = elim (find_file 0 r.entry_lba r.entry_off s.files) [
    | some i ↦ done i (record s {
      files = change i (λ f. record f { first_cluster = r.cluster; size = r.size }) s.files;
    })
    | none ↦
        if leb max_files (length s.files)
        then failed mfile s
        else done (length s.files) (record s { files = s.files ++ new_file r ∷ [] })
  ]

  unfoldable pub fat32_get_file_count : Io sectors ℕ
  fat32_get_file_count s = done (length s.files) s

  unfoldable pub fat32_get_file_info : ℕ → Io sectors (List ℕ × ℕ)
  fat32_get_file_info index s = elim (get_elem? s.files index) [
    | none ↦ failed badf s
    | some f ↦ done (f.name, f.size) s
  ]

  module _ (fs : Layout) where
    unfoldable pub fat32_lookup : (limit : ℕ) → List ℕ → Io sectors ℕ
    fat32_lookup limit path =
        and_then sectors (resolve_path sectors fs limit path)
          (λ r. if r.is_dir then refuse sectors noent else cache_file r)

    -- The loop over the sectors of a cluster, from `sector` on: the bytes read, `remaining` at most.
    unfoldable pub read_sectors : (rounds sector intra_sec remaining : ℕ) → Io sectors (List ℕ)
    read_sectors zero sector intra_sec remaining s = done [] s
    read_sectors (suc rounds) sector intra_sec remaining s =
        let chunk =
          if ltb remaining (sector_size - intra_sec) then remaining else sector_size - intra_sec in
        let more =
          and_then sectors (fat_read_sector sectors sector)
            (λ d.
              and_then sectors (read_sectors rounds ((sector + 1) % 2 ^ 32) 0 (remaining - chunk))
                (λ rest. answer sectors (take chunk (drop intra_sec d) ++ rest)))
            s in
        if remaining == 0 then done [] s else more

    -- The loop over the clusters. Each one but the first gives a whole cluster, so `remaining` rounds
    -- are enough.
    unfoldable pub read_clusters :
        (rounds cluster intra_cluster remaining : ℕ) → Io sectors (List ℕ)
    read_clusters zero cluster intra_cluster remaining s =
        if remaining == 0 then done [] s else spent
    read_clusters (suc rounds) cluster intra_cluster remaining s =
        let skip = intra_cluster / sector_size in
        let more =
          and_then sectors
            (read_sectors (fs.sectors_per_cluster - skip)
              ((cluster_to_sector fs cluster + skip) % 2 ^ 32) (intra_cluster % sector_size)
              remaining)
            (λ bytes s1.
              let next =
                and_then sectors (fat_next_cluster sectors fs cluster)
                  (λ c s2.
                    let rest =
                      and_then sectors (read_clusters rounds c 0 (remaining - length bytes))
                        (λ tail. answer sectors (bytes ++ tail)) s2 in
                    if ends_chain c then done bytes s2 else rest)
                  s1 in
              if remaining - length bytes == 0 then done bytes s1 else next)
            s in
        if remaining == 0 then done [] s else more

    unfoldable pub fat32_read : (file_index offset len : ℕ) → Io sectors (List ℕ)
    fat32_read file_index offset len s = elim (get_elem? s.files file_index) [
      | none ↦ failed badf s
      | some f ↦
          let remaining = if ltb len (f.size - offset) then len else f.size - offset in
          let body =
            and_then sectors (walk_chain sectors fs f.first_cluster (offset / fs.bytes_per_cluster))
              (λ cluster.
                if cluster == 0
                then refuse sectors fail
                else read_clusters (suc remaining) cluster (offset % fs.bytes_per_cluster)
                    remaining)
              s in
          if leb f.size offset then done [] s else body
    ]

  -- The file's first cluster and size go to its entry on disk.
  unfoldable pub update_dir_entry : FatFile → Io sectors (Unit {0})
  update_dir_entry f = and_then sectors (fat_read_sector sectors f.dir_entry_lba) (λ d.
      let at = f.dir_entry_offset in
      let high = wr16 d (at + 20) (f.first_cluster / 2 ^ 16) in
      let low = wr16 high (at + 26) (f.first_cluster % 2 ^ 16) in
      write_back sectors f.dir_entry_lba (wr32 low (at + 28) f.size))

  module _ (fs : Layout) where
    -- `fat32_truncate` to size 0, with rounds for the chain of clusters.
    unfoldable pub fat32_truncate : (rounds file_index : ℕ) → Io sectors (Unit {0})
    fat32_truncate rounds file_index s = elim (get_elem? s.files file_index) [
      | none ↦ failed badf s
      | some f ↦
          let emptied : Io sectors (Unit {0}) = λ s1.
            update_dir_entry (record f { first_cluster = 0; size = 0 })
              (record s1 {
                files = change file_index (λ g. record g { first_cluster = 0; size = 0 }) s1.files;
              }) in
          if f.first_cluster == 0
          then emptied s
          else and_then sectors
              (λ s0. elim (fat_free_chain sectors fs rounds f.first_cluster s0) [
                | done u s1 ↦ done u s1
                | failed e s1 ↦ failed fail s1
                | spent ↦ spent
              ])
              (λ _. emptied) s
    ]

    unfoldable pub fat32_unlink : (limit rounds : ℕ) → List ℕ → Io sectors (Unit {0})
    fat32_unlink limit rounds path = and_then sectors (resolve_path sectors fs limit path) (λ r.
        let free : Io sectors (Unit {0}) =
          if leb 2 r.cluster
          then fat_free_chain sectors fs rounds r.cluster
          else answer sectors tt in
        let erase : Io sectors (Unit {0}) =
          and_then sectors (fat_read_sector sectors r.entry_lba)
            (λ d. write_back sectors r.entry_lba (set d r.entry_off 0xE5)) in
        let forget : Io sectors (Unit {0}) = λ s.
          elim (find_file 0 r.entry_lba r.entry_off s.files) [
            | none ↦ done tt s
            | some i ↦
                done tt (record s { files = change i (λ f. record f { in_use = false }) s.files })
          ] in
        if r.is_dir
        then refuse sectors perm
        else and_then sectors free (λ _. and_then sectors erase (λ _. forget)))
