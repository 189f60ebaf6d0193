-- ===== src/Fs/Fat/Dir.antt =====
-- The directories of fat32.c: the search for a name in a directory, and along a path.
use vinix_os.Base.{
  ℕ, zero, suc, ◌+◌, ◌*◌, ◌/◌, ◌%◌, ◌^◌, Bool, true, ◌||◌, ◌&&◌, List, [], ◌∷◌, ◌==◌, ltb, leb,
  if◌then◌else◌, drop, take, length,
}
use vinix_os.Base.Result.{noent}
use vinix_os.Fs.Vfs.{slash, skip_slashes}
use vinix_os.Fs.Fat.Bytes.{byte_at, rd16, rd32}
use vinix_os.Fs.Fat.Name.{raw_name_eq, component_raw}
use vinix_os.Fs.Fat.Volume.{
  end_of_chain, entry_size, Layout, Sectors, done, failed, spent, Io, answer, and_then, refuse,
  fat_read_sector, cluster_to_sector,
}
use vinix_os.Fs.Fat.Chain.{fat_next_cluster}

-- `struct fat32_resolve`
pub record Resolved : Type 0 where
  pub cluster : ℕ
  pub size : ℕ
  pub is_dir : Bool
  pub entry_lba : ℕ
  pub entry_off : ℕ
  pub raw_name : List ℕ
  pub nt_res : ℕ

-- ATTR_VOLUME_ID and ATTR_DIRECTORY
abbrev pub is_volume_id : ℕ → Bool
is_volume_id attr = attr / 2 ^ 3 % 2 == 1

abbrev pub is_directory : ℕ → Bool
is_directory attr = attr / 2 ^ 4 % 2 == 1

-- An entry that the search passes over: DIR_ENTRY_DELETED, ATTR_LONG_NAME or ATTR_VOLUME_ID.
abbrev pub skipped : (first attr : ℕ) → Bool
skipped first attr = (first == 0xE5) || (attr == 0x0F) || is_volume_id attr

-- What the bytes at `off` of a directory sector say.
unfoldable pub decode : (lba off : ℕ) → List ℕ → Resolved
decode lba off d = record {
  cluster = rd16 d (off + 20) * 2 ^ 16 + rd16 d (off + 26);
  size = rd32 d (off + 28);
  is_dir = is_directory (byte_at d (off + 11));
  entry_lba = lba;
  entry_off = off;
  raw_name = take 11 (drop off d);
  nt_res = byte_at d (off + 12);
}

-- How the search in a sector ends: at the entry, at the end of the directory, or neither.
pub data Scan : Type 0 where
  hit : Resolved → Scan
  stop : Scan
  onward : Scan

-- The loop over the entries of a sector, from `off` on.
unfoldable pub scan_sector : (rounds : ℕ) → List ℕ → (lba off : ℕ) → List ℕ → Scan
scan_sector zero query lba off d = onward
scan_sector (suc rounds) query lba off d =
    let first = byte_at d off in
    let rest = scan_sector rounds query lba (off + entry_size) d in
    if first == 0
    then stop
    else if skipped first (byte_at d (off + 11))
    then rest
    else if raw_name_eq (take 11 (drop off d)) query
    then hit (decode lba off d)
    else rest

module _ (sectors : Sectors) (fs : Layout) where
  -- The loop over the sectors of a cluster.
  unfoldable pub scan_cluster : (rounds : ℕ) → List ℕ → (lba : ℕ) → Io sectors Scan
  scan_cluster zero query lba = answer sectors onward
  scan_cluster (suc rounds) query lba = and_then sectors (fat_read_sector sectors lba) (λ d.
      elim (scan_sector 16 query lba 0 d) [
        | hit r ↦ answer sectors (hit r)
        | stop ↦ answer sectors stop
        | onward ↦ scan_cluster rounds query ((lba + 1) % 2 ^ 32)
      ])

  -- The loop over the clusters of the directory.
  unfoldable pub dir_lookup_component : (rounds cluster : ℕ) → List ℕ → Io sectors Resolved
  dir_lookup_component zero cluster query s =
      if leb 2 cluster && ltb cluster end_of_chain then spent else failed noent s
  dir_lookup_component (suc rounds) cluster query s =
      let rest =
        and_then sectors (scan_cluster fs.sectors_per_cluster query (cluster_to_sector fs cluster))
          (λ found. elim found [
            | hit r ↦ answer sectors r
            | stop ↦ refuse sectors noent
            | onward ↦
                and_then sectors (fat_next_cluster sectors fs cluster)
                  (λ next. dir_lookup_component rounds next query)
          ])
          s in
      if leb 2 cluster && ltb cluster end_of_chain then rest else failed noent s

unfoldable pub first_component : List ℕ → List ℕ
first_component [] = []
first_component (c ∷ cs) = if c == slash then [] else c ∷ first_component cs

unfoldable pub after_component : List ℕ → List ℕ
after_component [] = []
after_component (c ∷ cs) = if c == slash then skip_slashes (c ∷ cs) else after_component cs

module _ (sectors : Sectors) (fs : Layout) where
  -- The loop of `resolve_path`, with what has been reached. Each round takes a component, for which
  -- the search may go through `limit` clusters.
  unfoldable pub walk_path : (limit rounds : ℕ) → List ℕ → Resolved → Io sectors Resolved
  walk_path limit rounds [] r s = done r s
  walk_path limit zero (c ∷ cs) r s = spent
  walk_path limit (suc rounds) (c ∷ cs) r s =
      let rest =
        and_then sectors
          (dir_lookup_component sectors fs limit r.cluster
            (component_raw (first_component (c ∷ cs))))
          (λ next. walk_path limit rounds (after_component (c ∷ cs)) next) s in
      if r.is_dir then rest else failed noent s

  abbrev pub root_dir : Resolved
  root_dir = record {
    cluster = fs.root_cluster;
    size = 0;
    is_dir = true;
    entry_lba = 0;
    entry_off = 0;
    raw_name = [];
    nt_res = 0;
  }

  -- A path has no more components than characters.
  unfoldable pub resolve_path : (limit : ℕ) → List ℕ → Io sectors Resolved
  resolve_path limit path = walk_path limit (length path) (skip_slashes path) root_dir
