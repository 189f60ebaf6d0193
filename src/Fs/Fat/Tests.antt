-- ===== src/Fs/Fat/Tests.antt =====
-- The FAT32 driver on a small volume in memory: runs of the code, and the theorems applied.
use vinix_os.Base.{
  ℕ, zero, suc, ◌≡◌, ◌≢◌, refl, true, false, some, List, [], ◌∷◌, ◌++◌, ◌==◌, if◌then◌else◌,
  replicate, get_elem?, arith, length, inl, inr, Bool-cases,
}
use vinix_os.Fs.Fat.Name.{to_upper, to_lower, shown, dot, name_to_raw, raw_to_name, component_raw}
use vinix_os.Fs.Fat.Name.RoundTrip.{pad, name_to_raw-raw_to_name, component_raw-ne-name_to_raw}
use vinix_os.Fs.Fat.Bytes.{rd32}
use vinix_os.Fs.Fat.Volume.{
  Layout, FatFile, Sectors, Disk, done, fat_read_sector, cluster_to_sector,
}
use vinix_os.Block.Cache.{Buffer, empty_buffer, find_cached, bcache_init}
use vinix_os.Block.Cache.View.{view}
use vinix_os.Block.Cache.Sample.{Media, ram}
use vinix_os.Fs.Fat.Table.{Merged}
use vinix_os.Fs.Fat.Cached.{cached_sectors, shows, IsReady, fat_set_entry-Merged}
use vinix_os.Fs.Fat.Chain.{fat_set_entry, fat_next_cluster, walk_chain}
use vinix_os.Fs.Fat.File.{fat32_read, read_clusters, read_sectors}
use vinix_os.Fs.Fat.Bound.{AtMost, fat32_read-AtMost}

abbrev in_memory : Sectors
in_memory = record {
  State = ℕ → List ℕ;
  get = λ lba s. (some (s lba), s);
  put = λ lba bytes s i. if lba == i then bytes else s i;
}

-- One sector for each cluster, cluster 2 in sector 10, the table in sector 1: cluster 2 leads to
-- cluster 3, where the chain ends.
abbrev small_layout : Layout
small_layout = record {
  part_lba = 0;
  fat_lba = 1;
  data_lba = 10;
  sectors_per_cluster = 1;
  bytes_per_cluster = 512;
  root_cluster = 5;
  fat_sectors = 1;
  num_fats = 1;
  fsinfo_lba = 0;
}

abbrev table : List ℕ
table = replicate 8 0 ++ 3 ∷ 0 ∷ 0 ∷ 0 ∷ 0xF8 ∷ 0xFF ∷ 0xFF ∷ 0x0F ∷ replicate 496 0

abbrev small_file : FatFile
small_file = record {
  in_use = true;
  name = 65 ∷ [];
  raw_name = [];
  nt_res = 0;
  first_cluster = 2;
  size = 514;
  dir_entry_lba = 13;
  dir_entry_offset = 0;
}

abbrev small_disk : Disk in_memory
small_disk = record {
  state =
      λ i. if i == 1 then table else if i == 10 then replicate 512 7 else 8 ∷ 9 ∷ replicate 510 0;
  files = small_file ∷ [];
}

-- Five bytes from offset 511 on: the file has three, in two clusters.
read_across :
    fat32_read in_memory small_layout 0 511 5 small_disk ≡ done (7 ∷ 8 ∷ 9 ∷ []) small_disk
unfolding fat32_read read_clusters read_sectors walk_chain fat_next_cluster fat_read_sector
    cluster_to_sector rd32
read_across = refl

fat32_read-AtMost_example :
    AtMost in_memory 3 (fat32_read in_memory small_layout 0 511 5 small_disk)
fat32_read-AtMost_example = fat32_read-AtMost in_memory small_layout 0 511 5 small_disk refl

-- "hello.txt" for "HELLO   TXT" with both flags for small letters
hello_shown :
    raw_to_name (72 ∷ 69 ∷ 76 ∷ 76 ∷ 79 ∷ 32 ∷ 32 ∷ 32 ∷ 84 ∷ 88 ∷ 84 ∷ []) 24
    ≡ 104 ∷ 101 ∷ 108 ∷ 108 ∷ 111 ∷ 46 ∷ 116 ∷ 120 ∷ 116 ∷ []
unfolding raw_to_name shown to_lower
hello_shown = refl

name_to_raw-raw_to_name_example :
    name_to_raw (raw_to_name (pad 8 (72 ∷ 73 ∷ []) ++ pad 3 (67 ∷ [])) 24)
    ≡ pad 8 (72 ∷ 73 ∷ []) ++ pad 3 (67 ∷ [])
name_to_raw-raw_to_name_example =
    name_to_raw-raw_to_name (72 ∷ 73 ∷ []) (67 ∷ []) 24 refl refl (omega arith) (omega arith)

-- "AAAAAAAAAAAA.C"
component_raw-ne-name_to_raw_example :
    component_raw (replicate 12 65 ++ dot ∷ 67 ∷ [])
    ≢ name_to_raw (replicate 12 65 ++ dot ∷ 67 ∷ [])
unfolding to_upper
component_raw-ne-name_to_raw_example =
    component_raw-ne-name_to_raw (replicate 12 65) 67 [] refl (omega arith) (λ e. ground arith)

-- Device 1 with the table in sector 1 and zeros elsewhere, behind the cache as it is at boot.
abbrev table_media : Media
table_media bdev lba = if lba == 1 then table else replicate 512 0

abbrev at_boot : Disk (cached_sectors ram 1)
at_boot = record { state = (bcache_init, table_media); files = [] }

empty_slot :
    (n i : ℕ) (b : Buffer) → get_elem? (replicate n empty_buffer) i ≡ some b → b.valid ≡ false
empty_slot zero i b e = absurd (cc e)
empty_slot (suc n) zero b e = ground (arith, e)
empty_slot (suc n) (suc i) b e = empty_slot n i b e

length-table_media : (lba : ℕ) → length (table_media 1 lba) ≡ 512
length-table_media lba = elim (Bool-cases (lba == 1)) [ inl e ↦ rw e refl | inr ne ↦ rw ne refl ]

at_boot-IsReady : IsReady ram 1 at_boot.state
unfolding bcache_init view find_cached
at_boot-IsReady = record {
  some_slot = omega arith;
  coherent = record {
    unique = λ i j a b at at' same. absurd (cc (same.valid, empty_slot 64 i a at));
    clean = λ i b at valid clean. absurd (cc (valid, empty_slot 64 i b at));
  };
  full = length-table_media;
}

-- Cluster 3 gets the next cluster 4, in two copies of the table.
fat_set_entry-Merged_example :
    Merged
      (cached_sectors ram 1)
      (shows ram 1)
      (IsReady ram 1)
      (record small_layout { num_fats = 2 })
      3
      4
      2
      0
      at_boot
      (fat_set_entry (cached_sectors ram 1) (record small_layout { num_fats = 2 }) 3 4 at_boot)
fat_set_entry-Merged_example =
    fat_set_entry-Merged ram 1 (record small_layout { num_fats = 2 }) 3 4 at_boot at_boot-IsReady
      (λ g h lt lt'. omega arith)
