-- ===== src/Fs/Fat/Volume.antt =====
-- The state of a mounted volume of fat32.c, the calls of the sector cache, and the layout of the volume.
use vinix_os.Base.{ℕ, ◌+◌, ◌-◌, ◌*◌, ◌%◌, ◌^◌, Bool, Option, none, some, List, ◌==◌, if◌then◌else◌}
use vinix_os.Base.Result.{Errno, fail}
use vinix_os.Fs.Fat.Bytes.{byte_at, rd16, rd32}

-- FAT32_EOC
abbrev pub end_of_chain : ℕ
end_of_chain = 0x0FFFFFF8

abbrev pub sector_size : ℕ
sector_size = 512

abbrev pub entry_size : ℕ
entry_size = 32

abbrev pub max_files : ℕ
max_files = 32

-- The static structure `fs`.
pub record Layout : Type 0 where
  pub part_lba : ℕ
  pub fat_lba : ℕ
  pub data_lba : ℕ
  pub sectors_per_cluster : ℕ
  pub bytes_per_cluster : ℕ
  pub root_cluster : ℕ
  pub fat_sectors : ℕ
  pub num_fats : ℕ
  pub fsinfo_lba : ℕ

-- `struct fat32_file`
pub record FatFile : Type 0 where
  pub in_use : Bool
  pub name : List ℕ
  pub raw_name : List ℕ
  pub nt_res : ℕ
  pub first_cluster : ℕ
  pub size : ℕ
  pub dir_entry_lba : ℕ
  pub dir_entry_offset : ℕ

-- What the driver uses of the sector cache, for its device: `get` is `bread`, with the bytes of the
-- buffer, and `put` writes bytes into the buffer that was read last for the sector and marks it dirty.
-- Fs.Fat.Cached fills it by the model of buffer_cache.c.
pub record Sectors : Type 1 where
  pub State : Type 0
  pub get : ℕ → State → Option (List ℕ) × State
  pub put : ℕ → List ℕ → State → State

-- The sectors, and the first `file_count` entries of `file_table`.
pub record Disk (sectors : Sectors) : Type 0 where
  pub state : Sectors.State sectors
  pub files : List FatFile

-- How a call ends: with an answer, with an error, or out of the rounds that its loops were given.
pub data Outcome {ℓ} (S : Type 0) (A : Type ℓ) : Type ℓ where
  done : A → S → Outcome S A
  failed : Errno → S → Outcome S A
  spent : Outcome S A

module _ (sectors : Sectors) where
  abbrev pub Io : Type 0 → Type 0
  Io A = Disk sectors → Outcome (Disk sectors) A

  abbrev pub answer : {A : Type 0} → A → Io A
  answer a s = done a s

  abbrev pub and_then : {A B : Type 0} → Io A → (A → Io B) → Io B
  and_then m k s = elim (m s) [ done a s' ↦ k a s' | failed e s' ↦ failed e s' | spent ↦ spent ]

  abbrev pub refuse : {A : Type 0} → Errno → Io A
  refuse e s = failed e s

  -- `bread`, and E_FAIL for the null pointer
  unfoldable pub fat_read_sector : ℕ → Io (List ℕ)
  fat_read_sector lba s =
      let (d, st) = sectors.get lba s.state in
      elim d [
        | none ↦ failed fail (record s { state = st })
        | some bytes ↦ done bytes (record s { state = st })
      ]

  unfoldable pub write_back : ℕ → List ℕ → Io (Unit {0})
  write_back lba bytes s = done tt (record s { state = sectors.put lba bytes s.state })

  -- `parse_bpb`, with the address of the partition
  unfoldable pub parse_bpb : ℕ → Io Layout
  parse_bpb part_lba = and_then (fat_read_sector part_lba) (λ d.
      if rd16 d 510 == 0xAA55
      then (if rd16 d 11 == sector_size
          then (let fat_lba = (part_lba + rd16 d 14) % 2 ^ 32 in
              answer (record {
                part_lba = part_lba;
                fat_lba = fat_lba;
                data_lba = (fat_lba + byte_at d 16 * rd32 d 36) % 2 ^ 32;
                sectors_per_cluster = byte_at d 13;
                bytes_per_cluster = byte_at d 13 * rd16 d 11;
                root_cluster = rd32 d 44;
                fat_sectors = rd32 d 36;
                num_fats = byte_at d 16;
                fsinfo_lba = (part_lba + rd16 d 48) % 2 ^ 32;
              }))
          else refuse fail)
      else refuse fail)

unfoldable pub cluster_to_sector : Layout → ℕ → ℕ
cluster_to_sector fs cluster =
    (fs.data_lba + (cluster + 2 ^ 32 - 2) * fs.sectors_per_cluster) % 2 ^ 32
