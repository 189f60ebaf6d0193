-- ===== src/Block/Device.antt =====
-- Block devices, VinixOS/kernel/src/kernel/block/block.c: the dispatch to a driver. The drivers are
-- function pointers of a device, so they are a parameter here.
use vinix_os.Base.{ℕ, ◌≡◌, Bool, List, ◌⊎◌, ◌≢◌, if◌then◌else◌}
use vinix_os.Base.Result.{Result, ok, err, fail, perm}

-- The 512 bytes of a sector.
abbrev pub Sector : Type 0
Sector = List ℕ

-- What the block layer relies on of the drivers. A device is a number, 0 the null pointer.
-- `has_read` and `has_write` say whether the device has the operation.
pub record Drivers : Type 1 where
  pub State : Type 0
  pub has_read : ℕ → Bool
  pub has_write : ℕ → Bool
  pub read_sectors : State → ℕ → ℕ → Result Sector
  pub write_sectors : State → ℕ → ℕ → Sector → Result (Unit {0}) × State
  -- What the medium holds at a sector of a device.
  pub content : State → ℕ → ℕ → Sector
  -- A read that succeeds gives what the medium holds.
  pub reads :
      (s : State) (bdev lba : ℕ) {d : Sector}
      → read_sectors s bdev lba ≡ ok d
      → d ≡ content s bdev lba
  -- A write that succeeds is what the medium then holds.
  pub writes :
      (s : State) (bdev lba : ℕ) (d : Sector)
      → (write_sectors s bdev lba d).0 ≡ ok tt
      → content (write_sectors s bdev lba d).1 bdev lba ≡ d
  -- A write leaves all other sectors alone, whether it succeeds or not.
  pub writes_other :
      (s : State) (bdev lba : ℕ) (d : Sector) (bdev' lba' : ℕ)
      → (bdev ≢ bdev') ⊎ (lba ≢ lba')
      → content (write_sectors s bdev lba d).1 bdev' lba' ≡ content s bdev' lba'

module _ (drivers : Drivers) where
  open drivers use {State, has_read, has_write, read_sectors, write_sectors}

  -- `block_read` and `block_write` of one sector
  unfoldable pub block_read : ℕ → ℕ → State → Result Sector
  block_read bdev lba s = if has_read bdev then read_sectors s bdev lba else err fail

  unfoldable pub block_write : ℕ → ℕ → Sector → State → Result (Unit {0}) × State
  block_write bdev lba d s = if has_write bdev then write_sectors s bdev lba d else (err perm, s)
