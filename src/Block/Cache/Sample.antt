-- ===== src/Block/Cache/Sample.antt =====
-- Block devices in memory, for the runs of the models.
use vinix_os.Base.{ℕ, ◌≡◌, ◌≢◌, true, not, ◌&&◌, ◌⊎◌, arith, ◌==◌, if◌then◌else◌, ==_refl}
use vinix_os.Base.Result.{ok}
use vinix_os.Block.Device.{Sector, Drivers}

-- A disk of sectors on which every operation succeeds; device 2 cannot be written.
abbrev pub Media : Type 0
Media = ℕ → ℕ → Sector

abbrev pub put : Media → ℕ → ℕ → Sector → Media
put s bdev lba d bdev' lba' = if (bdev == bdev') && (lba == lba') then d else s bdev' lba'

pub put_here : (s : Media) (bdev lba : ℕ) (d : Sector) → put s bdev lba d bdev lba ≡ d
put_here s bdev lba d = ground (arith, ==_refl bdev, ==_refl lba)

pub put_there :
    (s : Media) (bdev lba : ℕ) (d : Sector) (bdev' lba' : ℕ)
    → (bdev ≢ bdev') ⊎ (lba ≢ lba')
    → put s bdev lba d bdev' lba' ≡ s bdev' lba'
put_there s bdev lba d bdev' lba' h = ground arith

pub read_back : (a b : Sector) → ok a ≡ ok b → b ≡ a
read_back a b h = ground arith

abbrev pub ram : Drivers
ram = record {
  State = Media;
  has_read = λ bdev. true;
  has_write = λ bdev. not (bdev == 2);
  read_sectors = λ s bdev lba. ok (s bdev lba);
  write_sectors = λ s bdev lba d. (ok tt, put s bdev lba d);
  content = λ s. s;
  reads = λ s bdev lba h. read_back _ _ h;
  writes = λ s bdev lba d h. put_here s bdev lba d;
  writes_other = put_there;
}
