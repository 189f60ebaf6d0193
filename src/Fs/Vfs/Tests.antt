-- ===== src/Fs/Vfs/Tests.antt =====
-- The virtual file system over a file system with one file: runs of the code, and the theorems
-- applied.
use vinix_os.Base.{
  ℕ, ◌≤◌, ◌≡◌, refl, true, false, ◌⊎◌, ◌↔◌, none, some, List, [], ◌∷◌, ◌++◌, length, get_elem?,
  drop, take, replicate, arith,
}
use vinix_os.Base.Int.{pos}
use vinix_os.Base.Result.{ok, err, perm}
use vinix_os.Fs.Vfs.{
  Pathname, Fd, closed_fd, Mount, free_mount, Vfs, target, covers, skip_slashes, resolve, is_prefix,
  best_mount, longer, free_fd, mount_at, vfs_init, vfs_mount,
}
use vinix_os.Fs.Vfs.Ops.{
  FileSystems, vfs_open, vfs_read, vfs_write, open_on, find_file, install, start_offset,
}
use vinix_os.Fs.Vfs.Resolve.{resolve-longest}
use vinix_os.Fs.Vfs.Under.{IsUnder}
use vinix_os.Fs.Vfs.Open.{OpenEnds, vfs_open-Opened, vfs_write-read_only}
use vinix_os.Fs.Vfs.Sequence.{vfs_read-twice}

-- Every file system has one file, with the content in the state.
abbrev one_file : FileSystems
one_file = record {
  State = List ℕ;
  has_op = λ op fs. true;
  lookup = λ fs path s. (ok 0, s);
  create = λ fs path s. (ok 0, s);
  truncate = λ fs file s. (ok tt, []);
  read = λ fs file off len s. (ok (take len (drop off s)), s);
  write = λ fs file off bytes s. (ok (length bytes), take off s ++ bytes);
  unlink = λ fs path s. (err perm, s);
  rename = λ fs old new s. (err perm, s);
  listdir = λ fs path room s. (ok [], s);
  get_file_count = λ fs s. (ok 1, s);
  get_file_info = λ fs i s. (none, s);
}

-- "/", "/dev" and "/devices/x"
abbrev root_path : Pathname
root_path = 47 ∷ []

abbrev dev_path : Pathname
dev_path = 47 ∷ 100 ∷ 101 ∷ 118 ∷ []

abbrev devices_path : Pathname
devices_path = 47 ∷ 100 ∷ 101 ∷ 118 ∷ 105 ∷ 99 ∷ 101 ∷ 115 ∷ 47 ∷ 120 ∷ []

abbrev two_mounts : List Mount
two_mounts =
    record { mount_point = root_path; fs_ops = 1; in_use = true }
    ∷ record { mount_point = dev_path; fs_ops = 2; in_use = true }
    ∷ free_mount
    ∷ free_mount
    ∷ []

abbrev empty_table : Vfs
empty_table = record { fds = replicate 16 closed_fd; mounts = two_mounts }

-- File 0 of file system 1 is open for reading only, from its second byte on.
abbrev reading : Fd
reading = record { in_use = true; file_index = 0; offset = 1; flags = 0; fs_ops = 1 }

abbrev one_open : Vfs
one_open = record {
  fds = closed_fd ∷ closed_fd ∷ closed_fd ∷ reading ∷ replicate 12 closed_fd;
  mounts = two_mounts;
}

two_mounts_made : (vfs_mount dev_path 2 (vfs_mount root_path 1 vfs_init).1).1 ≡ empty_table
unfolding vfs_mount mount_at vfs_init
two_mounts_made = refl

-- "/devices/x" is not below "/dev", and "/dev//x" is.
resolve_devices :
    resolve devices_path two_mounts
    ≡ some (1, 100 ∷ 101 ∷ 118 ∷ 105 ∷ 99 ∷ 101 ∷ 115 ∷ 47 ∷ 120 ∷ [])
unfolding resolve best_mount covers is_prefix longer target skip_slashes
resolve_devices = refl

resolve_dev : resolve (dev_path ++ 47 ∷ 47 ∷ 120 ∷ []) two_mounts ≡ some (2, 120 ∷ [])
unfolding resolve best_mount covers is_prefix longer target skip_slashes
resolve_dev = refl

resolve-longest_example :
    ((m : Mount) → (covers devices_path m ≡ true) ↔ IsUnder devices_path m)
    × (((resolve devices_path two_mounts ≡ none)
          × ((i : ℕ) (m : Mount) → get_elem? two_mounts i ≡ some m → covers devices_path m ≡ false))
        ⊎ ((j : ℕ) × (m : Mount) × (get_elem? two_mounts j ≡ some m)
            × (covers devices_path m ≡ true)
            × (resolve devices_path two_mounts
                ≡ target m.fs_ops (skip_slashes (drop (length m.mount_point) devices_path)))
            × ((i : ℕ) (m' : Mount)
                → get_elem? two_mounts i ≡ some m'
                → covers devices_path m' ≡ true
                → length m'.mount_point ≤ length m.mount_point)))
resolve-longest_example = resolve-longest devices_path two_mounts refl

vfs_open-Opened_example :
    OpenEnds one_file one_open 0 (vfs_open one_file devices_path 0 one_open (7 ∷ 8 ∷ []))
vfs_open-Opened_example = vfs_open-Opened one_file devices_path 0 one_open (7 ∷ 8 ∷ []) refl

vfs_write-read_only_example :
    vfs_write one_file
      (pos 3)
      (5 ∷ [])
      (record one_open {
        fds =
            closed_fd
            ∷ closed_fd
            ∷ closed_fd
            ∷ record reading { offset = 0 }
            ∷ replicate 12 closed_fd;
      })
      (7 ∷ 8 ∷ [])
    ≡ (
      err perm,
      record one_open {
        fds =
            closed_fd
            ∷ closed_fd
            ∷ closed_fd
            ∷ record reading { offset = 0 }
            ∷ replicate 12 closed_fd;
      },
      7 ∷ 8 ∷ [],
    )
unfolding vfs_open open_on find_file install start_offset free_fd resolve best_mount covers
    is_prefix longer target skip_slashes
vfs_write-read_only_example =
    vfs_write-read_only one_file devices_path 0 3 (5 ∷ []) empty_table
      (record one_open {
        fds =
            closed_fd
            ∷ closed_fd
            ∷ closed_fd
            ∷ record reading { offset = 0 }
            ∷ replicate 12 closed_fd;
      })
      (7 ∷ 8 ∷ []) (7 ∷ 8 ∷ []) refl refl refl

vfs_read-twice_example :
    (first second : List ℕ) × (v1 : Vfs) × (v2 : Vfs) × (vfs_read one_file
        (pos 3)
        2
        one_open
        (7 ∷ 8 ∷ 9 ∷ 10 ∷ [])
      ≡ (ok first, v1, 7 ∷ 8 ∷ 9 ∷ 10 ∷ []))
    × (vfs_read one_file (pos 3) 5 v1 (7 ∷ 8 ∷ 9 ∷ 10 ∷ []) ≡ (ok second, v2, 7 ∷ 8 ∷ 9 ∷ 10 ∷ []))
    × (vfs_read one_file (pos 3) 7 one_open (7 ∷ 8 ∷ 9 ∷ 10 ∷ [])
        ≡ (ok (first ++ second), v2, 7 ∷ 8 ∷ 9 ∷ 10 ∷ []))
vfs_read-twice_example =
    vfs_read-twice one_file 3 2 5 (7 ∷ 8 ∷ 9 ∷ 10 ∷ []) one_open (7 ∷ 8 ∷ 9 ∷ 10 ∷ []) refl
      (omega arith) refl (λ e. ground arith) refl (λ off len. refl) (omega arith)
