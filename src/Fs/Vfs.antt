-- ===== src/Fs/Vfs.antt =====
-- The virtual file system, VinixOS/kernel/src/kernel/fs/vfs.c: the mount table and the table of file
-- descriptors of the current task. A path is the list of its characters, without the null at its end.
-- The operations of the file systems are function pointers of a `struct vfs_operations`, so they are a
-- parameter; a pointer to such a struct is a number, 0 the null pointer.
pub mod Ops
pub mod Under
pub mod Resolve
pub mod Fds
pub mod Open
pub mod Sequence
mod Tests
use vinix_os.Base.{
  ℕ, zero, suc, ◌+◌, ◌-◌, ◌/◌, ◌%◌, ◌^◌, Bool, true, false, not, ◌&&◌, ◌||◌, Option, none, some,
  List, [], ◌∷◌, ◌==◌, ltb, leb, if◌then◌else◌, length, get_or, set, drop, replicate,
}
use vinix_os.Base.Int.{ℤ, pos, negsuc}
use vinix_os.Base.Result.{Errno, Result, ok, err, fail, arg, perm, noent, badf, mfile}

abbrev pub Pathname : Type 0
Pathname = List ℕ

-- '/'
abbrev pub slash : ℕ
slash = 47

abbrev pub max_fds : ℕ
max_fds = 16

abbrev pub max_mounts : ℕ
max_mounts = 4

-- `struct vfs_fd`
pub record Fd : Type 0 where
  pub in_use : Bool
  pub file_index : ℕ
  pub offset : ℕ
  pub flags : ℕ
  pub fs_ops : ℕ

abbrev pub closed_fd : Fd
closed_fd = record { in_use = false; file_index = 0; offset = 0; flags = 0; fs_ops = 0 }

-- `struct vfs_mount`; `mp_len` is the length of the path.
pub record Mount : Type 0 where
  pub mount_point : Pathname
  pub fs_ops : ℕ
  pub in_use : Bool

abbrev pub free_mount : Mount
free_mount = record { mount_point = []; fs_ops = 0; in_use = false }

pub record Vfs : Type 0 where
  pub fds : List Fd
  pub mounts : List Mount

unfoldable pub vfs_init : Vfs
vfs_init = record { fds = replicate max_fds closed_fd; mounts = replicate max_mounts free_mount }

-- The first free slot of the mount table is filled.
unfoldable pub mount_at : Mount → List Mount → Option (List Mount)
mount_at m [] = none
mount_at m (x ∷ xs) =
    if x.in_use
    then elim (mount_at m xs) [ none ↦ none | some ys ↦ some (x ∷ ys) ]
    else some (m ∷ xs)

unfoldable pub vfs_mount : Pathname → ℕ → Vfs → Result (Unit {0}) × Vfs
vfs_mount path fs v =
    elim (mount_at (record { mount_point = path; fs_ops = fs; in_use = true }) v.mounts) [
      | none ↦ (err fail, v)
      | some ms ↦ (ok tt, record v { mounts = ms })
    ]

-- `strncmp(path, mp, strlen(mp)) == 0`
unfoldable pub is_prefix : Pathname → Pathname → Bool
is_prefix [] path = true
is_prefix (m ∷ ms) [] = false
is_prefix (m ∷ ms) (c ∷ cs) = (m == c) && is_prefix ms cs

-- A file system and the rest of the path; `none` for the null pointer.
unfoldable pub target : ℕ → Pathname → Option (ℕ × Pathname)
target fs rest = if fs == 0 then none else some (fs, rest)

unfoldable pub resolve_root : Pathname → List Mount → Option (ℕ × Pathname)
resolve_root rest [] = none
resolve_root rest (m ∷ ms) =
    if m.in_use && (length m.mount_point == 1) && (get_or m.mount_point 0 0 == slash)
    then target m.fs_ops rest
    else resolve_root rest ms

-- The tests of the loop of `resolve` but the last: the mount point is a prefix of the path that ends
-- at a separator.
unfoldable pub covers : Pathname → Mount → Bool
covers path m =
    let next = get_or path (length m.mount_point) 0 in
    m.in_use
    && is_prefix m.mount_point path
    && ((get_or m.mount_point (length m.mount_point - 1) 0 == slash)
        || (next == slash)
        || (next == 0))

-- The longest mount so far, and the length of its mount point plus one; 0 for none.
unfoldable pub longer : Mount → Option Mount → Bool
longer m none = true
longer m (some best) = ltb (length best.mount_point) (length m.mount_point)

unfoldable pub best_mount : Pathname → Option Mount → List Mount → Option Mount
best_mount path best [] = best
best_mount path best (m ∷ ms) =
    best_mount path (if covers path m && longer m best then some m else best) ms

unfoldable pub skip_slashes : Pathname → Pathname
skip_slashes [] = []
skip_slashes (c ∷ cs) = if c == slash then skip_slashes cs else c ∷ cs

unfoldable pub resolve : Pathname → List Mount → Option (ℕ × Pathname)
resolve path ms =
    if get_or path 0 0 == slash
    then elim (best_mount path none ms) [
      | none ↦ none
      | some m ↦ target m.fs_ops (skip_slashes (drop (length m.mount_point) path))
    ]
    else resolve_root path ms

-- `flags & O_ACCMODE`, and the bits O_CREAT, O_TRUNC and O_APPEND
abbrev pub access_of : ℕ → ℕ
access_of flags = flags % 4

abbrev pub wants_write : ℕ → Bool
wants_write flags = (access_of flags == 1) || (access_of flags == 2)

abbrev pub has_flag : (bit flags : ℕ) → Bool
has_flag bit flags = (flags / 2 ^ bit) % 2 == 1

-- The loop over the descriptors from `i` on.
unfoldable pub free_fd : (rounds i : ℕ) → List Fd → Option ℕ
free_fd zero i fds = none
free_fd (suc rounds) i fds =
    let rest = free_fd rounds (i + 1) fds in
    if (get_or fds i closed_fd).in_use then rest else some i

abbrev pub lowest_free : List Fd → Option ℕ
lowest_free = free_fd 13 3

-- The entry that a descriptor names; `none` if it is out of range or not in use.
unfoldable pub open_fd : ℤ → Vfs → Option ℕ
open_fd (negsuc n) v = none
open_fd (pos n) v =
    if leb max_fds n then none else if (get_or v.fds n closed_fd).in_use then some n else none

abbrev pub entry : Vfs → ℕ → Fd
entry v i = get_or v.fds i closed_fd

abbrev pub set_entry : Vfs → ℕ → Fd → Vfs
set_entry v i f = record v { fds = set v.fds i f }

unfoldable pub vfs_close : ℤ → Vfs → Result (Unit {0}) × Vfs
vfs_close fd v = elim (open_fd fd v) [
  | none ↦ (err badf, v)
  | some i ↦ (ok tt, set_entry v i closed_fd)
]

unfoldable pub vfs_dup : ℤ → Vfs → Result ℕ × Vfs
vfs_dup oldfd v = elim (open_fd oldfd v) [
  | none ↦ (err badf, v)
  | some i ↦ elim (lowest_free v.fds) [
    | none ↦ (err mfile, v)
    | some j ↦ (ok j, set_entry v j (entry v i))
  ]
]

unfoldable pub vfs_dup2 : ℤ → ℤ → Vfs → Result ℕ × Vfs
vfs_dup2 oldfd (negsuc n) v = (err badf, v)
vfs_dup2 oldfd (pos n) v = elim (open_fd oldfd v) [
  | none ↦ (err badf, v)
  | some i ↦
      if leb max_fds n
      then (err badf, v)
      else if i == n
      then (ok n, v)
      else (ok n, set_entry v n (entry v i))
]
