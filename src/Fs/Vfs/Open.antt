-- ===== src/Fs/Vfs/Open.antt =====
-- `vfs_open` of vfs.c: the descriptor that it gives, and that it leaves the table alone when it fails.
use mathlib.Core.Path.{subst}
use vinix_os.Base.{
  ℕ, ◌≡◌, ◌≢◌, refl, ap, Bool, true, false, not, ◌&&◌, List, ◌==◌, if◌then◌else◌, length, arith,
  inl, inr, Bool-cases, Option-cases, get_or-set_self, get_or-set_ne,
}
use vinix_os.Base.Int.{pos}
use vinix_os.Base.Result.{Result, ok, err, perm}
use vinix_os.Fs.Vfs.{
  Pathname, max_fds, Fd, closed_fd, Vfs, resolve, access_of, wants_write, lowest_free, entry,
  set_entry,
}
use vinix_os.Fs.Vfs.Ops.{
  write_op, FileSystems, find_file, start_offset, install, open_on, vfs_open, vfs_write,
}
use vinix_os.Fs.Vfs.Fds.{IsLowest, lowest_free-IsLowest, open_fd-used}

-- The new entry is in use with these flags, no other entry and no mount has changed, and the
-- descriptor was the lowest free one from 3 on.
pub record Opened (v : Vfs) (flags fd : ℕ) (v' : Vfs) : Type 0 where
  pub lowest : IsLowest v.fds fd
  pub used : (entry v' fd).in_use ≡ true
  pub flags_kept : (entry v' fd).flags ≡ flags
  pub others : (m : ℕ) → fd ≢ m → entry v' m ≡ entry v m
  pub mounts : v'.mounts ≡ v.mounts
  pub allowed : access_of flags ≢ 3

module _ (systems : FileSystems) where
  open systems use {State, has_op}

  -- How a call ends: with a descriptor, or with an error and the table as it was.
  abbrev pub OpenEnds : Vfs → ℕ → Result ℕ × Vfs × State → Type 0
  OpenEnds v flags (err e, v', s') = v' ≡ v
  OpenEnds v flags (ok fd, v', s') = Opened v flags fd v'

  if_OpenEnds :
      (v : Vfs) (flags : ℕ) (t : Bool) (x y : Result ℕ × Vfs × State)
      → OpenEnds v flags x
      → OpenEnds v flags y
      → OpenEnds v flags (if t then x else y)
  if_OpenEnds v flags true x y hx hy = hx
  if_OpenEnds v flags false x y hx hy = hy

  install-OpenEnds :
      (fs i flags : ℕ) (v : Vfs) (s : State)
      → length v.fds ≡ max_fds
      → access_of flags ≢ 3
      → OpenEnds v flags (install systems fs i flags v s)
  unfolding install
  install-OpenEnds fs i flags v s size mode = elim (Option-cases (lowest_free v.fds)) [
    | inl full ↦ rw (full, OpenEnds, install) refl
    | inr (fd, e) ↦
        rw (e, OpenEnds, install)
          (let low = lowest_free-IsLowest e in
            let new : Fd = record {
              in_use = true;
              file_index = i;
              offset = (start_offset systems fs i flags s).0;
              flags = flags;
              fs_ops = fs;
            } in
            let at : entry (set_entry v fd new) fd ≡ new =
              get_or-set_self v.fds fd new closed_fd (omega (arith, size, low.inside)) in
            record {
              lowest = low;
              used = ap Fd.in_use at;
              flags_kept = ap Fd.flags at;
              others = λ m ne. get_or-set_ne v.fds fd m new closed_fd ne;
              mounts = refl;
              allowed = mode;
            })
  ]

  found-OpenEnds :
      (found : Result ℕ) (fs flags : ℕ) (v : Vfs) (s1 : State)
      → length v.fds ≡ max_fds
      → access_of flags ≢ 3
      → OpenEnds v flags
          (elim found [ err e ↦ (err e, v, s1) | ok i ↦ install systems fs i flags v s1 ])
  found-OpenEnds (err e) fs flags v s1 size mode = refl
  found-OpenEnds (ok i) fs flags v s1 size mode = install-OpenEnds fs i flags v s1 size mode

  -- With a full-sized table, `vfs_open` ends with an error and the table as it was, or with the lowest
  -- free descriptor, opened as described by `Opened`.
  pub vfs_open-Opened :
      (path : Pathname) (flags : ℕ) (v : Vfs) (s : State)
      → length v.fds ≡ max_fds
      → OpenEnds v flags (vfs_open systems path flags v s)
  unfolding vfs_open open_on
  vfs_open-Opened path flags v s size = elim (Bool-cases (access_of flags == 3)) [
    | inl odd ↦ rw odd refl
    | inr mode ↦ rw mode (elim (Option-cases (resolve path v.mounts)) [
      | inl e ↦ rw e refl
      | inr (t, e) ↦ rw e (
          if_OpenEnds v flags (wants_write flags && not (has_op write_op t.0)) _ _ refl (
            found-OpenEnds (find_file systems t.0 t.1 flags s).0 t.0 flags v
              (find_file systems t.0 t.1 flags s).1 size (λ h. ground arith)))
    ])
  ]

  -- A descriptor that `vfs_open` has given for reading only cannot be written through: `vfs_write`
  -- returns E_PERM and changes neither the table nor the file system.
  pub vfs_write-read_only :
      (path : Pathname) (flags fd : ℕ) (bytes : List ℕ) (v v' : Vfs) (s s' : State)
      → length v.fds ≡ max_fds
      → access_of flags ≡ 0
      → vfs_open systems path flags v s ≡ (ok fd, v', s')
      → vfs_write systems (pos fd) bytes v' s' ≡ (err perm, v', s')
  unfolding vfs_write
  vfs_write-read_only path flags fd bytes v v' s s' size mode e =
      let o : Opened v flags fd v' =
        subst (OpenEnds v flags) e (vfs_open-Opened path flags v s size) in
      rw (open_fd-used fd v' o.lowest.inside o.used, vfs_write) (rw (closed o) refl)
    where
      closed : Opened v flags fd v' → wants_write (entry v' fd).flags ≡ false
      closed o = ground (arith, o.flags_kept, mode)
