-- ===== src/Fs/Vfs/Ops.antt =====
-- The operations of vfs.c that call a file system.
use vinix_os.Base.{
  ℕ, zero, suc, ◌+◌, ◌%◌, ◌^◌, Bool, true, not, ◌&&◌, ◌||◌, Option, none, some, List, [], ◌∷◌, ◌==◌,
  if◌then◌else◌, length,
}
use vinix_os.Base.Int.{ℤ}
use vinix_os.Base.Result.{Result, ok, err, fail, arg, perm, noent, badf, mfile}
use vinix_os.Fs.Vfs.{
  Pathname, Vfs, resolve, access_of, wants_write, has_flag, lowest_free, open_fd, entry, set_entry,
}

-- What `get_file_info` writes: a name and a size.
pub record FileInfo : Type 0 where
  pub name : Pathname
  pub size : ℕ

-- The operations of a `struct vfs_operations` that may be null.
pub data Op : Type 0 where
  read_op get_file_count_op get_file_info_op listdir_op create_op write_op truncate_op unlink_op
        rename_op :
      Op

pub record FileSystems : Type 1 where
  pub State : Type 0
  pub has_op : Op → ℕ → Bool
  pub lookup : ℕ → Pathname → State → Result ℕ × State
  pub create : ℕ → Pathname → State → Result ℕ × State
  -- `truncate` to size 0
  pub truncate : ℕ → ℕ → State → Result (Unit {0}) × State
  -- The file, the offset and the length; the answer is the bytes that are read.
  pub read : ℕ → ℕ → ℕ → ℕ → State → Result (List ℕ) × State
  -- The answer is the number of bytes that are written.
  pub write : ℕ → ℕ → ℕ → List ℕ → State → Result ℕ × State
  pub unlink : ℕ → Pathname → State → Result (Unit {0}) × State
  pub rename : ℕ → Pathname → Pathname → State → Result (Unit {0}) × State
  pub listdir : ℕ → Pathname → ℕ → State → Result (List FileInfo) × State
  pub get_file_count : ℕ → State → Result ℕ × State
  -- `none` where the operation does not return E_OK.
  pub get_file_info : ℕ → ℕ → State → Option FileInfo × State

-- `fds[fd].offset += n`
unfoldable pub advance : ℕ → ℕ → Vfs → Vfs
advance i n v = set_entry v i (record (entry v i) { offset = ((entry v i).offset + n) % 2 ^ 32 })

module _ (systems : FileSystems) where
  open systems use {
    State, has_op, lookup, create, truncate, read, write, unlink, rename, listdir, get_file_count,
    get_file_info,
  }

  -- `vfs_open` from the lookup to the file index.
  unfoldable pub find_file : ℕ → Pathname → (flags : ℕ) → State → Result ℕ × State
  find_file fs rest flags s =
      let (found, s1) = lookup fs rest s in
      elim found [
        | err _ ↦
            if has_flag 2 flags && has_op create_op fs then create fs rest s1 else (err noent, s1)
        | ok i ↦
            if has_flag 3 flags && has_op truncate_op fs
            then (let (rc, s2) = truncate fs i s1 in
                elim rc [ err e ↦ (err e, s2) | ok _ ↦ (ok i, s2) ])
            else (ok i, s1)
      ]

  -- The offset at which a file is opened.
  unfoldable pub start_offset : ℕ → ℕ → (flags : ℕ) → State → ℕ × State
  start_offset fs i flags s =
      if has_flag 4 flags && has_op get_file_info_op fs
      then (let (info, s1) = get_file_info fs i s in
          elim info [ none ↦ (0, s1) | some f ↦ (f.size, s1) ])
      else (0, s)

  -- `vfs_open` once there is a file.
  unfoldable pub install : ℕ → ℕ → (flags : ℕ) → Vfs → State → Result ℕ × Vfs × State
  install fs i flags v s = elim (lowest_free v.fds) [
    | none ↦ (err mfile, v, s)
    | some fd ↦
        let (off, s1) = start_offset fs i flags s in
        (
          ok fd,
          set_entry v fd
              (record { in_use = true; file_index = i; offset = off; flags = flags; fs_ops = fs }),
          s1,
        )
  ]

  -- `vfs_open` on a file system.
  unfoldable pub open_on : ℕ → Pathname → (flags : ℕ) → Vfs → State → Result ℕ × Vfs × State
  open_on fs rest flags v s =
      if wants_write flags && not (has_op write_op fs)
      then (err perm, v, s)
      else (let (found, s1) = find_file fs rest flags s in
          elim found [ err e ↦ (err e, v, s1) | ok i ↦ install fs i flags v s1 ])

  unfoldable pub vfs_open : Pathname → (flags : ℕ) → Vfs → State → Result ℕ × Vfs × State
  vfs_open path flags v s =
      if access_of flags == 3 then (err arg, v, s) else elim (resolve path v.mounts) [
        | none ↦ (err noent, v, s)
        | some t ↦ open_on t.0 t.1 flags v s
      ]

  -- The answer is the bytes in the buffer.
  unfoldable pub vfs_read : ℤ → ℕ → Vfs → State → Result (List ℕ) × Vfs × State
  vfs_read fd len v s = elim (open_fd fd v) [
    | none ↦ (err badf, v, s)
    | some i ↦
        let f = entry v i in
        if (f.fs_ops == 0) || not (has_op read_op f.fs_ops)
        then (err fail, v, s)
        else (let (rc, s1) = read f.fs_ops f.file_index f.offset len s in
            elim rc [
              | err e ↦ (err e, v, s1)
              | ok bytes ↦ (ok bytes, advance i (length bytes) v, s1)
            ])
  ]

  unfoldable pub vfs_write : ℤ → List ℕ → Vfs → State → Result ℕ × Vfs × State
  vfs_write fd bytes v s = elim (open_fd fd v) [
    | none ↦ (err badf, v, s)
    | some i ↦
        let f = entry v i in
        if not (wants_write f.flags)
        then (err perm, v, s)
        else if (f.fs_ops == 0) || not (has_op write_op f.fs_ops)
        then (err perm, v, s)
        else (let (rc, s1) = write f.fs_ops f.file_index f.offset bytes s in
            elim rc [ err e ↦ (err e, v, s1) | ok n ↦ (ok n, advance i n v, s1) ])
  ]

  unfoldable pub vfs_unlink : Pathname → Vfs → State → Result (Unit {0}) × State
  vfs_unlink path v s = elim (resolve path v.mounts) [
    | none ↦ (err perm, s)
    | some t ↦ if has_op unlink_op t.0 then unlink t.0 t.1 s else (err perm, s)
  ]

  unfoldable pub vfs_rename :
      (old_path new_path : Pathname) → Vfs → State → Result (Unit {0}) × State
  vfs_rename old_path new_path v s = elim (resolve old_path v.mounts) [
    | none ↦ (err noent, s)
    | some old ↦ elim (resolve new_path v.mounts) [
      | none ↦ (err noent, s)
      | some new ↦
          if not (old.0 == new.0)
          then (err perm, s)
          else if has_op rename_op old.0
          then rename old.0 old.1 new.1 s
          else (err perm, s)
    ]
  ]

  -- The loop over the files of a file system without `listdir`, with room for `room` more entries.
  unfoldable pub list_files : ℕ → (rounds i room : ℕ) → State → List FileInfo × State
  list_files fs zero i room s = ([], s)
  list_files fs (suc rounds) i zero s = ([], s)
  list_files fs (suc rounds) i (suc room) s =
      let (info, s1) = get_file_info fs i s in
      elim info [
        | none ↦ list_files fs rounds (i + 1) (suc room) s1
        | some f ↦ (let (more, s2) = list_files fs rounds (i + 1) room s1 in (f ∷ more, s2))
      ]

  unfoldable pub vfs_listdir :
      Pathname → (max_entries : ℕ) → Vfs → State → Result (List FileInfo) × State
  vfs_listdir path max_entries v s = elim (resolve path v.mounts) [
    | none ↦ (err noent, s)
    | some t ↦
        if has_op listdir_op t.0
        then listdir t.0 t.1 max_entries s
        else if not (length t.1 == 0)
            || not (has_op get_file_count_op t.0 && has_op get_file_info_op t.0)
        then (err noent, s)
        else (let (total, s1) = get_file_count t.0 s in
            elim total [
              | err e ↦ (err e, s1)
              | ok n ↦ (let (files, s2) = list_files t.0 n 0 max_entries s1 in (ok files, s2))
            ])
  ]
