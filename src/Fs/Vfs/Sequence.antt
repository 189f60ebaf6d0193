-- ===== src/Fs/Vfs/Sequence.antt =====
-- Reading a file in pieces through `vfs_read` of vfs.c.
use mathlib.Core.Path.{subst}
use vinix_os.Base.{
  ℕ, ◌+◌, ◌%◌, ◌^◌, ◌<◌, ◌≡◌, ◌≢◌, sym, ap, ◌∙◌, true, false, List, ◌++◌, ◌==◌, length, set, drop,
  take, arith, get_or-set_self, length-append, set-set, drop-add, take-add, length-take-le,
}
use vinix_os.Base.Int.{pos}
use vinix_os.Base.Result.{Result, ok}
use vinix_os.Fs.Vfs.{max_fds, Fd, closed_fd, Vfs, entry}
use vinix_os.Fs.Vfs.Ops.{FileSystems, read_op, advance, vfs_read}
use vinix_os.Fs.Vfs.Fds.{open_fd-used}

abbrev at_offset : Fd → ℕ → Fd
at_offset f n = record f { offset = n }

module _ (systems : FileSystems) where
  open systems use {State, has_op, read}

  -- The file system reads a file whose content does not change: each read gives the bytes at the
  -- offset, as many as are asked for and there are.
  abbrev pub Serves : ℕ → ℕ → List ℕ → State → Type 0
  Serves fs file content s =
      (off len : ℕ) → read fs file off len s ≡ (ok (take len (drop off content)), s)

  advance-entry :
      (i n : ℕ) (v : Vfs)
      → i < length v.fds
      → entry (advance i n v) i ≡ record (entry v i) { offset = ((entry v i).offset + n) % 2 ^ 32 }
  unfolding advance
  advance-entry i n v lt = get_or-set_self v.fds i _ closed_fd lt

  advance-advance :
      (i a b : ℕ) (v : Vfs) → i < length v.fds → advance i b (advance i a v) ≡ advance i (a + b) v
  unfolding advance
  advance-advance i a b v lt =
      ap (λ xs. record v { fds = xs })
        (set-set v.fds i _ _
          ∙ ap (λ f. set v.fds i f)
              (ap (λ f. at_offset f ((Fd.offset f + b) % 2 ^ 32))
                  (get_or-set_self v.fds i _ closed_fd lt)
                ∙ ap (λ n. at_offset (entry v i) n) wrap))
    where
      wrap :
          (((entry v i).offset + a) % 2 ^ 32 + b) % 2 ^ 32 ≡ ((entry v i).offset + (a + b)) % 2 ^ 32
      wrap = omega arith

  vfs_read-Serves :
      (i len : ℕ) (content : List ℕ) (v : Vfs) (s : State)
      → i < max_fds
      → (entry v i).in_use ≡ true
      → (entry v i).fs_ops ≢ 0
      → has_op read_op (entry v i).fs_ops ≡ true
      → Serves (entry v i).fs_ops (entry v i).file_index content s
      → vfs_read systems (pos i) len v s ≡ (
        ok (take len (drop (entry v i).offset content)),
        advance i (length (take len (drop (entry v i).offset content))) v,
        s,
      )
  unfolding vfs_read
  vfs_read-Serves i len content v s lt used fs has serves =
      rw (open_fd-used i v lt used, vfs_read)
        (rw (mounted, has, serves (entry v i).offset len)
          (ap (λ r. answer r.1) (serves (entry v i).offset len)))
    where
      answer : State → Result (List ℕ) × Vfs × State
      answer s' = (
        ok (take len (drop (entry v i).offset content)),
        advance i (length (take len (drop (entry v i).offset content))) v,
        s',
      )

      mounted : ((entry v i).fs_ops == 0) ≡ false
      mounted = ground arith

  -- If the file system serves a content for an open file, and the offset stays below 2^32, then two
  -- reads in a row through a descriptor give, joined, what one read of both lengths gives, and leave
  -- the same table behind.
  pub vfs_read-twice :
      (i n m : ℕ) (content : List ℕ) (v : Vfs) (s : State)
      → length v.fds ≡ max_fds
      → i < max_fds
      → (entry v i).in_use ≡ true
      → (entry v i).fs_ops ≢ 0
      → has_op read_op (entry v i).fs_ops ≡ true
      → Serves (entry v i).fs_ops (entry v i).file_index content s
      → (entry v i).offset + n < 2 ^ 32
      → (first second : List ℕ) × (v1 : Vfs) × (v2 : Vfs) × (vfs_read systems (pos i) n v s
          ≡ (ok first, v1, s))
        × (vfs_read systems (pos i) m v1 s ≡ (ok second, v2, s))
        × (vfs_read systems (pos i) (n + m) v s ≡ (ok (first ++ second), v2, s))
  vfs_read-twice i n m content v s size lt used fs has serves small = (
    first,
    second,
    v1,
    advance i (length second) v1,
    whole,
    again,
    vfs_read-Serves i (n + m) content v s lt used fs has serves ∙ joined,
  )
    where
      rest : List ℕ
      rest = drop (entry v i).offset content

      first : List ℕ
      first = take n rest

      second : List ℕ
      second = take m (drop (length first) rest)

      v1 : Vfs
      v1 = advance i (length first) v

      inside : i < length v.fds
      inside = omega (arith, size, lt)

      at : entry v1 i ≡ at_offset (entry v i) ((entry v i).offset + length first)
      at =
          advance-entry i (length first) v inside
          ∙ ap (λ o. at_offset (entry v i) o) (omega (arith, small, length-take-le n rest))

      whole : vfs_read systems (pos i) n v s ≡ (ok first, v1, s)
      whole = vfs_read-Serves i n content v s lt used fs has serves

      behind : drop (entry v1 i).offset content ≡ drop (length first) rest
      behind =
          ap (λ f. drop (Fd.offset f) content) at
          ∙ drop-add (entry v i).offset (length first) content

      again : vfs_read systems (pos i) m v1 s ≡ (ok second, advance i (length second) v1, s)
      again =
          vfs_read-Serves i m content v1 s lt (ap Fd.in_use at ∙ used)
            (λ z. fs (sym (ap Fd.fs_ops at) ∙ z)) (ap (λ f. has_op read_op (Fd.fs_ops f)) at ∙ has)
            (subst (λ f. Serves (Fd.fs_ops f) (Fd.file_index f) content s) (sym at) serves)
          ∙ ap (λ xs. answer1 (take m xs)) behind
        where
          answer1 : List ℕ → Result (List ℕ) × Vfs × State
          answer1 xs = (ok xs, advance i (length xs) v1, s)

      answer0 : List ℕ → Result (List ℕ) × Vfs × State
      answer0 xs = (ok xs, advance i (length xs) v, s)

      joined : answer0 (take (n + m) rest) ≡ (ok (first ++ second), advance i (length second) v1, s)
      joined =
          ap (λ xs. answer0 xs) (take-add n m rest)
          ∙ ap (λ w. end w)
              (ap (λ k. advance i k v) (length-append first second)
                ∙ sym (advance-advance i (length first) (length second) v inside))
        where
          end : Vfs → Result (List ℕ) × Vfs × State
          end w = (ok (first ++ second), w, s)
