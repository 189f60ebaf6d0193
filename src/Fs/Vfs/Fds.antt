-- ===== src/Fs/Vfs/Fds.antt =====
-- The table of file descriptors of vfs.c: the lowest free one, and closing.
use vinix_os.Base.{
  ℕ, zero, suc, ◌+◌, ◌<◌, ◌≤◌, ◌≡◌, ◌≢◌, refl, sym, ap, ◌∙◌, true, false, none, some, List, ◌==◌,
  leb, length, get_or, arith, inl, inr, ◌⊎◌, Bool-cases, Option-cases, eq_of_==, get_or-set_self,
  get_or-set_ne,
}
use vinix_os.Base.Int.{ℤ, pos, negsuc}
use vinix_os.Base.Result.{ok, err, badf, mfile}
use vinix_os.Fs.Vfs.{
  max_fds, Fd, closed_fd, Vfs, free_fd, lowest_free, open_fd, entry, set_entry, vfs_close, vfs_dup,
}

-- `i` is the lowest descriptor from 3 on that is not in use.
pub record IsLowest (fds : List Fd) (i : ℕ) : Type 0 where
  pub from : 3 ≤ i
  pub inside : i < max_fds
  pub free : (get_or fds i closed_fd).in_use ≡ false
  pub below : (j : ℕ) → 3 ≤ j → j < i → (get_or fds j closed_fd).in_use ≡ true

free_fd-lowest :
    (rounds i : ℕ) (fds : List Fd) {j : ℕ}
    → free_fd rounds i fds ≡ some j
    → (i ≤ j)
      × (j < i + rounds)
      × ((get_or fds j closed_fd).in_use ≡ false)
      × ((k : ℕ) → i ≤ k → k < j → (get_or fds k closed_fd).in_use ≡ true)
unfolding free_fd
free_fd-lowest zero i fds e = absurd (cc e)
free_fd-lowest (suc rounds) i fds {j} e = elim (Bool-cases (get_or fds i closed_fd).in_use) [
  | inr here ↦
      let at : some i ≡ some j = sym (rw here refl) ∙ e in
      (
        ground (arith, at),
        ground (arith, at),
        ap (λ o. (get_or fds o closed_fd).in_use) (sym (inj at)) ∙ here,
        λ k le lt. absurd (omega (arith, inj at, le, lt)),
      )
  | inl taken ↦
      let (le, lt, free, below) = free_fd-lowest rounds (i + 1) fds (sym (rw taken refl) ∙ e) in
      (
        omega arith,
        omega arith,
        free,
        λ k le' lt'. elim (Bool-cases (i == k)) [
          | inl same ↦ ap (λ o. (get_or fds o closed_fd).in_use) (sym (eq_of_== i k same)) ∙ taken
          | inr other ↦ below k (ground arith) lt'
        ],
      )
]
  where
    inj : {a b : ℕ} → some a ≡ some b → a ≡ b
    inj h = cc h

pub lowest_free-IsLowest : {fds : List Fd} {i : ℕ} → lowest_free fds ≡ some i → IsLowest fds i
lowest_free-IsLowest {fds} e =
    let (le, lt, free, below) = free_fd-lowest 13 3 fds e in
    record { from = le; inside = omega arith; free = free; below = below }

pub open_fd-used :
    (n : ℕ) (v : Vfs) → n < max_fds → (entry v n).in_use ≡ true → open_fd (pos n) v ≡ some n
unfolding open_fd
open_fd-used n v lt u = ground arith

pub open_fd-free : (n : ℕ) (v : Vfs) → (entry v n).in_use ≡ false → open_fd (pos n) v ≡ none
unfolding open_fd
open_fd-free n v u = ground arith

pub open_fd-some :
    (fd : ℤ) (v : Vfs) {n : ℕ}
    → open_fd fd v ≡ some n
    → (fd ≡ pos n) × (n < max_fds) × ((entry v n).in_use ≡ true)
unfolding open_fd
open_fd-some (negsuc a) v e = absurd (cc e)
open_fd-some (pos a) v {n} e = elim (Bool-cases (leb max_fds a)) [
  | inl out ↦ absurd (ground (arith, e, out))
  | inr inside ↦ elim (Bool-cases (entry v a).in_use) [
    | inr free ↦ absurd (ground (arith, e, inside, free))
    | inl used ↦
        let same : a ≡ n = some_inj (ground (arith, e, inside, used)) in
        (ap pos same, ground (arith, same), ap (λ o. (entry v o).in_use) (sym same) ∙ used)
  ]
]
  where
    some_inj : {a b : ℕ} → some a ≡ some b → a ≡ b
    some_inj h = cc h

-- A close fails with E_BADF and changes nothing if the descriptor is out of range or not in use.
-- Else it succeeds, the descriptor is then not in use, and no other entry nor the mounts change.
vfs_close-free :
    (fd : ℤ) (v : Vfs)
    → length v.fds ≡ max_fds
    → ((open_fd fd v ≡ none) × (vfs_close fd v ≡ (err badf, v)))
      ⊎ ((n : ℕ) × (v' : Vfs) × (fd ≡ pos n)
          × ((entry v n).in_use ≡ true)
          × (vfs_close fd v ≡ (ok tt, v'))
          × (open_fd fd v' ≡ none)
          × ((m : ℕ) → n ≢ m → entry v' m ≡ entry v m)
          × (v'.mounts ≡ v.mounts))
unfolding vfs_close
vfs_close-free fd v size = elim (Option-cases (open_fd fd v)) [
  | inl e ↦ inl (e, rw (e, vfs_close) refl)
  | inr (n, e) ↦
      let (is, lt, used) = open_fd-some fd v e in
      inr (
        n,
        set_entry v n closed_fd,
        is,
        used,
        rw (e, vfs_close) refl,
        ap (λ z. open_fd z (set_entry v n closed_fd)) is
            ∙ open_fd-free n (set_entry v n closed_fd) (
                ap Fd.in_use
                  (get_or-set_self v.fds n closed_fd closed_fd (omega (arith, size, lt)))),
        λ m ne. get_or-set_ne v.fds n m closed_fd closed_fd ne,
        refl,
      )
]

-- `vfs_dup` of a descriptor that is in use copies its entry to the lowest free descriptor and changes
-- no other entry; it fails only if there is no free one, and then changes nothing.
vfs_dup-copy :
    (n : ℕ) (v : Vfs)
    → length v.fds ≡ max_fds
    → n < max_fds
    → (entry v n).in_use ≡ true
    → ((lowest_free v.fds ≡ none) × (vfs_dup (pos n) v ≡ (err mfile, v)))
      ⊎ ((i : ℕ) × (v' : Vfs) × IsLowest v.fds i
          × (vfs_dup (pos n) v ≡ (ok i, v'))
          × (entry v' i ≡ entry v n)
          × ((m : ℕ) → i ≢ m → entry v' m ≡ entry v m))
unfolding vfs_dup
vfs_dup-copy n v size lt used = elim (Option-cases (lowest_free v.fds)) [
  | inl full ↦ inl (full, rw (open_fd-used n v lt used, vfs_dup) (rw full refl))
  | inr (i, e) ↦
      let low = lowest_free-IsLowest e in
      inr (
        i,
        set_entry v i (entry v n),
        low,
        rw (open_fd-used n v lt used, vfs_dup) (rw e refl),
        get_or-set_self v.fds i (entry v n) closed_fd (omega (arith, size, low.inside)),
        λ m ne. get_or-set_ne v.fds i m (entry v n) closed_fd ne,
      )
]
