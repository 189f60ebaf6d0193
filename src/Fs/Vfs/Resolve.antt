-- ===== src/Fs/Vfs/Resolve.antt =====
-- `resolve` of vfs.c takes the longest mount that covers a path.
use mathlib.Core.Path.{subst}
use vinix_os.Base.{
  ℕ, zero, suc, ◌<◌, ◌≤◌, ◌≡◌, refl, sym, ap, ◌∙◌, true, false, ◌&&◌, ◌⊎◌, ◌↔◌, Option, none, some,
  List, [], ◌∷◌, ltb, if◌then◌else◌, length, get_or, get_elem?, drop, arith, inl, inr, Bool-cases,
  Option-cases,
}
use vinix_os.Fs.Vfs.{
  Pathname, slash, Mount, target, covers, longer, best_mount, skip_slashes, resolve,
}
use vinix_os.Fs.Vfs.Under.{IsUnder, covers_iff}

-- The candidate of one round.
abbrev pick : Pathname → Mount → Option Mount → Option Mount
pick path m best = if covers path m && longer m best then some m else best

longer-lt : (x b : Mount) → longer x (some b) ≡ true → length b.mount_point < length x.mount_point
unfolding longer
longer-lt x b h = ground arith

-- The candidate is not given up for a shorter one.
best_mount-keeps :
    (path : Pathname) (b : Mount) (ms : List Mount)
    → (m : Mount) × (best_mount path (some b) ms ≡ some m)
      × (length b.mount_point ≤ length m.mount_point)
unfolding best_mount
best_mount-keeps path b [] = (b, refl, omega arith)
best_mount-keeps path b (x ∷ ms) = elim (Bool-cases (covers path x && longer x (some b))) [
  | inl taken ↦
      let (m, e, le) = best_mount-keeps path x ms in
      (m, rw taken e, omega (arith, le, longer-lt x b (ground (arith, taken))))
  | inr left ↦ let (m, e, le) = best_mount-keeps path b ms in (m, rw left e, le)
]

picks :
    (path : Pathname) (x : Mount) (best : Option Mount)
    → covers path x ≡ true
    → (y : Mount) × (pick path x best ≡ some y) × (length x.mount_point ≤ length y.mount_point)
unfolding longer
picks path x none c = (x, rw c refl, omega arith)
picks path x (some b) c = elim (Bool-cases (ltb (length b.mount_point) (length x.mount_point))) [
  | inl more ↦ (x, rw (c, more) refl, omega arith)
  | inr less ↦ (b, rw (c, less) refl, ground arith)
]

some_inj : {a b : Mount} → some a ≡ some b → a ≡ b
some_inj e = cc e

-- Some mount is picked that is no shorter than a mount of the list that covers the path.
best_mount-reaches :
    (path : Pathname) (best : Option Mount) (ms : List Mount) (i : ℕ) {m' : Mount}
    → get_elem? ms i ≡ some m'
    → covers path m' ≡ true
    → (m : Mount) × (best_mount path best ms ≡ some m)
      × (length m'.mount_point ≤ length m.mount_point)
unfolding best_mount
best_mount-reaches path best [] i at c = absurd (cc at)
best_mount-reaches path best (x ∷ ms) (suc i) at c =
    best_mount-reaches path (pick path x best) ms i at c
best_mount-reaches path best (x ∷ ms) zero {m'} at c =
    let (y, e, le) = picks path x best (subst (λ m. covers path m ≡ true) (sym (some_inj at)) c) in
    let (m, e', le') = best_mount-keeps path y ms in
    (m, rw e e', omega (arith, le, le', ap (λ m. length (Mount.mount_point m)) (some_inj at)))

best_mount-among :
    (path : Pathname) (best : Option Mount) (ms : List Mount) {m : Mount}
    → best_mount path best ms ≡ some m
    → (best ≡ some m) ⊎ ((i : ℕ) × (get_elem? ms i ≡ some m) × (covers path m ≡ true))
unfolding best_mount
best_mount-among path best [] e = inl e
best_mount-among path best (x ∷ ms) {m} e = elim (best_mount-among path (pick path x best) ms e) [
  | inr (i, at, c) ↦ inr (suc i, at, c)
  | inl now ↦ elim (Bool-cases (covers path x && longer x best)) [
    | inl taken ↦
        let same : some x ≡ some m = sym (rw taken refl) ∙ now in
        inr (0, same, ground (arith, taken))
    | inr left ↦ inl (sym (rw left refl) ∙ now)
  ]
]

longest_lem :
    (path : Pathname) (ms : List Mount)
    → get_or path 0 0 ≡ slash
    → ((resolve path ms ≡ none)
        × ((i : ℕ) (m : Mount) → get_elem? ms i ≡ some m → covers path m ≡ false))
      ⊎ ((j : ℕ) × (m : Mount) × (get_elem? ms j ≡ some m)
          × (covers path m ≡ true)
          × (resolve path ms ≡ target m.fs_ops (skip_slashes (drop (length m.mount_point) path)))
          × ((i : ℕ) (m' : Mount)
              → get_elem? ms i ≡ some m'
              → covers path m' ≡ true
              → length m'.mount_point ≤ length m.mount_point))
unfolding resolve
longest_lem path ms absolute = elim (Option-cases (best_mount path none ms)) [
  | inl e ↦ inl (
    rw (absolute, e) refl,
    λ i m at. elim (Bool-cases (covers path m)) [
      | inl c ↦ let (m', e', le) = best_mount-reaches path none ms i at c in absurd (cc (e, e'))
      | inr left ↦ left
    ],
  )
  | inr (m, e) ↦ elim (best_mount-among path none ms e) [
    | inl gone ↦ absurd (cc gone)
    | inr (j, at, c) ↦ inr (
      j,
      m,
      at,
      c,
      rw (absolute, e) refl,
      λ i m' at' c'.
          let (m'', e'', le) = best_mount-reaches path none ms i at' c' in
          subst (λ o. length m'.mount_point ≤ length o.mount_point) (some_inj (sym e'' ∙ e)) le,
    )
  ]
]

-- A path that starts with a slash is looked up in a mount that covers it, with the rest of the path
-- behind the mount point and the slashes there, and no mount that covers the path is longer; if no
-- mount covers it, the result is the null pointer. A mount covers a path exactly if the path lies under
-- it, as described by `IsUnder`.
pub resolve-longest :
    (path : Pathname) (ms : List Mount)
    → get_or path 0 0 ≡ slash
    → ((m : Mount) → (covers path m ≡ true) ↔ IsUnder path m)
      × (((resolve path ms ≡ none)
            × ((i : ℕ) (m : Mount) → get_elem? ms i ≡ some m → covers path m ≡ false))
          ⊎ ((j : ℕ) × (m : Mount) × (get_elem? ms j ≡ some m)
              × (covers path m ≡ true)
              × (resolve path ms
                  ≡ target m.fs_ops (skip_slashes (drop (length m.mount_point) path)))
              × ((i : ℕ) (m' : Mount)
                  → get_elem? ms i ≡ some m'
                  → covers path m' ≡ true
                  → length m'.mount_point ≤ length m.mount_point)))
resolve-longest path ms absolute = (covers_iff path, longest_lem path ms absolute)
