-- ===== src/Fs/Vfs/Under.antt =====
-- Which mounts of vfs.c a path lies under, described without the tests of `resolve`.
use vinix_os.Base.{
  ℕ, ◌-◌, ◌≡◌, refl, ap, ◌∙◌, true, ◌⊎◌, ◌↔◌, List, [], ◌∷◌, ◌++◌, length, get_or, arith, eq_of_==,
  ==_refl,
}
use vinix_os.Fs.Vfs.{Pathname, slash, Mount, is_prefix, covers}

-- The mount is in use, the path is the mount point with a rest behind it, and one name does not run on
-- from the one into the other: the mount point ends with a slash, or the rest begins with one or is
-- empty, where the string ends with 0.
pub record IsUnder (path : Pathname) (m : Mount) : Type 0 where
  pub in_use : m.in_use ≡ true
  pub rest : List ℕ
  pub split : path ≡ m.mount_point ++ rest
  pub boundary :
      (get_or m.mount_point (length m.mount_point - 1) 0 ≡ slash)
      ⊎ ((get_or rest 0 0 ≡ slash) ⊎ (get_or rest 0 0 ≡ 0))

is_prefix-split :
    (mp path : List ℕ) → is_prefix mp path ≡ true → (rest : List ℕ) × (path ≡ mp ++ rest)
unfolding is_prefix
is_prefix-split [] path h = (path, refl)
is_prefix-split (m ∷ mp) [] h = absurd (cc h)
is_prefix-split (m ∷ mp) (c ∷ path) h =
    let (rest, e) = is_prefix-split mp path (ground (arith, h)) in
    let same : m ≡ c = eq_of_== m c (ground (arith, h)) in (rest, cc (same, e))

is_prefix-append : (mp rest : List ℕ) → is_prefix mp (mp ++ rest) ≡ true
unfolding is_prefix
is_prefix-append [] rest = refl
is_prefix-append (m ∷ mp) rest = rw (==_refl m) (is_prefix-append mp rest)

get_or-append : (mp rest : List ℕ) → get_or (mp ++ rest) (length mp) 0 ≡ get_or rest 0 0
get_or-append [] rest = refl
get_or-append (m ∷ mp) rest = get_or-append mp rest

covers-IsUnder : (path : Pathname) (m : Mount) → covers path m ≡ true → IsUnder path m
unfolding covers
covers-IsUnder path m h =
    let (rest, e) = is_prefix-split m.mount_point path (ground (arith, h)) in
    let next : get_or path (length m.mount_point) 0 ≡ get_or rest 0 0 =
      ap (λ p. get_or p (length m.mount_point) 0) e ∙ get_or-append m.mount_point rest in
    record {
      in_use = ground (arith, h);
      rest = rest;
      split = e;
      boundary = ground (arith, h, next);
    }

IsUnder-covers : (path : Pathname) (m : Mount) → IsUnder path m → covers path m ≡ true
unfolding covers
IsUnder-covers path m u =
    let next : get_or path (length m.mount_point) 0 ≡ get_or u.rest 0 0 =
      ap (λ p. get_or p (length m.mount_point) 0) u.split ∙ get_or-append m.mount_point u.rest in
    let prefix : is_prefix m.mount_point path ≡ true =
      ap (is_prefix m.mount_point) u.split ∙ is_prefix-append m.mount_point u.rest in
    ground (arith, u.in_use, prefix, next, u.boundary)

-- The tests of `resolve` find these mounts.
pub covers_iff : (path : Pathname) (m : Mount) → (covers path m ≡ true) ↔ IsUnder path m
covers_iff path m = (covers-IsUnder path m, IsUnder-covers path m)
