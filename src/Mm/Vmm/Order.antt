-- ===== src/Mm/Vmm/Order.antt =====
-- Lists of areas of vmm.c that are sorted by their starts.
use vinix_os.Base.{
  ℕ, ◌≤◌, ◌≡◌, true, List, [], ◌∷◌, ltb, if◌then◌else◌, arith, inl, inr, Bool-cases,
}
use mathlib.Core.Path.{subst}
use vinix_os.Base.Linked.{has}
use vinix_os.Mm.Vmm.{Area}
use vinix_os.Mm.Vmm.Insert.{insert}

-- No area starts before the one in front of it.
abbrev pub IsSorted : (ℕ → Area) → List ℕ → Type 0
IsSorted areas [] = Unit {0}
IsSorted areas (x ∷ []) = Unit {0}
IsSorted areas (x ∷ y ∷ xs) = ((areas x).vm_start ≤ (areas y).vm_start) × IsSorted areas (y ∷ xs)

-- The areas of the list start where they did.
unfoldable pub SameStarts : (areas areas' : ℕ → Area) → List ℕ → Type 0
SameStarts areas areas' xs = (z : ℕ) → has z xs ≡ true → (areas' z).vm_start ≡ (areas z).vm_start

IsSorted-same :
    (areas areas' : ℕ → Area) (xs : List ℕ)
    → SameStarts areas areas' xs
    → IsSorted areas xs
    → IsSorted areas' xs
unfolding SameStarts
IsSorted-same areas areas' [] same h = tt
IsSorted-same areas areas' (x ∷ []) same h = tt
IsSorted-same areas areas' (x ∷ y ∷ xs) same (le, h) = (
  omega (arith, le, same x (ground arith), same y (ground arith)),
  IsSorted-same areas areas' (y ∷ xs) (λ z inside. same z (ground (arith, inside))) h,
)

pub IsSorted-insert :
    (areas areas' : ℕ → Area) (p start : ℕ) (xs : List ℕ)
    → SameStarts areas areas' xs
    → (areas' p).vm_start ≡ start
    → IsSorted areas xs
    → IsSorted areas' (insert areas p start xs)
unfolding SameStarts
IsSorted-insert areas areas' p start [] same new h = tt
IsSorted-insert areas areas' p start (x ∷ []) same new h =
    let at = same x (ground arith) in
    elim (Bool-cases (ltb (areas x).vm_start start)) [
      | inl before ↦ rw before (ground (arith, at, new, before), tt)
      | inr behind ↦ rw behind (ground (arith, at, new, behind), tt)
    ]
IsSorted-insert areas areas' p start (x ∷ y ∷ xs) same new (le, h) =
    let at = same x (ground arith) in
    let at' = same y (ground arith) in
    let rest : SameStarts areas areas' (y ∷ xs) = λ z inside. same z (ground (arith, inside)) in
    let tail = IsSorted-insert areas areas' p start (y ∷ xs) rest new h in
    elim (Bool-cases (ltb (areas x).vm_start start)) [
      | inr behind ↦ rw behind (
        ground (arith, at, new, behind),
        (omega (arith, le, at, at'), IsSorted-same areas areas' (y ∷ xs) rest h),
      )
      | inl before ↦ rw before (elim (Bool-cases (ltb (areas y).vm_start start)) [
        | inl further ↦ rw further (
          omega (arith, le, at, at'),
          subst (λ b. IsSorted areas' (if b then y ∷ insert areas p start xs else p ∷ y ∷ xs))
              further tail,
        )
        | inr here ↦ rw here (
          ground (arith, at, new, before),
          subst (λ b. IsSorted areas' (if b then y ∷ insert areas p start xs else p ∷ y ∷ xs)) here
              tail,
        )
      ])
    ]
