-- ===== src/Base/Linked.antt =====
-- Lists that are linked through memory: the sleep list and the queue of waiting parents, through a
-- field of the task structure, and the free objects of the slab allocator.
use Prim.Native.Nat.{ℕ}
use mathlib.Core.Path.{◌≡◌, sym, ap, subst}
use mathlib.Core.Logic.{◌≢◌}
use mathlib.Core.Bool.{Bool, true, false, ◌||◌}
use mathlib.Core.List.{List, [], ◌∷◌}
use native.Mathlib.Omega.{arith}
use vinix_os.Base.Tests.{◌==◌}

-- The number occurs in the list.
abbrev pub has : ℕ → List ℕ → Bool
has p [] = false
has p (x ∷ xs) = (p == x) || has p xs

-- From `p` the links lead through the distinct addresses `xs` to the null pointer.
abbrev pub Linked : {A : Type 0} → (A → ℕ) → (ℕ → A) → ℕ → List ℕ → Type 0
Linked next m p [] = p ≡ 0
Linked next m p (x ∷ xs) = (p ≡ x) × (x ≢ 0) × (has x xs ≡ false) × Linked next m (next (m x)) xs

-- Only what lies at the addresses of the list matters.
pub Linked-frame :
    {A : Type 0} (next : A → ℕ) (m m' : ℕ → A) (p : ℕ) (xs : List ℕ)
    → ((q : ℕ) → has q xs ≡ true → next (m' q) ≡ next (m q))
    → Linked next m p xs
    → Linked next m' p xs
Linked-frame next m m' p [] same h = h
Linked-frame next m m' p (x ∷ xs) same (e, ne, out, rest) = (
  e,
  ne,
  out,
  subst (λ n. Linked next m' n xs) (sym (same x (ground arith)))
      (Linked-frame next m m' (next (m x)) xs (λ q h. same q (ground arith)) rest),
)

pub ne_of_has : (p q : ℕ) (xs : List ℕ) → has p xs ≡ false → has q xs ≡ true → p ≢ q
ne_of_has p q xs out inside e = cc (ap (λ r. has r xs) e)
