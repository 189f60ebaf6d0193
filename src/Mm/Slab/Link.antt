-- ===== src/Mm/Slab/Link.antt =====
-- The loop of `slab_refill` of slab.c: the objects of a page, linked in front of one another.
use vinix_os.Base.{
  ℕ, zero, suc, ◌+◌, ◌*◌, ◌<◌, ◌≡◌, ◌≢◌, refl, sym, ◌∙◌, ◌⊎◌, inl, inr, true, false, List, ◌∷◌,
  ◌==◌, length, arith, Bool-cases, eq_of_==, ==_refl,
}
use mathlib.Core.Path.{subst}
use vinix_os.Base.Linked.{has, ne_of_has, Linked, Linked-frame}
use vinix_os.Mm.Slab.{Ram, poke, link_objs}

-- The free objects of a cache, through the words at their addresses.
abbrev pub Chain : Ram → ℕ → List ℕ → Type 0
Chain = Linked (λ w. w)

pub poke_ne : (a b v : ℕ) (ram : Ram) → b ≢ a → poke a v ram b ≡ ram b
poke_ne a b v ram ne = elim (Bool-cases (b == a)) [
  | inl same ↦ absurd (ne (eq_of_== b a same))
  | inr other ↦ rw other refl
]

pub poke_self : (a v : ℕ) (ram : Ram) → poke a v ram a ≡ v
poke_self a v ram = rw (==_refl a) refl

-- A new object in front.
pub Chain-poke :
    (a p : ℕ) (ram : Ram) (xs : List ℕ)
    → a ≢ 0
    → has a xs ≡ false
    → Chain ram p xs
    → Chain (poke a p ram) a (a ∷ xs)
Chain-poke a p ram xs ne out h = (
  refl,
  ne,
  out,
  subst (λ q. Chain (poke a p ram) q xs) (sym (poke_self a p ram))
      (Linked-frame (λ w. w) ram (poke a p ram) p xs
        (λ q inside. poke_ne a q p ram (λ e. ne_of_has a q xs out inside (sym e))) h),
)

-- The list that the loop makes of `xs`.
abbrev pub objs_from : (count i base size : ℕ) → List ℕ → List ℕ
objs_from zero i base size xs = xs
objs_from (suc count) i base size xs = objs_from count (i + 1) base size ((base + i * size) ∷ xs)

pub length-objs_from :
    (count i base size : ℕ) (xs : List ℕ)
    → length (objs_from count i base size xs) ≡ count + length xs
length-objs_from zero i base size xs = omega arith
length-objs_from (suc count) i base size xs =
    omega (arith, length-objs_from count (i + 1) base size ((base + i * size) ∷ xs))

-- Every member is an old one or one of the objects from `i` on.
pub objs_from-members :
    (count i base size : ℕ) (xs : List ℕ) (x : ℕ)
    → has x (objs_from count i base size xs) ≡ true
    → (has x xs ≡ true) ⊎ ((j : ℕ) × (j < i + count) × (x ≡ base + j * size))
objs_from-members zero i base size xs x h = inl h
objs_from-members (suc count) i base size xs x h =
    elim (objs_from-members count (i + 1) base size ((base + i * size) ∷ xs) x h) [
      | inr (j, lt, e) ↦ inr (j, omega arith, e)
      | inl old ↦ elim (Bool-cases (x == base + i * size)) [
        | inl new ↦ inr (i, omega arith, eq_of_== x (base + i * size) new)
        | inr other ↦ inl (ground (arith, old, other))
      ]
    ]

-- The loop writes to the objects only.
pub link_objs-frame :
    (count i base size : ℕ) (r : ℕ × Ram) (a : ℕ)
    → ((j : ℕ) → j < i + count → a ≢ base + j * size)
    → (link_objs count i base size r).1 a ≡ r.1 a
unfolding link_objs
link_objs-frame zero i base size (p, ram) a out = refl
link_objs-frame (suc count) i base size (p, ram) a out =
    link_objs-frame count (i + 1) base size (base + i * size, poke (base + i * size) p ram) a
      (λ j lt. out j (omega arith))
    ∙ poke_ne (base + i * size) a p ram (out i (omega arith))

pub link_objs-Chain :
    (count i base size p : ℕ) (ram : Ram) (xs : List ℕ)
    → 0 < size
    → 0 < base
    → ((x : ℕ) → has x xs ≡ true → x < base + i * size)
    → Chain ram p xs
    → let r = link_objs count i base size (p, ram) in Chain r.1 r.0 (objs_from count i base size xs)
unfolding link_objs
link_objs-Chain zero i base size p ram xs some_size some_base below h = h
link_objs-Chain (suc count) i base size p ram xs some_size some_base below h =
    link_objs-Chain count (i + 1) base size (base + i * size) (poke (base + i * size) p ram)
      ((base + i * size) ∷ xs) some_size some_base
      (λ x old. elim (Bool-cases (x == base + i * size)) [
        | inl new ↦ omega (arith, eq_of_== x (base + i * size) new)
        | inr other ↦ omega (arith, below x (ground (arith, old, other)))
      ])
      (Chain-poke (base + i * size) p ram xs (omega arith)
        (elim (Bool-cases (has (base + i * size) xs)) [
          | inr out ↦ out
          | inl old ↦ absurd (omega (arith, below (base + i * size) old))
        ])
        h)
