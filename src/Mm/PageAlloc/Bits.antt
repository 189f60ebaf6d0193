-- ===== src/Mm/PageAlloc/Bits.antt =====
-- What the bit operations of page_alloc.c do to the bitmap as a set of pages.
use vinix_os.Base.{
  ℕ, zero, suc, ◌+◌, ◌*◌, ◌/◌, ◌%◌, ◌<◌, ◌≤◌, ◌≡◌, ◌∙◌, refl, ap, Bool, true, false, ◌&&◌, ◌||◌,
  List, arith, ◌==◌, ltb, leb, if◌then◌else◌, length, get_or, length-set, get_or-set_self,
  get_or-set_ne, Bool-cases, inl, inr, eq_of_==, ne_of_==,
}
use vinix_os.Mm.Word.{or_bit, and_not_bit, test_bit-or_bit, test_bit-and_not_bit}
use vinix_os.Mm.PageAlloc.{bit_get, bit_set, bit_clear, all_zero, set_run}

-- The words of the bitmap hold the bits of the pages `0 … 32 * length b - 1`.
module _ (b : List ℕ) (i j : ℕ) (h : i / 32 < length b) where
  pub bit_get-bit_set : bit_get (bit_set b i) j ≡ (if i == j then true else bit_get b j)
  unfolding bit_get bit_set
  bit_get-bit_set = elim (Bool-cases (i / 32 == j / 32)) [
    | inl e ↦ ground (
      arith,
      eq_of_== _ _ e,
      get_or-set_self b (i / 32) (or_bit (get_or b (i / 32) 0) (i % 32)) 0 h,
      test_bit-or_bit (get_or b (i / 32) 0) (i % 32) (j % 32),
    )
    | inr e ↦ ground (
      arith,
      get_or-set_ne b (i / 32) (j / 32) (or_bit (get_or b (i / 32) 0) (i % 32)) 0 (ne_of_== _ _ e),
    )
  ]

  pub bit_get-bit_clear : bit_get (bit_clear b i) j ≡ (if i == j then false else bit_get b j)
  unfolding bit_get bit_clear
  bit_get-bit_clear = elim (Bool-cases (i / 32 == j / 32)) [
    | inl e ↦ ground (
      arith,
      eq_of_== _ _ e,
      get_or-set_self b (i / 32) (and_not_bit (get_or b (i / 32) 0) (i % 32)) 0 h,
      test_bit-and_not_bit (get_or b (i / 32) 0) (i % 32) (j % 32),
    )
    | inr e ↦ ground (
      arith,
      get_or-set_ne b (i / 32) (j / 32) (and_not_bit (get_or b (i / 32) 0) (i % 32)) 0
          (ne_of_== _ _ e),
    )
  ]

pub length-bit_set : (b : List ℕ) (i : ℕ) → length (bit_set b i) ≡ length b
unfolding bit_set
length-bit_set b i = length-set b _ _

pub length-bit_clear : (b : List ℕ) (i : ℕ) → length (bit_clear b i) ≡ length b
unfolding bit_clear
length-bit_clear b i = length-set b _ _

pub length-set_run : (b : List ℕ) (i n : ℕ) → length (set_run b i n) ≡ length b
unfolding set_run
length-set_run b i zero = refl
length-set_run b i (suc n) = length-set_run (bit_set b i) (i + 1) n ∙ length-bit_set b i

-- Whether page `j` lies in the run of `n` pages from `i` on.
abbrev pub in_run : ℕ → ℕ → ℕ → Bool
in_run i n j = leb i j && ltb j (i + n)

pub bit_get-set_run :
    (b : List ℕ) (i n j : ℕ)
    → i + n ≤ 32 * length b
    → bit_get (set_run b i n) j ≡ (in_run i n j || bit_get b j)
unfolding set_run
bit_get-set_run b i zero j h = ground arith
bit_get-set_run b i (suc n) j h = ground (
  arith,
  length-bit_set b i,
  bit_get-set_run (bit_set b i) (i + 1) n j,
  bit_get-bit_set b i j (omega arith),
)

pub all_zero-clear :
    (b : List ℕ) (i n j : ℕ) → all_zero b i n ≡ true → in_run i n j ≡ true → bit_get b j ≡ false
unfolding all_zero
all_zero-clear b i zero j h r = ground arith
all_zero-clear b i (suc n) j h r = elim (Bool-cases (i == j)) [
  | inl e ↦ ground (arith, ap (bit_get b) (eq_of_== i j e))
  | inr e ↦ ground (arith, all_zero-clear b (i + 1) n j)
]

pub clear-all_zero :
    (b : List ℕ) (i n : ℕ)
    → ((j : ℕ) → in_run i n j ≡ true → bit_get b j ≡ false)
    → all_zero b i n ≡ true
unfolding all_zero
clear-all_zero b i zero h = refl
clear-all_zero b i (suc n) h =
    ground (arith, h i, clear-all_zero b (i + 1) n (λ j r. ground (arith, h j)))
