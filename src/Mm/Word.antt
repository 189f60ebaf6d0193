-- ===== src/Mm/Word.antt =====
-- The single-bit operations of the page bitmap on one 32-bit word, by the digits of the word.
use vinix_os.Base.{
  ℕ, zero, suc, ◌+◌, ◌*◌, ◌/◌, ◌%◌, ◌≡◌, refl, ap, Bool, true, false, arith, ◌==◌, if◌then◌else◌,
}

-- `(w >> k) & 1`
unfoldable pub test_bit : ℕ → ℕ → Bool
test_bit w zero = w % 2 == 1
test_bit w (suc k) = test_bit (w / 2) k

-- `w | (1 << k)`
unfoldable pub or_bit : ℕ → ℕ → ℕ
or_bit w zero = w / 2 * 2 + 1
or_bit w (suc k) = or_bit (w / 2) k * 2 + w % 2

-- `w & ~(1 << k)`
unfoldable pub and_not_bit : ℕ → ℕ → ℕ
and_not_bit w zero = w / 2 * 2
and_not_bit w (suc k) = and_not_bit (w / 2) k * 2 + w % 2

half : (a b : ℕ) → (a * 2 + b % 2) / 2 ≡ a
half a b = omega arith

odd : (a : ℕ) → (a * 2 + 1) / 2 ≡ a
odd a = omega arith

double : (a : ℕ) → a * 2 / 2 ≡ a
double a = omega arith

pub test_bit-or_bit :
    (w k j : ℕ) → test_bit (or_bit w k) j ≡ (if k == j then true else test_bit w j)
unfolding test_bit or_bit
test_bit-or_bit w zero zero = ground arith
test_bit-or_bit w zero (suc j) = ground (arith, ap (λ v. test_bit v j) (odd (w / 2)))
test_bit-or_bit w (suc k) zero = ground arith
test_bit-or_bit w (suc k) (suc j) =
    ground (arith, ap (λ v. test_bit v j) (half (or_bit (w / 2) k) w), test_bit-or_bit (w / 2) k j)

pub test_bit-and_not_bit :
    (w k j : ℕ) → test_bit (and_not_bit w k) j ≡ (if k == j then false else test_bit w j)
unfolding test_bit and_not_bit
test_bit-and_not_bit w zero zero = ground arith
test_bit-and_not_bit w zero (suc j) = ground (arith, ap (λ v. test_bit v j) (double (w / 2)))
test_bit-and_not_bit w (suc k) zero = ground arith
test_bit-and_not_bit w (suc k) (suc j) = ground (
  arith,
  ap (λ v. test_bit v j) (half (and_not_bit (w / 2) k) w),
  test_bit-and_not_bit (w / 2) k j,
)

pub zero-test_bit : (k : ℕ) → test_bit 0 k ≡ false
unfolding test_bit
zero-test_bit zero = refl
zero-test_bit (suc k) = zero-test_bit k
