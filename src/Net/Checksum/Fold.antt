-- ===== src/Net/Checksum/Fold.antt =====
-- The carries of `net_cksum`: the loop ends, and what it leaves.
use vinix_os.Base.{ℕ, zero, suc, ◌+◌, ◌*◌, ◌/◌, ◌%◌, ◌^◌, ◌≤◌, ◌<◌, ◌≡◌, refl, arith}
use vinix_os.Net.Checksum.{fold}

-- The sum modulo 65535, where 0 stands only for 0.
pub fold_lem :
    (s : ℕ)
    → s < 2 ^ 32
    → (k : ℕ) × (s ≡ 65535 * k + fold 2 s) × (fold 2 s ≤ 65535) × (fold 2 s ≡ 0 → s ≡ 0)
unfolding fold
fold_lem s lt =
    (s / 2 ^ 16 + (s % 2 ^ 16 + s / 2 ^ 16) / 2 ^ 16, ground arith, ground arith, λ h. ground arith)

fold_small : (rounds s : ℕ) → s < 2 ^ 16 → fold rounds s ≡ s
unfolding fold
fold_small zero s lt = refl
fold_small (suc rounds) s lt = ground arith

-- Two rounds are enough: more rounds change nothing.
pub fold_ends : (more s : ℕ) → s < 2 ^ 32 → fold (suc (suc more)) s ≡ fold 2 s
unfolding fold
fold_ends more s lt = ground (
  arith,
  fold_small more ((s % 2 ^ 16 + s / 2 ^ 16) % 2 ^ 16 + (s % 2 ^ 16 + s / 2 ^ 16) / 2 ^ 16)
      (omega arith),
)
