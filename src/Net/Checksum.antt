-- ===== src/Net/Checksum.antt =====
-- `net_cksum` of netcore.c.
pub mod Fold
pub mod Verify
use vinix_os.Base.{ℕ, zero, suc, ◌+◌, ◌-◌, ◌*◌, ◌/◌, ◌%◌, ◌^◌, List, [], ◌∷◌, ◌==◌, if◌then◌else◌}

-- The loop over the bytes, with the sum so far; the last byte may stand alone.
unfoldable pub sum_words : ℕ → List ℕ → ℕ
sum_words s [] = s
sum_words s (a ∷ []) = (s + a * 2 ^ 8) % 2 ^ 32
sum_words s (a ∷ b ∷ p) = sum_words ((s + (a * 2 ^ 8 + b)) % 2 ^ 32) p

-- The loop that adds the carries, with a bound on its rounds.
unfoldable pub fold : (rounds : ℕ) → ℕ → ℕ
fold zero s = s
fold (suc rounds) s =
    let rest = fold rounds (s % 2 ^ 16 + s / 2 ^ 16) in if s / 2 ^ 16 == 0 then s else rest

-- `~s`, in 16 bits
unfoldable pub net_cksum : List ℕ → ℕ
net_cksum p = 2 ^ 16 - 1 - fold 2 (sum_words 0 p)
