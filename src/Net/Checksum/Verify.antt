-- ===== src/Net/Checksum/Verify.antt =====
-- A header with its checksum in it: the sum that a receiver makes.
use vinix_os.Base.{
  ℕ, ◌+◌, ◌*◌, ◌/◌, ◌%◌, ◌^◌, ◌≤◌, ◌<◌, ◌≡◌, ◌↔◌, sym, ap, ◌∙◌, Bool, true, false, ◌&&◌, List, [],
  ◌∷◌, ◌++◌, length, ltb, arith, ◌==◌, inl, inr, Bool-cases, eq_of_==, ne_of_==,
}
use vinix_os.Net.Checksum.{sum_words, net_cksum}
use vinix_os.Net.Checksum.Fold.{fold_lem}

abbrev pub all_bytes : List ℕ → Bool
all_bytes [] = true
all_bytes (b ∷ bs) = ltb b 256 && all_bytes bs

-- The sum of the 16-bit words, without a bound.
abbrev pub total : List ℕ → ℕ
total [] = 0
total (a ∷ []) = a * 2 ^ 8
total (a ∷ b ∷ p) = a * 2 ^ 8 + b + total p

total-le : (p : List ℕ) → all_bytes p ≡ true → total p ≤ length p * 65535
total-le [] h = omega arith
total-le (a ∷ []) h = ground arith
total-le (a ∷ b ∷ p) h = ground (arith, total-le p)

sum_words-total : (p : List ℕ) (s : ℕ) → s + total p < 2 ^ 32 → sum_words s p ≡ s + total p
unfolding sum_words
sum_words-total [] s lt = omega arith
sum_words-total (a ∷ []) s lt = omega arith
sum_words-total (a ∷ b ∷ p) s lt =
    ap (λ t. sum_words t p) (omega arith)
    ∙ sum_words-total p (s + (a * 2 ^ 8 + b)) (omega arith)
    ∙ omega arith

-- The length is even.
abbrev pub is_even : List ℕ → Bool
is_even [] = true
is_even (a ∷ []) = false
is_even (a ∷ b ∷ p) = is_even p

total-append : (p q : List ℕ) → is_even p ≡ true → total (p ++ q) ≡ total p + total q
total-append [] q h = omega arith
total-append (a ∷ []) q h = absurd (cc h)
total-append (a ∷ b ∷ p) q h = omega (arith, total-append p q h)

pub net_cksum-le : (p : List ℕ) → net_cksum p ≤ 65535
unfolding net_cksum
net_cksum-le p = omega arith

pub net_cksum_lem :
    (p : List ℕ)
    → total p < 2 ^ 32
    → (k : ℕ) × (total p + net_cksum p ≡ 65535 * (k + 1))
      × (net_cksum p ≤ 65535)
      × (net_cksum p ≡ 65535 → total p ≡ 0)
unfolding net_cksum
net_cksum_lem p lt =
    let (k, e, le, z) = fold_lem (sum_words 0 p) (omega (arith, sum_words-total p 0)) in
    let at : sum_words 0 p ≡ total p = sum_words-total p 0 (omega arith) ∙ omega arith in
    (k, omega (arith, e, le, at), omega arith, λ h. sym at ∙ z (omega (arith, h, le)))

total-checksum :
    (front back : List ℕ) (c0 c1 : ℕ)
    → is_even front ≡ true
    → total (front ++ c0 ∷ c1 ∷ back) ≡ total (front ++ 0 ∷ 0 ∷ back) + (c0 * 2 ^ 8 + c1)
total-checksum front back c0 c1 h =
    omega (arith, total-append front (c0 ∷ c1 ∷ back) h, total-append front (0 ∷ 0 ∷ back) h)

-- With the checksum itself, the sum is 0.
right :
    (t c n k k' : ℕ)
    → t + c ≡ 65535 * (k + 1)
    → t + c + n ≡ 65535 * (k' + 1)
    → n ≤ 65535
    → (n ≡ 65535 → t + c ≡ 0)
    → n ≡ 0
right t c n k k' e e' le z = elim (Bool-cases (n == 65535)) [
  | inl full ↦ absurd (omega (arith, z (eq_of_== n 65535 full), e))
  | inr other ↦ omega (arith, ne_of_== n 65535 other)
]

-- With another number the sum is 0 only if both are the same modulo 65535.
wrong :
    (t h l n k k' : ℕ)
    → t + (h * 2 ^ 8 + l) ≡ 65535 * (k + 1)
    → t + (l * 2 ^ 8 + h) + n ≡ 65535 * (k' + 1)
    → h < 2 ^ 8
    → l < 2 ^ 8
    → n ≡ 0
    → h ≡ l
wrong t h l n k k' e e' lh ll z = omega (arith, e, e', z)

-- The checksum makes the sum over its header come out as 0 if its high byte stands first. If its low
-- byte stands first the sum is 0 only where both bytes are the same. The header has an even number
-- of bytes before the checksum, and no more than 65535 in all.
pub net_cksum-verifies :
    (front back : List ℕ)
    → is_even front ≡ true
    → all_bytes (front ++ 0 ∷ 0 ∷ back) ≡ true
    → length (front ++ 0 ∷ 0 ∷ back) < 2 ^ 16
    → let c = net_cksum (front ++ 0 ∷ 0 ∷ back) in
      (net_cksum (front ++ c / 2 ^ 8 ∷ c % 2 ^ 8 ∷ back) ≡ 0)
      × ((net_cksum (front ++ c % 2 ^ 8 ∷ c / 2 ^ 8 ∷ back) ≡ 0) ↔ (c / 2 ^ 8 ≡ c % 2 ^ 8))
net_cksum-verifies front back even bytes short =
    let (k, e, le, z) = net_cksum_lem (front ++ 0 ∷ 0 ∷ back) (omega (arith, bound)) in
    let (k1, e1, le1, z1) =
      net_cksum_lem (front ++ high ∷ low ∷ back) (omega (arith, bound, stored high low, le)) in
    let (k2, e2, le2, z2) =
      net_cksum_lem (front ++ low ∷ high ∷ back) (omega (arith, bound, stored low high, le)) in
    let ok : net_cksum (front ++ high ∷ low ∷ back) ≡ 0 =
      right t c _ k k1 e (omega (arith, e1, stored high low)) le1
        (λ h. omega (arith, z1 h, stored high low)) in
    (
      ok,
      (
        (λ h.
            wrong t high low _ k k2 (omega (arith, e)) (omega (arith, e2, stored low high))
              (omega (arith, le)) (omega arith) h),
        λ same. ap (λ b. net_cksum (front ++ b)) (swap same) ∙ ok,
      ),
    )
  where
    t : ℕ
    t = total (front ++ 0 ∷ 0 ∷ back)

    c : ℕ
    c = net_cksum (front ++ 0 ∷ 0 ∷ back)

    high : ℕ
    high = c / 2 ^ 8

    low : ℕ
    low = c % 2 ^ 8

    bound : t ≤ length (front ++ 0 ∷ 0 ∷ back) * 65535
    bound = total-le (front ++ 0 ∷ 0 ∷ back) bytes

    stored : (c0 c1 : ℕ) → total (front ++ c0 ∷ c1 ∷ back) ≡ t + (c0 * 2 ^ 8 + c1)
    stored c0 c1 = total-checksum front back c0 c1 even

    swap : high ≡ low → ◌≡◌ {A = List ℕ} (low ∷ high ∷ back) (high ∷ low ∷ back)
    swap e = ap (λ x. low ∷ x ∷ back) e ∙ ap (λ x. x ∷ low ∷ back) (sym e)
