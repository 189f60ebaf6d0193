-- ===== src/Net/Core/Rejected.antt =====
-- An IP packet that `ip_tx` of netcore.c has sent, received by `ip_rx`.
use vinix_os.Base.{
  ℕ, ◌+◌, ◌/◌, ◌%◌, ◌^◌, ◌<◌, ◌≡◌, ◌≢◌, refl, sym, ap, ◌∙◌, true, false, some, List, [], ◌∷◌, ◌++◌,
  ◌==◌, arith, inl, inr, Bool-cases, eq_of_==,
}
use vinix_os.Net.Bytes.{put16, put32, bswap16}
use vinix_os.Net.Checksum.{net_cksum}
use vinix_os.Net.Checksum.Verify.{net_cksum-verifies, net_cksum-le, all_bytes}
use vinix_os.Net.Core.{ip_header_len, Nic, Net, Deliver, ip_header, finished_header}
use vinix_os.Net.Core.Receive.{bytes_at, ip_accepts, ip_rx}

-- The checksum that `ip_tx` computes.
abbrev pub header_checksum : (proto len id src dst : ℕ) → ℕ
header_checksum proto len id src dst = net_cksum (ip_header proto len id src dst (0 ∷ 0 ∷ []))

pub header-all_bytes :
    (proto len id src dst : ℕ)
    → proto < 256
    → all_bytes (ip_header proto len id src dst (0 ∷ 0 ∷ [])) ≡ true
header-all_bytes proto len id src dst lt = ground arith

finished_header-zero :
    (proto len id src dst : ℕ)
    → proto < 256
    → net_cksum (finished_header proto len id src dst) ≡ 0
    → header_checksum proto len id src dst / 2 ^ 8 ≡ header_checksum proto len id src dst % 2 ^ 8
unfolding finished_header
finished_header-zero proto len id src dst lt h =
    let front : List ℕ =
      0x45 ∷ 0 ∷ put16 (bswap16 ((ip_header_len + len) % 2 ^ 16))
      ++ put16 (bswap16 id)
      ++ 0 ∷ 0 ∷ 64 ∷ proto ∷ [] in
    let back : List ℕ = put32 src ++ put32 dst in
    let c : ℕ = header_checksum proto len id src dst in
    let whole : c / 2 ^ 8 % 2 ^ 8 ≡ c / 2 ^ 8 =
      omega (arith, net_cksum-le (ip_header proto len id src dst (0 ∷ 0 ∷ []))) in
    (net_cksum-verifies front back refl (header-all_bytes proto len id src dst lt)
        (omega arith)).1.0
      (ap (λ b. net_cksum (front ++ c % 2 ^ 8 ∷ b ∷ back)) (sym whole) ∙ h)

ip_accepts-refused :
    (buf : List ℕ) (off len g_ip : ℕ)
    → (net_cksum (bytes_at buf off ip_header_len) == 0) ≡ false
    → ip_accepts buf off len g_ip ≡ false
unfolding ip_accepts
ip_accepts-refused buf off len g_ip h = ground (arith, h)

module _ (nic : Nic) where
  -- A packet whose header is one that `ip_tx` has filled is dropped without a change, whatever comes
  -- after the header, unless both bytes of the header's checksum happen to be the same.
  pub ip_rx-finished_header :
      (deliver : Deliver nic) (buf : List ℕ) (off plen : ℕ) (n : Net nic) (proto len id src dst : ℕ)
      → proto < 256
      → bytes_at buf off ip_header_len ≡ finished_header proto len id src dst
      → header_checksum proto len id src dst / 2 ^ 8 ≢ header_checksum proto len id src dst % 2 ^ 8
      → ip_rx nic deliver buf off plen n ≡ some n
  unfolding ip_rx
  ip_rx-finished_header deliver buf off plen n proto len id src dst lt header other =
      rw
        (ip_accepts-refused buf off plen n.g_ip
          (elim (Bool-cases (net_cksum (bytes_at buf off ip_header_len) == 0)) [
            | inl zero_sum ↦ absurd (
                other (
                  finished_header-zero proto len id src dst lt
                    (ap net_cksum (sym header) ∙ eq_of_== _ 0 zero_sum)))
            | inr some_sum ↦ some_sum
          ]))
        refl
