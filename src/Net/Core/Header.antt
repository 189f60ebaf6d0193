-- ===== src/Net/Core/Header.antt =====
-- An IP header with its checksum in network order, before a UDP datagram, and the tests of `ip_rx` of
-- netcore.c on it.
use vinix_os.Base.{
  ℕ, ◌+◌, ◌/◌, ◌%◌, ◌^◌, ◌<◌, ◌≤◌, ◌≡◌, refl, ◌∙◌, true, false, List, [], ◌∷◌, ◌++◌, ltb, arith,
  ==_refl,
}
use vinix_os.Net.Bytes.{byte, field16, field32, put16, put32, bswap16}
use vinix_os.Net.Checksum.{net_cksum}
use vinix_os.Net.Checksum.Verify.{net_cksum-verifies}
use vinix_os.Net.Core.{ip_header_len, ip_header}
use vinix_os.Net.Core.Receive.{bytes_at, ip_accepts}
use vinix_os.Net.Core.Rejected.{header_checksum, header-all_bytes}

-- A header with its checksum in network order, the high byte first.
abbrev pub network_header : (proto len id src dst : ℕ) → List ℕ
network_header proto len id src dst =
    let c = header_checksum proto len id src dst in
    ip_header proto len id src dst (c / 2 ^ 8 ∷ c % 2 ^ 8 ∷ [])

pub field : (v : ℕ) → v < 2 ^ 16 → bswap16 (field16 (put16 (bswap16 v)) 0) ≡ v
unfolding bswap16 field16
field v lt = omega arith

pub field32-put32 : (v : ℕ) → v < 2 ^ 32 → field32 (put32 v) 0 ≡ v
unfolding field32 field16
field32-put32 v lt = omega arith

ip_accepts-whole :
    (buf : List ℕ) (len g_ip total : ℕ)
    → byte buf 0 ≡ 0x45
    → bswap16 (field16 buf 6) % 2 ^ 13 ≡ 0
    → net_cksum (bytes_at buf 0 20) ≡ 0
    → field32 buf 16 ≡ g_ip
    → bswap16 (field16 buf 2) ≡ total
    → 20 ≤ total
    → total ≤ len
    → ip_accepts buf 0 len g_ip ≡ true
unfolding ip_accepts
ip_accepts-whole buf len g_ip total version fragment checksum dst whole lo hi =
    let enough : ltb len 20 ≡ false = ground arith in
    let fits : ltb len total ≡ false = ground arith in
    let header : ltb total 20 ≡ false = ground arith in
    rw (version, fragment, checksum, dst, whole, enough, fits, header, ==_refl g_ip) refl

-- The header of a datagram of at most 982 bytes, before the rest of the packet.
module _ (k id src dst : ℕ) (rest : List ℕ) (short : k ≤ 982) where
  abbrev packet : List ℕ
  packet = network_header 17 (8 + k) id src dst ++ rest

  pub checksum : net_cksum (bytes_at packet 0 20) ≡ 0
  checksum =
      (net_cksum-verifies
        (0x45 ∷ 0 ∷ put16 (bswap16 ((ip_header_len + (8 + k)) % 2 ^ 16))
          ++ put16 (bswap16 id)
          ++ 0 ∷ 0 ∷ 64 ∷ 17 ∷ [])
        (put32 src ++ put32 dst) refl (header-all_bytes 17 (8 + k) id src dst (omega arith))
        (omega arith)).0

  pub total : bswap16 (field16 packet 2) ≡ 28 + k
  unfolding field16
  total = field ((20 + (8 + k)) % 2 ^ 16) (omega arith) ∙ omega (arith, short)

  unfragmented : bswap16 (field16 packet 6) % 2 ^ 13 ≡ 0
  unfolding field16 bswap16
  unfragmented = refl

  to_dst : dst < 2 ^ 32 → field32 packet 16 ≡ dst
  unfolding field32 field16
  to_dst lt = field32-put32 dst lt

  pub from_src : src < 2 ^ 32 → field32 packet 12 ≡ src
  unfolding field32 field16
  from_src lt = field32-put32 src lt

  pub accepted : (len : ℕ) → dst < 2 ^ 32 → 28 + k ≤ len → ip_accepts packet 0 len dst ≡ true
  accepted len lt fits =
      ip_accepts-whole packet len dst (28 + k) refl unfragmented checksum (to_dst lt) total
        (omega arith) fits
