-- ===== src/Net/Core/Receive.antt =====
-- Receiving in netcore.c: the frames of the driver, by protocol. A pointer into a frame is the buffer
-- with an offset.
use vinix_os.Base.{
  ℕ, zero, suc, ◌+◌, ◌-◌, ◌%◌, ◌^◌, Bool, true, not, ◌&&◌, ◌||◌, Option, none, some, List, ◌∷◌,
  ◌++◌, ◌==◌, ltb, if◌then◌else◌, length, drop, take,
}
use vinix_os.Base.Partial.{◌>>=◌}
use vinix_os.Net.Bytes.{byte, field16, field32, put16, bswap16}
use vinix_os.Net.Checksum.{net_cksum}
use vinix_os.Net.Arp.{arp_cache_update}
use vinix_os.Net.Core.{ip_header_len, icmp_data_len, Nic, Net, arp_packet, Deliver, ether_tx, ip_tx}

-- `len` bytes from `off` on
abbrev pub bytes_at : List ℕ → (off len : ℕ) → List ℕ
bytes_at buf off len = take len (drop off buf)

unfoldable pub mac_eq : List ℕ → List ℕ → Bool
mac_eq a b =
    (byte a 0 == byte b 0)
    && (byte a 1 == byte b 1)
    && (byte a 2 == byte b 2)
    && (byte a 3 == byte b 3)
    && (byte a 4 == byte b 4)
    && (byte a 5 == byte b 5)

unfoldable pub mac_is_bcast : List ℕ → Bool
mac_is_bcast m =
    (byte m 0 == 0xFF)
    && (byte m 1 == 0xFF)
    && (byte m 2 == 0xFF)
    && (byte m 3 == 0xFF)
    && (byte m 4 == 0xFF)
    && (byte m 5 == 0xFF)

-- The length of the data of an echo reply, for a request of `len` bytes.
unfoldable pub echo_dlen : ℕ → ℕ
echo_dlen len = if ltb icmp_data_len (len - 8) then icmp_data_len else len - 8

-- The echo reply to a request at `off`.
unfoldable pub echo_reply : List ℕ → (off len : ℕ) → List ℕ
echo_reply buf off len =
    let rest = bytes_at buf (off + 4) 4 ++ bytes_at buf (off + 8) (echo_dlen len) in
    0 ∷ 0 ∷ put16 (net_cksum (0 ∷ 0 ∷ 0 ∷ 0 ∷ rest)) ++ rest

-- The length of the data of a datagram at `off`, as `udp_rx` computes it.
unfoldable pub udp_data_len : List ℕ → (off len : ℕ) → ℕ
udp_data_len buf off len =
    let dlen = bswap16 (field16 buf (off + 4)) - 8 in if ltb (len - 8) dlen then len - 8 else dlen

-- The tests of `ip_rx` on a packet of `len` bytes at `off`, for this address of the interface.
unfoldable pub ip_accepts : List ℕ → (off len g_ip : ℕ) → Bool
ip_accepts buf off len g_ip =
    let total = bswap16 (field16 buf (off + 2)) in
    not (ltb len ip_header_len)
    && (byte buf off == 0x45)
    && (bswap16 (field16 buf (off + 6)) % 2 ^ 13 == 0)
    && (net_cksum (bytes_at buf off ip_header_len) == 0)
    && ((field32 buf (off + 16) == g_ip) || (field32 buf (off + 16) == 0xFFFFFFFF))
    && not (ltb total ip_header_len)
    && not (ltb len total)

module _ (nic : Nic) where
  open nic use {timer_get_ticks}

  unfoldable pub arp_rx : List ℕ → (off len : ℕ) → Net nic → Net nic
  arp_rx buf off len n =
      let sender_mac = bytes_at buf (off + 8) 6 in
      let sender_ip = field32 buf (off + 14) in
      let n1 = record n {
        g_arp = arp_cache_update (timer_get_ticks n.state) sender_ip sender_mac n.g_arp;
      } in
      if ltb len 28
      then n
      else if (bswap16 (field16 buf (off + 6)) == 1) && (field32 buf (off + 24) == n.g_ip)
      then (ether_tx nic sender_mac 0x0806 (arp_packet 2 n.g_mac n.g_ip sender_mac sender_ip) n1).1
      else n1

  unfoldable pub icmp_rx :
      Deliver nic → (src_ip : ℕ) → List ℕ → (off len : ℕ) → Net nic → Option (Net nic)
  icmp_rx deliver src_ip buf off len n =
      if ltb len 8
      then some n
      else if byte buf off == 8
      then (do
        let rlen = 8 + echo_dlen len
        (rc, m) ←
            ip_tx nic deliver src_ip 1 (λ m. take rlen m.reply_buf) rlen
              (record n { reply_buf = echo_reply buf off len ++ drop rlen n.reply_buf })
        some m)
      else if byte buf off == 0
      then some (record n {
        g_icmp_rep = record {
          got = true;
          id = bswap16 (field16 buf (off + 4));
          seq = bswap16 (field16 buf (off + 6));
          ts = timer_get_ticks n.state;
        };
      })
      else some n

  unfoldable pub udp_rx : (src_ip : ℕ) → List ℕ → (off len : ℕ) → Net nic → Net nic
  udp_rx src_ip buf off len n =
      if ltb len 8
      then n
      else if ltb (bswap16 (field16 buf (off + 4))) 8
      then n
      else if n.has_udp_cb
      then record n {
        calls =
            record {
              src_ip = src_ip;
              src_port = bswap16 (field16 buf off);
              dst_port = bswap16 (field16 buf (off + 2));
              buf = buf;
              off = off + 8;
              len = udp_data_len buf off len;
            }
            ∷ n.calls;
      }
      else n

  unfoldable pub ip_rx : Deliver nic → List ℕ → (off len : ℕ) → Net nic → Option (Net nic)
  ip_rx deliver buf off len n =
      let plen = bswap16 (field16 buf (off + 2)) - ip_header_len in
      let src_ip = field32 buf (off + 12) in
      let protocol = byte buf (off + 9) in
      if not (ip_accepts buf off len n.g_ip)
      then some n
      else if protocol == 1
      then icmp_rx deliver src_ip buf (off + ip_header_len) plen n
      else if protocol == 17
      then some (udp_rx src_ip buf (off + ip_header_len) plen n)
      else some n

  -- `netcore_rx`, with what a poll inside it calls.
  unfoldable pub receive : Deliver nic → List ℕ → Net nic → Option (Net nic)
  receive deliver frame n =
      let etype = bswap16 (field16 frame 12) in
      if ltb (length frame) 14
      then some n
      else if not (mac_eq frame n.g_mac) && not (mac_is_bcast frame)
      then some n
      else if etype == 0x0806
      then some (arp_rx frame 14 (length frame - 14) n)
      else if etype == 0x0800
      then ip_rx deliver frame 14 (length frame - 14) n
      else some n

  -- An echo request is answered from inside `netcore_rx`, and the answer may poll and so call it again;
  -- `depth` bounds the calls inside each other.
  unfoldable pub netcore_rx : (depth : ℕ) → Deliver nic
  netcore_rx zero frame n = none
  netcore_rx (suc depth) frame n = receive (netcore_rx depth) frame n
