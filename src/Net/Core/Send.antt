-- ===== src/Net/Core/Send.antt =====
-- The interface of netcore.c: starting it, UDP datagrams and `ping`.
use vinix_os.Base.{
  ℕ, zero, suc, ◌+◌, ◌-◌, ◌%◌, ◌^◌, Bool, false, ◌&&◌, Option, some, List, [], ◌∷◌, ◌++◌, ◌==◌, ltb,
  if◌then◌else◌, length, replicate,
}
use vinix_os.Base.Int.{ℤ, pos, negsuc, minus_one}
use vinix_os.Base.Partial.{◌>>=◌}
use vinix_os.Net.Bytes.{put16, bswap16}
use vinix_os.Net.Checksum.{net_cksum}
use vinix_os.Net.Arp.{arp_cache_size, no_entry}
use vinix_os.Net.Core.{icmp_data_len, Nic, Net, Deliver, cpsw_rx_poll, ip_tx}

abbrev pub udp_data_max : ℕ
udp_data_max = 982

-- `i & 0xFF` for `count` numbers from `i` on
abbrev pub counting : (count i : ℕ) → List ℕ
counting zero i = []
counting (suc count) i = i % 2 ^ 8 ∷ counting count (i + 1)

unfoldable pub udp_packet : (dst_port src_port : ℕ) → List ℕ → List ℕ
udp_packet dst_port src_port bytes =
    put16 (bswap16 src_port)
    ++ put16 (bswap16 dst_port)
    ++ put16 (bswap16 ((8 + length bytes) % 2 ^ 16))
    ++ 0 ∷ 0 ∷ bytes

unfoldable pub echo_request : (id seq : ℕ) → List ℕ
echo_request id seq =
    let rest = put16 (bswap16 id) ++ put16 (bswap16 seq) ++ counting icmp_data_len 0 in
    8 ∷ 0 ∷ put16 (net_cksum (8 ∷ 0 ∷ 0 ∷ 0 ∷ rest)) ++ rest

module _ (nic : Nic) where
  -- The callback of the driver becomes `netcore_rx`, which is the `deliver` of the other functions.
  unfoldable pub netcore_init : ℕ → Net nic → Net nic
  netcore_init my_ip n = record n {
    g_mac = Nic.mac nic n.state;
    g_ip = my_ip;
    g_ip_id = 0;
    g_arp = replicate arp_cache_size no_entry;
    g_icmp_rep = record n.g_icmp_rep { got = false };
    has_udp_cb = false;
  }

  unfoldable pub netcore_send_udp :
      Deliver nic
      → (dst_ip dst_port src_port : ℕ) → (bytes : List ℕ) → Net nic
      → Option (ℤ × Net nic)
  netcore_send_udp deliver dst_ip dst_port src_port bytes n =
      if ltb udp_data_max (length bytes)
      then some (minus_one, n)
      else ip_tx nic deliver dst_ip 17 (λ m. udp_packet dst_port src_port bytes) (8 + length bytes)
          n

  -- The loop of `netcore_ping`, with the ticks it took.
  unfoldable pub ping_wait :
      Deliver nic → (rounds : ℕ) → (id seq t0 : ℕ) → Net nic → Option ((ℤ × ℕ) × Net nic)
  ping_wait deliver zero id seq t0 n = some ((minus_one, 0), n)
  ping_wait deliver (suc rounds) id seq t0 n = do
    m ← cpsw_rx_poll nic deliver n
    if m.g_icmp_rep.got && (m.g_icmp_rep.id == id) && (m.g_icmp_rep.seq == seq)
        then some (
          (pos 0, (Nic.timer_get_ticks nic m.state + 2 ^ 32 - t0) % 2 ^ 32),
          record m { g_icmp_rep = record m.g_icmp_rep { got = false } },
        )
        else ping_wait deliver rounds id seq t0 m

  unfoldable pub netcore_ping :
      Deliver nic → (dst_ip id seq : ℕ) → Net nic → Option ((ℤ × ℕ) × Net nic)
  netcore_ping deliver dst_ip id seq n = do
    (rc, m) ←
        ip_tx nic deliver dst_ip 1 (λ m. echo_request id seq) 64
          (record n { g_icmp_rep = record n.g_icmp_rep { got = false } })
    elim rc [
      | pos r ↦
          if r == 0
          then ping_wait deliver 200000 id seq (Nic.timer_get_ticks nic m.state) m
          else some ((minus_one, 0), m)
      | negsuc r ↦ some ((minus_one, 0), m)
    ]

  unfoldable pub netcore_get_mac : Net nic → List ℕ
  netcore_get_mac n = n.g_mac

  unfoldable pub netcore_get_ip : Net nic → ℕ
  netcore_get_ip n = n.g_ip

  unfoldable pub netcore_set_udp_handler : (is_set : Bool) → Net nic → Net nic
  netcore_set_udp_handler is_set n = record n { has_udp_cb = is_set }
