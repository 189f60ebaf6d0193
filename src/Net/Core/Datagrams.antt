-- ===== src/Net/Core/Datagrams.antt =====
-- A UDP datagram as `netcore_send_udp` of netcore.c builds it, in a frame with an IP header whose checksum
-- is in network order, received by `netcore_rx`.
use vinix_os.Base.{
  ℕ, suc, ◌+◌, ◌-◌, ◌%◌, ◌^◌, ◌<◌, ◌≤◌, ◌≡◌, refl, ap, ◌∙◌, true, false, some, List, [], ◌∷◌, ◌++◌,
  not, ◌&&◌, ◌||◌, ltb, length, length-append, take, arith,
}
use vinix_os.Net.Bytes.{byte, field16, field32, bswap16}
use vinix_os.Net.Core.{Nic, Net, Deliver}
use vinix_os.Net.Core.Receive.{
  bytes_at, udp_data_len, udp_rx, mac_eq, mac_is_bcast, ip_accepts, ip_rx, receive, netcore_rx,
}
use vinix_os.Net.Core.Frames.{
  drop-after, byte-after, field16-front, field16-after, field32-after, mac-front, ip_accepts-after,
}
use vinix_os.Net.Core.Header.{network_header, field, from_src, total, accepted}
use vinix_os.Net.Core.Send.{udp_packet}

take-length : (xs ys : List ℕ) → take (length xs) (xs ++ ys) ≡ xs
take-length [] ys = refl
take-length (x ∷ xs) ys = ap (λ zs. x ∷ zs) (take-length xs ys)

udp_data_len-whole :
    (buf : List ℕ) (off k : ℕ)
    → bswap16 (field16 buf (off + 4)) ≡ 8 + k
    → udp_data_len buf off (8 + k) ≡ k
unfolding udp_data_len
udp_data_len-whole buf off k h = rw h (ground arith)

module _ (nic : Nic) where
  -- The call that a datagram with these fields leads to.
  abbrev called : (src_ip src_port dst_port : ℕ) (buf : List ℕ) (off k : ℕ) → Net nic → Net nic
  called src_ip src_port dst_port buf off k n = record n {
    calls =
        record {
          src_ip = src_ip;
          src_port = src_port;
          dst_port = dst_port;
          buf = buf;
          off = off;
          len = k;
        }
        ∷ n.calls;
  }

  udp_rx-fields :
      (src_ip src_port dst_port : ℕ) (buf : List ℕ) (off k : ℕ) (n : Net nic)
      → bswap16 (field16 buf off) ≡ src_port
      → bswap16 (field16 buf (off + 2)) ≡ dst_port
      → bswap16 (field16 buf (off + 4)) ≡ 8 + k
      → n.has_udp_cb ≡ true
      → udp_rx nic src_ip buf off (8 + k) n ≡ called src_ip src_port dst_port buf (off + 8) k n
  unfolding udp_rx
  udp_rx-fields src_ip src_port dst_port buf off k n src dst len handler =
      let whole : ltb (8 + k) 8 ≡ false = ground arith in
      rw (whole, len, whole, src, dst, udp_data_len-whole buf off k len) (rw handler refl)

  -- An accepted packet of protocol 17
  ip_rx-udp :
      (deliver : Deliver nic) (buf : List ℕ) (off len src_ip k : ℕ) (n : Net nic)
      → ip_accepts buf off len n.g_ip ≡ true
      → byte buf (off + 9) ≡ 17
      → field32 buf (off + 12) ≡ src_ip
      → bswap16 (field16 buf (off + 2)) ≡ 28 + k
      → ip_rx nic deliver buf off len n ≡ some (udp_rx nic src_ip buf (off + 20) (8 + k) n)
  unfolding ip_rx
  ip_rx-udp deliver buf off len src_ip k n ok proto src total =
      let rest : 28 + k - 20 ≡ 8 + k = omega arith in rw (ok, proto, src, total, rest) refl

  -- A frame with an IP packet
  receive-ip :
      (deliver : Deliver nic) (frame : List ℕ) (n : Net nic)
      → 14 ≤ length frame
      → (mac_eq frame n.g_mac || mac_is_bcast frame) ≡ true
      → bswap16 (field16 frame 12) ≡ 0x0800
      → receive nic deliver frame n ≡ ip_rx nic deliver frame 14 (length frame - 14) n
  unfolding receive
  receive-ip deliver frame n long mine ether =
      let whole : ltb (length frame) 14 ≡ false = ground arith in
      let ours : (not (mac_eq frame n.g_mac) && not (mac_is_bcast frame)) ≡ false = ground arith in
      rw (whole, ours, ether) refl

  -- A frame of an IP packet with a datagram, whatever is behind its header of 14 bytes is called `xs`.
  netcore_rx-fields :
      (depth : ℕ) (front xs : List ℕ) (src_ip src_port dst_port k : ℕ) (n : Net nic)
      → length front ≡ 14
      → (mac_eq front n.g_mac || mac_is_bcast front) ≡ true
      → bswap16 (field16 front 12) ≡ 0x0800
      → ip_accepts xs 0 (length (front ++ xs) - 14) n.g_ip ≡ true
      → byte xs 9 ≡ 17
      → field32 xs 12 ≡ src_ip
      → bswap16 (field16 xs 2) ≡ 28 + k
      → bswap16 (field16 xs 20) ≡ src_port
      → bswap16 (field16 xs 22) ≡ dst_port
      → bswap16 (field16 xs 24) ≡ 8 + k
      → n.has_udp_cb ≡ true
      → netcore_rx nic (suc depth) (front ++ xs) n
        ≡ some (called src_ip src_port dst_port (front ++ xs) 42 k n)
  unfolding netcore_rx
  netcore_rx-fields depth front xs src_ip src_port dst_port k n size mine ether ok proto src whole
        from to len handler =
      receive-ip (netcore_rx nic depth) (front ++ xs) n
        (omega (arith, size, length-append front xs)) (mac-front front xs n.g_mac size ∙ mine)
        (ap bswap16 (field16-front front xs 12 (omega (arith, size))) ∙ ether)
      ∙ ip_rx-udp (netcore_rx nic depth) (front ++ xs) 14 (length (front ++ xs) - 14) src_ip k n
          (ip_accepts-after front xs (length (front ++ xs) - 14) n.g_ip size ∙ ok)
          (byte-after front xs 23 9 (omega (arith, size)) ∙ proto)
          (field32-after front xs 26 12 (omega (arith, size)) ∙ src)
          (ap bswap16 (field16-after front xs 16 2 (omega (arith, size))) ∙ whole)
      ∙ ap some (
          udp_rx-fields src_ip src_port dst_port (front ++ xs) 34 k n
            (ap bswap16 (field16-after front xs 34 20 (omega (arith, size))) ∙ from)
            (ap bswap16 (field16-after front xs 36 22 (omega (arith, size))) ∙ to)
            (ap bswap16 (field16-after front xs 38 24 (omega (arith, size))) ∙ len) handler)

  -- A frame with 14 bytes of Ethernet header, to this interface or to everyone, with a datagram for
  -- this interface of at most 982 bytes in a packet whose header has its checksum in network order,
  -- followed by any padding, reaches the UDP handler, if there is one, with the address and the ports
  -- that it was sent with, of 32 and 16 bits, and with its bytes, and nothing else of the state changes.
  pub netcore_rx-udp_packet :
      (depth : ℕ) (front bytes padding : List ℕ) (id src_ip dst_port src_port : ℕ) (n : Net nic)
      → length front ≡ 14
      → (mac_eq front n.g_mac || mac_is_bcast front) ≡ true
      → bswap16 (field16 front 12) ≡ 0x0800
      → src_ip < 2 ^ 32
      → n.g_ip < 2 ^ 32
      → dst_port < 2 ^ 16
      → src_port < 2 ^ 16
      → length bytes ≤ 982
      → n.has_udp_cb ≡ true
      → let frame : List ℕ =
          front
          ++ (network_header 17 (8 + length bytes) id src_ip n.g_ip
              ++ (udp_packet dst_port src_port bytes ++ padding)) in
        (netcore_rx nic (suc depth) frame n
          ≡ some (record n {
            calls =
                record {
                  src_ip = src_ip;
                  src_port = src_port;
                  dst_port = dst_port;
                  buf = frame;
                  off = 42;
                  len = length bytes;
                }
                ∷ n.calls;
          }))
        × (bytes_at frame 42 (length bytes) ≡ bytes)
  unfolding udp_packet field16
  netcore_rx-udp_packet depth front bytes padding id src_ip dst_port src_port n size mine ether
        src_lt g_lt dst_p src_p short handler =
      let k : ℕ = length bytes in
      let rest : List ℕ = udp_packet dst_port src_port bytes ++ padding in
      let xs : List ℕ = network_header 17 (8 + k) id src_ip n.g_ip ++ rest in
      (
        netcore_rx-fields depth front xs src_ip src_port dst_port k n size mine ether
            (accepted k id src_ip n.g_ip rest short (length (front ++ xs) - 14) g_lt
              (omega (arith, length-append front xs, size, length-append bytes padding)))
            refl (from_src k id src_ip n.g_ip rest short src_lt)
            (total k id src_ip n.g_ip rest short) (field src_port src_p) (field dst_port dst_p)
            (field ((8 + k) % 2 ^ 16) (omega arith) ∙ omega (arith, short)) handler,
        ap (take k) (drop-after front xs 42 28 (omega (arith, size))) ∙ take-length bytes padding,
      )
