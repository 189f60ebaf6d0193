-- ===== src/Net/Core/Bounds.antt =====
-- Where the data of the UDP handler's calls lie, in the model of netcore.c.
use vinix_os.Base.{
  ℕ, zero, suc, ◌+◌, ◌-◌, ◌%◌, ◌^◌, ◌≤◌, ◌≡◌, sym, true, not, ◌&&◌, Option, none, some, List, [],
  ◌∷◌, ◌++◌, ◌==◌, ltb, length, arith, inl, inr, Bool-cases, Option-cases,
}
use mathlib.Core.Path.{subst}
use vinix_os.Base.Int.{minus_one}
use vinix_os.Base.Partial.{Holds, >>=-Holds}
use vinix_os.Net.Bytes.{byte, field16, field32, bswap16}
use vinix_os.Net.Core.{
  Nic, Datagram, Net, Deliver, cpsw_tx, ether_tx, arp_request, look_up, cpsw_rx_poll, arp_wait,
  arp_resolve, ip_tx, finished_header,
}
use vinix_os.Net.Core.Receive.{
  mac_eq, mac_is_bcast, udp_data_len, arp_rx, icmp_rx, udp_rx, ip_accepts, ip_rx, receive,
  netcore_rx,
}

-- The data of every call lie inside the buffer of their frame.
abbrev pub Inside : List Datagram → Type 0
Inside [] = Unit
Inside (d ∷ ds) = (d.off + d.len ≤ length d.buf) × Inside ds

udp_data_len-le : (buf : List ℕ) (off len : ℕ) → udp_data_len buf off len ≤ len - 8
unfolding udp_data_len
udp_data_len-le buf off len = ground arith

-- The tests of `ip_rx` keep the payload inside the packet.
ip_accepts-le :
    (buf : List ℕ) (off len : ℕ) (g_ip : ℕ)
    → ip_accepts buf off len g_ip ≡ true
    → (20 ≤ bswap16 (field16 buf (off + 2))) × (bswap16 (field16 buf (off + 2)) ≤ len)
unfolding ip_accepts
ip_accepts-le buf off len g_ip h = (ground (arith, h), ground (arith, h))

module _ (nic : Nic) where
  abbrev IsInside : Net nic → Type 0
  IsInside n = Inside n.calls

  -- A result beside the state.
  abbrev Leaves {ℓ} : {A : Type ℓ} → A × Net nic → Type 0
  Leaves r = IsInside r.1

  abbrev Keeps : Deliver nic → Type 0
  Keeps deliver = (frame : List ℕ) (n : Net nic) → IsInside n → Holds IsInside (deliver frame n)

  ether_tx-calls :
      (dst : List ℕ) (etype : ℕ) (payload : List ℕ) (n : Net nic)
      → (ether_tx nic dst etype payload n).1.calls ≡ n.calls
  unfolding ether_tx cpsw_tx
  ether_tx-calls dst etype payload n = ground arith

  ether_tx-IsInside :
      (dst : List ℕ) (etype : ℕ) (payload : List ℕ) (n : Net nic)
      → IsInside n
      → IsInside (ether_tx nic dst etype payload n).1
  ether_tx-IsInside dst etype payload n h =
      subst Inside (sym (ether_tx-calls dst etype payload n)) h

  look_up-IsInside : (ip : ℕ) (n : Net nic) → IsInside n → IsInside (look_up nic ip n).1
  unfolding look_up
  look_up-IsInside ip n h = h

  cpsw_rx_poll-Holds :
      (deliver : Deliver nic)
      → Keeps deliver
      → (n : Net nic) → IsInside n
      → Holds IsInside (cpsw_rx_poll nic deliver n)
  unfolding cpsw_rx_poll
  cpsw_rx_poll-Holds deliver keeps n h = elim (Option-cases (Nic.received nic n.state)) [
    | inl nothing ↦ rw (nothing, cpsw_rx_poll) h
    | inr (frame, e) ↦
        rw (e, cpsw_rx_poll)
          (elim (Bool-cases (length frame == 0)) [
            | inl empty ↦ rw empty h
            | inr full ↦
                rw full
                  (>>=-Holds IsInside IsInside (deliver frame n) _ (keeps frame n h) (λ m hm. hm))
          ])
  ]

  arp_wait-Holds :
      (deliver : Deliver nic)
      → Keeps deliver
      → (rounds ip : ℕ) (n : Net nic) → IsInside n
      → Holds Leaves (arp_wait nic deliver rounds ip n)
  unfolding arp_wait
  arp_wait-Holds deliver keeps zero ip n h = h
  arp_wait-Holds deliver keeps (suc rounds) ip n h =
      >>=-Holds IsInside Leaves (cpsw_rx_poll nic deliver n) _
        (cpsw_rx_poll-Holds deliver keeps n h)
        (λ m hm. elim (Option-cases (look_up nic ip m).0) [
          | inl no_one ↦ rw no_one (
              arp_wait-Holds deliver keeps rounds ip (look_up nic ip m).1
                (look_up-IsInside ip m hm))
          | inr (mac, e) ↦ rw e (look_up-IsInside ip m hm)
        ])

  arp_resolve-Holds :
      (deliver : Deliver nic)
      → Keeps deliver
      → (ip : ℕ) (n : Net nic) → IsInside n
      → Holds Leaves (arp_resolve nic deliver ip n)
  unfolding arp_resolve arp_request
  arp_resolve-Holds deliver keeps ip n h = elim (Option-cases (look_up nic ip n).0) [
    | inl no_one ↦
        rw (no_one, arp_resolve)
          (arp_wait-Holds deliver keeps 50000 ip _
            (ether_tx-IsInside _ _ _ _ (look_up-IsInside ip n h)))
    | inr (mac, e) ↦ rw (e, arp_resolve) (look_up-IsInside ip n h)
  ]

  ip_tx-Holds :
      (deliver : Deliver nic)
      → Keeps deliver
      → (dst_ip proto : ℕ) (payload : Net nic → List ℕ) (len : ℕ) (n : Net nic) → IsInside n
      → Holds Leaves (ip_tx nic deliver dst_ip proto payload len n)
  unfolding ip_tx
  ip_tx-Holds deliver keeps dst_ip proto payload len n h = elim (Bool-cases (ltb 990 len)) [
    | inl long ↦ rw long h
    | inr short ↦ rw short (
        >>=-Holds Leaves Leaves (arp_resolve nic deliver dst_ip n) _
          (arp_resolve-Holds deliver keeps dst_ip n h) on)
  ]
    where
      on :
          (r : Option (List ℕ) × Net nic)
          → IsInside r.1
          → Holds Leaves (elim r.0 [
            | none ↦ some (minus_one, r.1)
            | some mac ↦
                let header = finished_header proto len r.1.g_ip_id r.1.g_ip dst_ip in
                some (
                  ether_tx nic mac 0x0800
                    (header ++ payload r.1)
                    (record r.1 { g_ip_id = (r.1.g_ip_id + 1) % 2 ^ 16 }))
          ])
      on (none, m) hm = hm
      on (some mac, m) hm = ether_tx-IsInside _ _ _ _ hm

  arp_rx-IsInside :
      (buf : List ℕ) (off len : ℕ) (n : Net nic) → IsInside n → IsInside (arp_rx nic buf off len n)
  unfolding arp_rx
  arp_rx-IsInside buf off len n h = elim (Bool-cases (ltb len 28)) [
    | inl short ↦ rw short h
    | inr long ↦
        rw long
          (elim (Bool-cases
            ((bswap16 (field16 buf (off + 6)) == 1) && (field32 buf (off + 24) == n.g_ip))) [
              | inl request ↦ rw request (ether_tx-IsInside _ _ _ _ h)
              | inr other ↦ rw other h
            ])
  ]

  icmp_rx-Holds :
      (deliver : Deliver nic)
      → Keeps deliver
      → (src_ip : ℕ) (buf : List ℕ) (off len : ℕ) (n : Net nic) → IsInside n
      → Holds IsInside (icmp_rx nic deliver src_ip buf off len n)
  unfolding icmp_rx
  icmp_rx-Holds deliver keeps src_ip buf off len n h = elim (Bool-cases (ltb len 8)) [
    | inl short ↦ rw short h
    | inr long ↦ rw long (elim (Bool-cases (byte buf off == 8)) [
      | inl request ↦
          rw request
            (>>=-Holds Leaves IsInside _ _ (ip_tx-Holds deliver keeps _ _ _ _ _ h) (λ r hr. hr))
      | inr other ↦ rw other (elim (Bool-cases (byte buf off == 0)) [
        | inl reply ↦ rw reply h
        | inr neither ↦ rw neither h
      ])
    ])
  ]

  udp_rx-IsInside :
      (src_ip : ℕ) (buf : List ℕ) (off len : ℕ) (n : Net nic)
      → off + len ≤ length buf
      → IsInside n
      → IsInside (udp_rx nic src_ip buf off len n)
  unfolding udp_rx
  udp_rx-IsInside src_ip buf off len n fits h = elim (Bool-cases (ltb len 8)) [
    | inl short ↦ rw short h
    | inr long ↦ rw long (elim (Bool-cases (ltb (bswap16 (field16 buf (off + 4))) 8)) [
      | inl bad ↦ rw bad h
      | inr fine ↦ rw fine (elim (Bool-cases n.has_udp_cb) [
        | inl handler ↦ rw handler (ground (arith, udp_data_len-le buf off len, long, fits), h)
        | inr nobody ↦ rw nobody h
      ])
    ])
  ]

  ip_rx-Holds :
      (deliver : Deliver nic)
      → Keeps deliver
      → (buf : List ℕ) (off len : ℕ) (n : Net nic) → off + len ≤ length buf
      → IsInside n
      → Holds IsInside (ip_rx nic deliver buf off len n)
  unfolding ip_rx
  ip_rx-Holds deliver keeps buf off len n fits h =
      elim (Bool-cases (ip_accepts buf off len n.g_ip)) [
        | inr refused ↦ rw refused h
        | inl accepted ↦ rw accepted (elim (Bool-cases (byte buf (off + 9) == 1)) [
          | inl icmp ↦ rw icmp (icmp_rx-Holds deliver keeps _ buf _ _ n h)
          | inr other ↦ rw other (elim (Bool-cases (byte buf (off + 9) == 17)) [
            | inl udp ↦ rw udp (
                udp_rx-IsInside _ buf _ _ n
                  (omega (arith, ip_accepts-le buf off len n.g_ip accepted, fits)) h)
            | inr neither ↦ rw neither h
          ])
        ])
      ]

  receive-Holds : (deliver : Deliver nic) → Keeps deliver → Keeps (receive nic deliver)
  unfolding receive
  receive-Holds deliver keeps frame n h = elim (Bool-cases (ltb (length frame) 14)) [
    | inl short ↦ rw short h
    | inr long ↦
        rw long (elim (Bool-cases (not (mac_eq frame n.g_mac) && not (mac_is_bcast frame))) [
          | inl not_mine ↦ rw not_mine h
          | inr mine ↦ rw mine (elim (Bool-cases (bswap16 (field16 frame 12) == 0x0806)) [
            | inl arp ↦ rw arp (arp_rx-IsInside frame _ _ n h)
            | inr other ↦ rw other (elim (Bool-cases (bswap16 (field16 frame 12) == 0x0800)) [
              | inl ip ↦ rw ip (
                  ip_rx-Holds deliver keeps frame 14 (length frame - 14) n (ground (arith, long)) h)
              | inr neither ↦ rw neither h
            ])
          ])
        ])
  ]

  -- If the data of every call of the UDP handler so far lie inside the buffer of their frame, then so do
  -- they after a frame has been received, also for the calls made by the frames that are received inside
  -- it, whatever the lengths in the headers say.
  pub netcore_rx-Inside :
      (depth : ℕ) (frame : List ℕ) (n : Net nic)
      → Inside n.calls
      → Holds IsInside (netcore_rx nic depth frame n)
  unfolding netcore_rx
  netcore_rx-Inside zero frame n h = tt
  netcore_rx-Inside (suc depth) frame n h =
      receive-Holds (netcore_rx nic depth) (netcore_rx-Inside depth) frame n h
