-- ===== src/Net/Core/Recursion.antt =====
-- Echo requests from an address that is not in the ARP cache, in the model of netcore.c.
use vinix_os.Base.{
  ℕ, zero, suc, ◌+◌, ◌-◌, ◌≤◌, ◌≡◌, refl, sym, ap, ◌∙◌, Bool, true, false, not, ◌&&◌, Option, none,
  some, List, [], ◌∷◌, ◌++◌, ◌==◌, ltb, length, take, drop, replicate, arith, inl, inr, Bool-cases,
  get_or,
}
use mathlib.Core.Path.{subst}
use vinix_os.Net.Bytes.{byte, field16, field32, bswap16}
use vinix_os.Net.Arp.{ArpEntry, no_entry, matches_ip, next_index, arp_find}
use vinix_os.Net.Core.{
  Nic, Net, arp_packet, Deliver, cpsw_tx, ether_tx, arp_request, look_up, cpsw_rx_poll, arp_wait,
  arp_resolve, ip_tx,
}
use vinix_os.Net.Core.Receive.{
  mac_eq, mac_is_bcast, echo_dlen, echo_reply, icmp_rx, ip_accepts, ip_rx, receive, netcore_rx,
}

-- No entry is for the address.
abbrev pub is_unknown : ℕ → List ArpEntry → Bool
is_unknown ip [] = true
is_unknown ip (e ∷ es) = not (matches_ip ip e) && is_unknown ip es

arp_find-is_unknown :
    (now ip : ℕ) (es : List ArpEntry) → is_unknown ip es ≡ true → arp_find now ip es ≡ (none, es)
unfolding arp_find
arp_find-is_unknown now ip [] h = refl
arp_find-is_unknown now ip (e ∷ es) h = elim (Bool-cases (matches_ip ip e)) [
  | inl mine ↦ absurd (cc (h, mine))
  | inr other ↦
      rw other (ap (λ r. step r) (arp_find-is_unknown now ip es (ground (arith, h, other))))
]
  where
    step : Option ℕ × List ArpEntry → Option ℕ × List ArpEntry
    step r = (next_index r.0, e ∷ r.1)

-- A frame with an ICMP echo request that an interface with these addresses accepts.
abbrev pub IsEchoRequest : List ℕ → (g_mac : List ℕ) → (g_ip : ℕ) → Type 0
IsEchoRequest frame g_mac g_ip =
    (ltb (length frame) 14 ≡ false)
    × ((not (mac_eq frame g_mac) && not (mac_is_bcast frame)) ≡ false)
    × ((bswap16 (field16 frame 12) == 0x0800) ≡ true)
    × (ip_accepts frame 14 (length frame - 14) g_ip ≡ true)
    × ((byte frame 23 == 1) ≡ true)
    × (ltb (bswap16 (field16 frame 16) - 20) 8 ≡ false)
    × ((byte frame 34 == 8) ≡ true)

echo_dlen-le : (len : ℕ) → echo_dlen len ≤ 56
unfolding echo_dlen
echo_dlen-le len = ground arith

module _ (nic : Nic) (frame : List ℕ) where
  -- The frame that the driver hands over again is this one, and its sender is not in the cache.
  abbrev Repeats : Net nic → Type 0
  Repeats n =
      (Nic.received nic n.state ≡ some frame)
      × (is_unknown (field32 frame 26) n.g_arp ≡ true)
      × IsEchoRequest frame n.g_mac n.g_ip

  module _
      (same : (f : List ℕ) (s : Nic.State nic)
        → Nic.received nic (Nic.send nic f s) ≡ Nic.received nic s) where
    cpsw_tx-Repeats : (f : List ℕ) (n : Net nic) → Repeats n → Repeats (cpsw_tx nic f n).1
    unfolding cpsw_tx
    cpsw_tx-Repeats f n (got, unknown, echo) = elim (Bool-cases (ltb 1024 (length f))) [
      | inl long ↦ rw long (got, unknown, echo)
      | inr short ↦ rw short (elim (Bool-cases (Nic.is_ready nic n.state)) [
        | inl ready ↦ rw ready (same f n.state ∙ got, unknown, echo)
        | inr busy ↦ rw busy (got, unknown, echo)
      ])
    ]

    ether_tx-Repeats :
        (dst : List ℕ) (etype : ℕ) (payload : List ℕ) (n : Net nic)
        → Repeats n
        → Repeats (ether_tx nic dst etype payload n).1
    unfolding ether_tx
    ether_tx-Repeats dst etype payload n h = elim (Bool-cases (ltb 1010 (length payload))) [
      | inl long ↦ rw long h
      | inr short ↦ rw short (cpsw_tx-Repeats _ n h)
    ]

    arp_request-Repeats : (ip : ℕ) (n : Net nic) → Repeats n → Repeats (arp_request nic ip n)
    unfolding arp_request
    arp_request-Repeats ip n h =
        ether_tx-Repeats (replicate 6 0xFF) 0x0806 (arp_packet 1 n.g_mac n.g_ip (replicate 6 0) ip)
          n h

    look_up-Repeats : (n : Net nic) → Repeats n → look_up nic (field32 frame 26) n ≡ (none, n)
    unfolding look_up
    look_up-Repeats n (got, unknown, echo) =
        ap (λ r. step r)
          (arp_find-is_unknown (Nic.timer_get_ticks nic n.state) (field32 frame 26) n.g_arp unknown)
      where
        step : Option ℕ × List ArpEntry → Option (List ℕ) × Net nic
        step r = (
          elim r.0 [ none ↦ none | some i ↦ some (get_or r.1 i no_entry).mac ],
          record n { g_arp = r.1 },
        )

    module _ (deliver : Deliver nic)
        (stops : (n : Net nic) → Repeats n → deliver frame n ≡ none) where
      cpsw_rx_poll-none : (n : Net nic) → Repeats n → cpsw_rx_poll nic deliver n ≡ none
      unfolding cpsw_rx_poll
      cpsw_rx_poll-none n (got, unknown, echo) =
          let full : (length frame == 0) ≡ false = ground (arith, echo.0) in
          rw (got, cpsw_rx_poll) (rw (full, stops n (got, unknown, echo)) refl)

      arp_wait-none :
          (rounds : ℕ) (n : Net nic)
          → Repeats n
          → arp_wait nic deliver (suc rounds) (field32 frame 26) n ≡ none
      unfolding arp_wait
      arp_wait-none rounds n h = rw (cpsw_rx_poll-none n h) refl

      arp_resolve-none :
          (n : Net nic) → Repeats n → arp_resolve nic deliver (field32 frame 26) n ≡ none
      unfolding arp_resolve
      arp_resolve-none n h =
          subst
            (λ r.
              elim r.0 [
                | some m ↦ some (some m, r.1)
                | none ↦
                    arp_wait nic deliver 50000 (field32 frame 26)
                      (arp_request nic (field32 frame 26) r.1)
              ]
              ≡ none)
            (sym (look_up-Repeats n h))
            (arp_wait-none 49999 (arp_request nic (field32 frame 26) n)
              (arp_request-Repeats (field32 frame 26) n h))

      ip_tx-none :
          (payload : Net nic → List ℕ) (len : ℕ) (n : Net nic)
          → ltb 990 len ≡ false
          → Repeats n
          → ip_tx nic deliver (field32 frame 26) 1 payload len n ≡ none
      unfolding ip_tx
      ip_tx-none payload len n short h = rw (short, arp_resolve-none n h) refl

      icmp_rx-none :
          (len : ℕ) (n : Net nic)
          → ltb len 8 ≡ false
          → (byte frame 34 == 8) ≡ true
          → Repeats n
          → icmp_rx nic deliver (field32 frame 26) frame 34 len n ≡ none
      unfolding icmp_rx
      icmp_rx-none len n whole request (got, unknown, echo) =
          let short : ltb 990 (8 + echo_dlen len) ≡ false = ground (arith, echo_dlen-le len) in
          let answered : Net nic = record n {
            reply_buf = echo_reply frame 34 len ++ drop (8 + echo_dlen len) n.reply_buf;
          } in
          rw (whole, request)
            (rw
              (ip_tx-none (λ m. take (8 + echo_dlen len) m.reply_buf) (8 + echo_dlen len) answered
                short (got, unknown, echo))
              refl)

      ip_rx-none :
          (n : Net nic) → Repeats n → ip_rx nic deliver frame 14 (length frame - 14) n ≡ none
      unfolding ip_rx
      ip_rx-none n (got, unknown, echo) =
          let (long, mine, ip, accepted, icmp, whole, request) = echo in
          rw (accepted, icmp) (icmp_rx-none _ n whole request (got, unknown, echo))

      receive-none : (n : Net nic) → Repeats n → receive nic deliver frame n ≡ none
      unfolding receive
      receive-none n (got, unknown, echo) =
          let (long, mine, ip, accepted, icmp, whole, request) = echo in
          let not_arp : (bswap16 (field16 frame 12) == 0x0806) ≡ false = ground (arith, ip) in
          rw (long, mine, not_arp, ip) (ip_rx-none n (got, unknown, echo))

    -- If sending leaves the descriptor for receiving as it is, an echo request that the interface accepts
    -- and whose sender has no entry in the ARP cache is never answered: while the driver holds its frame
    -- the calls inside each other have no end, whatever the depth allowed.
    pub netcore_rx-recursion :
        (depth : ℕ) (n : Net nic) → Repeats n → netcore_rx nic depth frame n ≡ none
    unfolding netcore_rx
    netcore_rx-recursion zero n h = refl
    netcore_rx-recursion (suc depth) n h =
        receive-none (netcore_rx nic depth) (netcore_rx-recursion depth) n h
