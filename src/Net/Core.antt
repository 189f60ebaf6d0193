-- ===== src/Net/Core.antt =====
-- The state of netcore.c, and sending: Ethernet frames, ARP requests and IP packets.
pub mod Receive
pub mod Send
pub mod Bounds
pub mod Rejected
pub mod Recursion
pub mod Frames
pub mod Header
pub mod Datagrams
use vinix_os.Base.{
  ℕ, zero, suc, ◌+◌, ◌-◌, ◌*◌, ◌/◌, ◌%◌, ◌^◌, Bool, true, false, Option, none, some, List, [], ◌∷◌,
  ◌++◌, ◌==◌, ltb, leb, if◌then◌else◌, length, get_or, replicate,
}
use vinix_os.Base.Int.{ℤ, pos, minus_one}
use vinix_os.Base.Partial.{◌>>=◌}
use vinix_os.Net.Bytes.{put16, put32, bswap16}
use vinix_os.Net.Checksum.{net_cksum}
use vinix_os.Net.Arp.{ArpEntry, no_entry, arp_find}

abbrev pub eth_payload_max : ℕ
eth_payload_max = 1010

abbrev pub ip_payload_max : ℕ
ip_payload_max = 990

abbrev pub ip_header_len : ℕ
ip_header_len = 20

abbrev pub icmp_data_len : ℕ
icmp_data_len = 56

abbrev pub cpsw_frame_maxlen : ℕ
cpsw_frame_maxlen = 1024

-- What the code uses of the hardware behind cpsw.c and of the timer: whether the descriptor for sending
-- comes free in time, sending, the frame that the descriptor for receiving holds, handing that
-- descriptor back, the address of the interface, and the time.
pub record Nic : Type 1 where
  pub State : Type 0
  pub is_ready : State → Bool
  pub send : List ℕ → State → State
  pub received : State → Option (List ℕ)
  pub rearm : State → State
  pub mac : State → List ℕ
  pub timer_get_ticks : State → ℕ

-- A call of the UDP handler: its data are `len` bytes from `off` on in the frame's buffer.
pub record Datagram : Type 0 where
  pub src_ip : ℕ
  pub src_port : ℕ
  pub dst_port : ℕ
  pub buf : List ℕ
  pub off : ℕ
  pub len : ℕ

-- `g_icmp_rep`
pub record EchoReply : Type 0 where
  pub got : Bool
  pub id : ℕ
  pub seq : ℕ
  pub ts : ℕ

-- The static variables, `reply_buf` of `icmp_rx` with them, the state of the hardware, and the calls
-- of the UDP handler so far, the last one first.
pub record Net (nic : Nic) : Type 0 where
  pub g_mac : List ℕ
  pub g_ip : ℕ
  pub g_ip_id : ℕ
  pub g_arp : List ArpEntry
  pub g_icmp_rep : EchoReply
  pub reply_buf : List ℕ
  pub has_udp_cb : Bool
  pub calls : List Datagram
  pub state : Nic.State nic

-- The header of an IP packet with these checksum bytes; an address is in the order of the network.
abbrev pub ip_header : (proto len id src dst : ℕ) → List ℕ → List ℕ
ip_header proto len id src dst checksum =
    0x45 ∷ 0 ∷ put16 (bswap16 ((ip_header_len + len) % 2 ^ 16))
    ++ put16 (bswap16 id)
    ++ 0 ∷ 0 ∷ 64 ∷ proto ∷ checksum
    ++ put32 src
    ++ put32 dst

-- The header as `ip_tx` fills it.
unfoldable pub finished_header : (proto len id src dst : ℕ) → List ℕ
finished_header proto len id src dst =
    ip_header proto len id src dst (put16 (net_cksum (ip_header proto len id src dst (0 ∷ 0 ∷ []))))

-- An ARP packet.
abbrev pub arp_packet :
    (opcode : ℕ)
    → (sender_mac : List ℕ) → (sender_ip : ℕ) → (target_mac : List ℕ) → (target_ip : ℕ) → List ℕ
arp_packet opcode sender_mac sender_ip target_mac target_ip =
    put16 (bswap16 1)
    ++ put16 (bswap16 0x0800)
    ++ 6 ∷ 4 ∷ put16 (bswap16 opcode)
    ++ sender_mac
    ++ put32 sender_ip
    ++ target_mac
    ++ put32 target_ip

module _ (nic : Nic) where
  open nic use {is_ready, send, received, rearm, timer_get_ticks}

  unfoldable pub cpsw_tx : List ℕ → Net nic → ℤ × Net nic
  cpsw_tx frame n =
      if ltb cpsw_frame_maxlen (length frame)
      then (minus_one, n)
      else if is_ready n.state
      then (pos 0, record n { state = send frame n.state })
      else (minus_one, n)

  -- What `cpsw_rx_poll` calls for a frame; `none` where the calls inside each other are too deep.
  abbrev pub Deliver : Type 0
  Deliver = List ℕ → Net nic → Option (Net nic)

  unfoldable pub ether_tx :
      (dst : List ℕ) → (etype : ℕ) → (payload : List ℕ) → Net nic → ℤ × Net nic
  ether_tx dst etype payload n =
      let frame = dst ++ n.g_mac ++ put16 (bswap16 etype) ++ payload in
      if ltb eth_payload_max (length payload)
      then (minus_one, n)
      else cpsw_tx (frame ++ replicate (60 - length frame) 0) n

  unfoldable pub arp_request : ℕ → Net nic → Net nic
  arp_request target_ip n =
      (ether_tx (replicate 6 0xFF) 0x0806 (arp_packet 1 n.g_mac n.g_ip (replicate 6 0) target_ip)
        n).1

  -- `arp_find` on the state
  unfoldable pub look_up : ℕ → Net nic → Option (List ℕ) × Net nic
  look_up ip n =
      let (found, es) = arp_find (timer_get_ticks n.state) ip n.g_arp in
      (
        elim found [ none ↦ none | some i ↦ some (get_or es i no_entry).mac ],
        record n { g_arp = es },
      )

  -- The descriptor is handed back only when the callback has returned.
  unfoldable pub cpsw_rx_poll : Deliver → Net nic → Option (Net nic)
  cpsw_rx_poll deliver n = elim (received n.state) [
    | none ↦ some n
    | some frame ↦ do
      m ← if length frame == 0 then some n else deliver frame n
      some (record m { state = rearm m.state })
  ]

  -- The loop of `arp_resolve`.
  unfoldable pub arp_wait :
      Deliver → (rounds : ℕ) → ℕ → Net nic → Option (Option (List ℕ) × Net nic)
  arp_wait deliver zero ip n = some (none, n)
  arp_wait deliver (suc rounds) ip n = do
    n1 ← cpsw_rx_poll deliver n
    let (mac, n2) = look_up ip n1
    elim mac [ some m ↦ some (some m, n2) | none ↦ arp_wait deliver rounds ip n2 ]

  unfoldable pub arp_resolve : Deliver → ℕ → Net nic → Option (Option (List ℕ) × Net nic)
  arp_resolve deliver ip n =
      let (mac, n1) = look_up ip n in
      elim mac [ some m ↦ some (some m, n1) | none ↦ arp_wait deliver 50000 ip (arp_request ip n1) ]

  -- The payload is read from its buffer when the address has been resolved.
  unfoldable pub ip_tx :
      Deliver
      → (dst_ip proto : ℕ) → (payload : Net nic → List ℕ) → (len : ℕ) → Net nic
      → Option (ℤ × Net nic)
  ip_tx deliver dst_ip proto payload len n =
      if ltb ip_payload_max len then some (minus_one, n) else do
        (found, m) ← arp_resolve deliver dst_ip n
        elim found [
          | none ↦ some (minus_one, m)
          | some mac ↦
              let header = finished_header proto len m.g_ip_id m.g_ip dst_ip in
              some (
                ether_tx mac 0x0800 (header ++ payload m)
                  (record m { g_ip_id = (m.g_ip_id + 1) % 2 ^ 16 }))
        ]
