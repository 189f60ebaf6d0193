-- ===== src/Net/Tests.antt =====
-- Runs of the model of netcore.c at concrete inputs.
use vinix_os.Base.{
  ℕ, ◌≡◌, ◌↔◌, refl, true, false, Option, none, some, List, [], ◌∷◌, ◌++◌, length, get_or,
  replicate, arith,
}
use vinix_os.Base.Partial.{Holds}
use vinix_os.Net.Bytes.{field16, field32, bswap16}
use vinix_os.Net.Checksum.{sum_words, fold, net_cksum}
use vinix_os.Net.Checksum.Verify.{net_cksum-verifies}
use vinix_os.Net.Arp.{no_entry, arp_find, arp_cache_update}
use vinix_os.Net.Arp.Lookup.{arp_find-arp_cache_update}
use vinix_os.Net.Core.{Nic, Datagram, Net, finished_header}
use vinix_os.Net.Core.Receive.{
  bytes_at, mac_eq, mac_is_bcast, udp_data_len, ip_accepts, ip_rx, udp_rx, receive, netcore_rx,
}
use vinix_os.Net.Core.Send.{udp_packet, netcore_init}
use vinix_os.Net.Core.Rejected.{ip_rx-finished_header}
use vinix_os.Net.Core.Recursion.{netcore_rx-recursion}
use vinix_os.Net.Core.Bounds.{Inside, netcore_rx-Inside}
use vinix_os.Net.Core.Datagrams.{netcore_rx-udp_packet}
use vinix_os.Net.Core.Header.{network_header}

abbrev wire : Nic
wire = record {
  State = Option (List ℕ);
  is_ready = λ s. true;
  send = λ f s. s;
  received = λ s. s;
  rearm = λ s. none;
  mac = λ s. 2 ∷ 0 ∷ 0 ∷ 0 ∷ 0 ∷ 1 ∷ [];
  timer_get_ticks = λ s. 7;
}

-- An echo request from 10.0.0.2 to 10.0.0.1
abbrev echo_frame : List ℕ
echo_frame =
    255 ∷ 255 ∷ 255 ∷ 255 ∷ 255 ∷ 255 ∷ 2 ∷ 0 ∷ 0 ∷ 0 ∷ 0 ∷ 2 ∷ 8 ∷ 0 ∷ 69 ∷ 0 ∷ 0 ∷ 28 ∷ 0 ∷ 0 ∷ 0
    ∷ 0 ∷ 64 ∷ 1 ∷ 102 ∷ 223 ∷ 10 ∷ 0 ∷ 0 ∷ 2 ∷ 10 ∷ 0 ∷ 0 ∷ 1 ∷ 8 ∷ 0 ∷ 247 ∷ 255 ∷ 0 ∷ 0 ∷ 0 ∷ 0
    ∷ []

abbrev my_ip : ℕ
my_ip = 16777226

abbrev started : Net wire
started = record {
  g_mac = 2 ∷ 0 ∷ 0 ∷ 0 ∷ 0 ∷ 1 ∷ [];
  g_ip = my_ip;
  g_ip_id = 0;
  g_arp = replicate 8 no_entry;
  g_icmp_rep = record { got = false; id = 0; seq = 0; ts = 0 };
  reply_buf = replicate 64 0;
  has_udp_cb = true;
  calls = [];
  state = some echo_frame;
}

netcore_rx-recursion_example : netcore_rx wire 5 echo_frame started ≡ none
unfolding mac_eq mac_is_bcast ip_accepts bswap16 field16 field32 net_cksum fold sum_words
netcore_rx-recursion_example =
    netcore_rx-recursion wire echo_frame (λ f s. refl) 5 started
      (refl, refl, (refl, refl, refl, refl, refl, refl, refl))

-- A datagram of three bytes from port 1024 of 10.0.0.2 to port 69 of everyone's 10.0.0.1, whose UDP
-- header says that it has 65535 bytes
abbrev long_frame : List ℕ
long_frame =
    255 ∷ 255 ∷ 255 ∷ 255 ∷ 255 ∷ 255 ∷ 2 ∷ 0 ∷ 0 ∷ 0 ∷ 0 ∷ 2 ∷ 8 ∷ 0 ∷ 69 ∷ 0 ∷ 0 ∷ 31 ∷ 0 ∷ 0 ∷ 0
    ∷ 0 ∷ 64 ∷ 17 ∷ 102 ∷ 204 ∷ 10 ∷ 0 ∷ 0 ∷ 2 ∷ 10 ∷ 0 ∷ 0 ∷ 1 ∷ 4 ∷ 0 ∷ 0 ∷ 69 ∷ 255 ∷ 255 ∷ 0 ∷ 0
    ∷ 1 ∷ 2 ∷ 3 ∷ []

-- Nothing is waiting.
abbrev quiet : Net wire
quiet = record started { state = none }

abbrev call_of_three : Datagram
call_of_three = record {
  src_ip = 0x0200000A;
  src_port = 1024;
  dst_port = 69;
  buf = long_frame;
  off = 42;
  len = 3;
}

-- The handler is called with the three bytes that there are.
long_frame_run :
    netcore_rx wire 1 long_frame quiet ≡ some (record quiet { calls = call_of_three ∷ [] })
unfolding netcore_rx receive ip_rx udp_rx udp_data_len mac_eq mac_is_bcast ip_accepts bswap16
    field16 field32 net_cksum fold sum_words
long_frame_run = refl

netcore_rx-Inside_example : Holds (λ n. Inside n.calls) (netcore_rx wire 1 long_frame quiet)
netcore_rx-Inside_example = netcore_rx-Inside wire 1 long_frame quiet tt

-- Broadcast, with padding
abbrev to_everyone : List ℕ
to_everyone = replicate 6 255 ++ 2 ∷ 0 ∷ 0 ∷ 0 ∷ 0 ∷ 2 ∷ 8 ∷ 0 ∷ []

abbrev three_bytes : List ℕ
three_bytes =
    to_everyone
    ++ (network_header 17 11 7 0x0200000A my_ip ++ (udp_packet 69 1024 (1 ∷ 2 ∷ 3 ∷ []) ++ 0 ∷ []))

netcore_rx-udp_packet_example :
    (netcore_rx wire 1 three_bytes quiet
      ≡ some (record quiet {
        calls =
            record {
              src_ip = 0x0200000A;
              src_port = 1024;
              dst_port = 69;
              buf = three_bytes;
              off = 42;
              len = 3;
            }
            ∷ [];
      }))
    × (bytes_at three_bytes 42 3 ≡ 1 ∷ 2 ∷ 3 ∷ [])
unfolding mac_eq mac_is_bcast bswap16 field16
netcore_rx-udp_packet_example =
    netcore_rx-udp_packet wire 0 to_everyone (1 ∷ 2 ∷ 3 ∷ []) (0 ∷ []) 7 0x0200000A 69 1024 quiet
      refl refl refl (omega arith) (omega arith) (omega arith) (omega arith) (omega arith) refl

ip_rx-finished_header_example :
    ip_rx wire (netcore_rx wire 2) (finished_header 17 0 3 9 my_ip) 0 20 started ≡ some started
unfolding net_cksum fold sum_words finished_header bswap16
ip_rx-finished_header_example =
    ip_rx-finished_header wire (netcore_rx wire 2) (finished_header 17 0 3 9 my_ip) 0 20 started 17
      0 3 9 my_ip (omega arith) refl (λ e. omega (arith, e))

net_cksum-verifies_example :
    (net_cksum (69 ∷ 0 ∷ 186 ∷ 255 ∷ []) ≡ 0)
    × ((net_cksum (69 ∷ 0 ∷ 255 ∷ 186 ∷ []) ≡ 0) ↔ (◌≡◌ {A = ℕ} 186 255))
unfolding net_cksum fold sum_words
net_cksum-verifies_example = net_cksum-verifies (69 ∷ 0 ∷ []) [] refl refl (omega arith)

arp_find-arp_cache_update_example :
    (i : ℕ) × (arp_find 7 5 (arp_cache_update 7 5 (1 ∷ []) (replicate 8 no_entry))
      ≡ (some i, arp_cache_update 7 5 (1 ∷ []) (replicate 8 no_entry)))
    × ((get_or (arp_cache_update 7 5 (1 ∷ []) (replicate 8 no_entry)) i no_entry).mac ≡ 1 ∷ [])
    × (length (arp_cache_update 7 5 (1 ∷ []) (replicate 8 no_entry)) ≡ 8)
arp_find-arp_cache_update_example =
    arp_find-arp_cache_update 7 5 (1 ∷ []) (replicate 8 no_entry) (omega arith) (omega arith)

-- Starting resets the identification and the ARP cache.
netcore_init_run : (netcore_init wire 9 started).g_arp ≡ replicate 8 no_entry
unfolding netcore_init
netcore_init_run = refl
