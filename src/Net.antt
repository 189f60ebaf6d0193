-- ===== src/Net.antt =====
-- The network core, VinixOS/kernel/src/drivers/netcore.c: Ethernet, ARP, IPv4, ICMP and UDP.
pub mod Bytes
pub mod Checksum
pub mod Arp
pub mod Core
mod Tests
