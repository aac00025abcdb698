-- ===== src/Util.antt =====
-- pkg/util: name resolution, the ARP cache, addresses.
pub mod Ip
pub mod Addresses
pub mod Dns
pub mod Arp
pub mod Icmp
mod Tests
