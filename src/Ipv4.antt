-- ===== src/Ipv4.antt =====
-- src/ipv4: IPv4 on Ethernet.
pub mod Wire
pub mod Arp
pub mod Icmp
pub mod Routing
pub mod Neighbors
