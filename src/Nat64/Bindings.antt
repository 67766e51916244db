-- ===== src/Nat64/Bindings.antt =====
-- src/nat64/bindings.rs and its children: the binding information base and its sessions.
pub mod Tables
pub mod Expire
pub mod Allocate
pub mod Sessions
pub mod Udp
pub mod Tcp
pub mod Icmp
pub mod Invariant
