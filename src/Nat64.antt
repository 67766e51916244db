-- ===== src/Nat64.antt =====
-- src/nat64: stateful NAT64.
pub mod Tcp
pub mod Icmp
pub mod Headers
pub mod Bindings
pub mod Observations
pub mod Selection
