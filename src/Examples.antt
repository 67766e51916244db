-- ===== src/Examples.antt =====
-- The theorems at concrete inputs.
mod Nat64
mod Wire
mod Parts
mod Packets
mod Dns
mod Selection
