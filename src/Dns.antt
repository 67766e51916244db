-- ===== src/Dns.antt =====
-- src/dns/wire.rs: DNS messages.
pub mod Name
pub mod Rdata
pub mod Reader
pub mod Fields
pub mod Message
pub mod Writer
