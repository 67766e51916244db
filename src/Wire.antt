-- ===== src/Wire.antt =====
-- src/wire.rs: IPv6 envelopes, extension headers, Neighbor Discovery and its options.
-- An address is a number below 2 ^ 128; a packet is a list of bytes.
pub mod Address
pub mod Envelope
pub mod Nd
pub mod Prefix
pub mod Pio
pub mod Preference
pub mod Rio
pub mod Pref64
pub mod RoundTrip
pub mod Packets
pub mod Advertisement
pub mod HopOptions
