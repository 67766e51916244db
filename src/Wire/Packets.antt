-- ===== src/Wire/Packets.antt =====
-- `ipv6_packet` and `icmp_packet` of src/wire.rs.
pub mod Checksum
use snak_machine_rs.Base.{
  ℕ, ◌+◌, ◌*◌, ◌/◌, ◌%◌, List, [], ◌∷◌, ◌++◌, ltb, Byte, Bytes, byte, drop, length, to_be, Result,
  ok, err, ◌>>=◌, ◌>>◌, fail_if, u16_max,
}
use snak_machine_rs.Wire.Address.{Ipv6Addr, octets}
use snak_machine_rs.Wire.Envelope.{WireError, invalid, capacity, checksum}

unfoldable pub ipv6_packet : Ipv6Addr → Ipv6Addr → Byte → Byte → Bytes → Result WireError Bytes
ipv6_packet source destination next hop payload = do
  fail_if (ltb u16_max (length payload)) capacity
  ok (
      (0x60 ∷ 0 ∷ 0 ∷ 0 ∷ [])
      ++ to_be 2 (length payload)
      ++ (next ∷ hop ∷ [])
      ++ octets source
      ++ octets destination
      ++ payload)

-- The body with a number in its checksum field, `body[2..4]`.
abbrev pub with_checksum : ℕ → Bytes → Bytes
with_checksum c body = byte body 0 ∷ byte body 1 ∷ to_be 2 c ++ drop 4 body

unfoldable pub icmp_packet : Ipv6Addr → Ipv6Addr → Byte → Bytes → Result WireError Bytes
unfolding ipv6_packet
icmp_packet source destination hop body = do
  fail_if (ltb (length body) 4) invalid
  let c = checksum source destination 58 (with_checksum 0 body)
  ipv6_packet source destination 58 hop (with_checksum c body)
