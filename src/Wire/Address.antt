-- ===== src/Wire/Address.antt =====
-- Addresses: `std::net::Ipv6Addr` as a number, and the address predicates of src/wire.rs.
use snak_machine_rs.Base.{ℕ, ◌+◌, ◌*◌, ◌/◌, ◌%◌, Bool, ◌==◌, Bytes, to_be, from_be}

abbrev pub Ipv6Addr : Type 0
Ipv6Addr = ℕ

abbrev pub octets : Ipv6Addr → Bytes
octets a = to_be 16 a

abbrev pub of_octets : Bytes → Ipv6Addr
of_octets b = from_be b

-- `Ipv6Addr::is_multicast`: ff00::/8.
abbrev pub is_multicast : Ipv6Addr → Bool
is_multicast a = a / 0x1_00_0000_0000_0000_0000_0000_0000_0000 == 0xff

abbrev pub is_unspecified : Ipv6Addr → Bool
is_unspecified a = a == 0

abbrev pub is_loopback : Ipv6Addr → Bool
is_loopback a = a == 1

-- `a.segments()[0]`.
abbrev pub first_segment : Ipv6Addr → ℕ
first_segment a = a / 0x1_0000_0000_0000_0000_0000_0000_0000 % 0x1_0000

-- `segment & 0xffc0 == 0xfe80`: fe80::/10.
unfoldable pub link_local : Ipv6Addr → Bool
link_local a = first_segment a / 64 * 64 == 0xfe80

-- ff02::1:ff00:0 with the low 24 bits of the address.
unfoldable pub solicited_node : Ipv6Addr → Ipv6Addr
solicited_node a = 0xff02_0000_0000_0000_0000_0001_ff00_0000 + a % 0x100_0000
