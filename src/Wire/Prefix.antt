-- ===== src/Wire/Prefix.antt =====
-- `Prefix` of src/wire.rs.
pub mod Laws
use snak_machine_rs.Base.{
  ℕ, ◌-◌, ◌*◌, ◌/◌, ◌^◌, Bool, true, false, ◌&&◌, ◌||◌, not, Option, none, some, ltb, ◌==◌,
  if◌then◌else◌,
}
use snak_machine_rs.Wire.Address.{Ipv6Addr, link_local, is_multicast, is_unspecified, is_loopback}

pub record Prefix : Type 0 where
  pub address : Ipv6Addr
  pub length : ℕ

-- `address & (u128::MAX << (128 - length))`, and zero for the empty prefix.
unfoldable pub masked : Ipv6Addr → ℕ → Ipv6Addr
masked address length = if length == 0 then 0 else address / 2 ^ (128 - length) * 2 ^ (128 - length)

unfoldable pub new : Ipv6Addr → ℕ → Option Prefix
unfolding masked
new address length =
    if ltb 128 length
    then none
    else some (record { address = masked address length; length = length })

-- The derived `==`.
abbrev pub eq : Prefix → Prefix → Bool
eq p q = p.address == q.address && p.length == q.length

-- The derived `<`: by address, then by length.
abbrev pub less : Prefix → Prefix → Bool
less p q = ltb p.address q.address || (p.address == q.address && ltb p.length q.length)

abbrev pub is_just : Prefix → Option Prefix → Bool
is_just p none = false
is_just p (some q) = eq q p

unfoldable pub contains : Prefix → Ipv6Addr → Bool
unfolding new
contains p address = is_just p (new address p.length)

-- fc00::/7.
unfoldable pub ula : Prefix → Bool
ula p = p.address / 0x1_00_0000_0000_0000_0000_0000_0000_0000 / 2 * 2 == 0xfc

unfoldable pub routable : Prefix → Bool
unfolding link_local
routable p =
    ltb 0 p.length
    && not (link_local p.address)
    && not (is_multicast p.address)
    && not (is_unspecified p.address)
    && not (is_loopback p.address)
