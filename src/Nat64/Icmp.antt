-- ===== src/Nat64/Icmp.antt =====
-- src/nat64/icmp.rs: ICMP error types, codes and pointers across the two families (RFC 7915).
pub mod Translation
use snak_machine_rs.Base.{
  ℕ, ◌+◌, ◌-◌, min, max, Bool, ◌||◌, ◌&&◌, Option, none, some, ltb, leb, ◌==◌, if◌then◌else◌, List,
  [], ◌∷◌, saturating_add_u32, u32_max,
}

-- Type, code, and the semantic MTU or pointer.
abbrev pub Message : Type 0
Message = ℕ × ℕ × ℕ

abbrev pub plateaus : List ℕ
plateaus = 65535 ∷ 32000 ∷ 17914 ∷ 8166 ∷ 4352 ∷ 2002 ∷ 1492 ∷ []

-- The first plateau below the quoted length, else zero.
unfoldable pub plateau_below : ℕ → List ℕ → ℕ
plateau_below quoted [] = 0
plateau_below quoted (v ∷ vs) =
    let rest = plateau_below quoted vs in if ltb v quoted then v else rest

unfoldable pub mtu_v4_to_v6 : ℕ → ℕ → ℕ → ℕ → ℕ
unfolding plateau_below
mtu_v4_to_v6 value quoted_length mtu4 mtu6 =
    let mtu = if value == 0 then plateau_below quoted_length plateaus else value in
    max (min (min (saturating_add_u32 mtu 20) mtu6) (saturating_add_u32 mtu4 20)) 1280

-- Where a pointer into an IPv4 header points in the IPv6 header.
unfoldable pub pointer_v4_to_v6 : ℕ → Option ℕ
pointer_v4_to_v6 value =
    if value == 0
    then some 0
    else if value == 1
    then some 1
    else if value == 2 || value == 3
    then some 4
    else if value == 8
    then some 7
    else if value == 9
    then some 6
    else if leb 12 value && leb value 15
    then some 8
    else if leb 16 value && leb value 19
    then some 24
    else none

abbrev pub with_pointer : ℕ → ℕ → Option ℕ → Option Message
with_pointer kind code none = none
with_pointer kind code (some p) = some (kind, code, p)

-- Destination Unreachable, by code.
unfoldable pub unreachable_v4_to_v6 : ℕ → ℕ → ℕ → ℕ → ℕ → Option Message
unreachable_v4_to_v6 code value quoted_length mtu4 mtu6 =
    if code == 0 || code == 1 || leb 5 code && leb code 8 || code == 11 || code == 12
    then some (1, 0, 0)
    else if code == 2
    then some (4, 1, 6)
    else if code == 3
    then some (1, 4, 0)
    else if code == 4
    then some (2, 0, mtu_v4_to_v6 value quoted_length mtu4 mtu6)
    else if code == 9 || code == 10 || code == 13 || code == 15
    then some (1, 1, 0)
    else none

unfoldable pub v4_to_v6 : ℕ → ℕ → ℕ → ℕ → ℕ → ℕ → Option Message
v4_to_v6 kind code value quoted_length mtu4 mtu6 =
    if kind == 3
    then unreachable_v4_to_v6 code value quoted_length mtu4 mtu6
    else if kind == 11 && (code == 0 || code == 1)
    then some (3, code, 0)
    else if kind == 12 && (code == 0 || code == 2)
    then with_pointer 4 0 (pointer_v4_to_v6 value)
    else none

unfoldable pub mtu_v6_to_v4 : ℕ → ℕ → ℕ → ℕ
mtu_v6_to_v4 value mtu4 mtu6 = min (max (min (min (value - 20) mtu4) (mtu6 - 20)) 68) 65535

-- Where a pointer into an IPv6 header points in the IPv4 header.
unfoldable pub pointer_v6_to_v4 : ℕ → Option ℕ
pointer_v6_to_v4 value =
    if value == 0
    then some 0
    else if value == 1
    then some 1
    else if value == 4 || value == 5
    then some 2
    else if value == 6
    then some 9
    else if value == 7
    then some 8
    else if leb 8 value && leb value 23
    then some 12
    else if leb 24 value && leb value 39
    then some 16
    else none

unfoldable pub v6_to_v4 : ℕ → ℕ → ℕ → ℕ → ℕ → Option Message
v6_to_v4 kind code value mtu4 mtu6 =
    if kind == 1 && (code == 0 || code == 2 || code == 3)
    then some (3, 1, 0)
    else if kind == 1 && code == 1
    then some (3, 10, 0)
    else if kind == 1 && code == 4
    then some (3, 3, 0)
    else if kind == 2 && code == 0
    then some (3, 4, mtu_v6_to_v4 value mtu4 mtu6)
    else if kind == 3 && (code == 0 || code == 1)
    then some (11, code, 0)
    else if kind == 4 && code == 0
    then with_pointer 12 0 (pointer_v6_to_v4 value)
    else if kind == 4 && code == 1
    then some (3, 2, 0)
    else none
