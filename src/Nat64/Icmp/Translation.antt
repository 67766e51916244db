-- ===== src/Nat64/Icmp/Translation.antt =====
-- src/nat64/icmp.rs: bounds on translated MTUs, and what the two directions agree on.
use snak_machine_rs.Base.{
  ℕ, ◌+◌, ◌≤◌, ◌<◌, ◌≡◌, Option, none, some, arith, u32_max, inl, inr, Option-cases, Bool-cases,
  ◌==◌, if◌then◌else◌, ltb, ◌/◌, ◌*◌,
}
use snak_machine_rs.Nat64.Icmp.{
  Message, with_pointer, unreachable_v4_to_v6, mtu_v4_to_v6, pointer_v4_to_v6, pointer_v6_to_v4,
  v4_to_v6, v6_to_v4,
}

-- A Packet Too Big of the IPv6 side never reports less than 1280, and where both links allow 1280 or
-- more, never more than the next IPv6 link takes or than the IPv4 link takes with the longer header.
pub mtu_v4_to_v6_bounds :
    (value quoted mtu4 mtu6 : ℕ)
    → 1280 ≤ mtu6
    → 1260 ≤ mtu4
    → mtu4 + 20 ≤ u32_max
    → let m = mtu_v4_to_v6 value quoted mtu4 mtu6 in (1280 ≤ m) × (m ≤ mtu6) × (m ≤ mtu4 + 20)
unfolding mtu_v4_to_v6
mtu_v4_to_v6_bounds value quoted mtu4 mtu6 h k l = ground arith

-- The start of the IPv4 header field that a byte belongs to, where the field has a translation.
abbrev pub field_start : ℕ → ℕ
field_start value =
    if ltb value 2
    then value
    else if ltb value 4
    then 2
    else if ltb value 12
    then value
    else value / 4 * 4

-- A pointer into an IPv4 header that is translated comes back as the start of the field that it
-- pointed into, at most three bytes before.
pub pointer_round_trip :
    (value p : ℕ)
    → pointer_v4_to_v6 value ≡ some p
    → (pointer_v6_to_v4 p ≡ some (field_start value))
      × (field_start value ≤ value)
      × (value < field_start value + 4)
unfolding pointer_v4_to_v6 pointer_v6_to_v4
pointer_round_trip value p h = ground arith

abbrev pub kind_of : Option Message → Option ℕ
kind_of none = none
kind_of (some (kind, code, value)) = some kind

pointer-defined :
    (value p : ℕ)
    → pointer_v4_to_v6 value ≡ some p
    → kind_of (with_pointer 12 0 (pointer_v6_to_v4 p)) ≡ some 12
pointer-defined value p h = ground (arith, pointer_round_trip value p h)

abbrev BackTo : ℕ → ℕ → ℕ → Message → Type 0
BackTo kind mtu4 mtu6 m =
    (1 ≤ m.0) × (m.0 ≤ 4) × (kind_of (v6_to_v4 m.0 m.1 m.2 mtu4 mtu6) ≡ some kind)

unreachable-BackTo :
    (code value quoted mtu4 mtu6 : ℕ) (m : Message)
    → unreachable_v4_to_v6 code value quoted mtu4 mtu6 ≡ some m
    → BackTo 3 mtu4 mtu6 m
unfolding unreachable_v4_to_v6 v6_to_v4
unreachable-BackTo code value quoted mtu4 mtu6 m h = ground arith

pointer-BackTo :
    (mtu4 mtu6 value : ℕ) (m : Message)
    → with_pointer 4 0 (pointer_v4_to_v6 value) ≡ some m
    → BackTo 12 mtu4 mtu6 m
unfolding v6_to_v4
pointer-BackTo mtu4 mtu6 value m h = elim (Option-cases (pointer_v4_to_v6 value)) [
  | inl e ↦ absurd (ground arith)
  | inr (p, e) ↦ ground (arith, pointer-defined value p e)
]

-- An ICMPv4 error that is translated to ICMPv6 becomes an ICMPv6 error, of a type from 1 to 4, whose
-- translation back under the same link MTUs is an ICMPv4 error of the original type.
pub v4_to_v6_back :
    (kind code value quoted mtu4 mtu6 : ℕ) (m : Message)
    → v4_to_v6 kind code value quoted mtu4 mtu6 ≡ some m
    → (1 ≤ m.0) × (m.0 ≤ 4) × (kind_of (v6_to_v4 m.0 m.1 m.2 mtu4 mtu6) ≡ some kind)
unfolding v4_to_v6
v4_to_v6_back kind code value quoted mtu4 mtu6 m h = elim (Bool-cases (kind == 3)) [
  | inl unreachable ↦
      let e : kind ≡ 3 = ground arith in
      rw e (unreachable-BackTo code value quoted mtu4 mtu6 m (ground arith))
  | inr reachable ↦ elim (Bool-cases (kind == 11)) [
    | inl exceeded ↦ unfold v6_to_v4 in ground arith
    | inr timely ↦
        let e : kind ≡ 12 = ground arith in rw e (pointer-BackTo mtu4 mtu6 value m (ground arith))
  ]
]
