-- ===== src/Wire/Pio.antt =====
-- The Prefix Information option, `Pio` of src/wire.rs.
use snak_machine_rs.Base.{
  ℕ, ◌+◌, Bool, ◌&&◌, ◌||◌, not, [], ◌∷◌, ◌++◌, Option, none, some, leb, ◌==◌, if◌then◌else◌, Byte,
  Bytes, byte, slice, length, has_bit, to_be, from_be,
}
use snak_machine_rs.Wire.Address.{octets, of_octets}
use snak_machine_rs.Wire.Prefix.{Prefix, new, routable}

-- `u32_at`.
abbrev pub u32_at : Bytes → ℕ → ℕ
u32_at b n = from_be (slice n (n + 4) b)

pub record Pio : Type 0 where
  pub prefix : Prefix
  pub flags : Byte
  pub preferred : ℕ
  pub valid : ℕ

-- The literal of `decode`, whose `?` returns where the prefix is none.
abbrev pub built : Bytes → Option Prefix → Option Pio
built b none = none
built b (some p) =
    some (record { prefix = p; flags = byte b 3; preferred = u32_at b 8; valid = u32_at b 4 })

unfoldable pub decode : Bytes → Option Pio
decode b =
    if not (length b == 32) || not (byte b 0 == 3) || not (byte b 1 == 4)
    then none
    else built b (new (of_octets (slice 16 32 b)) (byte b 2))

unfoldable pub on_link : Pio → Bool
on_link p = has_bit p.flags 0x80

-- `flags & 0x50 != 0`: the autonomous flag or the DHCPv6-PD flag.
unfoldable pub suitable : Pio → Bool
unfolding on_link routable
suitable p =
    p.prefix.length == 64
    && routable p.prefix
    && on_link p
    && (has_bit p.flags 0x40 || has_bit p.flags 0x10)
    && leb 1800 p.preferred
    && leb p.preferred p.valid

unfoldable pub encode : Pio → Bytes
encode p =
    (3 ∷ 4 ∷ p.prefix.length ∷ p.flags ∷ [])
    ++ to_be 4 p.valid
    ++ to_be 4 p.preferred
    ++ (0 ∷ 0 ∷ 0 ∷ 0 ∷ [])
    ++ octets p.prefix.address
