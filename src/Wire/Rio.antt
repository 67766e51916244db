-- ===== src/Wire/Rio.antt =====
-- The Route Information option, `Rio` of src/wire.rs.
use snak_machine_rs.Base.{
  ℕ, ◌-◌, ◌*◌, ◌&&◌, ◌||◌, not, [], ◌∷◌, ◌++◌, Option, none, some, ltb, leb, ◌==◌, if◌then◌else◌,
  Bytes, byte, take, drop, length, replicate, to_be,
}
use snak_machine_rs.Wire.Address.{octets, of_octets}
use snak_machine_rs.Wire.Pio.{u32_at}
use snak_machine_rs.Wire.Preference
use snak_machine_rs.Wire.Preference.{Preference}
use snak_machine_rs.Wire.Prefix.{Prefix, new}

pub record Rio : Type 0 where
  pub prefix : Prefix
  pub preference : Preference
  pub lifetime : ℕ

-- The literal of `decode`, whose `?` returns where a field is none.
abbrev pub built : ℕ → Option Prefix → Option Preference → Option Rio
built lifetime (some p) (some q) = some (record { prefix = p; preference = q; lifetime = lifetime })
built lifetime (some p) none = none
built lifetime none q = none

-- `let mut a = [0; 16]; a[..b.len() - 8].copy_from_slice(&b[8..])`.
abbrev pub padded : Bytes → Bytes
padded b = drop 8 b ++ replicate (24 - length b) 0

unfoldable pub decode : Bytes → Option Rio
decode b =
    if ltb (length b) 8
      || not (byte b 0 == 24)
      || not (leb 1 (byte b 1) && leb (byte b 1) 3)
      || not (length b == byte b 1 * 8)
      || ltb 128 (byte b 2)
      || (ltb 0 (byte b 2) && ltb (byte b 1) 2)
      || (ltb 64 (byte b 2) && ltb (byte b 1) 3)
    then none
    else built (u32_at b 4) (new (of_octets (padded b)) (byte b 2)) (Preference.decode (byte b 3))

-- The length field: one, two or three units of eight bytes.
unfoldable pub units : ℕ → ℕ
units length = if length == 0 then 1 else if leb length 64 then 2 else 3

unfoldable pub encode : Rio → Bytes
unfolding units
encode r =
    let n = units r.prefix.length in
    (24 ∷ n ∷ r.prefix.length ∷ Preference.bits r.preference ∷ [])
    ++ to_be 4 r.lifetime
    ++ take ((n - 1) * 8) (octets r.prefix.address)
