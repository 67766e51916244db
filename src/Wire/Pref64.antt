-- ===== src/Wire/Pref64.antt =====
-- The PREF64 option, `Pref64` of src/wire.rs.
use snak_machine_rs.Base.{
  ℕ, ◌+◌, ◌*◌, ◌/◌, ◌%◌, min, ◌||◌, not, [], ◌∷◌, ◌++◌, Option, none, some, ◌==◌, if◌then◌else◌,
  Bytes, byte, take, drop, length, u16_of, to_be, Result, ok, err,
}
use snak_machine_rs.Wire.Address.{octets, of_octets}
use snak_machine_rs.Wire.Envelope.{WireError, invalid}
use snak_machine_rs.Wire.Prefix.{Prefix, new, is_just}

pub record Pref64 : Type 0 where
  pub prefix : Prefix
  pub lifetime : ℕ

-- The position of a length in `[96, 64, 56, 48, 40, 32]`, the prefix length code.
unfoldable pub plc_of : ℕ → Option ℕ
plc_of length =
    if length == 96
    then some 0
    else if length == 64
    then some 1
    else if length == 56
    then some 2
    else if length == 48
    then some 3
    else if length == 40
    then some 4
    else if length == 32
    then some 5
    else none

-- The same table, indexed by the code.
unfoldable pub length_of : ℕ → Option ℕ
length_of plc =
    if plc == 0
    then some 96
    else if plc == 1
    then some 64
    else if plc == 2
    then some 56
    else if plc == 3
    then some 48
    else if plc == 4
    then some 40
    else if plc == 5
    then some 32
    else none

-- `(lifetime.min(65528).div_ceil(8) as u16) << 3`.
unfoldable pub scaled : ℕ → ℕ
scaled lifetime = (min lifetime 65528 + 7) / 8 % 0x1_0000 * 8 % 0x1_0000

unfoldable pub encode : Pref64 → Result WireError Bytes
unfolding plc_of scaled
encode p = elim (plc_of p.prefix.length) [
  | none ↦ err invalid
  | some plc ↦
      if not (is_just p.prefix (new p.prefix.address p.prefix.length))
      then err invalid
      else ok
          ((38 ∷ 2 ∷ []) ++ to_be 2 (scaled p.lifetime + plc) ++ take 12 (octets p.prefix.address))
]

-- The literal of `decode`, whose `?` returns where the prefix is none.
abbrev pub built : ℕ → Option Prefix → Option Pref64
built lifetime none = none
built lifetime (some p) = some (record { prefix = p; lifetime = lifetime })

-- `word & 0xfff8` is the lifetime, and `word & 7` the code.
unfoldable pub decode : Bytes → Option Pref64
unfolding length_of
decode b =
    if not (length b == 16) || not (byte b 0 == 38) || not (byte b 1 == 2)
    then none
    else (let word = u16_of (byte b 2) (byte b 3) in
        elim (length_of (word % 8)) [
          | none ↦ none
          | some n ↦ built (word / 8 * 8) (new (of_octets (drop 4 b ++ 0 ∷ 0 ∷ 0 ∷ 0 ∷ [])) n)
        ])
