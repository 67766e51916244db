-- ===== src/Wire/Preference.antt =====
-- Route preferences, `Preference` of src/wire.rs.
use snak_machine_rs.Base.{◌/◌, ◌%◌, Option, none, some, ◌==◌, ◌≡◌, refl, if◌then◌else◌, Byte}

pub data Preference : Type 0 where
  low medium high : Preference

-- `flags & 0x18`: bits 3 and 4.
unfoldable pub decode : Byte → Option Preference
decode flags =
    let bits = flags / 8 % 4 in
    if bits == 0
    then some medium
    else if bits == 1
    then some high
    else if bits == 3
    then some low
    else none

unfoldable pub bits : Preference → Byte
bits low = 24
bits medium = 0
bits high = 8

pub decode-bits : (p : Preference) → decode (bits p) ≡ some p
unfolding decode bits
decode-bits low = refl
decode-bits medium = refl
decode-bits high = refl
