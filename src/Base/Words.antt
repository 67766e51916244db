-- ===== src/Base/Words.antt =====
-- Machine words. `now + d` of a u64 wraps in a release build; `saturating_add` stops at the maximum.
use Prim.Native.Nat.{ℕ, ◌+◌, ◌/◌, ◌%◌, ◌*◌, min}
use mathlib.Core.Bool.{Bool}
use mathlib.Core.List.{List}
use snak_machine_rs.Base.Tests.{◌==◌}

abbrev pub u16_max : ℕ
u16_max = 0xffff

abbrev pub u32_max : ℕ
u32_max = 0xffff_ffff

abbrev pub u64_max : ℕ
u64_max = 0xffff_ffff_ffff_ffff

abbrev pub add_u64 : ℕ → ℕ → ℕ
add_u64 a b = (a + b) % 0x1_0000_0000_0000_0000

abbrev pub saturating_add : ℕ → ℕ → ℕ
saturating_add a b = min (a + b) u64_max

abbrev pub saturating_add_u32 : ℕ → ℕ → ℕ
saturating_add_u32 a b = min (a + b) u32_max

-- A byte is a number below 256.
abbrev pub Byte : Type 0
Byte = ℕ

abbrev pub Bytes : Type 0
Bytes = List Byte

-- `u16::from_be_bytes([hi, lo])`.
abbrev pub u16_of : Byte → Byte → ℕ
u16_of hi lo = hi * 256 + lo

-- The bit of weight `w`, a power of two: `x & w != 0`.
abbrev pub has_bit : ℕ → ℕ → Bool
has_bit x w = (x / w) % 2 == 1
