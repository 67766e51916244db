-- ===== src/Ipv4/Icmp.antt =====
-- `Icmp` of src/ipv4/wire.rs.
use snak_machine_rs.Base.{
  ℕ, Bool, ◌&&◌, ◌||◌, not, ltb, leb, ◌==◌, if◌then◌else◌, Byte, Bytes, byte, drop, length, Io, ok,
  invalid_data, ◌>>=◌, ◌>>◌, fail_if,
}
use snak_machine_rs.Ipv4.Wire.{checksum, quoted}

pub record Icmp : Type 0 where
  pub kind : Byte
  pub code : Byte
  pub bytes : Bytes

-- The largest code of an error message.
unfoldable pub max_code : Byte → ℕ
max_code kind =
    if kind == 3
    then 15
    else if kind == 4
    then 0
    else if kind == 5
    then 3
    else if kind == 11
    then 1
    else 2

abbrev pub is_error : Byte → Bool
is_error kind = kind == 3 || kind == 4 || kind == 5 || kind == 11 || kind == 12

-- An error quotes the start of a packet with eight bytes of its payload.
unfoldable pub check_quote : Bytes → Io (Unit {0})
unfolding quoted max_code
check_quote b = do
  fail_if (ltb (max_code (byte b 0)) (byte b 1)) invalid_data
  fail_if (ltb (length b) 36) invalid_data
  q ← quoted (drop 8 b)
  fail_if (ltb (length q.payload) 8) invalid_data

unfoldable pub parse : Bytes → Io Icmp
unfolding check_quote
parse b = do
  fail_if (not (leb 8 (length b) && leb (length b) 65515) || not (checksum b == 0)) invalid_data
  fail_if ((byte b 0 == 0 || byte b 0 == 8) && not (byte b 1 == 0)) invalid_data
  if is_error (byte b 0) then check_quote b else ok tt
  ok (record { kind = byte b 0; code = byte b 1; bytes = b })
