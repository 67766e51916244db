-- ===== src/Wire/Nd.antt =====
-- `decode_nd` of src/wire.rs.
use snak_machine_rs.Base.{
  ℕ, zero, suc, ◌*◌, ◌&&◌, ◌||◌, not, List, [], ◌∷◌, ltb, leb, ◌==◌, if◌then◌else◌, Byte, Bytes,
  byte, slice, take, drop, length, any, has_bit, Result, ok, err, ◌>>=◌, ◌>>◌, fail_if,
}
use snak_machine_rs.Wire.Address.{
  of_octets, link_local, is_multicast, is_unspecified, solicited_node,
}
use snak_machine_rs.Wire.Envelope.{
  Envelope, WireError, truncated, invalid, unsupported, transport, checksum,
}

pub record NdOption : Type 0 where
  pub kind : Byte
  pub bytes : Bytes

pub record Nd : Type 0 where
  pub kind : Byte
  pub body : Bytes
  pub options : List NdOption

-- The size of the fixed part of each message.
unfoldable pub nd_base : Byte → Result WireError ℕ
nd_base kind =
    if kind == 133
    then ok 8
    else if kind == 134
    then ok 16
    else if kind == 135
    then ok 24
    else if kind == 136
    then ok 24
    else err unsupported

-- `while !rest.is_empty()`. Each round takes eight bytes at least, so the length is enough fuel.
unfoldable pub nd_options : ℕ → Bytes → Result WireError (List NdOption)
nd_options fuel [] = ok []
nd_options zero (b ∷ rest) = err truncated
nd_options (suc fuel) (b ∷ []) = err truncated
nd_options (suc fuel) (k ∷ l ∷ rest) =
    let whole = k ∷ l ∷ rest in
    let n = l * 8 in
    let others = nd_options fuel (drop n whole) in
    if (n == 0) || ltb (length whole) n
    then err invalid
    else (others >>= λ os. ok (record { kind = k; bytes = take n whole } ∷ os))

-- The checks on the target of a solicitation or an advertisement.
unfoldable pub check_target : Envelope → Bytes → Result WireError (Unit {0})
check_target e b =
    let target = of_octets (slice 8 24 b) in
    do
      fail_if (is_multicast target || is_unspecified target) invalid
      fail_if
          (byte b 0 == 135
            && is_unspecified e.source
            && not (e.destination == solicited_node target))
          invalid
      fail_if
          (byte b 0 == 136
            && (is_unspecified e.source || (is_multicast e.destination && has_bit (byte b 4) 0x40)))
          invalid

unfoldable pub decode_nd : Envelope → Result WireError Nd
unfolding nd_base nd_options check_target
decode_nd e = do
  t ← transport e
  let b = t.bytes
  fail_if
      (not (t.protocol == 58)
        || t.fragmented
        || not (e.hop_limit == 255)
        || ltb (length b) 4
        || not (byte b 1 == 0)
        || not (checksum e.source e.destination 58 b == 0))
      invalid
  base ← nd_base (byte b 0)
  fail_if (ltb (length b) base) truncated
  fail_if (byte b 0 == 134 && not (link_local e.source)) invalid
  fail_if (is_multicast e.source) invalid
  options ← nd_options (length b) (drop base b)
  fail_if
      ((byte b 0 == 133 || byte b 0 == 135)
        && is_unspecified e.source
        && any (λ o. o.kind == 1) options)
      invalid
  if leb 135 (byte b 0) then check_target e b else ok tt
  ok (record { kind = byte b 0; body = b; options = options })
