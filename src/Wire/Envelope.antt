-- ===== src/Wire/Envelope.antt =====
-- `envelope`, `checksum` and `transport` of src/wire.rs.
use snak_machine_rs.Base.{
  ℕ, zero, suc, ◌+◌, ◌-◌, ◌*◌, ◌/◌, ◌%◌, Bool, true, false, ◌&&◌, not, [], ◌∷◌, Option, none, some,
  ltb, ◌==◌, if◌then◌else◌, Byte, Bytes, byte, slice, take, drop, length, u16_of, Result, ok, err,
  ◌>>=◌, ◌>>◌, fail_if, to_be,
}
use snak_machine_rs.Wire.Address.{Ipv6Addr, octets, of_octets}

pub data FrameKind : Type 0 where
  ethernet raw_ipv6 : FrameKind

pub data WireError : Type 0 where
  truncated invalid unsupported capacity : WireError

pub record Envelope : Type 0 where
  pub packet : Bytes
  pub payload : Bytes
  pub source : Ipv6Addr
  pub destination : Ipv6Addr
  pub next_header : Byte
  pub hop_limit : Byte

-- The IPv6 packet of a frame.
abbrev pub unframe : FrameKind → Bytes → Result WireError Bytes
unframe raw_ipv6 frame = ok frame
unframe ethernet frame = do
  fail_if (ltb (length frame) 14) truncated
  fail_if (not (byte frame 12 == 0x86 && byte frame 13 == 0xdd)) unsupported
  ok (drop 14 frame)

unfoldable pub envelope : FrameKind → Bytes → Result WireError Envelope
envelope kind frame = do
  p ← unframe kind frame
  fail_if (ltb (length p) 40) truncated
  fail_if (not (byte p 0 / 16 == 6)) invalid
  let end = 40 + u16_of (byte p 4) (byte p 5)
  fail_if (ltb (length p) end) truncated
  ok (record {
    packet = take end p;
    payload = drop 40 (take end p);
    source = of_octets (slice 8 24 p);
    destination = of_octets (slice 24 40 p);
    next_header = byte p 6;
    hop_limit = byte p 7;
  })

-- The closure `add` of `checksum`: big-endian 16-bit words, the last one padded with a zero byte.
unfoldable pub add_words : ℕ → Bytes → ℕ
add_words n [] = n
add_words n (hi ∷ []) = n + hi * 256
add_words n (hi ∷ lo ∷ rest) = add_words (n + (hi * 256 + lo)) rest

-- `while n >> 16 != 0 { n = (n & 65535) + (n >> 16) }`; two rounds are enough for a u32.
unfoldable pub fold_carries : ℕ → ℕ → ℕ
fold_carries zero n = n
fold_carries (suc rounds) n =
    let next = fold_carries rounds (n % 0x1_0000 + n / 0x1_0000) in
    if n / 0x1_0000 == 0 then n else next

-- The u32 accumulator, whose additions wrap.
unfoldable pub checksum_words : Ipv6Addr → Ipv6Addr → Byte → Bytes → ℕ
checksum_words source destination next bytes =
    let addresses = add_words (add_words 0 (octets source)) (octets destination) in
    let pseudo = add_words addresses (to_be 4 (length bytes)) + next in
    add_words pseudo bytes % 0x1_0000_0000

-- `!(n as u16)`.
unfoldable pub checksum : Ipv6Addr → Ipv6Addr → Byte → Bytes → ℕ
checksum source destination next bytes =
    0xffff - fold_carries 2 (checksum_words source destination next bytes) % 0x1_0000

pub record Transport : Type 0 where
  pub protocol : Byte
  pub bytes : Bytes
  pub fragmented : Bool
  pub non_initial : Bool

-- The size of the extension header that starts `p`; `none` at any other protocol.
unfoldable pub extension_size : Byte → Bytes → Result WireError (Option ℕ)
extension_size next p =
    if next == 0
    then tlv
    else if next == 43
    then tlv
    else if next == 60
    then tlv
    else if next == 44
    then ok (some 8)
    else if next == 51
    then authentication
    else ok none
  where
    tlv : Result WireError (Option ℕ)
    tlv = do fail_if (ltb (length p) 2) truncated; ok (some ((byte p 1 + 1) * 8))

    authentication : Result WireError (Option ℕ)
    authentication = do fail_if (ltb (length p) 2) truncated; ok (some ((byte p 1 + 2) * 4))

-- A Fragment header whose offset is not zero.
abbrev pub is_nonfirst : Byte → Bytes → Bool
is_nonfirst next p = next == 44 && not (u16_of (byte p 2) (byte p 3) / 8 == 0)

-- `for _ in 0..16`, with the rounds that are left.
unfoldable pub transport_loop : ℕ → Byte → Bytes → Bool → Result WireError Transport
unfolding extension_size
transport_loop zero next p fragmented = err invalid
transport_loop (suc rounds) next p fragmented = extension_size next p >>= elim [
  | none ↦ ok (record { protocol = next; bytes = p; fragmented = fragmented; non_initial = false })
  | some n ↦ do
    fail_if (ltb (length p) n) truncated
    let rest = transport_loop rounds (byte p 0) (drop n p) (if next == 44 then true else fragmented)
    if is_nonfirst next p
        then ok (record {
          protocol = byte p 0;
          bytes = drop n p;
          fragmented = true;
          non_initial = true;
        })
        else rest
]

unfoldable pub transport : Envelope → Result WireError Transport
transport e = transport_loop 16 e.next_header e.payload false
