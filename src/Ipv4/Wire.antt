-- ===== src/Ipv4/Wire.antt =====
-- src/ipv4/wire.rs: IPv4 packets, ARP and ICMP. An address is a number below 2 ^ 32, a hardware address
-- one below 2 ^ 48.
pub mod Options
pub mod RoundTrip
use snak_machine_rs.Base.{
  ℕ, zero, suc, ◌+◌, ◌-◌, ◌*◌, ◌/◌, ◌%◌, min, Bool, true, false, ◌&&◌, ◌||◌, not, Option, none,
  some, [], ◌∷◌, ◌++◌, ltb, leb, ◌==◌, if◌then◌else◌, any, Byte, Bytes, byte, slice, take, drop,
  length, u16_of, u16_max, has_bit, to_be, from_be, Io, ok, err, invalid_data, ◌>>=◌, ◌>>◌, fail_if,
}
use snak_machine_rs.Wire.Envelope.{add_words, fold_carries}

abbrev pub Ipv4Addr : Type 0
Ipv4Addr = ℕ

abbrev pub Mac : Type 0
Mac = ℕ

-- `octets()[0]`.
abbrev pub first_octet : Ipv4Addr → Byte
first_octet a = a / 0x100_0000 % 256

-- `unicast` of src/ipv4/mod.rs: not unspecified, multicast, broadcast or loopback, and below 240.
unfoldable pub unicast : Ipv4Addr → Bool
unicast a =
    not (a == 0)
    && not (first_octet a / 16 == 14)
    && not (a == 0xffff_ffff)
    && not (first_octet a == 127)
    && not (first_octet a == 0)
    && ltb (first_octet a) 240

-- The u32 sum of the words, and its folded complement.
unfoldable pub checksum : Bytes → ℕ
checksum b = 0xffff - fold_carries 2 (add_words 0 b % 0x1_0000_0000) % 0x1_0000

pub record Packet : Type 0 where
  pub source : Ipv4Addr
  pub destination : Ipv4Addr
  pub ttl : Byte
  pub protocol : Byte
  pub payload : Bytes
  pub bytes : Bytes
  pub header_len : ℕ
  pub fragment_offset : ℕ
  pub more_fragments : Bool
  pub dont_fragment : Bool
  pub id : ℕ
  pub traffic_class : Byte

-- A round of the loop over the options up to `h`: the next option, or the end.
unfoldable pub options_step : Bytes → ℕ → ℕ → Io (Option ℕ)
options_step b h at =
    if not (ltb at h)
    then ok none
    else if byte b at == 0
    then (if any (λ v. not (v == 0)) (slice (at + 1) h b) then err invalid_data else ok none)
    else if byte b at == 1
    then ok (some (at + 1))
    else if ltb h (at + 2)
    then err invalid_data
    else if ltb (byte b (at + 1)) 2 || ltb h (at + byte b (at + 1))
    then err invalid_data
    else ok (some (at + byte b (at + 1)))

-- The loop, with the rounds that are left.
unfoldable pub options_loop : ℕ → Bytes → ℕ → ℕ → Io (Unit {0})
options_loop zero b h at = err invalid_data
options_loop (suc rounds) b h at =
    options_step b h at >>= elim [ none ↦ ok tt | some next ↦ options_loop rounds b h next ]

-- `parse_inner`. Each option takes a byte at least, so as many rounds as the header has bytes are enough.
unfoldable pub parse_inner : Bytes → Bool → Io Packet
parse_inner b quoted = do
  fail_if (ltb (length b) 20 || not (byte b 0 / 16 == 4)) invalid_data
  let h = byte b 0 % 16 * 4
  let n = u16_of (byte b 2) (byte b 3)
  fail_if
      (ltb h 20
        || ltb (length b) h
        || ltb n h
        || (not quoted && ltb (length b) n)
        || not (checksum (take h b) == 0))
      invalid_data
  options_loop h b h 20
  let flags = u16_of (byte b 6) (byte b 7)
  let offset = flags % 0x2000 * 8
  let more = has_bit flags 0x2000
  let df = has_bit flags 0x4000
  fail_if
      (has_bit flags 0x8000
        || (df && (more || not (offset == 0)))
        || (more && (not ((n - h) % 8 == 0) || n == h))
        || ltb 65535 (offset + n - h))
      invalid_data
  let m = min n (length b)
  ok (record {
    source = from_be (slice 12 16 b);
    destination = from_be (slice 16 20 b);
    ttl = byte b 8;
    protocol = byte b 9;
    payload = slice h m b;
    bytes = take m b;
    header_len = h;
    fragment_offset = offset;
    more_fragments = more;
    dont_fragment = df;
    id = u16_of (byte b 4) (byte b 5);
    traffic_class = byte b 1;
  })

unfoldable pub parse : Bytes → Io Packet
unfolding parse_inner
parse b = parse_inner b false

-- The first bytes of a packet that an ICMP error carries.
unfoldable pub quoted : Bytes → Io Packet
unfolding parse_inner
quoted b = parse_inner b true

-- The 20 bytes of a header without options, with a number in its checksum field.
abbrev pub plain_header : ℕ → ℕ → Byte → Byte → Ipv4Addr → Ipv4Addr → Bytes
plain_header c n ttl protocol source destination =
    (0x45 ∷ 0 ∷ [])
    ++ (to_be 2 n
        ++ ((0 ∷ 0 ∷ 0 ∷ 0 ∷ ttl ∷ protocol ∷ [])
            ++ (to_be 2 c ++ (to_be 4 source ++ to_be 4 destination))))

unfoldable pub encode : Ipv4Addr → Ipv4Addr → Byte → Byte → Bytes → Io Bytes
unfolding checksum
encode source destination protocol ttl payload = do
  fail_if (ltb u16_max (20 + length payload)) invalid_data
  let n = 20 + length payload
  let c = checksum (plain_header 0 n ttl protocol source destination)
  ok (plain_header c n ttl protocol source destination ++ payload)
