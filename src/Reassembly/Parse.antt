-- ===== src/Reassembly/Parse.antt =====
-- `parse` of src/ip_reassembly.rs: the fragment that a packet is.
use snak_machine_rs.Base.{
  ℕ, zero, suc, ◌+◌, ◌*◌, ◌/◌, ◌%◌, ◌≡◌, ◌↔◌, arith, Bool, true, ◌&&◌, ◌||◌, not, Option, none,
  some, [], ◌∷◌, ltb, ◌==◌, if◌then◌else◌, Byte, Bytes, byte, slice, take, drop, length, u16_of,
  from_be, has_bit, overwrite, Io, ok, err, invalid_data, ◌>>=◌, ◌>>◌, fail_if, map_err,
}
use snak_machine_rs.Base.Maps.{Key}
use snak_machine_rs.Wire.Envelope.{Envelope, envelope, raw_ipv6}
use snak_machine_rs.Ipv4.Wire
use snak_machine_rs.Ipv4.Wire.{Packet}

-- `IpAddr`, whose derived order has IPv4 first.
pub data IpAddr : Type 0 where
  v4 v6 : ℕ → IpAddr

abbrev pub family : IpAddr → ℕ
family (v4 a) = 0
family (v6 a) = 1

abbrev pub number : IpAddr → ℕ
number (v4 a) = a
number (v6 a) = a

same_address : (a b : IpAddr) → family a ≡ family b → number a ≡ number b → a ≡ b
same_address (v4 a) (v4 b) e n = cc
same_address (v4 a) (v6 b) e n = absurd (omega (arith, e))
same_address (v6 a) (v4 b) e n = absurd (omega (arith, e))
same_address (v6 a) (v6 b) e n = cc

-- `Key`: the scope, the addresses, the protocol and the identification.
pub record FragmentKey : Type 0 where
  pub scope : ℕ
  pub source : IpAddr
  pub destination : IpAddr
  pub protocol : Byte
  pub id : ℕ

abbrev address_equal : IpAddr → IpAddr → Bool
address_equal a b = family a == family b && number a == number b

abbrev address_less : IpAddr → IpAddr → Bool
address_less a b = ltb (family a) (family b) || (family a == family b && ltb (number a) (number b))

unfoldable pub key_equal : FragmentKey → FragmentKey → Bool
key_equal a b =
    a.scope == b.scope
    && address_equal a.source b.source
    && address_equal a.destination b.destination
    && a.protocol == b.protocol
    && a.id == b.id

-- Tuples are compared from the left.
unfoldable pub key_less : FragmentKey → FragmentKey → Bool
key_less a b =
    ltb a.scope b.scope
    || (a.scope == b.scope
        && (address_less a.source b.source
            || (address_equal a.source b.source
                && (address_less a.destination b.destination
                    || (address_equal a.destination b.destination
                        && (ltb a.protocol b.protocol
                            || (a.protocol == b.protocol && ltb a.id b.id)))))))

pub key_equal_iff : (a b : FragmentKey) → (key_equal a b ≡ true) ↔ (a ≡ b)
unfolding key_equal
key_equal_iff a b =
    ground (arith, same_address a.source b.source, same_address a.destination b.destination)

instance abbrev pub fragment_key : Key FragmentKey
fragment_key = record { equal = key_equal; less = key_less; equal_iff = key_equal_iff }

pub record Fragment : Type 0 where
  pub key : FragmentKey
  pub header : Bytes
  pub offset : ℕ
  pub more : Bool
  pub payload : Bytes

abbrev zeros : Bytes
zeros = 0 ∷ 0 ∷ []

-- The header without its length, its fragment fields and its checksum.
unfoldable pub parse_v4 : Bytes → Io (Option Fragment)
unfolding Wire.parse
parse_v4 b = do
  p ← Wire.parse b
  fail_if (not (length p.bytes == length b)) invalid_data
  if not p.more_fragments && p.fragment_offset == 0
      then ok none
      else ok (
          some (record {
            key = record {
              scope = 0;
              source = v4 p.source;
              destination = v4 p.destination;
              protocol = p.protocol;
              id = p.id;
            };
            header =
                overwrite 10 zeros (overwrite 6 zeros (overwrite 2 zeros (take p.header_len b)));
            offset = p.fragment_offset;
            more = p.more_fragments;
            payload = p.payload;
          }))

-- The fragment whose header starts at `at`, which the byte at `previous` announces.
unfoldable pub fragment_at : Envelope → Bytes → ℕ → ℕ → Io (Option Fragment)
fragment_at e b at previous = do
  fail_if (ltb (length b) (at + 8) || not (byte b (at + 1) == 0)) invalid_data
  let flags = u16_of (byte b (at + 2)) (byte b (at + 3))
  let next = byte b at
  fail_if
      (not (flags / 2 % 4 == 0)
        || next == 0
        || next == 43
        || next == 44
        || next == 51
        || next == 60)
      invalid_data
  ok (
      some (record {
        key = record {
          scope = 0;
          source = v6 e.source;
          destination = v6 e.destination;
          protocol = 0;
          id = from_be (slice (at + 4) (at + 8) b);
        };
        header = overwrite 4 zeros (overwrite previous (next ∷ []) (take at b));
        offset = flags / 8 * 8;
        more = has_bit flags 1;
        payload = drop (at + 8) b;
      }))

-- The size of an extension header that may stand before a Fragment header.
unfoldable pub header_size : Byte → Bytes → ℕ → Io (Option ℕ)
header_size next b at =
    if next == 0 || next == 43 || next == 60
    then (if ltb (length b) (at + 2)
        then err invalid_data
        else ok (some ((byte b (at + 1) + 1) * 8)))
    else if next == 51
    then (if ltb (length b) (at + 2)
        then err invalid_data
        else ok (some ((byte b (at + 1) + 2) * 4)))
    else ok none

-- `for _ in 0..16`, with the rounds that are left.
unfoldable pub parse_v6 : ℕ → Envelope → Bytes → ℕ → ℕ → Io (Option Fragment)
unfolding fragment_at header_size
parse_v6 zero e b at previous = err invalid_data
parse_v6 (suc rounds) e b at previous =
    if byte b previous == 44
    then fragment_at e b at previous
    else header_size (byte b previous) b at >>= elim [
      | none ↦ ok none
      | some n ↦
          (let rest = parse_v6 rounds e b (at + n) at in
            do fail_if (ltb (length b) (at + n)) invalid_data; rest)
    ]

unfoldable pub parse : Bytes → Io (Option Fragment)
unfolding parse_v4 parse_v6
parse [] = err invalid_data
parse (first ∷ rest) =
    if first / 16 == 4
    then parse_v4 (first ∷ rest)
    else if first / 16 == 6
    then (do
      e ← map_err invalid_data (envelope raw_ipv6 (first ∷ rest))
      fail_if (not (length e.packet == length (first ∷ rest))) invalid_data
      parse_v6 16 e (first ∷ rest) 40 6)
    else err invalid_data
