-- ===== src/Examples/Wire.antt =====
-- Theorems on the code of src/wire.rs and of the extension headers at concrete inputs.
use snak_machine_rs.Base.{
  ℕ, ◌+◌, ◌/◌, ◌^◌, ◌-◌, ◌%◌, min, ◌≤◌, ◌<◌, ◌≡◌, refl, true, none, some, [], ◌∷◌, arith, Bytes,
  byte, ok, IsBytes, ◌↔◌,
}
use snak_machine_rs.Wire.Envelope.{raw_ipv6, envelope, checksum}
use snak_machine_rs.Wire.Packets.{icmp_packet, with_checksum}
use snak_machine_rs.Wire.Packets.Checksum.{envelope-icmp_packet}
use snak_machine_rs.Wire.Prefix.{Prefix, new, contains}
use snak_machine_rs.Wire.Prefix.Laws.{contains_iff}
use snak_machine_rs.Wire.Rio
use snak_machine_rs.Wire.Pref64
use snak_machine_rs.Wire.Rio.{Rio}
use snak_machine_rs.Wire.Pref64.{Pref64}
use snak_machine_rs.Wire.Preference.{low}
use snak_machine_rs.Wire.RoundTrip.{IsPrefix, Rio_decode-encode, Pref64_decode-encode}
use snak_machine_rs.Nat64.Headers.{transport6}
use snak_machine_rs.Nat64.Headers.Walk.{transport6_lem, Leads, Reports}

abbrev unique_local : Prefix
unique_local = record { address = 0xfd00_0000_0000_0000_0000_0000_0000_0000; length = 64 }

unique_local-IsPrefix : IsPrefix unique_local
unfolding new
unique_local-IsPrefix = record { canonical = refl; wide = omega arith; bounded = omega arith }

Rio_decode-encode_example :
    Rio.decode (Rio.encode (record { prefix = unique_local; preference = low; lifetime = 1800 }))
    ≡ some (record { prefix = unique_local; preference = low; lifetime = 1800 })
Rio_decode-encode_example =
    Rio_decode-encode (record { prefix = unique_local; preference = low; lifetime = 1800 })
      (record { prefix = unique_local-IsPrefix; lifetime = omega arith })

abbrev translation_prefix : Pref64
translation_prefix = record { prefix = unique_local; lifetime = 1801 }

translation_prefix-encoded : (b : Bytes) × (Pref64.encode translation_prefix ≡ ok b)
unfolding Pref64.encode Pref64.plc_of new
translation_prefix-encoded = (_, refl)

Pref64_decode-encode_example :
    (l : ℕ) × (Pref64.decode (translation_prefix-encoded.0)
      ≡ some (record { prefix = unique_local; lifetime = l }))
    × (l % 8 ≡ 0)
    × (min 1801 65528 ≤ l)
    × (l < 1801 + 8)
    × (l ≤ 65528)
Pref64_decode-encode_example =
    Pref64_decode-encode translation_prefix unique_local-IsPrefix translation_prefix-encoded.1

contains_iff_example : (contains unique_local 0xfd00_0000_0000_0000_0000_0000_0000_0001 ≡ true) ↔ (
    0xfd00_0000_0000_0000_0000_0000_0000_0001 / 2 ^ (128 - unique_local.length)
    ≡ unique_local.address / 2 ^ (128 - unique_local.length))
contains_iff_example =
    contains_iff unique_local 0xfd00_0000_0000_0000_0000_0000_0000_0001
      (unique_local-IsPrefix.canonical) (omega arith)

abbrev solicitation : Bytes
solicitation = 133 ∷ 0 ∷ 0 ∷ 0 ∷ 0 ∷ 0 ∷ 0 ∷ 0 ∷ []

solicitation-IsBytes : IsBytes solicitation
solicitation-IsBytes = ground arith

envelope-icmp_packet_example :
    (p : Bytes) × (c : ℕ) × (icmp_packet 1 2 255 solicitation ≡ ok p)
    × (envelope raw_ipv6 p
        ≡ ok (record {
          packet = p;
          payload = with_checksum c solicitation;
          source = 1;
          destination = 2;
          next_header = 58;
          hop_limit = 255;
        }))
    × (checksum 1 2 58 (with_checksum c solicitation) ≡ 0)
envelope-icmp_packet_example =
    envelope-icmp_packet 1 2 255 solicitation solicitation-IsBytes (omega arith) (omega arith)
      (omega arith) (omega arith)

-- A packet with a Destination Options header of eight bytes, all padding, and no next header.
abbrev padded_packet : Bytes
padded_packet =
    0x60 ∷ 0 ∷ 0 ∷ 0 ∷ 0 ∷ 8 ∷ 60 ∷ 64 ∷ 0 ∷ 0 ∷ 0 ∷ 0 ∷ 0 ∷ 0 ∷ 0 ∷ 0 ∷ 0 ∷ 0 ∷ 0 ∷ 0 ∷ 0 ∷ 0 ∷ 0
    ∷ 0 ∷ 0 ∷ 0 ∷ 0 ∷ 0 ∷ 0 ∷ 0 ∷ 0 ∷ 0 ∷ 0 ∷ 0 ∷ 0 ∷ 0 ∷ 0 ∷ 0 ∷ 0 ∷ 0 ∷ 59 ∷ 0 ∷ 1 ∷ 4 ∷ 0 ∷ 0 ∷ 0
    ∷ 0 ∷ []

padded_packet_walk : transport6 padded_packet ≡ ok (59, 48, none)
unfolding transport6
padded_packet_walk = refl

transport6_lem_example :
    (k : ℕ) × (k < 16)
    × Leads k padded_packet (byte padded_packet 6) 40 59 48
    × Reports k padded_packet (byte padded_packet 6) 40 none none
transport6_lem_example = transport6_lem padded_packet 59 48 none (omega arith) padded_packet_walk
