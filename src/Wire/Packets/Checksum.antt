-- ===== src/Wire/Packets/Checksum.antt =====
-- A packet that `icmp_packet` builds is opened by `envelope`, and its checksum verifies.
use snak_machine_rs.Base.{
  ℕ, ◌+◌, ◌-◌, ◌*◌, ◌/◌, ◌%◌, ◌^◌, ◌≤◌, ◌<◌, ◌≡◌, refl, ap, [], ◌∷◌, ◌++◌, arith, Bytes, Byte, byte,
  drop, length, to_be, ok, from_be-to_be, IsBytes, to_be-IsBytes, append-IsBytes, byte-lt,
  drop-IsBytes, length-drop, take_all,
}
use snak_machine_rs.Wire.Address.{Ipv6Addr, octets}
use snak_machine_rs.Wire.Envelope.{
  raw_ipv6, envelope, add_words, fold_carries, checksum_words, checksum,
}
use snak_machine_rs.Wire.Packets.{ipv6_packet, icmp_packet, with_checksum}

-- The words are added to what is there.
add_words-add : (n : ℕ) (b : Bytes) → add_words n b ≡ n + add_words 0 b
unfolding add_words
add_words-add n [] = omega arith
add_words-add n (x ∷ []) = omega arith
add_words-add n (x ∷ y ∷ rest) =
    omega (arith, add_words-add (n + (x * 256 + y)) rest, add_words-add (0 + (x * 256 + y)) rest)

-- Two rounds fold a 32-bit sum: the result has 16 bits and is the sum modulo 65535, and zero only for
-- a zero sum.
pub fold_carries_lem :
    (n : ℕ)
    → n < 0x1_0000_0000
    → (fold_carries 2 n < 0x1_0000)
      × (fold_carries 2 n % 0xffff ≡ n % 0xffff)
      × (fold_carries 2 n ≡ 0 → n ≡ 0)
unfolding fold_carries
fold_carries_lem n h = ground arith

add_words-le : (b : Bytes) → IsBytes b → 2 * add_words 0 b ≤ 0xffff * (length b + 1)
unfolding add_words
add_words-le [] h = omega arith
add_words-le (x ∷ []) h = omega arith
add_words-le (x ∷ y ∷ rest) h =
    omega (arith, add_words-le rest h.1.1, add_words-add (0 + (x * 256 + y)) rest)

-- The sum of the pseudo-header and the bytes, before any reduction.
abbrev total : Ipv6Addr → Ipv6Addr → ℕ → Bytes → ℕ
total s d next b =
    add_words 0 (octets s)
    + add_words 0 (octets d)
    + add_words 0 (to_be 4 (length b))
    + next
    + add_words 0 b

-- No addition of the accumulator wraps.
checksum_words-total :
    (s d next : ℕ) (b : Bytes)
    → IsBytes b
    → length b ≤ 0xffff
    → next < 256
    → (checksum_words s d next b ≡ total s d next b) × (total s d next b + 0xffff < 0x1_0000_0000)
unfolding checksum_words
checksum_words-total s d next b h short small =
    let bound_s = add_words-le (octets s) (to_be-IsBytes 16 s) in
    let bound_d = add_words-le (octets d) (to_be-IsBytes 16 d) in
    let bound_l = add_words-le (to_be 4 (length b)) (to_be-IsBytes 4 (length b)) in
    let bound_b = add_words-le b h in
    let source = add_words 0 (octets s) in
    let addresses = add_words source (octets d) in
    let pseudo = add_words addresses (to_be 4 (length b)) + next in
    let split_d = add_words-add source (octets d) in
    let split_l = add_words-add addresses (to_be 4 (length b)) in
    let split_b = add_words-add pseudo b in (omega arith, omega arith)

-- The checksum field is one word of the sum.
add_words-with_checksum :
    (c : ℕ) (body : Bytes)
    → c < 0x1_0000
    → add_words 0 (with_checksum c body) ≡ add_words 0 (with_checksum 0 body) + c
unfolding add_words
add_words-with_checksum c body h = omega (
  arith,
  add_words-add
      (0 + (byte body 0 * 256 + byte body 1) + (c / 256 ^ 1 % 256 * 256 + c / 256 ^ 0 % 256))
      (drop 4 body),
  add_words-add
      (0 + (byte body 0 * 256 + byte body 1) + (0 / 256 ^ 1 % 256 * 256 + 0 / 256 ^ 0 % 256))
      (drop 4 body),
)

with_checksum-IsBytes : (c : ℕ) (body : Bytes) → IsBytes body → IsBytes (with_checksum c body)
with_checksum-IsBytes c body h =
    let rest =
      append-IsBytes (to_be 2 c) (drop 4 body) (to_be-IsBytes 2 c) (drop-IsBytes 4 body h) in
    (byte-lt body 0 h, (byte-lt body 1 h, rest))

length-with_checksum :
    (c : ℕ) (body : Bytes) → 4 ≤ length body → length (with_checksum c body) ≡ length body
length-with_checksum c body h = omega (arith, length-drop 4 body)

module _ (s d : Ipv6Addr) (body : Bytes) (h : IsBytes body) (lo : 4 ≤ length body)
    (hi : length body ≤ 0xffff) where
  words_bound :
      (c : ℕ)
      → let b = with_checksum c body in
        (checksum_words s d 58 b ≡ total s d 58 b) × (total s d 58 b + 0xffff < 0x1_0000_0000)
  words_bound c =
      checksum_words-total s d 58 (with_checksum c body) (with_checksum-IsBytes c body h)
        (omega (arith, length-with_checksum c body lo)) (omega arith)

  -- The checksum adds to the words of the message with a zeroed field.
  words_add :
      (c : ℕ)
      → c < 0x1_0000
      → checksum_words s d 58 (with_checksum c body)
        ≡ checksum_words s d 58 (with_checksum 0 body) + c
  words_add c small = omega (
    arith,
    words_bound c,
    words_bound 0,
    add_words-with_checksum c body small,
    ap (λ (n : ℕ). add_words 0 (to_be 4 n)) (length-with_checksum c body lo),
    ap (λ (n : ℕ). add_words 0 (to_be 4 n)) (length-with_checksum 0 body lo),
  )

  -- Any field that complements the folded sum makes the checksum zero.
  complement_lem :
      (c : ℕ)
      → c ≡ 0xffff - fold_carries 2 (checksum_words s d 58 (with_checksum 0 body)) % 0x1_0000
      → (c < 0x1_0000) × (checksum s d 58 (with_checksum c body) ≡ 0)
  unfolding checksum
  complement_lem c e =
      let before = checksum_words s d 58 (with_checksum 0 body) in
      let after = checksum_words s d 58 (with_checksum c body) in
      let bound = words_bound 0 in
      let fold_before = fold_carries_lem before (omega arith) in
      let added = words_add c (omega arith) in
      let fold_after = fold_carries_lem after (omega arith) in (omega arith, ground (arith))

-- Putting the checksum into its zeroed field makes the checksum of the whole message zero.
pub checksum-with_checksum :
    (s d : Ipv6Addr) (body : Bytes)
    → IsBytes body
    → 4 ≤ length body
    → length body ≤ 0xffff
    → let c = checksum s d 58 (with_checksum 0 body) in
      (c < 0x1_0000) × (checksum s d 58 (with_checksum c body) ≡ 0)
checksum-with_checksum s d body h lo hi =
    complement_lem s d body h lo hi (checksum s d 58 (with_checksum 0 body))
      (unfold checksum in refl)

-- The bytes of a packet.
abbrev assembled : Ipv6Addr → Ipv6Addr → Byte → Byte → Bytes → Bytes
assembled s d next hop payload =
    (0x60 ∷ 0 ∷ 0 ∷ 0 ∷ [])
    ++ to_be 2 (length payload)
    ++ (next ∷ hop ∷ [])
    ++ octets s
    ++ octets d
    ++ payload

ipv6_packet-assembled :
    (s d next hop : ℕ) (payload : Bytes)
    → length payload ≤ 0xffff
    → ipv6_packet s d next hop payload ≡ ok (assembled s d next hop payload)
unfolding ipv6_packet
ipv6_packet-assembled s d next hop payload h = ground arith

envelope-assembled :
    (s d next hop : ℕ) (payload : Bytes)
    → length payload ≤ 0xffff
    → s < 2 ^ 128
    → d < 2 ^ 128
    → envelope raw_ipv6 (assembled s d next hop payload)
      ≡ ok (record {
        packet = assembled s d next hop payload;
        payload = payload;
        source = s;
        destination = d;
        next_header = next;
        hop_limit = hop;
      })
unfolding envelope
envelope-assembled s d next hop payload h ws wd =
    let n = length payload in
    let joined : n / 256 % 256 * 256 + n / 1 % 256 ≡ n = omega arith in
    let whole : 40 + n ≡ length (assembled s d next hop payload) = omega arith in
    let all = take_all (40 + n) (assembled s d next hop payload) (omega arith) in
    rw (joined, all) (ground (arith, from_be-to_be 16 s ws, from_be-to_be 16 d wd))

-- A message of at least four bytes and at most 65535 is packed; the packet opens to the same addresses
-- and hop limit, with the message under a checksum that verifies as its payload. Only the checksum
-- field of the message is changed.
pub envelope-icmp_packet :
    (s d hop : ℕ) (body : Bytes)
    → IsBytes body
    → 4 ≤ length body
    → length body ≤ 0xffff
    → s < 2 ^ 128
    → d < 2 ^ 128
    → (p : Bytes) × (c : ℕ) × (icmp_packet s d hop body ≡ ok p)
      × (envelope raw_ipv6 p
          ≡ ok (record {
            packet = p;
            payload = with_checksum c body;
            source = s;
            destination = d;
            next_header = 58;
            hop_limit = hop;
          }))
      × (checksum s d 58 (with_checksum c body) ≡ 0)
unfolding icmp_packet
envelope-icmp_packet s d hop body h lo hi ws wd =
    let c = checksum s d 58 (with_checksum 0 body) in
    let n = length-with_checksum c body lo in
    let short : length (with_checksum c body) ≤ 0xffff = omega arith in
    let (small, verified) = checksum-with_checksum s d body h lo hi in
    (
      assembled s d 58 hop (with_checksum c body),
      c,
      ground (arith, ipv6_packet-assembled s d 58 hop (with_checksum c body) short),
      envelope-assembled s d 58 hop (with_checksum c body) short ws wd,
      verified,
    )
