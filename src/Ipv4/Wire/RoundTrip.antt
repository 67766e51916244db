-- ===== src/Ipv4/Wire/RoundTrip.antt =====
-- A packet that `encode` builds is read back by `parse`.
use snak_machine_rs.Base.{
  ℕ, ◌+◌, ◌-◌, ◌*◌, ◌/◌, ◌%◌, ◌^◌, ◌≤◌, ◌<◌, min, ◌≡◌, refl, false, ◌++◌, arith, Bytes, length, ok,
  from_be-to_be, take_all,
}
use snak_machine_rs.Wire.Envelope.{add_words, fold_carries}
use snak_machine_rs.Wire.Packets.Checksum.{fold_carries_lem}
use snak_machine_rs.Ipv4.Wire.{checksum, options_step, options_loop, parse, plain_header, encode}

-- The complement of a folded sum makes the folded sum complete.
complement_lem :
    (sum c : ℕ)
    → sum + 0xffff < 0x1_0000_0000
    → c ≡ 0xffff - fold_carries 2 (sum % 0x1_0000_0000) % 0x1_0000
    → (c < 0x1_0000) × (0xffff - fold_carries 2 ((sum + c) % 0x1_0000_0000) % 0x1_0000 ≡ 0)
complement_lem sum c small e =
    let whole : sum % 0x1_0000_0000 ≡ sum = omega arith in
    let whole' : (sum + c) % 0x1_0000_0000 ≡ sum + c = omega arith in
    let before = fold_carries_lem sum (omega arith) in
    let after = fold_carries_lem (sum + c) (omega arith) in
    let e' : c ≡ 0xffff - fold_carries 2 sum % 0x1_0000 = rw (← whole) e in
    (omega arith, rw whole' (ground arith))

-- The sum of the words of a header.
words_lem :
    (c n ttl protocol s d : ℕ)
    → c < 0x1_0000
    → ttl < 256
    → protocol < 256
    → (add_words 0 (plain_header c n ttl protocol s d)
        ≡ add_words 0 (plain_header 0 n ttl protocol s d) + c)
      × (add_words 0 (plain_header 0 n ttl protocol s d) ≤ 0xa_0000)
unfolding add_words
words_lem c n ttl protocol s d hc ht hp = (omega arith, omega arith)

-- The checksum of a header with its checksum is zero.
checksum-plain_header :
    (c n ttl protocol s d : ℕ)
    → ttl < 256
    → protocol < 256
    → c ≡ checksum (plain_header 0 n ttl protocol s d)
    → (c < 0x1_0000) × (checksum (plain_header c n ttl protocol s d) ≡ 0)
unfolding checksum
checksum-plain_header c n ttl protocol s d ht hp e =
    let words = words_lem c n ttl protocol s d (omega arith) ht hp in
    let (small, done) =
      complement_lem (add_words 0 (plain_header 0 n ttl protocol s d)) c (omega arith) e in
    (small, rw (words.0) done)

parse-plain_header :
    (c n s d protocol ttl : ℕ) (payload : Bytes)
    → s < 2 ^ 32
    → d < 2 ^ 32
    → n ≡ 20 + length payload
    → n < 0x1_0000
    → checksum (plain_header c n ttl protocol s d) ≡ 0
    → parse (plain_header c n ttl protocol s d ++ payload)
      ≡ ok (record {
        source = s;
        destination = d;
        ttl = ttl;
        protocol = protocol;
        payload = payload;
        bytes = plain_header c n ttl protocol s d ++ payload;
        header_len = 20;
        fragment_offset = 0;
        more_fragments = false;
        dont_fragment = false;
        id = 0;
        traffic_class = 0;
      })
unfolding parse options_loop options_step
parse-plain_header c n s d protocol ttl payload hs hd e small verified =
    let joined : n / 256 % 256 * 256 + n / 1 % 256 ≡ n = omega arith in
    let all = take_all (min n (20 + length payload) - 20) payload (omega arith) in
    let whole =
      take_all (min n (20 + length payload)) (plain_header c n ttl protocol s d ++ payload)
        (omega arith) in
    rw (joined, verified) (ground (arith, all, whole, from_be-to_be 4 s hs, from_be-to_be 4 d hd))

-- Up to 65515 bytes of payload are packed. The packet opens to the addresses, the protocol, the TTL and the
-- payload it was made of, without options and unfragmented, and it is the whole packet.
pub parse-encode :
    (s d protocol ttl : ℕ) (payload : Bytes)
    → s < 2 ^ 32
    → d < 2 ^ 32
    → protocol < 256
    → ttl < 256
    → length payload ≤ 65515
    → (b : Bytes) × (encode s d protocol ttl payload ≡ ok b)
      × (parse b
          ≡ ok (record {
            source = s;
            destination = d;
            ttl = ttl;
            protocol = protocol;
            payload = payload;
            bytes = b;
            header_len = 20;
            fragment_offset = 0;
            more_fragments = false;
            dont_fragment = false;
            id = 0;
            traffic_class = 0;
          }))
unfolding encode
parse-encode s d protocol ttl payload hs hd hp ht short =
    let n = 20 + length payload in
    let c = checksum (plain_header 0 n ttl protocol s d) in
    let (small, verified) = checksum-plain_header c n ttl protocol s d ht hp refl in
    (
      plain_header c n ttl protocol s d ++ payload,
      ground arith,
      parse-plain_header c n s d protocol ttl payload hs hd refl (omega arith) verified,
    )
