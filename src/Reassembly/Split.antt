-- ===== src/Reassembly/Split.antt =====
-- `fragment` of src/ip_reassembly.rs.
pub mod Sizes
use snak_machine_rs.Base.{
  ℕ, zero, suc, ◌+◌, ◌-◌, ◌*◌, ◌/◌, ◌%◌, Bool, true, false, ◌&&◌, ◌||◌, not, List, [], ◌∷◌, ◌++◌,
  ltb, leb, ◌==◌, if◌then◌else◌, Byte, Bytes, byte, take, drop, length, to_be, overwrite, Io, ok,
  err, invalid_data, ◌>>=◌, ◌>>◌, fail_if, map_err,
}
use snak_machine_rs.Wire.Envelope.{Envelope, envelope, raw_ipv6}
use snak_machine_rs.Ipv4.Wire
use snak_machine_rs.Ipv4.Wire.{Packet, checksum}

-- The size of the header and the bytes that each fragment needs besides its data.
unfoldable pub limits : Bytes → ℕ → Io (ℕ × ℕ)
unfolding Wire.parse
limits [] mtu = err invalid_data
limits (first ∷ rest) mtu =
    if first / 16 == 6
    then (do
      e ← map_err invalid_data (envelope raw_ipv6 (first ∷ rest))
      fail_if
          (not (e.next_header == 6 || e.next_header == 17 || e.next_header == 58) || ltb mtu 1280)
          invalid_data
      ok (40, 48))
    else if first / 16 == 4
    then (do
      p ← Wire.parse (first ∷ rest)
      fail_if
          (not (p.header_len == 20)
            || p.more_fragments
            || not (p.fragment_offset == 0)
            || ltb mtu 68)
          invalid_data
      ok (20, 20))
    else err invalid_data

abbrev pub more_bit : Bool → ℕ → ℕ
more_bit false w = 0
more_bit true w = w

-- A fragment of an IPv6 packet; `(offset as u16) | u16::from(more)` of a multiple of eight is a sum.
unfoldable pub fragment_v6 : Bytes → ℕ → ℕ → Bool → Bytes → Bytes
fragment_v6 b id offset more content =
    overwrite 4 (to_be 2 (length content + 8)) (overwrite 6 (44 ∷ []) (take 40 b))
    ++ ((byte b 6 ∷ 0 ∷ [])
        ++ (to_be 2 (offset % 0x1_0000 + more_bit more 1) ++ (to_be 4 id ++ content)))

-- A fragment of an IPv4 packet, with its checksum.
unfoldable pub fragment_v4 : Bytes → ℕ → ℕ → Bool → Bytes → Bytes
unfolding checksum
fragment_v4 b id offset more content =
    let sized = overwrite 2 (to_be 2 (length content + 20)) (take 20 b) in
    let named = overwrite 4 (to_be 2 id) sized in
    let placed = overwrite 6 (to_be 2 (offset % 0x1_0000 / 8 + more_bit more 0x2000)) named in
    let zeroed = overwrite 10 (0 ∷ 0 ∷ []) placed in
    overwrite 10 (to_be 2 (checksum zeroed)) zeroed ++ content

unfoldable pub fragment_of : Bytes → ℕ → ℕ → ℕ → Bool → Bytes → Bytes
unfolding fragment_v6 fragment_v4
fragment_of b id header offset more content =
    if header == 40
    then fragment_v6 b id offset more content
    else fragment_v4 b id offset more content

-- The loop over `chunks`, with as many rounds as there are bytes; `offset` is where the chunk starts.
unfoldable pub split_from : ℕ → Bytes → ℕ → ℕ → ℕ → ℕ → Bytes → List Bytes
unfolding fragment_of
split_from zero b id header chunk offset payload = []
split_from (suc rounds) b id header chunk offset payload =
    let rest = split_from rounds b id header chunk (offset + chunk) (drop chunk payload) in
    if length payload == 0
    then []
    else fragment_of b id header offset (ltb chunk (length payload)) (take chunk payload) ∷ rest

unfoldable pub fragment : Bytes → ℕ → ℕ → Io (List Bytes)
unfolding limits split_from
fragment b mtu id = if leb (length b) mtu then ok (b ∷ []) else (do
  (header, overhead) ← limits b mtu
  let chunk = (mtu - overhead) / 8 * 8
  fail_if (chunk == 0) invalid_data
  ok (split_from (length b) b id header chunk 0 (drop header b)))
