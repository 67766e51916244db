-- ===== src/Reassembly/Split/Sizes.antt =====
-- The fragments of a packet fit the MTU, and hold its payload in order.
use snak_machine_rs.Base.{
  ℕ, zero, suc, ◌+◌, ◌-◌, ◌*◌, ◌/◌, ◌%◌, ◌≤◌, ◌<◌, ◌≡◌, refl, sym, ap, subst, ◌⊎◌, ◌∙◌, Bool, false,
  List, [], ◌∷◌, ◌++◌, arith, ltb, ◌==◌, Bytes, byte, take, drop, length, length-append,
  length-take, length-drop, drop-append, drop-append-add, take-append-drop, to_be, overwrite,
  Bool-cases, Result-cases, inl, inr, Io, ok, invalid_data, fail_if, ◌>>=◌, chain-ok, leb,
}
use snak_machine_rs.Wire.Envelope.{Envelope, envelope, raw_ipv6}
use snak_machine_rs.Ipv4.Wire
use snak_machine_rs.Ipv4.Wire.{Packet, parse_inner, checksum}
use snak_machine_rs.Reassembly.Split.{
  more_bit, limits, fragment_v6, fragment_v4, fragment_of, split_from, fragment,
}

length-overwrite :
    (at : ℕ) (new b : Bytes) → at + length new ≤ length b → length (overwrite at new b) ≡ length b
length-overwrite at new b h = omega (
  arith,
  length-append (take at b) (new ++ drop (at + length new) b),
  length-append new (drop (at + length new) b),
  length-take at b,
  length-drop (at + length new) b,
)

-- The data stand behind the headers.
v6_lem :
    (b : Bytes) (id offset : ℕ) (more : Bool) (content : Bytes)
    → 40 ≤ length b
    → (length (fragment_v6 b id offset more content) ≡ 48 + length content)
      × (drop 48 (fragment_v6 b id offset more content) ≡ content)
unfolding fragment_v6
v6_lem b id offset more content h =
    let short = length-take 40 b in
    let marked = length-overwrite 6 (44 ∷ []) (take 40 b) (omega (arith, short)) in
    let sized =
      length-overwrite 4 (to_be 2 (length content + 8)) (overwrite 6 (44 ∷ []) (take 40 b))
        (omega (arith, short, marked)) in
    let head = overwrite 4 (to_be 2 (length content + 8)) (overwrite 6 (44 ∷ []) (take 40 b)) in
    let tail =
      (byte b 6 ∷ 0 ∷ [])
      ++ (to_be 2 (offset % 0x1_0000 + more_bit more 1) ++ (to_be 4 id ++ content)) in
    let forty : length head ≡ 40 = omega (arith, short, marked, sized) in
    (
      omega (arith, length-append head tail, forty),
      subst (λ (k : ℕ). drop (k + 8) (head ++ tail) ≡ content) forty (drop-append-add head tail 8),
    )

v4_lem :
    (b : Bytes) (id offset : ℕ) (more : Bool) (content : Bytes)
    → 20 ≤ length b
    → (length (fragment_v4 b id offset more content) ≡ 20 + length content)
      × (drop 20 (fragment_v4 b id offset more content) ≡ content)
unfolding fragment_v4
v4_lem b id offset more content h =
    let l1 = length-take 20 b in
    let sized = overwrite 2 (to_be 2 (length content + 20)) (take 20 b) in
    let l2 = length-overwrite 2 (to_be 2 (length content + 20)) (take 20 b) (omega (arith, l1)) in
    let named = overwrite 4 (to_be 2 id) sized in
    let l3 = length-overwrite 4 (to_be 2 id) sized (omega (arith, l1, l2)) in
    let place = to_be 2 (offset % 0x1_0000 / 8 + more_bit more 0x2000) in
    let placed = overwrite 6 place named in
    let l4 = length-overwrite 6 place named (omega (arith, l1, l2, l3)) in
    let zeroed = overwrite 10 (0 ∷ 0 ∷ []) placed in
    let l5 = length-overwrite 10 (0 ∷ 0 ∷ []) placed (omega (arith, l1, l2, l3, l4)) in
    let head = overwrite 10 (to_be 2 (checksum zeroed)) zeroed in
    let l6 =
      length-overwrite 10 (to_be 2 (checksum zeroed)) zeroed (omega (arith, l1, l2, l3, l4, l5)) in
    let twenty : length head ≡ 20 = omega (arith, l1, l2, l3, l4, l5, l6) in
    (
      omega (arith, length-append head content, twenty),
      subst (λ (k : ℕ). drop k (head ++ content) ≡ content) twenty (drop-append head content),
    )

-- What `fragment` needs besides its data, and that the packet has the header it copies.
abbrev HasLimits : Bytes → ℕ → ℕ → Type 0
HasLimits b header overhead =
    ((header ≡ 40) × (overhead ≡ 48) × (40 ≤ length b))
    ⊎ ((header ≡ 20) × (overhead ≡ 20) × (20 ≤ length b))

of_lem :
    (b : Bytes) (id header overhead offset : ℕ) (more : Bool) (content : Bytes)
    → HasLimits b header overhead
    → (length (fragment_of b id header offset more content) ≡ overhead + length content)
      × (drop overhead (fragment_of b id header offset more content) ≡ content)
unfolding fragment_of
of_lem b id header overhead offset more content (inl (h, o, long)) =
    rw (h, o) (v6_lem b id offset more content long)
of_lem b id header overhead offset more content (inr (h, o, long)) =
    rw (h, o) (v4_lem b id offset more content long)

-- Every fragment fits.
abbrev pub Fits : ℕ → List Bytes → Type 0
Fits mtu [] = Unit
Fits mtu (f ∷ fs) = (length f ≤ mtu) × Fits mtu fs

-- What the fragments hold behind their headers.
abbrev pub bodies : ℕ → List Bytes → Bytes
bodies overhead [] = []
bodies overhead (f ∷ fs) = drop overhead f ++ bodies overhead fs

split_lem :
    (rounds : ℕ) (b : Bytes) (id header overhead chunk offset mtu : ℕ) (payload : Bytes)
    → HasLimits b header overhead
    → 0 < chunk
    → overhead + chunk ≤ mtu
    → length payload ≤ rounds
    → Fits mtu (split_from rounds b id header chunk offset payload)
      × (bodies overhead (split_from rounds b id header chunk offset payload) ≡ payload)
unfolding split_from
split_lem zero b id header overhead chunk offset mtu [] l c room enough = (tt, refl)
split_lem zero b id header overhead chunk offset mtu (x ∷ payload) l c room enough =
    absurd (omega arith)
split_lem (suc rounds) b id header overhead chunk offset mtu [] l c room enough = (tt, refl)
split_lem (suc rounds) b id header overhead chunk offset mtu (x ∷ payload) l c room enough =
    let whole = x ∷ payload in
    let (size, body) =
      of_lem b id header overhead offset (ltb chunk (length whole)) (take chunk whole) l in
    let taken = length-take chunk whole in
    let left = length-drop chunk whole in
    let (fits, rest) =
      split_lem rounds b id header overhead chunk (offset + chunk) mtu (drop chunk whole) l c room
        (omega (arith, left)) in
    let some_left : (length whole == 0) ≡ false = ground arith in
    (
      rw (split_from, some_left) (omega (arith, size, taken), fits),
      rw (split_from, some_left) (rw (body, rest) (take-append-drop chunk whole)),
    )

envelope_long : (b : Bytes) (e : Envelope) → envelope raw_ipv6 b ≡ ok e → 40 ≤ length b
unfolding envelope
envelope_long b e opened = ground arith

parse_long : (b : Bytes) (p : Packet) → Wire.parse b ≡ ok p → 20 ≤ length b
unfolding Wire.parse
parse_long b p opened = ground arith

limits_lem :
    (b : Bytes) (mtu header overhead : ℕ)
    → limits b mtu ≡ ok (header, overhead)
    → HasLimits b header overhead × (overhead ≤ mtu)
unfolding limits
limits_lem [] mtu header overhead e = absurd cc
limits_lem (first ∷ rest) mtu header overhead e = elim (Bool-cases (first / 16 == 6)) [
  | inl six ↦ elim (Result-cases (envelope raw_ipv6 (first ∷ rest))) [
    | inl (x, bad) ↦ absurd (ground (arith, six, bad, e))
    | inr (env, opened) ↦ (
      inl (
        ground (arith, six, opened, e),
        ground (arith, six, opened, e),
        envelope_long (first ∷ rest) env opened,
      ),
      ground (arith, six, opened, e),
    )
  ]
  | inr other ↦ elim (Bool-cases (first / 16 == 4)) [
    | inr neither ↦ absurd (ground (arith, other, neither, e))
    | inl four ↦ elim (Result-cases (Wire.parse (first ∷ rest))) [
      | inl (x, bad) ↦ absurd (ground (arith, other, four, bad, e))
      | inr (p, opened) ↦ (
        inr (
          ground (arith, other, four, opened, e),
          ground (arith, other, four, opened, e),
          parse_long (first ∷ rest) p opened,
        ),
        ground (arith, other, four, opened, e),
      )
    ]
  ]
]

not_le : (a b : ℕ) → b < a → leb a b ≡ false
not_le a b h = ground arith

ok_injective : (a b : List Bytes) → Path (Io (List Bytes)) (ok a) (ok b) → a ≡ b
ok_injective a b e = cc

positive : (n : ℕ) (done : Unit {0}) → fail_if (n == 0) invalid_data ≡ ok done → 0 < n
positive n done e = ground arith

-- A packet longer than the MTU is split into fragments of the MTU at most, whose data, behind 48 bytes of an
-- IPv6 and 20 of an IPv4 fragment, are the payload of the packet in order.
pub fragment_lem :
    (b : Bytes) (mtu id : ℕ) (fs : List Bytes)
    → fragment b mtu id ≡ ok fs
    → mtu < length b
    → (header overhead : ℕ) × (limits b mtu ≡ ok (header, overhead))
      × Fits mtu fs
      × (bodies overhead fs ≡ drop header b)
unfolding fragment
fragment_lem b mtu id fs e long = elim (Result-cases (limits b mtu)) [
  | inl (x, bad) ↦ absurd (ground (arith, bad, e))
  | inr ((header, overhead), within) ↦
      let (has, room) = limits_lem b mtu header overhead within in
      let chunk = (mtu - overhead) / 8 * 8 in
      let too_long : leb (length b) mtu ≡ false = not_le (length b) mtu long in
      let all = split_from (length b) b id header chunk 0 (drop header b) in
      let opened : fragment b mtu id ≡ (fail_if (chunk == 0) invalid_data >>= λ done. ok all) =
        rw (fragment, too_long, within) refl in
      let (done, passed, made_ok) =
        chain-ok (fail_if (chunk == 0) invalid_data) (λ done. ok all) fs (sym opened ∙ e) in
      let made : all ≡ fs = ok_injective all fs made_ok in
      let some_chunk : 0 < chunk = positive chunk done passed in
      let (fits, whole) =
        split_lem (length b) b id header overhead chunk 0 mtu (drop header b) has some_chunk
          (omega (arith, room)) (omega (arith, length-drop header b)) in
      (
        header,
        overhead,
        within,
        subst (Fits mtu) made fits,
        ap (bodies overhead) (sym made) ∙ whole,
      )
]
