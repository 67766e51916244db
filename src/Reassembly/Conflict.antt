-- ===== src/Reassembly/Conflict.antt =====
-- Which fragments contradict the ones before, and what they do to their datagram.
use snak_machine_rs.Base.{
  ℕ, ◌+◌, ◌-◌, ◌≤◌, ◌<◌, ◌≡◌, ◌≢◌, refl, sym, ◌∙◌, true, false, not, ◌&&◌, none, some, [], ◌∷◌,
  arith, ltb, ◌==◌, if◌then◌else◌, Bytes, length, Bool-cases, Option-cases, inl, inr, err,
  invalid_data, would_block,
}
use snak_machine_rs.Base.Maps.{Map, nat_key, lookup, lookup-remove, lookup-remove-same}
use snak_machine_rs.Base.Maps.Every.{lookup-Every}
use snak_machine_rs.Dns.Name.{bytes_equal}
use snak_machine_rs.Dns.Writer.{bytes_equal_iff}
use snak_machine_rs.Reassembly.Parse.{FragmentKey, fragment_key, key_equal, key_equal_iff, Fragment}
use snak_machine_rs.Reassembly.{
  Context, Reassembler, overlaps, reaches_behind, ends_elsewhere, conflicts, is_invalid,
  is_exhausted, admit, enter,
}
use snak_machine_rs.Reassembly.Parts.{Laid}
use snak_machine_rs.Reassembly.Invariant.{IsBounded, IsLaid}

-- Where a fragment ends.
abbrev pub end_of : Fragment → ℕ
end_of f = f.offset + length f.payload

-- A part of the context holds the byte at `p`.
abbrev pub Holds : Context → ℕ → Type 0
Holds c p = (at : ℕ) × (b : Bytes) × (lookup at c.parts ≡ some b) × (at ≤ p) × (p < at + length b)

-- The fragment brings another header than its context, or a byte that is there, or it lies behind the
-- known end, or it is the last one and ends elsewhere than known, or before a byte that is there.
pub data Contradicts (c : Context) (f : Fragment) : Type 0 where
  header : c.header ≢ f.header → Contradicts c f
  shared : (p : ℕ) → Holds c p → f.offset ≤ p → p < end_of f → Contradicts c f
  behind : (e : ℕ) → c.end ≡ some e → e < end_of f → Contradicts c f
  elsewhere : (e : ℕ) → c.end ≡ some e → f.more ≡ false → e ≢ end_of f → Contradicts c f
  early : (p : ℕ) → f.more ≡ false → Holds c p → end_of f ≤ p → Contradicts c f

overlaps_held :
    (from to at : ℕ) (b : Bytes) (m : Map ℕ Bytes)
    → lookup at m ≡ some b
    → from < at + length b
    → at < to
    → overlaps from to m ≡ true
unfolding overlaps lookup
overlaps_held from to at b [] e h k = absurd (cc)
overlaps_held from to at b ((i, v) ∷ m) e h k = ground (arith, overlaps_held from to at b m)

reaches_held :
    (to at : ℕ) (b : Bytes) (m : Map ℕ Bytes)
    → lookup at m ≡ some b
    → to < at + length b
    → reaches_behind to m ≡ true
unfolding reaches_behind lookup
reaches_held to at b [] e h = absurd (cc)
reaches_held to at b ((i, v) ∷ m) e h = ground (arith, reaches_held to at b m)

-- A part behind the first of a laid list is found in the whole list.
lookup_behind :
    (i at : ℕ) (v b : Bytes) (m : Map ℕ Bytes)
    → 0 < length v
    → i + length v ≤ at
    → lookup at m ≡ some b
    → lookup at ((i, v) ∷ m) ≡ some b
unfolding lookup
lookup_behind i at v b m long h e = ground arith

lookup_here : (i : ℕ) (v : Bytes) (m : Map ℕ Bytes) → lookup i ((i, v) ∷ m) ≡ some v
unfolding lookup
lookup_here i v m = ground arith

overlaps_found :
    (lo from to : ℕ) (m : Map ℕ Bytes)
    → Laid lo m
    → overlaps from to m ≡ true
    → (at : ℕ) × (b : Bytes) × (lookup at m ≡ some b)
      × (lo ≤ at)
      × (0 < length b)
      × (from < at + length b)
      × (at < to)
unfolding overlaps
overlaps_found lo from to [] h e = absurd (cc)
overlaps_found lo from to ((i, v) ∷ m) h e =
    elim (Bool-cases (ltb from (i + length v) && ltb i to)) [
      | inl hit ↦ (i, v, lookup_here i v m, h.0, h.1, ground arith, ground arith)
      | inr miss ↦
          let (at, b, there, low, long, left, right) =
            overlaps_found (i + length v) from to m h.2 (ground (arith, miss, e)) in
          (
            at,
            b,
            lookup_behind i at v b m h.1 low there,
            omega (arith, low, h.0),
            long,
            left,
            right,
          )
    ]

reaches_found :
    (lo to : ℕ) (m : Map ℕ Bytes)
    → Laid lo m
    → reaches_behind to m ≡ true
    → (at : ℕ) × (b : Bytes) × (lookup at m ≡ some b)
      × (lo ≤ at)
      × (0 < length b)
      × (to < at + length b)
unfolding reaches_behind
reaches_found lo to [] h e = absurd (cc)
reaches_found lo to ((i, v) ∷ m) h e = elim (Bool-cases (ltb to (i + length v))) [
  | inl hit ↦ (i, v, lookup_here i v m, h.0, h.1, ground arith)
  | inr miss ↦
      let (at, b, there, low, long, behind_it) =
        reaches_found (i + length v) to m h.2 (ground (arith, miss, e)) in
      (at, b, lookup_behind i at v b m h.1 low there, omega (arith, low, h.0), long, behind_it)
]

-- What the code tests is a contradiction, and every contradiction is seen.
conflicts_seen : (c : Context) (f : Fragment) → Contradicts c f → conflicts c f ≡ true
unfolding conflicts
conflicts_seen c f (header other) = elim (Bool-cases (bytes_equal c.header f.header)) [
  | inl same ↦ absurd (other ((bytes_equal_iff c.header f.header).0 same))
  | inr apart ↦ rw apart refl
]
conflicts_seen c f (shared p (at, b, there, low, high) from to) =
    let seen =
      overlaps_held f.offset (end_of f) at b c.parts there (omega (arith, low, high, from, to))
        (omega (arith, low, high, from, to)) in
    ground arith
conflicts_seen c f (behind e known past) = ground (arith, known)
conflicts_seen c f (elsewhere e known last other) = ground (arith, known)
conflicts_seen c f (early p last (at, b, there, low, high) past) =
    let seen = reaches_held (end_of f) at b c.parts there (omega (arith, high, past)) in
    ground arith

conflicts_sound :
    (c : Context) (f : Fragment)
    → Laid 0 c.parts
    → 0 < length f.payload
    → conflicts c f ≡ true
    → Contradicts c f
unfolding conflicts
conflicts_sound c f laid long e = elim (Bool-cases (bytes_equal c.header f.header)) [
  | inr apart ↦ header (λ same. absurd (ground (arith, (bytes_equal_iff c.header f.header).1 same)))
  | inl same ↦ elim (Bool-cases (overlaps f.offset (end_of f) c.parts)) [
    | inl over ↦
        let (at, b, there, _, some_bytes, left, right) =
          overlaps_found 0 f.offset (end_of f) c.parts laid over in
        elim (Bool-cases (ltb at f.offset)) [
          | inl before ↦
              shared f.offset (at, b, there, ground (arith, before), left) (omega arith)
                (omega (arith, long))
          | inr within ↦
              shared at (at, b, there, omega arith, omega (arith, some_bytes))
                (ground (arith, within)) right
        ]
    | inr clear ↦ elim (Bool-cases (ends_elsewhere c.end (end_of f) f.more)) [
      | inl ended ↦ elim (Option-cases c.end) [
        | inl unknown ↦ absurd (ground (arith, ended, unknown))
        | inr (n, known) ↦ elim (Bool-cases (ltb n (end_of f))) [
          | inl past ↦ behind n known (ground (arith, past))
          | inr inside ↦
              elsewhere n known (ground (arith, ended, known, inside))
                (λ at_end. absurd (ground (arith, ended, known, inside, at_end)))
        ]
      ]
      | inr agrees ↦
          let last : f.more ≡ false = ground (arith, e, same, clear, agrees) in
          let reaches : reaches_behind (end_of f) c.parts ≡ true =
            ground (arith, e, same, clear, agrees) in
          let (at, b, there, _, some_bytes, past) =
            reaches_found 0 (end_of f) c.parts laid reaches in
          early (at + length b - 1) last
            (at, b, there, omega (arith, some_bytes), omega (arith, some_bytes))
            (omega (arith, past))
    ]
  ]
]

-- A fragment of a datagram of which others came, one that is no whole datagram and that is not invalid by
-- itself (empty, too long, or not the last one and not of eight byte units). If it contradicts the
-- fragments before it, in the header, by a byte that both bring, or about the end, the answer is an error
-- and the datagram is dropped, and no other. If it does not, it is refused without a change if there
-- is no room, and else admitted.
pub enter_conflict :
    (s : Reassembler) (f : Fragment) (now : ℕ) (c : Context) (k : FragmentKey)
    → IsBounded s
    → (f.offset == 0 && not f.more) ≡ false
    → is_invalid f ≡ false
    → lookup f.key s ≡ some c
    → (Contradicts c f
        → ((enter s f now).1 ≡ err invalid_data)
          × (lookup f.key (enter s f now).0 ≡ none)
          × (k ≢ f.key → lookup k (enter s f now).0 ≡ lookup k s))
      × (¬ Contradicts c f
          → enter s f now ≡ (if is_exhausted s f then (s, err would_block) else admit s f now))
unfolding enter is_invalid
enter_conflict s f now c k v part valid there =
    let removed = lookup-remove f.key k s v.unique in
    let laid = lookup-Every IsLaid f.key c s v.laid there in
    (
      λ contradicts.
          let other = conflicts_seen c f contradicts in
          (
            rw (enter, part, valid, there, other) refl,
            rw (enter, part, valid, there, other) (lookup-remove-same f.key s v.unique),
            λ away.
                rw (enter, part, valid, there, other)
                  (elim (Bool-cases (key_equal f.key k)) [
                    | inl same ↦ absurd (away (sym ((key_equal_iff f.key k).0 same)))
                    | inr apart ↦ removed ∙ rw apart refl
                  ]),
          ),
      λ agrees. elim (Bool-cases (conflicts c f)) [
        | inl other ↦ absurd (agrees (conflicts_sound c f laid (ground (arith, valid)) other))
        | inr fine ↦ rw (enter, part, valid, there, fine) refl
      ],
    )
