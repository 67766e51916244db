-- ===== src/Dns/Message/Records.antt =====
-- The records of a message with their spans, as `parse` reads them.
use snak_machine_rs.Base.{
  ℕ, zero, suc, ◌+◌, ◌≡◌, sym, refl, ap, subst, ◌∙◌, Bool, true, List, [], ◌∷◌, ◌++◌, arith, Bytes,
  from_be, slice, length, ◌==◌, ◌&&◌, ◌||◌, if◌then◌else◌, inl, inr, Result-cases, Io, ok,
}
use snak_machine_rs.Dns.Rdata.{Context, is_mdns, Rdata, empty_data, Record, RecordSpan}
use snak_machine_rs.Dns.Reader.{Cursor, take_bytes, take_at, read_name, read_u16, read_u32}
use snak_machine_rs.Dns.Reader.Advance.{read_u16-advance, read_u32-advance}
use snak_machine_rs.Dns.Fields.{read_rdata}
use snak_machine_rs.Dns.Message.{read_record, read_records, is_update}

-- The owner's name of a record stands from `p` to `q`.
abbrev pub IsNamed : Bytes → Record → ℕ → ℕ → Type 0
IsNamed b r p q =
    (c c' : Cursor) × (c.at ≡ p) × (c'.at ≡ q) × (read_name b (length b) true c ≡ ok (r.name, c'))

-- A span shows where a record stands: from the owner's name, behind it the type, the class and the TTL,
-- which has its place in the span, then the length of the data, and the data, with which the span ends.
pub record Shows (b : Bytes) (r : Record) (s : RecordSpan) : Type 0 where
  pub header : ℕ
  pub named : IsNamed b r s.wire.0 header
  pub kind : r.kind ≡ from_be (slice header (header + 2) b)
  pub class : r.class ≡ from_be (slice (header + 2) (header + 4) b)
  pub time : s.ttl ≡ header + 4
  pub ttl : r.ttl ≡ from_be (slice s.ttl (s.ttl + 4) b)
  pub data_start : s.rdata.0 ≡ s.ttl + 6
  pub data_end : s.rdata.1 ≡ s.rdata.0 + from_be (slice (s.ttl + 4) (s.ttl + 6) b)
  pub end : s.rdata.1 ≡ s.wire.1

-- Spans that follow each other without a gap from `p` to `q`, each showing its record.
abbrev pub Tiles : Bytes → ℕ → List Record → List RecordSpan → ℕ → Type 0
Tiles b p [] [] q = p ≡ q
Tiles b p [] (s ∷ ss) q = ⊥
Tiles b p (r ∷ rs) [] q = ⊥
Tiles b p (r ∷ rs) (s ∷ ss) q = (s.wire.0 ≡ p) × Shows b r s × Tiles b s.wire.1 rs ss q

pub Tiles-append :
    (b : Bytes) (p q t : ℕ) (rs rs' : List Record) (ss ss' : List RecordSpan)
    → Tiles b p rs ss q
    → Tiles b q rs' ss' t
    → Tiles b p (rs ++ rs') (ss ++ ss') t
Tiles-append b p q t [] rs' [] ss' h k = subst (λ i. Tiles b i rs' ss' t) (sym h) k
Tiles-append b p q t [] rs' (s ∷ ss) ss' h k = absurd h
Tiles-append b p q t (r ∷ rs) rs' [] ss' h k = absurd h
Tiles-append b p q t (r ∷ rs) rs' (s ∷ ss) ss' h k =
    (h.0, h.1, Tiles-append b s.wire.1 q t rs rs' ss ss' h.2 k)

pub length-Tiles :
    (b : Bytes) (p q : ℕ) (rs : List Record) (ss : List RecordSpan)
    → Tiles b p rs ss q
    → length ss ≡ length rs
length-Tiles b p q [] [] h = omega arith
length-Tiles b p q [] (s ∷ ss) h = absurd h
length-Tiles b p q (r ∷ rs) [] h = absurd h
length-Tiles b p q (r ∷ rs) (s ∷ ss) h = omega (arith, length-Tiles b s.wire.1 q rs ss h.2)

read_u16-value :
    (b : Bytes) (end : ℕ) (c c' : Cursor) (n : ℕ)
    → read_u16 b end c ≡ ok (n, c')
    → n ≡ from_be (slice c.at (c.at + 2) b)
unfolding read_u16 take_bytes take_at
read_u16-value b end c c' n e = ground arith

read_u32-value :
    (b : Bytes) (end : ℕ) (c c' : Cursor) (n : ℕ)
    → read_u32 b end c ≡ ok (n, c')
    → n ≡ from_be (slice c.at (c.at + 4) b)
unfolding read_u32 take_bytes take_at
read_u32-value b end c c' n e = ground arith

-- The bytes of a number by equal places.
number_at :
    (b : Bytes) (p q p' q' : ℕ) {n : ℕ}
    → n ≡ from_be (slice p q b)
    → p ≡ p'
    → q ≡ q'
    → n ≡ from_be (slice p' q' b)
number_at b p q p' q' e h k =
    e ∙ ap (λ i. from_be (slice i q b)) h ∙ ap (λ i. from_be (slice p' i b)) k

pub read_record-Shows :
    (b : Bytes) (context : Context) (flags section : ℕ) (opt_seen : Bool) (c c' : Cursor)
    → (r : Record) (span : RecordSpan) (seen : Bool)
    → read_record b context flags section opt_seen c ≡ ok ((r, span, seen), c')
    → (span.wire ≡ (c.at, c'.at)) × Shows b r span
unfolding read_record
read_record-Shows b context flags section opt_seen c c' r span seen e =
    elim (Result-cases (read_name b (length b) true c)) [
      | inl (x, bad) ↦ absurd (ground arith)
      | inr ((name, c1), e1) ↦ elim (Result-cases (read_u16 b (length b) c1)) [
        | inl (x, bad) ↦ absurd (ground arith)
        | inr ((kind, c2), e2) ↦ elim (Result-cases (read_u16 b (length b) c2)) [
          | inl (x, bad) ↦ absurd (ground arith)
          | inr ((class, c3), e3) ↦ elim (Result-cases (read_u32 b (length b) c3)) [
            | inl (x, bad) ↦ absurd (ground arith)
            | inr ((ttl, c4), e4) ↦ elim (Result-cases (read_u16 b (length b) c4)) [
              | inl (x, bad) ↦ absurd (ground arith)
              | inr ((len, c5), e5) ↦
                  let data_of : Io (Rdata × Cursor) =
                    if is_update flags && len == 0 && (class == 254 || class == 255)
                    then ok (empty_data, c5)
                    else read_rdata b kind (c5.at + len) (is_mdns context || is_update flags)
                        (is_mdns context) c5 in
                  elim (Result-cases data_of) [
                    | inl (x, bad) ↦ absurd (ground arith)
                    | inr ((d, c6), e6) ↦
                        let ended : c6.at ≡ c5.at + len = ground arith in
                        let moved : c' ≡ c6 = ground arith in
                        let made : span ≡ record {
                          wire = (c.at, c6.at);
                          ttl = c3.at;
                          rdata = (c5.at, c5.at + len);
                        } =
                          ground arith in
                        let built : r ≡ record {
                          name = name;
                          kind = kind;
                          class = class;
                          ttl = ttl;
                          data_of = d;
                        } =
                          ground arith in
                        let a2 = read_u16-advance b (length b) c1 c2 kind e2 in
                        let a3 = read_u16-advance b (length b) c2 c3 class e3 in
                        let a4 = read_u32-advance b (length b) c3 c4 ttl e4 in
                        let a5 = read_u16-advance b (length b) c4 c5 len e5 in
                        let v2 = read_u16-value b (length b) c1 c2 kind e2 in
                        let v3 = read_u16-value b (length b) c2 c3 class e3 in
                        let v4 = read_u32-value b (length b) c3 c4 ttl e4 in
                        let v5 = read_u16-value b (length b) c4 c5 len e5 in
                        let size =
                          number_at b c4.at (c4.at + 2) (c3.at + 4) (c3.at + 6) v5 (a4.0)
                            (omega (arith, a4)) in
                        subst (λ (t : RecordSpan). (t.wire ≡ (c.at, c'.at)) × Shows b r t)
                          (sym made)
                          (
                            ap (λ (t : Cursor). (c.at, t.at)) (sym moved),
                            subst
                                (λ (t : Record). Shows b t (record {
                                  wire = (c.at, c6.at);
                                  ttl = c3.at;
                                  rdata = (c5.at, c5.at + len);
                                }))
                                (sym built)
                                (record {
                                  header = c1.at;
                                  named = (c, c1, refl, refl, e1);
                                  kind = v2;
                                  class =
                                      number_at b c2.at (c2.at + 2) (c1.at + 2) (c1.at + 4) v3
                                        (a2.0) (omega (arith, a2));
                                  time = omega (arith, a2, a3);
                                  ttl = v4;
                                  data_start = omega (arith, a4, a5);
                                  data_end = ap (λ i. c5.at + i) size;
                                  end = sym ended;
                                }),
                          )
                  ]
            ]
          ]
        ]
      ]
    ]

pub read_records-Tiles :
    (n : ℕ) (b : Bytes) (context : Context) (flags section : ℕ) (opt_seen : Bool) (c c' : Cursor)
    → (rs : List Record) (spans : List RecordSpan) (seen : Bool)
    → read_records n b context flags section opt_seen c ≡ ok ((rs, spans, seen), c')
    → Tiles b c.at rs spans c'.at × (length rs ≡ n)
unfolding read_records
read_records-Tiles zero b context flags section opt_seen c c' rs spans seen e =
    let no_records : rs ≡ [] = ground arith in
    let no_spans : spans ≡ [] = ground arith in
    let stayed : c ≡ c' = ground arith in
    (
      subst (λ t. Tiles b c.at t spans c'.at) (sym no_records)
          (subst (λ t. Tiles b c.at [] t c'.at) (sym no_spans) (ap (λ (t : Cursor). t.at) stayed)),
      ground arith,
    )
read_records-Tiles (suc n) b context flags section opt_seen c c' rs spans seen e =
    elim (Result-cases (read_record b context flags section opt_seen c)) [
      | inl (x, bad) ↦ absurd (ground arith)
      | inr (((r, span, seen1), c1), e1) ↦
          elim (Result-cases (read_records n b context flags section seen1 c1)) [
            | inl (x, bad) ↦ absurd (ground arith)
            | inr (((rs1, spans1, seen2), c2), e2) ↦
                let (wire, shape) =
                  read_record-Shows b context flags section opt_seen c c1 r span seen1 e1 in
                let (tiles, count) =
                  read_records-Tiles n b context flags section seen1 c1 c2 rs1 spans1 seen2 e2 in
                let all : spans ≡ span ∷ spans1 = ground arith in
                let each : rs ≡ r ∷ rs1 = ground arith in
                let moved : c' ≡ c2 = ground arith in
                let start : span.wire.0 ≡ c.at = ap (λ (t : ℕ × ℕ). t.0) wire in
                let end : span.wire.1 ≡ c1.at = ap (λ (t : ℕ × ℕ). t.1) wire in
                (
                  subst (λ t. Tiles b c.at t spans c'.at) (sym each)
                      (subst (λ t. Tiles b c.at (r ∷ rs1) t c'.at) (sym all)
                        (
                          start,
                          shape,
                          subst (λ p. Tiles b p rs1 spans1 c'.at) (sym end)
                              (subst (λ (t : Cursor). Tiles b c1.at rs1 spans1 t.at) (sym moved)
                                tiles),
                        )),
                  ground (arith, count),
                )
          ]
    ]
