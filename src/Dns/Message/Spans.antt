-- ===== src/Dns/Message/Spans.antt =====
-- The spans of a message that `parse` accepts.
use snak_machine_rs.Base.{
  ◌+◌, ◌≤◌, ◌≡◌, sym, ap, subst, ◌∙◌, false, [], ◌++◌, arith, Bytes, length, length-append, inl,
  inr, Result-cases, ok,
}
use snak_machine_rs.Dns.Rdata.{Context, Message}
use snak_machine_rs.Dns.Reader.{Cursor}
use snak_machine_rs.Dns.Message.{read_questions, read_records, parse, u16_at, max_wire, max_records}
use snak_machine_rs.Dns.Message.Records.{Tiles, Tiles-append, length-Tiles, read_records-Tiles}

-- A message that is accepted has 12 to 65535 bytes and at most 4096 entries, and the sections have as
-- many records as the header says. From the place where the questions end the spans follow each other
-- without a gap to the last byte, one for each record of the three sections in order. Each starts with
-- the owner's name of its record, behind which stand the type, the class, the TTL at its place and the
-- length of the data, and ends with the data, of that length.
pub parse-Tiles :
    (b : Bytes) (context : Context) (m : Message)
    → parse b context ≡ ok m
    → (c0 : Cursor) × (read_questions (u16_at b 4) b (record { at = 12; known = []; work = 0 })
        ≡ ok (m.questions, c0))
      × Tiles b c0.at (m.answers ++ m.authority ++ m.additional) m.spans (length b)
      × (length m.spans ≡ length m.answers + length m.authority + length m.additional)
      × (length m.answers ≡ u16_at b 6)
      × (length m.authority ≡ u16_at b 8)
      × (length m.additional ≡ u16_at b 10)
      × (length m.spans ≤ max_records)
      × (12 ≤ length b)
      × (length b ≤ max_wire)
      × (m.original ≡ b)
unfolding parse
parse-Tiles b context m e =
    let flags = u16_at b 2 in
    elim (Result-cases (read_questions (u16_at b 4) b (record { at = 12; known = []; work = 0 }))) [
      | inl (x, bad) ↦ absurd (ground arith)
      | inr ((questions, c0), e0) ↦
          elim (Result-cases (read_records (u16_at b 6) b context flags 0 false c0)) [
            | inl (x, bad) ↦ absurd (ground arith)
            | inr (((answers, spans1, seen1), c1), e1) ↦
                elim (Result-cases (read_records (u16_at b 8) b context flags 1 seen1 c1)) [
                  | inl (x, bad) ↦ absurd (ground arith)
                  | inr (((authority, spans2, seen2), c2), e2) ↦
                      elim (Result-cases (read_records (u16_at b 10) b context flags 2 seen2 c2)) [
                        | inl (x, bad) ↦ absurd (ground arith)
                        | inr (((additional, spans3, seen3), c3), e3) ↦
                            let t1 =
                              read_records-Tiles (u16_at b 6) b context flags 0 false c0 c1 answers
                                spans1 seen1 e1 in
                            let t2 =
                              read_records-Tiles (u16_at b 8) b context flags 1 seen1 c1 c2
                                authority spans2 seen2 e2 in
                            let t3 =
                              read_records-Tiles (u16_at b 10) b context flags 2 seen2 c2 c3
                                additional spans3 seen3 e3 in
                            let whole : c3.at ≡ length b = ground arith in
                            let made : m ≡ record {
                              id = u16_at b 0;
                              flags = flags;
                              questions = questions;
                              answers = answers;
                              authority = authority;
                              additional = additional;
                              original = b;
                              spans = spans1 ++ spans2 ++ spans3;
                            } =
                              ground arith in
                            let tiles =
                              Tiles-append b c0.at c2.at c3.at (answers ++ authority) additional
                                (spans1 ++ spans2) spans3
                                (Tiles-append b c0.at c1.at c2.at answers authority spans1 spans2
                                  t1.0 t2.0)
                                t3.0 in
                            let n1 = length-append (answers ++ authority) additional in
                            let n2 = length-append answers authority in
                            let all : length m.spans ≡ length (spans1 ++ spans2 ++ spans3) =
                              ap (λ (t : Message). length t.spans) made in
                            let paired =
                              length-Tiles b c0.at c3.at (answers ++ authority ++ additional)
                                (spans1 ++ spans2 ++ spans3) tiles in
                            let few : u16_at b 6 + u16_at b 8 + u16_at b 10 ≤ max_records =
                              ground arith in
                            let a1 : length m.answers ≡ u16_at b 6 =
                              ap (λ (t : Message). length t.answers) made ∙ t1.1 in
                            let a2 : length m.authority ≡ u16_at b 8 =
                              ap (λ (t : Message). length t.authority) made ∙ t2.1 in
                            let a3 : length m.additional ≡ u16_at b 10 =
                              ap (λ (t : Message). length t.additional) made ∙ t3.1 in
                            (
                              c0,
                              subst
                                  (λ (t : Message).
                                    read_questions (u16_at b 4) b
                                      (record { at = 12; known = []; work = 0 })
                                    ≡ ok (t.questions, c0))
                                  (sym made) e0,
                              subst
                                  (λ (t : Message).
                                    Tiles b c0.at (t.answers ++ t.authority ++ t.additional) t.spans
                                      (length b))
                                  (sym made)
                                  (subst
                                    (λ p.
                                      Tiles b c0.at (answers ++ authority ++ additional)
                                        (spans1 ++ spans2 ++ spans3) p)
                                    whole tiles),
                              omega (arith, n1, n2, all, paired, a1, a2, a3, t1.1, t2.1, t3.1),
                              a1,
                              a2,
                              a3,
                              omega (arith, n1, n2, all, paired, few, t1.1, t2.1, t3.1),
                              ground arith,
                              ground arith,
                              ap (λ (t : Message). t.original) made,
                            )
                      ]
                ]
          ]
    ]
