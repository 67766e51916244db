-- ===== src/Dns/Message.antt =====
-- `Message::parse` of src/dns/wire.rs.
pub mod Records
pub mod Spans
use snak_machine_rs.Base.{
  ℕ, zero, suc, ◌+◌, ◌-◌, ◌*◌, ◌/◌, ◌%◌, Bool, true, false, ◌&&◌, ◌||◌, not, Option, none, some,
  List, [], ◌∷◌, ◌++◌, ltb, leb, ◌==◌, if◌then◌else◌, Byte, Bytes, byte, length, u16_of, Io, ok,
  err, invalid_data, ◌>>=◌, ◌>>◌, fail_if,
}
use snak_machine_rs.Dns.Name.{Name}
use snak_machine_rs.Dns.Rdata.{
  Context, is_mdns, Question, Rdata, empty_data, Record, RecordSpan, Message, new,
}
use snak_machine_rs.Dns.Reader.{Cursor, read_name, read_u16, read_u32}
use snak_machine_rs.Dns.Fields.{Read, read_rdata}

abbrev pub max_wire : ℕ
max_wire = 65535

abbrev pub max_records : ℕ
max_records = 4096

-- `u16at`; the callers check the length.
abbrev pub u16_at : Bytes → ℕ → ℕ
u16_at b at = u16_of (byte b at) (byte b (at + 1))

unfoldable pub read_question : Bytes → Read Question
read_question b c = do
  (name, c1) ← read_name b (length b) true c
  (kind, c2) ← read_u16 b (length b) c1
  (class, c3) ← read_u16 b (length b) c2
  ok (record { name = name; kind = kind; class = class }, c3)

unfoldable pub read_questions : ℕ → Bytes → Read (List Question)
unfolding read_question
read_questions zero b c = ok ([], c)
read_questions (suc n) b c = do
  (q, c1) ← read_question b c
  (qs, c2) ← read_questions n b c1
  ok (q ∷ qs, c2)

-- The opcode is that of an update.
abbrev pub is_update : ℕ → Bool
is_update flags = flags / 2048 % 16 == 5

-- An OPT record stands in the additional section, once, at the root.
abbrev pub misplaced_opt : ℕ → ℕ → Bool → Name → Bool
misplaced_opt kind section opt_seen name =
    kind == 41 && (not (section == 2) || opt_seen || not (length name.labels == 0))

-- The body of the loop over the records, with its span and the new `opt_seen`.
unfoldable pub read_record :
    Bytes → Context → ℕ → ℕ → Bool → Cursor → Io ((Record × RecordSpan × Bool) × Cursor)
read_record b context flags section opt_seen c = do
  (name, c1) ← read_name b (length b) true c
  (kind, c2) ← read_u16 b (length b) c1
  (class, c3) ← read_u16 b (length b) c2
  (ttl, c4) ← read_u32 b (length b) c3
  (len, c5) ← read_u16 b (length b) c4
  let end = c5.at + len
  fail_if (ltb (length b) end) invalid_data
  fail_if (misplaced_opt kind section opt_seen name) invalid_data
  let update = is_update flags
  (data_of, c6) ←
      (if update && len == 0 && (class == 254 || class == 255)
        then ok (empty_data, c5)
        else read_rdata b kind end (is_mdns context || update) (is_mdns context) c5)
  fail_if (not (c6.at == end)) invalid_data
  ok (
    (
      record { name = name; kind = kind; class = class; ttl = ttl; data_of = data_of },
      record { wire = (c.at, c6.at); ttl = c3.at; rdata = (c5.at, end) },
      opt_seen || kind == 41,
    ),
    c6,
  )

-- The records of a section, with their spans.
unfoldable pub read_records :
    ℕ
    → Bytes
    → Context
    → ℕ
    → ℕ
    → Bool
    → Cursor
    → Io ((List Record × List RecordSpan × Bool) × Cursor)
unfolding read_record
read_records zero b context flags section opt_seen c = ok (([], [], opt_seen), c)
read_records (suc n) b context flags section opt_seen c = do
  ((r, span, seen), c1) ← read_record b context flags section opt_seen c
  ((rs, spans, seen'), c2) ← read_records n b context flags section seen c1
  ok ((r ∷ rs, span ∷ spans, seen'), c2)

unfoldable pub parse : Bytes → Context → Io Message
unfolding read_questions read_records
parse b context = do
  fail_if (ltb (length b) 12 || ltb max_wire (length b)) invalid_data
  let count = u16_at b 4 + u16_at b 6 + u16_at b 8 + u16_at b 10
  fail_if (ltb max_records count || ltb ((length b - 12) / 5) count) invalid_data
  let flags = u16_at b 2
  (questions, c0) ← read_questions (u16_at b 4) b (record { at = 12; known = []; work = 0 })
  ((answers, spans1, seen1), c1) ← read_records (u16_at b 6) b context flags 0 false c0
  ((authority, spans2, seen2), c2) ← read_records (u16_at b 8) b context flags 1 seen1 c1
  ((additional, spans3, _), c3) ← read_records (u16_at b 10) b context flags 2 seen2 c2
  fail_if (not (c3.at == length b)) invalid_data
  ok (record {
    id = u16_at b 0;
    flags = flags;
    questions = questions;
    answers = answers;
    authority = authority;
    additional = additional;
    original = b;
    spans = spans1 ++ spans2 ++ spans3;
  })
