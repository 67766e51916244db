-- ===== src/Dns/Writer.antt =====
-- `encode_context`, `write_data_with` and `Dictionary` of src/dns/wire.rs.
use snak_machine_rs.Base.{
  ℕ, ◌+◌, ◌-◌, ◌≡◌, refl, ◌↔◌, Bool, true, false, ◌&&◌, none, some, List, [], ◌∷◌, ◌++◌, ltb, leb,
  ◌==◌, if◌then◌else◌, arith, Bytes, length, to_be, take, drop, Io, ok, err, invalid_data, ◌>>=◌,
  ◌>>◌, fail_if,
}
use snak_machine_rs.Base.Maps.{Map, Key, lookup, insert, size}
use snak_machine_rs.Dns.Name.{Name, write, write_labels, bytes_equal, bytes_less}
use snak_machine_rs.Dns.Rdata.{
  Context, is_mdns, Rdata, Params, empty_data, a_data, aaaa_data, name_data, srv, txt, preference,
  two_names, px, soa, key, sig, opt, nsec, svcb, bytes_data, opaque, Question, Record, Message,
}
use snak_machine_rs.Dns.Fields.{one_of}
use snak_machine_rs.Dns.Message.{max_wire, max_records, parse}

pub bytes_equal_iff : (a b : Bytes) → (bytes_equal a b ≡ true) ↔ (a ≡ b)
unfolding bytes_equal
bytes_equal_iff [] [] = ((λ _. refl), λ _. refl)
bytes_equal_iff [] (y ∷ b) = ground arith
bytes_equal_iff (x ∷ a) [] = ground arith
bytes_equal_iff (x ∷ a) (y ∷ b) = ground (arith, bytes_equal_iff a b)

instance abbrev pub bytes_key : Key Bytes
bytes_key = record { equal = bytes_equal; less = bytes_less; equal_iff = bytes_equal_iff }

pub record Dictionary : Type 0 where
  pub entries : Map Bytes ℕ
  pub bytes : ℕ

abbrev pub no_entries : Dictionary
no_entries = record { entries = []; bytes = 0 }

-- A new suffix at the place, if both limits and the reach of a pointer allow it.
unfoldable pub remember : Bytes → ℕ → Dictionary → Dictionary
remember suffix at d =
    if ltb (size d.entries) 1024 && leb (d.bytes + length suffix) 65536 && ltb at 0x4000
    then record { entries = insert suffix at d.entries; bytes = d.bytes + length suffix }
    else d

-- The output and the dictionary.
abbrev pub Writing : Type 0
Writing = Bytes × Dictionary

-- `while wire[at] != 0`, label by label; what is left of `wire` is the suffix.
unfoldable pub write_suffix : List Bytes → Writing → Io Writing
unfolding remember
write_suffix [] (out, d) = do fail_if (length out == max_wire) invalid_data; ok (out ++ 0 ∷ [], d)
write_suffix (l ∷ ls) (out, d) =
    let suffix = write_labels (l ∷ ls) ++ 0 ∷ [] in
    let rest : Io Writing = write_suffix ls (out ++ length l ∷ l, remember suffix (length out) d) in
    elim (lookup suffix d.entries) [
      | some offset ↦ do
        fail_if (ltb max_wire (length out + 2)) invalid_data
        ok (out ++ to_be 2 (0xc000 + offset), d)
      | none ↦ do fail_if (ltb max_wire (length out + (length l + 1))) invalid_data; rest
    ]

-- `write_name`: the plain form, or with the dictionary.
unfoldable pub write_name : Bool → Name → Writing → Io Writing
unfolding write_suffix
write_name false n (out, d) = ok (out ++ write n, d)
write_name true n w = write_suffix n.labels w

abbrev pub put : Bytes → Writing → Writing
put bytes (out, d) = (out ++ bytes, d)

unfoldable pub write_strings : List Bytes → Writing → Io Writing
write_strings [] w = ok w
write_strings (s ∷ ss) w = do
  fail_if (ltb 255 (length s)) invalid_data
  write_strings ss (put (length s ∷ s) w)

unfoldable pub write_options : Params → Writing → Io Writing
write_options [] w = ok w
write_options ((code, s) ∷ ss) w = do
  fail_if (ltb max_wire (length s)) invalid_data
  write_options ss (put (to_be 2 code ++ to_be 2 (length s) ++ s) w)

-- The fields of a variant, by the arms of `write_data_with`.
unfoldable pub write_fields : Bool → Rdata → Writing → Io Writing
unfolding write_name write_strings write_options
write_fields z empty_data w = ok w
write_fields z (a_data a) w = ok (put a w)
write_fields z (aaaa_data a) w = ok (put a w)
write_fields z (name_data n) w = write_name z n w
write_fields z (srv priority weight port target) w =
    write_name z target (put (to_be 2 priority ++ to_be 2 weight ++ to_be 2 port) w)
write_fields z (preference value name) w = write_name z name (put (to_be 2 value) w)
write_fields z (two_names first second) w = do w1 ← write_name z first w; write_name z second w1
write_fields z (px value map822 mapx400) w = do
  w1 ← write_name z map822 (put (to_be 2 value) w)
  write_name z mapx400 w1
write_fields z (txt ss) w = write_strings ss w
write_fields z (soa mname rname serial refresh retry expire minimum) w = do
  w1 ← write_name z mname w
  w2 ← write_name z rname w1
  ok (
      put (to_be 4 serial ++ to_be 4 refresh ++ to_be 4 retry ++ to_be 4 expire ++ to_be 4 minimum)
        w2)
write_fields z (key flags protocol algorithm bytes) w =
    ok (put (to_be 2 flags ++ protocol ∷ algorithm ∷ bytes) w)
write_fields z
      (sig covered algorithm labels original_ttl expiration inception key_tag signer signature) w =
    ok (
      put
        (to_be 2 covered
          ++ algorithm ∷ labels ∷ to_be 4 original_ttl
          ++ to_be 4 expiration
          ++ to_be 4 inception
          ++ to_be 2 key_tag
          ++ write signer
          ++ signature)
        w)
write_fields z (opt params) w = write_options params w
write_fields z (nsec next bitmap) w = do w1 ← write_name z next w; ok (put bitmap w1)
write_fields z (svcb priority target params) w =
    write_options params (put (to_be 2 priority ++ write target) w)
write_fields z (bytes_data bytes) w = ok (put bytes w)
write_fields z (opaque bytes) w = err invalid_data

unfoldable pub write_data : Bool → Rdata → Writing → Io Writing
unfolding write_fields
write_data z r w = do
  w1 ← write_fields z r w
  fail_if (ltb max_wire (length w1.0)) invalid_data
  ok w1

unfoldable pub write_question : Bool → Question → Writing → Io Writing
write_question z q w = do
  w1 ← write_name z q.name w
  ok (put (to_be 2 q.kind ++ to_be 2 q.class) w1)

unfoldable pub write_questions : Bool → List Question → Writing → Io Writing
unfolding write_question
write_questions z [] w = ok w
write_questions z (q ∷ qs) w = do w1 ← write_question z q w; write_questions z qs w1

-- The types whose names are compressed.
abbrev pub compressed_kinds : List ℕ
compressed_kinds = 2 ∷ 5 ∷ 6 ∷ 12 ∷ 15 ∷ 17 ∷ 18 ∷ 21 ∷ 26 ∷ 33 ∷ 36 ∷ 39 ∷ 47 ∷ []

-- The length is written over its place once the data stand behind it.
unfoldable pub write_record : Bool → Record → Writing → Io Writing
unfolding write_data
write_record z r w = do
  w1 ← write_name z r.name w
  let w2 = put (to_be 2 r.kind ++ to_be 2 r.class ++ to_be 4 r.ttl) w1
  let start = length w2.0 + 2
  w3 ← write_data (z && one_of compressed_kinds r.kind) r.data_of (put (0 ∷ 0 ∷ []) w2)
  fail_if (ltb max_wire (length w3.0)) invalid_data
  ok (take (length w2.0) w3.0 ++ to_be 2 (length w3.0 - start) ++ drop start w3.0, w3.1)

unfoldable pub write_records : Bool → List Record → Writing → Io Writing
unfolding write_record
write_records z [] w = ok w
write_records z (r ∷ rs) w = do w1 ← write_record z r w; write_records z rs w1

abbrev pub records_of : Message → List Record
records_of m = m.answers ++ m.authority ++ m.additional

abbrev pub record_count : Message → ℕ
record_count m = length m.questions + length m.answers + length m.authority + length m.additional

-- The message is read again before it is given out.
unfoldable pub encode_context : Message → Context → Io Bytes
unfolding write_questions write_records
encode_context m context = do
  fail_if (ltb max_records (record_count m)) invalid_data
  let z = is_mdns context
  let head =
      to_be 2 m.id
      ++ to_be 2 m.flags
      ++ to_be 2 (length m.questions)
      ++ to_be 2 (length m.answers)
      ++ to_be 2 (length m.authority)
      ++ to_be 2 (length m.additional)
  w1 ← write_questions z m.questions (head, no_entries)
  w2 ← write_records z (records_of m) w1
  _ ← parse w2.0 context
  ok w2.0
