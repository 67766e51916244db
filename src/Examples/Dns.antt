-- ===== src/Examples/Dns.antt =====
-- Theorems on the code of src/dns/wire.rs at concrete inputs.
use snak_machine_rs.Base.{
  ◌+◌, ◌≤◌, ◌≡◌, refl, true, none, List, [], ◌∷◌, ◌++◌, arith, Bytes, length, ok,
}
use snak_machine_rs.Dns.Name.{Name, from_labels, canonical_of, write}
use snak_machine_rs.Dns.Rdata.{Message, unicast}
use snak_machine_rs.Dns.Reader.{Cursor, Walk, read_u16, read_u32, read_name, name_loop, name_rounds}
use snak_machine_rs.Dns.Reader.Rounds.{Ends, name_loop-Ends}
use snak_machine_rs.Dns.Reader.Names.{starts, read_name-write}
use snak_machine_rs.Dns.Fields.{read_rdata}
use snak_machine_rs.Dns.Message.{parse, read_questions, max_wire, max_records}
use snak_machine_rs.Dns.Message.Records.{Tiles}
use snak_machine_rs.Dns.Message.Spans.{parse-Tiles}

-- The name ab.c
abbrev two_labels : List Bytes
two_labels = (97 ∷ 98 ∷ []) ∷ (99 ∷ []) ∷ []

abbrev two_name : Name
two_name = record { labels = two_labels; canonical = canonical_of two_labels }

two_name_built : from_labels two_labels ≡ ok two_name
unfolding from_labels
two_name_built = refl

abbrev start : Cursor
start = record { at = 1; known = []; work = 0 }

read_name-write_example :
    read_name (7 ∷ [] ++ (write two_name ++ 8 ∷ [])) 7 true start
    ≡ ok (
      two_name,
      record {
        at = 1 + length (write two_name);
        known = starts 1 two_labels ++ [];
        work = 0 + length two_labels + 1;
      },
    )
read_name-write_example =
    read_name-write (7 ∷ [] ++ (write two_name ++ 8 ∷ [])) (7 ∷ []) (8 ∷ []) two_labels two_name 7
      true start two_name_built refl refl (unfold write in omega arith) (omega arith)

abbrev first_walk : Walk
first_walk = record {
  pos = 1;
  limit = 7;
  consumed = none;
  labels = [];
  positions = [];
  size = 1;
  hops = 0;
  work = 0;
}

name_loop-Ends_example :
    Ends (7 ∷ 1 ∷ 99 ∷ 0 ∷ []) (name_loop name_rounds (7 ∷ 1 ∷ 99 ∷ 0 ∷ []) [] true first_walk)
name_loop-Ends_example =
    (name_loop-Ends name_rounds (7 ∷ 1 ∷ 99 ∷ 0 ∷ []) [] true first_walk (omega arith, omega arith)
      (omega arith)).0

-- A response with one A record of the root.
abbrev response : Bytes
response =
    0 ∷ 1 ∷ 0x84 ∷ 0 ∷ 0 ∷ 0 ∷ 0 ∷ 1 ∷ 0 ∷ 0 ∷ 0 ∷ 0 ∷ 0 ∷ 0 ∷ 1 ∷ 0 ∷ 1 ∷ 0 ∷ 0 ∷ 0 ∷ 60 ∷ 0 ∷ 4
    ∷ 10 ∷ 0 ∷ 0 ∷ 1 ∷ []

response_read : (m : Message) × (parse response unicast ≡ ok m)
unfolding parse read_name name_loop from_labels read_u16 read_u32 read_rdata
response_read = (_, refl)

parse-Tiles_example :
    (c0 : Cursor) × (read_questions 0 response (record { at = 12; known = []; work = 0 })
      ≡ ok (response_read.0.questions, c0))
    × Tiles response c0.at
        (response_read.0.answers ++ response_read.0.authority ++ response_read.0.additional)
        response_read.0.spans
        27
    × (length response_read.0.spans
        ≡ length response_read.0.answers
          + length response_read.0.authority
          + length response_read.0.additional)
    × (length response_read.0.answers ≡ 1)
    × (length response_read.0.authority ≡ 0)
    × (length response_read.0.additional ≡ 0)
    × (length response_read.0.spans ≤ max_records)
    × (12 ≤ 27)
    × (27 ≤ max_wire)
    × (response_read.0.original ≡ response)
parse-Tiles_example = parse-Tiles response unicast response_read.0 response_read.1
