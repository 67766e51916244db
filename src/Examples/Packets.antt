-- ===== src/Examples/Packets.antt =====
-- Theorems on the code of src/ipv4 and src/ip_reassembly.rs at concrete inputs.
use snak_machine_rs.Base.{
  ℕ, ◌≡◌, ◌≢◌, refl, true, false, none, some, inl, List, [], ◌∷◌, arith, Bytes, Io, ok, err,
  invalid_data, drop, map, replicate,
}
use snak_machine_rs.Base.Maps.{nat_key, lookup, contains, insert, place, size, sum_values}
use snak_machine_rs.Wire.Envelope.{add_words, fold_carries}
use snak_machine_rs.Ipv4.Wire.{unicast, parse, encode, options_loop, options_step}
use snak_machine_rs.Ipv4.Wire.RoundTrip.{parse-encode}
use snak_machine_rs.Ipv4.Arp
use snak_machine_rs.Ipv4.Arp.{Arp}
use snak_machine_rs.Ipv4.Routing.{Neighbor, Ipv4, new, configure, same_prefix}
use snak_machine_rs.Ipv4.Neighbors.{send, resolved, ethernet, is_foreign, receive}
use snak_machine_rs.Ipv4.Neighbors.Bounds.{IsBounded}
use snak_machine_rs.Ipv4.Neighbors.Sending.{IsSent, send-IsBounded}
use snak_machine_rs.Ipv4.Neighbors.Replies.{receive_reply}
use snak_machine_rs.Ipv4.Neighbors.Run.{
  Event, configured, sent, polled, run, run-IsBounded, new-IsBounded, configure-IsBounded,
}
use snak_machine_rs.Reassembly.Parse.{FragmentKey, fragment_key, key_equal, v6, Fragment}
use snak_machine_rs.Reassembly.{
  Context, Datagram, Reassembler, context_bytes, input_scoped, enter, is_invalid,
}
use snak_machine_rs.Dns.Name.{bytes_equal}
use snak_machine_rs.Reassembly.Invariant
use snak_machine_rs.Reassembly.Invariant.{empty-IsBounded, enter-IsBounded, input_scoped-IsBounded}
use snak_machine_rs.Reassembly.Delivery.{IsAssembled, enter-IsAssembled}
use snak_machine_rs.Reassembly.Conflict.{Contradicts, shared, enter_conflict}
use snak_machine_rs.Reassembly.Split.{limits, fragment}
use snak_machine_rs.Reassembly.Split.Sizes.{Fits, bodies, fragment_lem}

parse-encode_example :
    (b : Bytes) × (encode 0x0a00_0002 0x0a00_0003 17 64 (1 ∷ 2 ∷ 3 ∷ []) ≡ ok b)
    × (parse b
        ≡ ok (record {
          source = 0x0a00_0002;
          destination = 0x0a00_0003;
          ttl = 64;
          protocol = 17;
          payload = 1 ∷ 2 ∷ 3 ∷ [];
          bytes = b;
          header_len = 20;
          fragment_offset = 0;
          more_fragments = false;
          dont_fragment = false;
          id = 0;
          traffic_class = 0;
        }))
parse-encode_example =
    parse-encode 0x0a00_0002 0x0a00_0003 17 64 (1 ∷ 2 ∷ 3 ∷ []) (omega arith) (omega arith)
      (omega arith) (omega arith) (omega arith)

-- A packet of three bytes from 10.0.0.2 to 10.0.0.3.
abbrev datagram : Bytes
datagram =
    0x45 ∷ 0 ∷ 0 ∷ 23 ∷ 0 ∷ 0 ∷ 0 ∷ 0 ∷ 64 ∷ 17 ∷ 0x66 ∷ 0xd2 ∷ 10 ∷ 0 ∷ 0 ∷ 2 ∷ 10 ∷ 0 ∷ 0 ∷ 3 ∷ 1
    ∷ 2 ∷ 3 ∷ []

abbrev host : Ipv4
host = (configure (new 0x02_00_00_00_00_01) 0x0a00_0002 24 none).0

send-IsBounded_example :
    (s' : Ipv4) × (answer : Io (List Bytes)) × (send host datagram 5 ≡ some (s', answer))
    × IsBounded s'
    × ((frames : List Bytes) → answer ≡ ok frames → IsSent host datagram 5 s' frames)
send-IsBounded_example = send-IsBounded host datagram 5 (
    configure-IsBounded (new 0x02_00_00_00_00_01) 0x0a00_0002 24 none
      (new-IsBounded 0x02_00_00_00_00_01))

abbrev calls : List Event
calls = configured 0x0a00_0002 24 none ∷ sent datagram 5 ∷ polled 2000 ∷ []

run-IsBounded_example : (s : Ipv4) × (run calls (new 0x02_00_00_00_00_01) ≡ some s) × IsBounded s
run-IsBounded_example = run-IsBounded 0x02_00_00_00_00_01 calls

abbrev asked : Neighbor
asked = record { mac = none; deadline = 1005; attempts = 1; queue = datagram ∷ [] }

abbrev waiting_host : Ipv4
waiting_host = record {
  mac = 0x02_00_00_00_00_01;
  address = some (0x0a00_0002, 24);
  gateway = none;
  neighbors = (0x0a00_0003, asked) ∷ [];
  routes = [];
  input = [];
  arp_window = 0;
  arp_sent = 1;
}

abbrev reply : Arp
reply = record {
  operation = 2;
  sender_mac = 0x02_00_00_00_00_02;
  sender = 0x0a00_0003;
  target_mac = 0x02_00_00_00_00_01;
  target = 0x0a00_0002;
}

abbrev reply_frame : Bytes
reply_frame =
    2 ∷ 0 ∷ 0 ∷ 0 ∷ 0 ∷ 1 ∷ 2 ∷ 0 ∷ 0 ∷ 0 ∷ 0 ∷ 2 ∷ 8 ∷ 6 ∷ 0 ∷ 1 ∷ 8 ∷ 0 ∷ 6 ∷ 4 ∷ 0 ∷ 2 ∷ 2 ∷ 0
    ∷ 0 ∷ 0 ∷ 0 ∷ 2 ∷ 10 ∷ 0 ∷ 0 ∷ 3 ∷ 2 ∷ 0 ∷ 0 ∷ 0 ∷ 0 ∷ 1 ∷ 10 ∷ 0 ∷ 0 ∷ 2 ∷ []

reply_frame_ours : is_foreign waiting_host reply_frame ≡ false
unfolding is_foreign
reply_frame_ours = refl

reply_frame_read : Arp.parse reply_frame ≡ ok reply
unfolding Arp.parse unicast
reply_frame_read = refl

reply_near : same_prefix 0x0a00_0002 0x0a00_0003 24 ≡ true
unfolding same_prefix
reply_near = refl

asked_there : lookup reply.sender waiting_host.neighbors ≡ some asked
unfolding lookup
asked_there = refl

receive_reply_example :
    ((receive waiting_host reply_frame 20).1
      ≡ ok (map (ethernet waiting_host.mac reply.sender_mac) asked.queue))
    × (resolved (receive waiting_host reply_frame 20).0 reply.sender 30 ≡ some reply.sender_mac)
    × ((k : Neighbor)
        → lookup reply.sender (receive waiting_host reply_frame 20).0.neighbors ≡ some k
        → k.queue ≡ [])
    × (lookup 0x0a00_0004 (receive waiting_host reply_frame 20).0.neighbors
        ≡ lookup 0x0a00_0004 waiting_host.neighbors)
receive_reply_example =
    (receive_reply waiting_host reply_frame 20 30 0x0a00_0002 24 reply 0x0a00_0004 refl
        reply_frame_ours refl reply_frame_read refl (λ e. omega (arith, e)) (λ e. omega (arith, e))
        (λ e. omega (arith, e)) refl reply_near (omega arith) (λ e. omega (arith, e))).2
      asked asked_there (inl refl)

input_scoped-IsBounded_example : Invariant.IsBounded (input_scoped [] datagram 5 0).0
input_scoped-IsBounded_example = input_scoped-IsBounded [] datagram 5 0 empty-IsBounded

-- The header of a UDP packet over IPv6, without its length.
abbrev udp_header : Bytes
udp_header = 0x60 ∷ 0 ∷ 0 ∷ 0 ∷ 0 ∷ 0 ∷ 17 ∷ 64 ∷ replicate 32 0

abbrev udp_key : FragmentKey
udp_key = record { scope = 0; source = v6 0; destination = v6 0; protocol = 0; id = 9 }

abbrev first_part : Fragment
first_part = record {
  key = udp_key;
  header = udp_header;
  offset = 0;
  more = true;
  payload = replicate 8 1;
}

abbrev last_part : Fragment
last_part = record {
  key = udp_key;
  header = udp_header;
  offset = 8;
  more = false;
  payload = 2 ∷ 3 ∷ [];
}

abbrev half : Reassembler
half = (enter [] first_part 5).0

half-IsBounded : Invariant.IsBounded half
half-IsBounded = enter-IsBounded [] first_part 5 empty-IsBounded

completed : (d : Datagram) × ((enter half last_part 6).1 ≡ ok (some d))
unfolding enter lookup insert contains place size sum_values key_equal bytes_equal context_bytes
completed = (_, refl)

enter-IsAssembled_example :
    IsAssembled half last_part completed.0 × (lookup udp_key (enter half last_part 6).0 ≡ none)
enter-IsAssembled_example =
    enter-IsAssembled half last_part 6 completed.0 half-IsBounded refl completed.1

-- A part that shares the bytes 4 to 7 with the first one.
abbrev bad_part : Fragment
bad_part = record {
  key = udp_key;
  header = udp_header;
  offset = 4;
  more = true;
  payload = replicate 8 7;
}

abbrev half_context : Context
half_context = record {
  header = udp_header;
  parts = (0, replicate 8 1) ∷ [];
  end = none;
  deadline = 60005;
}

half_found : lookup udp_key half ≡ some half_context
unfolding enter lookup insert contains place size sum_values key_equal bytes_equal
half_found = refl

bad_part-Contradicts : Contradicts half_context bad_part
unfolding lookup
bad_part-Contradicts =
    shared 5 (0, replicate 8 1, refl, omega arith, omega arith) (omega arith) (omega arith)

bad_part_valid : is_invalid bad_part ≡ false
unfolding is_invalid
bad_part_valid = refl

enter_conflict_example :
    ((enter half bad_part 6).1 ≡ err invalid_data)
    × (lookup udp_key (enter half bad_part 6).0 ≡ none)
    × (record udp_key { id = 8 } ≢ udp_key
        → lookup (record udp_key { id = 8 }) (enter half bad_part 6).0
          ≡ lookup (record udp_key { id = 8 }) half)
enter_conflict_example =
    (enter_conflict half bad_part 6 half_context (record udp_key { id = 8 }) half-IsBounded refl
        bad_part_valid half_found).0
      bad_part-Contradicts

abbrev long_packet : Bytes
long_packet =
    0x45
    ∷ 0
    ∷ 0
    ∷ 84
    ∷ 0
    ∷ 0
    ∷ 0
    ∷ 0
    ∷ 64
    ∷ 17
    ∷ 0x66
    ∷ 0x95
    ∷ 10
    ∷ 0
    ∷ 0
    ∷ 2
    ∷ 10
    ∷ 0
    ∷ 0
    ∷ 3
    ∷ replicate 64 7

fragmented : (fs : List Bytes) × (fragment long_packet 68 1 ≡ ok fs)
unfolding fragment options_loop options_step add_words fold_carries
fragmented = (_, refl)

fragment_lem_example :
    (header overhead : ℕ) × (limits long_packet 68 ≡ ok (header, overhead))
    × Fits 68 fragmented.0
    × (bodies overhead fragmented.0 ≡ drop header long_packet)
fragment_lem_example = fragment_lem long_packet 68 1 fragmented.0 fragmented.1 (omega arith)
