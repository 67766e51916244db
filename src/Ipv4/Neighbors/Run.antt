-- ===== src/Ipv4/Neighbors/Run.antt =====
-- Any sequence of calls of the public operations of `Ipv4`, from its creation on.
use snak_machine_rs.Base.{
  ℕ, suc, ◌+◌, ◌≤◌, ◌≡◌, refl, ap, Option, none, some, List, [], ◌∷◌, arith, Bytes, length, any,
  Bool-cases, Option-cases, inl, inr, ltb, ◌||◌, not, Io,
}
use snak_machine_rs.Base.Maps.{nat_key, count, sum_values, size}
use snak_machine_rs.Ipv4.Wire.{Ipv4Addr, Mac, unicast}
use snak_machine_rs.Ipv4.Routing.{
  Ipv4, Route, new, configure, unavailable, set_routes, cleared, host_address, is_bad_gateway,
  is_bad_route,
}
use snak_machine_rs.Ipv4.Neighbors.{total, take_packet, send, receive, poll}
use snak_machine_rs.Ipv4.Neighbors.Bounds.{IsBounded}
use snak_machine_rs.Ipv4.Neighbors.Sending.{send-IsBounded}
use snak_machine_rs.Ipv4.Neighbors.Receiving.{receive-IsBounded, poll-IsBounded}

-- A call with its arguments.
pub data Event : Type 0 where
  configured : Ipv4Addr → ℕ → Option Ipv4Addr → Event
  lost : Event
  routed : List Route → Event
  sent : Bytes → ℕ → Event
  received : Bytes → ℕ → Event
  taken : Event
  polled : ℕ → Event

abbrev state_of : Option (Ipv4 × Io (List Bytes)) → Option Ipv4
state_of none = none
state_of (some (s, answer)) = some s

abbrev polled_state : Option (Ipv4 × List Bytes) → Option Ipv4
polled_state none = none
polled_state (some (s, frames)) = some s

-- The state after a call; `none` is a panic.
unfoldable pub step : Event → Ipv4 → Option Ipv4
step (configured a n g) s = some ((configure s a n g).0)
step lost s = some (unavailable s)
step (routed rs) s = some ((set_routes s rs).0)
step (sent b now) s = state_of (send s b now)
step (received f now) s = some ((receive s f now).0)
step taken s = some ((take_packet s).1)
step (polled now) s = polled_state (poll s now)

unfoldable pub run : List Event → Ipv4 → Option Ipv4
unfolding step
run [] s = some s
run (e ∷ es) s = elim (step e s) [ none ↦ none | some t ↦ run es t ]

empty_table :
    (s : Ipv4)
    → s.neighbors ≡ []
    → length s.input ≤ 64
    → total s.input ≤ 262144
    → s.arp_sent ≤ 32
    → IsBounded s
unfolding size sum_values count
empty_table s e i b r = record {
  neighbors = rw e (omega arith);
  packets = rw e (omega arith);
  bytes = rw e (omega arith);
  queues = rw e refl;
  unique = λ q. rw e (omega arith);
  input = i;
  input_bytes = b;
  requests = r;
  unaddressed = λ away. e;
}

cleared-IsBounded :
    (s : Ipv4) (a : Option (Ipv4Addr × ℕ)) (g : Option Ipv4Addr)
    → IsBounded s
    → IsBounded (cleared s a g)
unfolding total
cleared-IsBounded s a g v = empty_table (cleared s a g) refl (omega arith) (omega arith) v.requests

pub new-IsBounded : (mac : Mac) → IsBounded (new mac)
unfolding new total
new-IsBounded mac = empty_table (new mac) refl (omega arith) (omega arith) (omega arith)

pub configure-IsBounded :
    (s : Ipv4) (a : Ipv4Addr) (n : ℕ) (g : Option Ipv4Addr)
    → IsBounded s
    → IsBounded (configure s a n g).0
unfolding configure
configure-IsBounded s a n g v =
    elim (Bool-cases
      (ltb 32 n || not (unicast a) || not (host_address a n) || is_bad_gateway a n g)) [
        | inl bad ↦ rw (configure, bad) v
        | inr good ↦ rw (configure, good) (cleared-IsBounded s (some (a, n)) g v)
      ]

set_routes-IsBounded : (s : Ipv4) (rs : List Route) → IsBounded s → IsBounded (set_routes s rs).0
unfolding set_routes
set_routes-IsBounded s rs v = elim (Option-cases s.address) [
  | inl away ↦ rw (set_routes, away) v
  | inr ((a, n), home) ↦ elim (Bool-cases (ltb 64 (length rs) || any (is_bad_route a n) rs)) [
    | inl bad ↦ rw (set_routes, home, bad) v
    | inr good ↦
        rw (set_routes, home, good)
          (empty_table (record s { routes = rs; neighbors = [] }) refl v.input v.input_bytes
            v.requests)
  ]
]

taken_from : (s : Ipv4) (i : List Bytes) → s.input ≡ i → IsBounded s → IsBounded (take_packet s).1
unfolding take_packet total
taken_from s [] e v = rw (take_packet, e) v
taken_from s (b ∷ rest) e v =
    let shorter : length s.input ≡ suc (length rest) = ap length e in
    let less : total s.input ≡ length b + total rest = ap total e in
    rw (take_packet, e)
      (record {
        neighbors = v.neighbors;
        packets = v.packets;
        bytes = v.bytes;
        queues = v.queues;
        unique = v.unique;
        input = omega (arith, v.input, shorter);
        input_bytes = omega (arith, v.input_bytes, less);
        requests = v.requests;
        unaddressed = v.unaddressed;
      })

step-IsBounded :
    (e : Event) (s : Ipv4) → IsBounded s → (t : Ipv4) × (step e s ≡ some t) × IsBounded t
unfolding step unavailable
step-IsBounded (configured a n g) s v = (_, refl, configure-IsBounded s a n g v)
step-IsBounded lost s v = (_, refl, cleared-IsBounded s none none v)
step-IsBounded (routed rs) s v = (_, refl, set_routes-IsBounded s rs v)
step-IsBounded (sent b now) s v =
    let (t, answer, done, bounded, rest) = send-IsBounded s b now v in (t, rw done refl, bounded)
step-IsBounded (received f now) s v = (_, refl, receive-IsBounded s f now v)
step-IsBounded taken s v = (_, refl, taken_from s s.input refl v)
step-IsBounded (polled now) s v =
    let (t, frames, done, bounded, rest) = poll-IsBounded s now v in (t, rw done refl, bounded)

run_from :
    (es : List Event) (s : Ipv4) → IsBounded s → (t : Ipv4) × (run es s ≡ some t) × IsBounded t
unfolding run
run_from [] s v = (s, refl, v)
run_from (e ∷ es) s v =
    let (t, done, bounded) = step-IsBounded e s v in
    let (u, ended, within) = run_from es t bounded in (u, rw (run, done) ended, within)

-- No sequence of calls from the creation of the host on panics, and after each the neighbors, the packets
-- that wait for them, the input and the requests are within their bounds.
pub run-IsBounded :
    (mac : Mac) (es : List Event) → (s : Ipv4) × (run es (new mac) ≡ some s) × IsBounded s
run-IsBounded mac es = run_from es (new mac) (new-IsBounded mac)
