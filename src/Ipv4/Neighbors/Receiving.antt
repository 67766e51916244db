-- ===== src/Ipv4/Neighbors/Receiving.antt =====
-- Receiving and polling keep the bounds of the neighbor table and never panic.
use snak_machine_rs.Base.{
  ℕ, ◌+◌, ◌≤◌, ◌≡◌, refl, sym, ap, subst, ◌∙◌, true, not, ◌&&◌, ◌||◌, ◌==◌, none, some, List, [],
  ◌∷◌, ◌++◌, arith, is_some, Bytes, slice, take, drop, from_be, length, length-append, leb, ltb,
  Bool-cases, Option-cases, Result-cases, inl, inr, saturating_add,
}
use snak_machine_rs.Base.Maps.{nat_key, retain, keys_where, lookup, contains, insert}
use snak_machine_rs.Base.Maps.Sizes.{AllIn, insert-AllIn, keys_where-AllIn}
use snak_machine_rs.Ipv4.Wire.{Ipv4Addr, parse, unicast}
use snak_machine_rs.Ipv4.Arp
use snak_machine_rs.Ipv4.Arp.{Arp}
use snak_machine_rs.Ipv4.Routing.{Neighbor, Ipv4, same_prefix}
use snak_machine_rs.Ipv4.Neighbors.{
  total, max_bytes, pending_input, allow_arp, is_foreign, accept, is_news, learn, answer, receive,
  is_dead, is_due, ask, poll,
}
use snak_machine_rs.Ipv4.Neighbors.Bounds.{
  IsBounded, allow_arp-keeps, allow_arp-IsBounded, probe_lem, total-append, retained-IsBounded,
  entered-IsBounded, queue_lem,
}

accept-IsBounded : (s : Ipv4) (a : Ipv4Addr) (f : Bytes) → IsBounded s → IsBounded (accept s a f)
unfolding accept pending_input total
accept-IsBounded s a f v = elim (Result-cases (parse (drop 14 f))) [
  | inl (x, bad) ↦ rw (accept, bad) v
  | inr (p, good) ↦
      let t = record s { input = s.input ++ p.bytes ∷ [] } in
      elim (Bool-cases (
        p.destination == a
        && unicast p.source
        && ltb 0 p.ttl
        && from_be (take 6 f) == s.mac
        && ltb (length s.input) 64
        && leb (total s.input + length p.bytes) max_bytes)) [
          | inr refused ↦ rw (accept, good, refused) v
          | inl room ↦
              let longer = length-append s.input (p.bytes ∷ []) in
              let more = total-append s.input (p.bytes ∷ []) in
              rw (accept, good, room)
                (record {
                  neighbors = v.neighbors;
                  packets = v.packets;
                  bytes = v.bytes;
                  queues = v.queues;
                  unique = v.unique;
                  input = ground (arith, longer);
                  input_bytes = ground (arith, more);
                  requests = v.requests;
                  unaddressed = v.unaddressed;
                })
        ]
]

-- The entry of a neighbor whose address was told.
abbrev pub known_entry : Arp → ℕ → Neighbor
known_entry a now = record {
  mac = some a.sender_mac;
  deadline = saturating_add now 60000;
  attempts = 0;
  queue = [];
}

learn-IsBounded :
    (s : Ipv4) (a : Arp) (now : ℕ)
    → IsBounded s
    → is_some s.address ≡ true
    → IsBounded (learn s a now).0
unfolding learn is_news contains total
learn-IsBounded s a now v home = elim (Bool-cases (is_news s a)) [
  | inr old ↦ rw (learn, old) v
  | inl news ↦
      let t = record s { neighbors = insert a.sender (known_entry a now) s.neighbors } in
      rw (learn, news)
        (entered-IsBounded s t a.sender (known_entry a now) v home refl refl refl v.requests
          (λ e. ground arith) (omega arith) (omega (arith, v.packets)) (omega (arith, v.bytes)))
]

learn_address : (s : Ipv4) (a : Arp) (now : ℕ) → (learn s a now).0.address ≡ s.address
unfolding learn
learn_address s a now = ground arith

answer-IsBounded :
    (s : Ipv4) (ip : Ipv4Addr) (a : Arp) (now : ℕ) → IsBounded s → IsBounded (answer s ip a now).0
unfolding answer
answer-IsBounded s ip a now v = elim (Bool-cases (a.operation == 1)) [
  | inl request ↦ rw (answer, request) (allow_arp-IsBounded s now v)
  | inr other ↦ rw (answer, other) v
]

-- Every frame that is received keeps the bounds.
pub receive-IsBounded :
    (s : Ipv4) (f : Bytes) (now : ℕ) → IsBounded s → IsBounded (receive s f now).0
unfolding receive
receive-IsBounded s f now v = elim (Option-cases s.address) [
  | inl away ↦ rw (receive, away) v
  | inr ((address, len), home) ↦ elim (Bool-cases (is_foreign s f)) [
    | inl foreign ↦ rw (receive, home, foreign) v
    | inr ours ↦ elim (Bool-cases (from_be (slice 12 14 f) == 0x0800)) [
      | inl packet ↦ rw (receive, home, ours, packet) (accept-IsBounded s address f v)
      | inr arp ↦ elim (Result-cases (Arp.parse f)) [
        | inl (x, bad) ↦ rw (receive, home, ours, arp, bad) v
        | inr (a, good) ↦
            let learned = learn-IsBounded s a now v (rw home refl) in
            let answered = answer-IsBounded (learn s a now).0 address a now learned in
            elim (Bool-cases (
              a.sender_mac == s.mac
              || a.sender == address
              || not (a.target == address)
              || (not (a.sender == 0) && not (same_prefix address a.sender len)))) [
                | inl ignored ↦ rw (receive, home, ours, arp, good, ignored) v
                | inr taken ↦ rw (receive, home, ours, arp, good, taken) answered
              ]
      ]
    ]
  ]
]

-- A neighbor in the table shows that there is an address.
home_lem :
    (s : Ipv4) (ip : Ipv4Addr) (n : Neighbor)
    → IsBounded s
    → lookup ip s.neighbors ≡ some n
    → is_some s.address ≡ true
unfolding lookup
home_lem s ip n v there = elim (Option-cases s.address) [
  | inl away ↦
      let nothing : lookup ip s.neighbors ≡ none = ap (lookup ip) (v.unaddressed away) in
      absurd (ground (arith, nothing, there))
  | inr (a, home) ↦ rw home refl
]

-- With every destination in the table, the loop asks without a panic.
ask-IsBounded :
    (ips : List Ipv4Addr) (s : Ipv4) (now : ℕ)
    → IsBounded s
    → AllIn ips s.neighbors
    → (r : Ipv4 × List Bytes) × (ask s ips now ≡ some r) × IsBounded r.0 × (length r.1 ≤ length ips)
unfolding ask lookup
ask-IsBounded [] s now v h = ((s, []), refl, v, omega arith)
ask-IsBounded (ip ∷ ips) s now v h =
    let t = (allow_arp s now).1 in
    let (table, address, input, few, mac) = allow_arp-keeps s now v.requests in
    let w = allow_arp-IsBounded s now v in
    elim (Bool-cases (allow_arp s now).0) [
      | inr refused ↦ ((t, []), rw (ask, refused) refl, w, omega arith)
      | inl granted ↦ elim (Option-cases (lookup ip s.neighbors)) [
        | inl missing ↦ absurd (ground (arith, h.0, missing))
        | inr (n, there) ↦
            let there' : lookup ip t.neighbors ≡ some n = ap (lookup ip) table ∙ there in
            let asked = record n {
              attempts = n.attempts + 1;
              deadline = saturating_add now 1000;
            } in
            let u = record t { neighbors = insert ip asked t.neighbors } in
            let home : is_some t.address ≡ true = home_lem t ip n w there' in
            let (frame, framed) = probe_lem u ip home in
            let bounded =
              entered-IsBounded t u ip asked w home refl refl refl few
                (λ e. absurd (ground (arith, there', e)))
                (queue_lem ip n t.neighbors there' w.queues) (rw there' (omega (arith, w.packets)))
                (rw there' (omega (arith, w.bytes))) in
            let rest : AllIn ips u.neighbors =
              insert-AllIn ip asked ips t.neighbors (subst (AllIn ips) (sym table) h.1) in
            let (r, done, end, short) = ask-IsBounded ips u now bounded rest in
            (
              (r.0, frame ∷ r.1),
              rw (ask, granted, there', framed, done) refl,
              end,
              omega (arith, short),
            )
      ]
    ]

-- From a state within the bounds, poll never panics and keeps the bounds; it sends at most one request for
-- each neighbor that is due.
pub poll-IsBounded :
    (s : Ipv4) (now : ℕ)
    → IsBounded s
    → (s' : Ipv4) × (frames : List Bytes) × (poll s now ≡ some (s', frames))
      × IsBounded s'
      × (length frames ≤ length (keys_where (λ _ n. is_due now n) s.neighbors))
unfolding poll
poll-IsBounded s now v =
    let t = record s { neighbors = retain (λ _ n. not (is_dead now n)) s.neighbors } in
    let there =
      keys_where-AllIn (λ _ n. is_due now n) (λ _ n. not (is_dead now n)) s.neighbors
        (λ k n e. ground (arith, e)) in
    let (r, done, bounded, short) =
      ask-IsBounded (keys_where (λ _ n. is_due now n) s.neighbors) t now
        (retained-IsBounded s (λ _ n. not (is_dead now n)) v) there in
    (r.0, r.1, done, bounded, short)
