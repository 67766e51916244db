-- ===== src/Ipv4/Neighbors/Sending.antt =====
-- Sending keeps the bounds of the neighbor table and never panics.
use snak_machine_rs.Base.{
  ℕ, ◌≤◌, ◌≡◌, refl, ap, ◌∙◌, true, false, none, some, List, [], ◌∷◌, ◌++◌, arith, is_some, Bytes,
  length, length-append, Bool-cases, Option-cases, Result-cases, inl, inr, Io, ok, err, other,
  would_block, saturating_add,
}
use snak_machine_rs.Base.Maps.{nat_key, retain, lookup, contains, insert, lookup-insert-same}
use snak_machine_rs.Ipv4.Wire.{Ipv4Addr, Packet, parse}
use snak_machine_rs.Ipv4.Routing.{Neighbor, Ipv4, next_hop}
use snak_machine_rs.Ipv4.Neighbors.{
  total, queued, probe, allow_arp, resolved, is_full, or_new, enqueue, is_current, send, ethernet,
}
use snak_machine_rs.Ipv4.Neighbors.Bounds.{
  IsBounded, allow_arp-keeps, allow_arp-IsBounded, probe_lem, total-append, parse-le,
  retained-IsBounded, entered-IsBounded, queue_lem,
}

-- The entry of a new packet that waits.
abbrev waiting_entry : Ipv4 → Ipv4Addr → Bytes → ℕ → Neighbor
waiting_entry s next b now =
    let n = or_new (lookup next s.neighbors) (saturating_add now 1000) in
    record n { queue = n.queue ++ b ∷ [] }

abbrev with_waiting : Ipv4 → Ipv4Addr → Bytes → ℕ → Ipv4
with_waiting s next b now = record s {
  neighbors = insert next (waiting_entry s next b now) s.neighbors;
}

with_waiting-IsBounded :
    (s : Ipv4) (next : Ipv4Addr) (b : Bytes) (now len : ℕ)
    → IsBounded s
    → is_some s.address ≡ true
    → is_full s next len ≡ false
    → length b ≤ len
    → IsBounded (with_waiting s next b now)
unfolding is_full queued total contains
with_waiting-IsBounded s next b now len v home room short =
    let n = or_new (lookup next s.neighbors) (saturating_add now 1000) in
    let n1 = length-append n.queue (b ∷ []) in
    let n2 = total-append n.queue (b ∷ []) in
    entered-IsBounded s (with_waiting s next b now) next (waiting_entry s next b now) v home refl
      refl refl v.requests (λ e. ground arith) (ground (arith, n1)) (ground (arith, n1))
      (ground (arith, n2))

-- The packet waits last.
abbrev pub Waits : Ipv4 → Ipv4Addr → Bytes → Type 0
Waits s next b =
    (n : Neighbor) × (before : List Bytes) × (lookup next s.neighbors ≡ some n)
    × (n.queue ≡ before ++ b ∷ [])

-- With room for the packet there is no panic, the packet waits, and the bounds are kept.
enqueue-IsBounded :
    (s : Ipv4) (next : Ipv4Addr) (b : Bytes) (now len : ℕ)
    → IsBounded s
    → is_some s.address ≡ true
    → is_full s next len ≡ false
    → length b ≤ len
    → (r : Ipv4 × List Bytes) × (enqueue s next b now ≡ some r) × IsBounded r.0 × Waits r.0 next b
unfolding enqueue probe
enqueue-IsBounded s next b now len v home room short =
    let t = with_waiting s next b now in
    let w = with_waiting-IsBounded s next b now len v home room short in
    let u = (allow_arp t now).1 in
    let (table, address, input, few, mac) = allow_arp-keeps t now w.requests in
    let w' = allow_arp-IsBounded t now w in
    let entry = waiting_entry s next b now in
    let home' : is_some u.address ≡ true = ground (arith, address, home) in
    let before = (or_new (lookup next s.neighbors) (saturating_add now 1000)).queue in
    let (frame, framed) = probe_lem u next home' in
    let there : lookup next u.neighbors ≡ some entry =
      ap (lookup next) table ∙ lookup-insert-same next entry s.neighbors in
    let asked = record entry { attempts = 1 } in
    let u' = record u { neighbors = insert next asked u.neighbors } in
    elim (Bool-cases (contains next s.neighbors)) [
      | inl known ↦ (
        (t, []),
        rw known refl,
        w,
        (entry, before, lookup-insert-same next entry s.neighbors, refl),
      )
      | inr fresh ↦ elim (Bool-cases (allow_arp t now).0) [
        | inr refused ↦ ((u, []), rw (fresh, refused) refl, w', (entry, before, there, refl))
        | inl granted ↦ (
          (u', frame ∷ []),
          rw (fresh, granted, framed) refl,
          entered-IsBounded u u' next asked w' home' refl refl refl few
              (λ e. absurd (ground (arith, there, e)))
              (queue_lem next entry u.neighbors there w'.queues)
              (rw there (omega (arith, w'.packets))) (rw there (omega (arith, w'.bytes))),
          (asked, before, lookup-insert-same next asked u.neighbors, refl),
        )
      ]
    ]

-- A destination has a next hop only if the host has an address.
next_hop-home : (s : Ipv4) (d next : Ipv4Addr) → next_hop s d ≡ some next → is_some s.address ≡ true
unfolding next_hop
next_hop-home s d next e = elim (Option-cases s.address) [
  | inl away ↦ absurd (ground (arith, away, e))
  | inr (a, home) ↦ rw home refl
]

-- A packet is framed at once if the address of its next hop is known, and then nothing changes; if it is
-- not known, the packet waits last in the queue of its next hop.
abbrev pub IsSent : Ipv4 → Bytes → ℕ → Ipv4 → List Bytes → Type 0
IsSent s b now s' frames =
    (p : Packet) × (next : Ipv4Addr) × (parse b ≡ ok p)
    × (next_hop s p.destination ≡ some next)
    × ((mac : ℕ)
        → resolved s next now ≡ some mac
        → (s' ≡ s) × (frames ≡ ethernet s.mac mac p.bytes ∷ []))
    × (resolved s next now ≡ none → Waits s' next p.bytes)

-- From a state within the bounds a packet is never a panic, and leads to a state within the bounds, whatever
-- the answer is. With `Ok` the packet has a next hop. If the address of the next hop is known, the answer
-- is the packet framed for it, and nothing changes; if it is not known, the packet waits as the last one
-- for the next hop.
pub send-IsBounded :
    (s : Ipv4) (b : Bytes) (now : ℕ)
    → IsBounded s
    → (s' : Ipv4) × (answer : Io (List Bytes)) × (send s b now ≡ some (s', answer))
      × IsBounded s'
      × ((frames : List Bytes) → answer ≡ ok frames → IsSent s b now s' frames)
unfolding send
send-IsBounded s b now v = elim (Result-cases (parse b)) [
  | inl (x, bad) ↦ (s, err x, rw (send, bad) refl, v, λ f e. absurd (cc))
  | inr (p, good) ↦ elim (Option-cases (next_hop s p.destination)) [
    | inl lost ↦ (s, err other, rw (send, good, lost) refl, v, λ f e. absurd (cc))
    | inr (next, hop) ↦ elim (Option-cases (resolved s next now)) [
      | inr (mac, found) ↦ (
        s,
        ok (ethernet s.mac mac p.bytes ∷ []),
        rw (send, good, hop, found) refl,
        v,
        λ f e. (
          p,
          next,
          good,
          hop,
          (λ mac' known. (refl, ground (arith, e, found, known))),
          (λ unknown. absurd (cc)),
        ),
      )
      | inl unknown ↦
          let t = record s { neighbors = retain (λ _ n. is_current now n) s.neighbors } in
          let w = retained-IsBounded s (λ _ n. is_current now n) v in
          elim (Bool-cases (is_full t next (length b))) [
            | inl full ↦ (
              t,
              err would_block,
              rw (send, good, hop, unknown, full) refl,
              w,
              λ f e. absurd (cc),
            )
            | inr room ↦
                let (r, done, bounded, waits) =
                  enqueue-IsBounded t next p.bytes now (length b) w
                    (next_hop-home s p.destination next hop) room (parse-le b p good) in
                (
                  r.0,
                  ok r.1,
                  rw (send, good, hop, unknown, room, done) refl,
                  bounded,
                  λ f e. (p, next, good, hop, (λ mac known. absurd (cc)), (λ _. waits)),
                )
          ]
    ]
  ]
]
