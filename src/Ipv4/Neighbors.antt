-- ===== src/Ipv4/Neighbors.antt =====
-- src/ipv4/mod.rs: the neighbor table with its queues, ARP, and the packets that arrive.
-- A panic of the source is `none`.
pub mod Bounds
pub mod Sending
pub mod Receiving
pub mod Replies
pub mod Run
use snak_machine_rs.Base.{
  ℕ, ◌+◌, ◌-◌, Bool, true, false, ◌&&◌, ◌||◌, not, Option, none, some, List, [], ◌∷◌, ◌++◌, ltb,
  leb, ◌==◌, if◌then◌else◌, is_some, length, byte, slice, take, drop, from_be, has_bit, Bytes,
  to_be, map, Io, Error, ok, err, other, would_block, saturating_add,
}
use snak_machine_rs.Base.Maps.{
  Map, nat_key, size, sum_values, retain, keys_where, lookup, contains, insert,
}
use snak_machine_rs.Ipv4.Wire.{Ipv4Addr, Mac, Packet, unicast, parse}
use snak_machine_rs.Ipv4.Arp
use snak_machine_rs.Ipv4.Arp.{Arp}
use snak_machine_rs.Ipv4.Routing.{Neighbor, Ipv4, same_prefix, next_hop}

abbrev pub max_bytes : ℕ
max_bytes = 262144

-- The sum of the lengths.
unfoldable pub total : List Bytes → ℕ
total [] = 0
total (b ∷ bs) = length b + total bs

unfoldable pub pending_input : Ipv4 → ℕ × ℕ
pending_input s = (length s.input, total s.input)

unfoldable pub take_packet : Ipv4 → Option Bytes × Ipv4
take_packet s = elim s.input [ [] ↦ (none, s) | b ∷ rest ↦ (some b, record s { input = rest }) ]

unfoldable pub neighbor_count : Ipv4 → ℕ
neighbor_count s = size s.neighbors

unfoldable pub queued : Ipv4 → ℕ × ℕ
queued s = (
  sum_values (λ (n : Neighbor). length n.queue) s.neighbors,
  sum_values (λ (n : Neighbor). total n.queue) s.neighbors,
)

unfoldable pub ethernet : Mac → Mac → Bytes → Bytes
ethernet source destination payload =
    to_be 6 destination ++ (to_be 6 source ++ ((8 ∷ 0 ∷ []) ++ payload))

-- `self.address.unwrap()` panics without an address.
unfoldable pub probe : Ipv4 → Ipv4Addr → Option Bytes
probe s destination = elim s.address [
  | none ↦ none
  | some (address, len) ↦ some (
      Arp.encode
        (record {
          operation = 1;
          sender_mac = s.mac;
          sender = address;
          target_mac = 0;
          target = destination;
        })
        0xffff_ffff_ffff)
]

-- 32 in a second.
unfoldable pub allow_arp : Ipv4 → ℕ → Bool × Ipv4
allow_arp s now =
    let fresh = record s { arp_window = now; arp_sent = 0 } in
    let t = if leb (saturating_add s.arp_window 1000) now then fresh else s in
    if leb 32 t.arp_sent then (false, t) else (true, record t { arp_sent = t.arp_sent + 1 })

-- The address of a neighbor that is known and not stale.
unfoldable pub resolved : Ipv4 → Ipv4Addr → ℕ → Option Mac
resolved s next now = elim (lookup next s.neighbors) [
  | none ↦ none
  | some n ↦ if ltb now n.deadline then n.mac else none
]

abbrev pub is_crowded : Option Neighbor → Bool
is_crowded none = false
is_crowded (some n) = leb 4 (length n.queue)

-- No room for another packet of `size` bytes to `next`.
unfoldable pub is_full : Ipv4 → Ipv4Addr → ℕ → Bool
unfolding queued
is_full s next len =
    (not (contains next s.neighbors) && leb 256 (size s.neighbors))
    || leb 64 ((queued s).0)
    || ltb max_bytes ((queued s).1 + len)
    || is_crowded (lookup next s.neighbors)

abbrev pub or_new : Option Neighbor → ℕ → Neighbor
or_new none deadline = record { mac = none; deadline = deadline; attempts = 0; queue = [] }
or_new (some n) deadline = n

-- The packet waits for the neighbor's address; a new neighbor is asked for it.
unfoldable pub enqueue : Ipv4 → Ipv4Addr → Bytes → ℕ → Option (Ipv4 × List Bytes)
unfolding allow_arp probe
enqueue s next b now =
    let first = not (contains next s.neighbors) in
    let n = or_new (lookup next s.neighbors) (saturating_add now 1000) in
    let waiting = record n { queue = n.queue ++ b ∷ [] } in
    let t = record s { neighbors = insert next waiting s.neighbors } in
    let (allowed, u) = allow_arp t now in
    if not first then some (t, []) else if not allowed then some (u, []) else elim (probe u next) [
      | none ↦ none
      | some frame ↦ some (
        record u { neighbors = insert next (record waiting { attempts = 1 }) u.neighbors },
        frame ∷ [],
      )
    ]

-- The entries that are still resolved for, or known and not stale.
abbrev pub is_current : ℕ → Neighbor → Bool
is_current now n = not (is_some n.mac) || ltb now n.deadline

-- The first `return` drops nothing; the entries that are stale are dropped before the capacity is read.
unfoldable pub send : Ipv4 → Bytes → ℕ → Option (Ipv4 × Io (List Bytes))
unfolding resolved is_full enqueue
send s packet now = elim (parse packet) [
  | err x ↦ some (s, err x)
  | ok p ↦ elim (next_hop s p.destination) [
    | none ↦ some (s, err other)
    | some next ↦ elim (resolved s next now) [
      | some mac ↦ some (s, ok (ethernet s.mac mac p.bytes ∷ []))
      | none ↦
          let t = record s { neighbors = retain (λ _ n. is_current now n) s.neighbors } in
          if is_full t next (length packet)
          then some (t, err would_block)
          else elim (enqueue t next p.bytes now) [
            | none ↦ none
            | some (u, frames) ↦ some (u, ok frames)
          ]
    ]
  ]
]

-- A frame that is not for this host, or not from another one.
unfoldable pub is_foreign : Ipv4 → Bytes → Bool
is_foreign s frame =
    ltb (length frame) 14
    || from_be (slice 6 12 frame) == s.mac
    || has_bit (byte frame 6) 1
    || from_be (slice 6 12 frame) == 0
    || (not (has_bit (byte frame 0) 1) && not (from_be (take 6 frame) == s.mac))

-- A packet to this host is kept while there is room.
unfoldable pub accept : Ipv4 → Ipv4Addr → Bytes → Ipv4
unfolding pending_input
accept s address frame = elim (parse (drop 14 frame)) [
  | err x ↦ s
  | ok p ↦
      if p.destination == address
        && unicast p.source
        && ltb 0 p.ttl
        && from_be (take 6 frame) == s.mac
        && ltb ((pending_input s).0) 64
        && leb ((pending_input s).1 + length p.bytes) max_bytes
      then record s { input = s.input ++ p.bytes ∷ [] }
      else s
]

-- The neighbor's address is not known, or the same.
abbrev pub agrees : Option Neighbor → Mac → Bool
agrees none mac = false
agrees (some n) mac = elim n.mac [ none ↦ true | some m ↦ m == mac ]

-- An ARP packet tells the address of its sender: a request of any sender, a reply of one that is known.
unfoldable pub is_news : Ipv4 → Arp → Bool
is_news s a =
    let there = contains a.sender s.neighbors in
    not (a.sender == 0)
    && (there || a.operation == 1)
    && (there || ltb (size s.neighbors) 256)
    && (a.operation == 1 || agrees (lookup a.sender s.neighbors) a.sender_mac)

-- The address is entered for a minute, and the packets that waited for it are sent.
unfoldable pub learn : Ipv4 → Arp → ℕ → Ipv4 × List Bytes
unfolding is_news
learn s a now =
    let n = or_new (lookup a.sender s.neighbors) now in
    let known : Neighbor = record {
      mac = some a.sender_mac;
      deadline = saturating_add now 60000;
      attempts = 0;
      queue = [];
    } in
    if is_news s a
    then (
      record s { neighbors = insert a.sender known s.neighbors },
      map (ethernet s.mac a.sender_mac) n.queue,
    )
    else (s, [])

-- A request is answered.
unfoldable pub answer : Ipv4 → Ipv4Addr → Arp → ℕ → Ipv4 × List Bytes
unfolding allow_arp
answer s address a now =
    let (allowed, t) = allow_arp s now in
    let reply =
      Arp.encode
        (record {
          operation = 2;
          sender_mac = s.mac;
          sender = address;
          target_mac = a.sender_mac;
          target = a.sender;
        })
        a.sender_mac in
    if not (a.operation == 1) then (s, []) else (t, if allowed then reply ∷ [] else [])

unfoldable pub receive : Ipv4 → Bytes → ℕ → Ipv4 × Io (List Bytes)
unfolding is_foreign accept learn answer
receive s frame now = elim s.address [
  | none ↦ (s, ok [])
  | some (address, len) ↦
      if is_foreign s frame
      then (s, ok [])
      else if from_be (slice 12 14 frame) == 0x0800
      then (accept s address frame, ok [])
      else elim (Arp.parse frame) [
        | err x ↦ (s, ok [])
        | ok a ↦
            let (t, out) = learn s a now in
            let (u, replies) = answer t address a now in
            if a.sender_mac == s.mac
              || a.sender == address
              || not (a.target == address)
              || (not (a.sender == 0) && not (same_prefix address a.sender len))
            then (s, ok [])
            else (u, ok (out ++ replies))
      ]
]

-- Over its time: a known neighbor is dropped, and one that was asked three times.
abbrev pub is_dead : ℕ → Neighbor → Bool
is_dead now n = leb n.deadline now && (is_some n.mac || leb 3 n.attempts)

abbrev pub is_due : ℕ → Neighbor → Bool
is_due now n = leb n.deadline now && not (is_some n.mac || leb 3 n.attempts)

-- The loop of `poll` over the destinations that are due.
unfoldable pub ask : Ipv4 → List Ipv4Addr → ℕ → Option (Ipv4 × List Bytes)
unfolding allow_arp probe
ask s [] now = some (s, [])
ask s (ip ∷ ips) now =
    let (allowed, t) = allow_arp s now in
    if not allowed then some (t, []) else elim (lookup ip t.neighbors) [
      | none ↦ none
      | some n ↦
          let asked = record n { attempts = n.attempts + 1; deadline = saturating_add now 1000 } in
          let u = record t { neighbors = insert ip asked t.neighbors } in
          elim (probe u ip) [
            | none ↦ none
            | some frame ↦ elim (ask u ips now) [
              | none ↦ none
              | some (v, frames) ↦ some (v, frame ∷ frames)
            ]
          ]
    ]

unfoldable pub poll : Ipv4 → ℕ → Option (Ipv4 × List Bytes)
unfolding ask
poll s now =
    let due = keys_where (λ _ n. is_due now n) s.neighbors in
    ask (record s { neighbors = retain (λ _ n. not (is_dead now n)) s.neighbors }) due now
