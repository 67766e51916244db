-- ===== src/Ipv4/Neighbors/Bounds.antt =====
-- The bounds of the neighbor table, its queues and the input.
use snak_machine_rs.Base.{
  ℕ, ◌+◌, ◌≤◌, ◌<◌, min, ◌≡◌, refl, sym, ap, subst, ◌∙◌, Bool, true, none, some, List, [], ◌∷◌,
  ◌++◌, arith, byte, u16_of, ltb, is_some, Bytes, length, length-take, Option-cases, inl, inr, ok,
}
use snak_machine_rs.Base.Maps.{
  Map, nat_key, count, sum_values, size, retain, lookup, insert, Unique,
}
use snak_machine_rs.Base.Maps.Counts.{replaced, count-insert, sum-insert, insert-Unique}
use snak_machine_rs.Base.Maps.Sizes.{
  count-retain-le, sum-retain-le, size-retain-le, size-insert, retain-Unique,
}
use snak_machine_rs.Ipv4.Wire.{Ipv4Addr, Packet, parse}
use snak_machine_rs.Ipv4.Routing.{Neighbor, Ipv4}
use snak_machine_rs.Ipv4.Neighbors.{total, max_bytes, probe, allow_arp}

-- The number and the bytes of the packets that wait.
abbrev pub waiting : Map Ipv4Addr Neighbor → ℕ
waiting m = sum_values (λ (n : Neighbor). length n.queue) m

abbrev pub waiting_bytes : Map Ipv4Addr Neighbor → ℕ
waiting_bytes m = sum_values (λ (n : Neighbor). total n.queue) m

-- How many neighbors have more than four packets waiting.
abbrev pub crowded : Map Ipv4Addr Neighbor → ℕ
crowded m = count (λ _ n. ltb 4 (length n.queue)) m

-- At most 256 neighbors, 64 packets and 256 KiB that wait, four to a neighbor, the same for the input, and
-- 32 requests in a window; without an address there are no neighbors.
pub record IsBounded (s : Ipv4) : Type 0 where
  pub neighbors : size s.neighbors ≤ 256
  pub packets : waiting s.neighbors ≤ 64
  pub bytes : waiting_bytes s.neighbors ≤ max_bytes
  pub queues : crowded s.neighbors ≡ 0
  pub unique : Unique s.neighbors
  pub input : length s.input ≤ 64
  pub input_bytes : total s.input ≤ max_bytes
  pub requests : s.arp_sent ≤ 32
  pub unaddressed : s.address ≡ none → s.neighbors ≡ []

-- A change of the table and of the requests that keeps the bounds.
with_table :
    (s t : Ipv4)
    → IsBounded s
    → size t.neighbors ≤ 256
    → waiting t.neighbors ≤ 64
    → waiting_bytes t.neighbors ≤ max_bytes
    → crowded t.neighbors ≡ 0
    → Unique t.neighbors
    → t.arp_sent ≤ 32
    → t.input ≡ s.input
    → (t.address ≡ none → t.neighbors ≡ [])
    → IsBounded t
with_table s t v n p b q u r same a = record {
  neighbors = n;
  packets = p;
  bytes = b;
  queues = q;
  unique = u;
  input = subst (λ (i : List Bytes). length i ≤ 64) (sym same) v.input;
  input_bytes = subst (λ (i : List Bytes). total i ≤ max_bytes) (sym same) v.input_bytes;
  requests = r;
  unaddressed = a;
}

pub allow_arp-keeps :
    (s : Ipv4) (now : ℕ)
    → s.arp_sent ≤ 32
    → ((allow_arp s now).1.neighbors ≡ s.neighbors)
      × ((allow_arp s now).1.address ≡ s.address)
      × ((allow_arp s now).1.input ≡ s.input)
      × ((allow_arp s now).1.arp_sent ≤ 32)
      × ((allow_arp s now).1.mac ≡ s.mac)
unfolding allow_arp
allow_arp-keeps s now h = (ground arith, ground arith, ground arith, ground arith, ground arith)

pub allow_arp-IsBounded : (s : Ipv4) (now : ℕ) → IsBounded s → IsBounded (allow_arp s now).1
allow_arp-IsBounded s now v =
    let (table, address, input, few, mac) = allow_arp-keeps s now v.requests in
    let back = sym table in
    with_table s (allow_arp s now).1 v
      (subst (λ (m : Map Ipv4Addr Neighbor). size m ≤ 256) back v.neighbors)
      (subst (λ (m : Map Ipv4Addr Neighbor). waiting m ≤ 64) back v.packets)
      (subst (λ (m : Map Ipv4Addr Neighbor). waiting_bytes m ≤ max_bytes) back v.bytes)
      (subst (λ (m : Map Ipv4Addr Neighbor). crowded m ≡ 0) back v.queues)
      (subst (λ (m : Map Ipv4Addr Neighbor). Unique m) back v.unique) few input
      (λ e. table ∙ v.unaddressed (sym address ∙ e))

-- With an address there is a frame to send.
pub probe_lem :
    (s : Ipv4) (ip : Ipv4Addr)
    → is_some s.address ≡ true
    → (frame : Bytes) × (probe s ip ≡ some frame)
unfolding probe
probe_lem s ip home = elim (Option-cases s.address) [
  | inl e ↦ absurd (ground (arith, home, e))
  | inr ((address, len), e) ↦ rw e (_, refl)
]

pub total-append : (xs ys : List Bytes) → total (xs ++ ys) ≡ total xs + total ys
unfolding total
total-append [] ys = omega arith
total-append (x ∷ xs) ys = omega (arith, total-append xs ys)

-- A parsed packet is not longer than what it was read from.
pub parse-le : (b : Bytes) (p : Packet) → parse b ≡ ok p → length p.bytes ≤ length b
unfolding parse
parse-le b p e = ground (arith, length-take (min (u16_of (byte b 2) (byte b 3)) (length b)) b)

pub retained-IsBounded :
    (s : Ipv4) (q : Ipv4Addr → Neighbor → Bool)
    → IsBounded s
    → IsBounded (record s { neighbors = retain q s.neighbors })
unfolding retain
retained-IsBounded s q v =
    with_table s (record s { neighbors = retain q s.neighbors }) v
      (omega (arith, size-retain-le q s.neighbors, v.neighbors))
      (omega (arith, sum-retain-le (λ (n : Neighbor). length n.queue) q s.neighbors, v.packets))
      (omega (arith, sum-retain-le (λ (n : Neighbor). total n.queue) q s.neighbors, v.bytes))
      (omega (
        arith,
        count-retain-le (λ _ (n : Neighbor). ltb 4 (length n.queue)) q s.neighbors,
        v.queues,
      ))
      (retain-Unique q s.neighbors v.unique) v.requests refl (λ e. ap (retain q) (v.unaddressed e))

-- An entry that is written keeps the bounds, if there is room for a new one and for its queue.
pub entered-IsBounded :
    (s t : Ipv4) (ip : Ipv4Addr) (n : Neighbor)
    → IsBounded s
    → is_some s.address ≡ true
    → t.neighbors ≡ insert ip n s.neighbors
    → t.address ≡ s.address
    → t.input ≡ s.input
    → t.arp_sent ≤ 32
    → (lookup ip s.neighbors ≡ none → size s.neighbors < 256)
    → length n.queue ≤ 4
    → waiting s.neighbors + length n.queue
      ≤ 64 + replaced (λ (m : Neighbor). length m.queue) 0 (lookup ip s.neighbors)
    → waiting_bytes s.neighbors + total n.queue
      ≤ max_bytes + replaced (λ (m : Neighbor). total m.queue) 0 (lookup ip s.neighbors)
    → IsBounded t
entered-IsBounded s t ip n v home table address input r room short packets bytes =
    let m = insert ip n s.neighbors in
    let sizes = size-insert ip n s.neighbors in
    let size_lem : size m ≤ 256 = elim (Option-cases (lookup ip s.neighbors)) [
      | inl e ↦ ground (arith, room e)
      | inr (w, e) ↦ ground (arith, v.neighbors)
    ] in
    let waits = sum-insert (λ (n : Neighbor). length n.queue) ip n s.neighbors in
    let waits' = sum-insert (λ (n : Neighbor). total n.queue) ip n s.neighbors in
    let crowds = count-insert (λ _ (n : Neighbor). ltb 4 (length n.queue)) ip n s.neighbors in
    let crowd_lem : crowded m ≡ 0 = ground (arith, crowds, v.queues) in
    with_table s t v (subst (λ (x : Map Ipv4Addr Neighbor). size x ≤ 256) (sym table) size_lem)
      (subst (λ (x : Map Ipv4Addr Neighbor). waiting x ≤ 64) (sym table)
        (omega (arith, waits, packets)))
      (subst (λ (x : Map Ipv4Addr Neighbor). waiting_bytes x ≤ max_bytes) (sym table)
        (omega (arith, waits', bytes)))
      (subst (λ (x : Map Ipv4Addr Neighbor). crowded x ≡ 0) (sym table) crowd_lem)
      (subst (λ (x : Map Ipv4Addr Neighbor). Unique x) (sym table)
        (insert-Unique ip n s.neighbors v.unique))
      r input (λ e. absurd (ground (arith, home, address, e)))

-- A neighbor that is found has four packets at most.
pub queue_lem :
    (ip : Ipv4Addr) (n : Neighbor) (m : Map Ipv4Addr Neighbor)
    → lookup ip m ≡ some n
    → crowded m ≡ 0
    → length n.queue ≤ 4
unfolding lookup count
queue_lem ip n [] there h = cc
queue_lem ip n ((j, w) ∷ m) there h = ground (arith, queue_lem ip n m)
