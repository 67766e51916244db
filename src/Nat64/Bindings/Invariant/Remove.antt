-- ===== src/Nat64/Bindings/Invariant/Remove.antt =====
-- The loop body of `expire`: the removal of one session.
use snak_machine_rs.Base.{
  ℕ, ◌-◌, ◌≤◌, ◌<◌, ◌≡◌, refl, inl, inr, Bool, none, some, List, [], ◌∷◌, arith, Bytes, length,
  ◌==◌, Bool-cases, Option-cases,
}
use snak_machine_rs.Base.Maps.{
  Map, Key, nat_key, pair_key, pair_equal_iff, to_nat, count, lookup, insert, remove, Unique,
  sum_values, lookup-insert, lookup-remove, equal_refl,
}
use snak_machine_rs.Base.Maps.Counts.{
  count-insert, count-remove, sum-remove, insert-Unique, remove-Unique,
}
use snak_machine_rs.Wire.Address.{Ipv6Addr}
use snak_machine_rs.Ports.{PortKey, PortState}
use snak_machine_rs.Ports.Accounting.{IsCounted, drop_lease_lem}
use snak_machine_rs.Nat64.Bindings.Tables.{
  Bindings, Binding, BindingKey, Session, SessionKey, binding_key, session_key, binding_equal,
  binding_equal_iff, session_equal,
}
use snak_machine_rs.Nat64.Bindings.Expire.{Released, queue_timeout, store_host, remove_session}
use snak_machine_rs.Nat64.Bindings.Invariant.{
  of_key, of_host, on_host, quote_of, BoundAt, BackAt, HostAt, SessionAt, settings, IsConsistent,
}

-- An entry that passes a test is counted.
pub lookup-count :
    {K V : Type 0} ⦃key : Key K⦄ (q : K → V → Bool) (k : K) (v : V) (m : Map K V)
    → lookup k m ≡ some v
    → to_nat (q k v) ≤ count q m
lookup-count q k v m e = ground (arith, count-remove q k m)

-- A host none of whose keys has a session has no session.
pub of_host-eq-zero :
    (h : Ipv6Addr) (m : Map SessionKey Session)
    → ((q : BindingKey) → q.host ≡ h → count (of_key q) m ≡ 0)
    → count (of_host h) m ≡ 0
unfolding count
of_host-eq-zero h [] none_left = refl
of_host-eq-zero h ((k, s) ∷ m) none_left = ground (
  arith,
  none_left k.binding,
  equal_refl k.binding,
  of_host-eq-zero h m (λ q e. omega (arith, none_left q e)),
)

-- What is known of the session, its binding and its host.
module _ (b : Bindings) (v : IsConsistent b) (key : SessionKey) (s : Session) (x : Binding)
    (c : ℕ × ℕ) (ports : PortState) (timeouts : List Bytes) (found : lookup key b.sessions ≡ some s)
    (bound : lookup key.binding b.bindings ≡ some x)
    (listed : lookup key.binding.host b.hosts ≡ some c) (counted : IsCounted ports) where
  -- The tables after the last session of the binding went.
  abbrev closed : Bindings
  closed = record b {
    ports = ports;
    bindings = remove key.binding b.bindings;
    reverse = remove (key.binding.protocol, x.port) b.reverse;
    sessions = remove key b.sessions;
    hosts = store_host key.binding.host (c.0 - 1, c.1 - 1) b.hosts;
    tcp_timeouts = timeouts;
    tcp_quote_bytes = b.tcp_quote_bytes - length s.syn_quote;
  }

  closed-bound :
      x.sessions ≡ 1 → (q : BindingKey) → BoundAt none closed q (lookup q closed.bindings)
  closed-bound one q = elim (Bool-cases (binding_equal key.binding q)) [
    | inl same ↦
        let e : key.binding ≡ q = (binding_equal_iff key.binding q).0 same in
        ground (
          arith,
          e,
          v.bound key.binding,
          lookup-remove key.binding q b.bindings v.unique_bindings,
          count-remove (of_key q) key b.sessions,
        )
    | inr other ↦
        let sessions = count-remove (of_key q) key b.sessions in
        let bindings = lookup-remove key.binding q b.bindings v.unique_bindings in
        elim (Option-cases (lookup q b.bindings)) [
          | inl e ↦ ground (arith, v.bound q, bindings, sessions)
          | inr (y, e) ↦
              let p : PortKey = (key.binding.protocol, x.port) in
              let p' : PortKey = (q.protocol, y.port) in
              ground (
                arith,
                v.bound key.binding,
                v.bound q,
                bindings,
                sessions,
                lookup-remove p p' b.reverse v.unique_reverse,
                pair_equal_iff p p',
                equal_refl q,
              )
        ]
  ]

  closed-back : (p : PortKey) → BackAt closed p (lookup p closed.reverse)
  closed-back p = elim (Option-cases (lookup p b.reverse)) [
    | inl e ↦ ground (arith, lookup-remove p0 p b.reverse v.unique_reverse)
    | inr (j, e) ↦ elim (Bool-cases (binding_equal key.binding j)) [
      | inl same ↦
          let k : key.binding ≡ j = (binding_equal_iff key.binding j).0 same in
          ground
            (arith, k, v.back p, lookup-remove p0 p b.reverse v.unique_reverse, pair_equal_iff p0 p)
      | inr other ↦ ground (
        arith,
        v.back p,
        lookup-remove p0 p b.reverse v.unique_reverse,
        lookup-remove key.binding j b.bindings v.unique_bindings,
      )
    ]
  ]
    where
      p0 : PortKey
      p0 = (key.binding.protocol, x.port)

  closed-empty :
      x.sessions ≡ 1
      → (h : Ipv6Addr) → count (on_host h) closed.bindings ≡ 0
      → count (of_host h) closed.sessions ≡ 0
  closed-empty one h gone = of_host-eq-zero h closed.sessions λ q e.
      elim (Option-cases (lookup q closed.bindings)) [
        | inl absent ↦ ground (arith, closed-bound one q)
        | inr (y, there) ↦
            absurd (ground (arith, lookup-count (on_host h) q y closed.bindings there))
      ]

  closed-host : x.sessions ≡ 1 → (h : Ipv6Addr) → HostAt closed h (lookup h closed.hosts)
  closed-host one h = ground (
    arith,
    v.host key.binding.host,
    v.host h,
    closed-empty one h,
    count-remove (on_host h) key.binding b.bindings,
    count-remove (of_host h) key b.sessions,
    lookup-remove key.binding.host h b.hosts v.unique_hosts,
    lookup-insert key.binding.host h (c.0 - 1, c.1 - 1) b.hosts,
  )

  session-removed : (q : SessionKey) → SessionAt closed q (lookup q (remove key b.sessions))
  session-removed q = elim (Bool-cases (session_equal key q)) [
    | inl same ↦ ground (arith, lookup-remove key q b.sessions v.unique_sessions)
    | inr other ↦
        let kept = lookup-remove key q b.sessions v.unique_sessions in
        let e : lookup q (remove key b.sessions) ≡ lookup q b.sessions = ground (arith, kept) in
        rw e (v.session q)
  ]

  quotes-removed :
      (length s.syn_quote ≤ b.tcp_quote_bytes)
      × (b.tcp_quote_bytes - length s.syn_quote ≡ sum_values quote_of (remove key b.sessions))
  quotes-removed = (
    ground (arith, v.quotes, sum-remove quote_of key b.sessions),
    ground (arith, v.quotes, sum-remove quote_of key b.sessions),
  )

  Unique-stored : (d : ℕ × ℕ) → Unique (store_host key.binding.host d b.hosts)
  Unique-stored d = elim (Bool-cases (d.0 == 0)) [
    | inl zero_left ↦ rw zero_left (remove-Unique key.binding.host b.hosts v.unique_hosts)
    | inr some_left ↦ rw some_left (insert-Unique key.binding.host d b.hosts v.unique_hosts)
  ]

  closed-IsConsistent : x.sessions ≡ 1 → IsConsistent closed
  closed-IsConsistent one = record {
    unique_bindings = remove-Unique key.binding b.bindings v.unique_bindings;
    unique_reverse = remove-Unique _ b.reverse v.unique_reverse;
    unique_sessions = remove-Unique key b.sessions v.unique_sessions;
    unique_hosts = Unique-stored (c.0 - 1, c.1 - 1);
    bound = closed-bound one;
    back = closed-back;
    host = closed-host one;
    session = session-removed;
    quotes = quotes-removed.1;
    ports = counted;
  }

  -- The tables after another session of the binding stays.
  abbrev kept : Bindings
  kept = record b {
    bindings = insert key.binding (record x { sessions = x.sessions - 1 }) b.bindings;
    sessions = remove key b.sessions;
    hosts = store_host key.binding.host (c.0, c.1 - 1) b.hosts;
    tcp_timeouts = timeouts;
    tcp_quote_bytes = b.tcp_quote_bytes - length s.syn_quote;
  }

  kept-bound : 1 < x.sessions → (q : BindingKey) → BoundAt none kept q (lookup q kept.bindings)
  kept-bound more q =
      let sessions = count-remove (of_key q) key b.sessions in
      let bindings =
        lookup-insert key.binding q (record x { sessions = x.sessions - 1 }) b.bindings in
      elim (Bool-cases (binding_equal key.binding q)) [
        | inl same ↦
            let e : key.binding ≡ q = (binding_equal_iff key.binding q).0 same in
            ground (arith, e, v.bound key.binding, bindings, sessions)
        | inr other ↦ ground (arith, v.bound q, bindings, sessions)
      ]

  kept-back : (p : PortKey) → BackAt kept p (lookup p kept.reverse)
  kept-back p = elim (Option-cases (lookup p b.reverse)) [
    | inl e ↦ rw e tt
    | inr (j, e) ↦
        let bindings =
          lookup-insert key.binding j (record x { sessions = x.sessions - 1 }) b.bindings in
        ground (arith, v.back p, bindings, binding_equal_iff key.binding j)
  ]

  kept-host : (h : Ipv6Addr) → HostAt kept h (lookup h kept.hosts)
  kept-host h = ground (
    arith,
    v.host key.binding.host,
    v.host h,
    count-insert (on_host h) key.binding (record x { sessions = x.sessions - 1 }) b.bindings,
    count-remove (of_host h) key b.sessions,
    lookup-insert key.binding.host h (c.0, c.1 - 1) b.hosts,
  )

  kept-IsConsistent : 1 < x.sessions → IsConsistent kept
  kept-IsConsistent more = record {
    unique_bindings = insert-Unique key.binding _ b.bindings v.unique_bindings;
    unique_reverse = v.unique_reverse;
    unique_sessions = remove-Unique key b.sessions v.unique_sessions;
    unique_hosts = Unique-stored (c.0, c.1 - 1);
    bound = kept-bound more;
    back = kept-back;
    host = kept-host;
    session = session-removed;
    quotes = quotes-removed.1;
    ports = v.ports;
  }

-- The outcome of `remove_session` on consistent tables.
abbrev pub Removes : SessionKey → Bindings → Type 0
Removes key b =
    (b' : Bindings) × (released : Released) × (remove_session key b ≡ some (b', released))
    × IsConsistent b'
    × (b'.sessions ≡ remove key b.sessions)
    × (settings b' ≡ settings b)

module _ (b : Bindings) (v : IsConsistent b) (key : SessionKey) (s : Session) (x : Binding)
    (c : ℕ × ℕ) (found : lookup key b.sessions ≡ some s)
    (bound : lookup key.binding b.bindings ≡ some x)
    (listed : lookup key.binding.host b.hosts ≡ some c) where
  counters : (0 < x.sessions) × (0 < c.0) × (0 < c.1) × (length s.syn_quote ≤ b.tcp_quote_bytes)
  counters =
      let of_binding = lookup-count (of_key key.binding) key s b.sessions found in
      let of_listed = lookup-count (of_host key.binding.host) key s b.sessions found in
      let quotes = sum-remove quote_of key b.sessions in
      let here = equal_refl key.binding in
      (
        ground (arith, v.bound key.binding),
        ground (arith, v.host key.binding.host),
        ground (arith, v.host key.binding.host, of_listed),
        ground (arith, v.quotes, quotes),
      )

  last-Removes : x.sessions ≡ 1 → Removes key b
  unfolding remove_session
  last-Removes one =
      let (ports, run, counted, _, _, _) =
        drop_lease_lem b.ports (key.binding.protocol, x.port) x.lease v.ports in
      let (_, hosts, open_sessions, quotes) = counters in
      let timeouts = queue_timeout s b.tcp_timeouts in
      (
        closed b v key s x c ports timeouts found bound listed counted,
        (key.binding.protocol, x.port) ∷ [],
        ground (arith, found, bound, listed, run),
        closed-IsConsistent b v key s x c ports timeouts found bound listed counted one,
        refl,
        refl,
      )

  more-Removes : 1 < x.sessions → Removes key b
  unfolding remove_session
  more-Removes more =
      let (_, hosts, open_sessions, quotes) = counters in
      let timeouts = queue_timeout s b.tcp_timeouts in
      (
        kept b v key s x c b.ports timeouts found bound listed v.ports,
        [],
        ground (arith, found, bound, listed),
        kept-IsConsistent b v key s x c b.ports timeouts found bound listed v.ports more,
        refl,
        refl,
      )

-- In consistent tables the removal of a session that is there never panics. It leaves consistent
-- tables, and every other session as it was.
pub remove_session-Removes :
    (b : Bindings) (key : SessionKey) (s : Session)
    → IsConsistent b
    → lookup key b.sessions ≡ some s
    → Removes key b
remove_session-Removes b key s v found = elim (Option-cases (lookup key.binding b.bindings)) [
  | inl unbound ↦ absurd (
      ground (
        arith,
        v.bound key.binding,
        lookup-count (of_key key.binding) key s b.sessions found,
        equal_refl key.binding,
      ))
  | inr (x, bound) ↦ elim (Option-cases (lookup key.binding.host b.hosts)) [
    | inl unlisted ↦ absurd (
        ground (
          arith,
          v.host key.binding.host,
          lookup-count (of_host key.binding.host) key s b.sessions found,
        ))
    | inr (c, listed) ↦
        let (some_left, _, _, _) = counters b v key s x c found bound listed in
        elim (Bool-cases (x.sessions == 1)) [
          | inl one ↦ last-Removes b v key s x c found bound listed (ground arith)
          | inr more ↦ more-Removes b v key s x c found bound listed (ground arith)
        ]
  ]
]
