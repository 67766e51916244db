-- ===== src/Nat64/Bindings/Invariant/Insert.antt =====
-- New bindings and sessions keep the tables consistent.
use snak_machine_rs.Base.{
  ℕ, ◌+◌, ◌≡◌, subst, inl, inr, Option, none, some, [], arith, length, Bool-cases, Option-cases,
}
use snak_machine_rs.Base.Maps.{
  nat_key, pair_key, pair_equal, pair_equal_iff, lookup, insert, lookup-insert, equal_refl,
}
use snak_machine_rs.Base.Maps.Counts.{count-insert, sum-insert, insert-Unique}
use snak_machine_rs.Ports.{PortKey, PortState}
use snak_machine_rs.Ports.Accounting.{IsCounted}
use snak_machine_rs.Nat64.Bindings.Tables.{
  Bindings, Binding, BindingKey, Session, SessionKey, binding_key, session_key, binding_equal,
  binding_equal_iff, session_equal, session_equal_iff, host_counts,
}
use snak_machine_rs.Nat64.Bindings.Sessions.{add_binding}
use snak_machine_rs.Nat64.Bindings.Invariant.{
  of_key, of_host, on_host, quote_of, BoundAt, BackAt, FitsProtocol, IsConsistent, Agrees,
}
use snak_machine_rs.Nat64.Bindings.Invariant.Remove.{lookup-count}

-- Consistent tables agree with any binding pending.
pub pending-Agrees : (key : BindingKey) (b : Bindings) → IsConsistent b → Agrees (some key) b
pending-Agrees key b v = record {
  unique_bindings = v.unique_bindings;
  unique_reverse = v.unique_reverse;
  unique_sessions = v.unique_sessions;
  unique_hosts = v.unique_hosts;
  bound = λ k. ground (arith, v.bound k);
  back = v.back;
  host = v.host;
  session = v.session;
  quotes = v.quotes;
  ports = v.ports;
}

-- A pending binding that has a session is not pending any more.
pub settled-IsConsistent :
    (key : SessionKey) (s : Session) (b : Bindings)
    → Agrees (some key.binding) b
    → lookup key b.sessions ≡ some s
    → IsConsistent b
settled-IsConsistent key s b v found = record {
  unique_bindings = v.unique_bindings;
  unique_reverse = v.unique_reverse;
  unique_sessions = v.unique_sessions;
  unique_hosts = v.unique_hosts;
  bound = λ k. ground (
    arith,
    v.bound k,
    binding_equal_iff key.binding k,
    equal_refl k,
    lookup-count (of_key k) key s b.sessions found,
  );
  back = v.back;
  host = v.host;
  session = v.session;
  quotes = v.quotes;
  ports = v.ports;
}

-- The host of a binding is listed.
pub host-listed :
    (pending : Option BindingKey) (b : Bindings) (k : BindingKey) (x : Binding)
    → Agrees pending b
    → lookup k b.bindings ≡ some x
    → (c : ℕ × ℕ) × (lookup k.host b.hosts ≡ some c)
host-listed pending b k x v e = elim (Option-cases (lookup k.host b.hosts)) [
  | inl absent ↦
      absurd (ground (arith, v.host k.host, lookup-count (on_host k.host) k x b.bindings e))
  | inr listed ↦ listed
]

-- A new session of a binding, counted.
module _ (b : Bindings) (key : SessionKey) (s : Session) (x : Binding) (c : ℕ × ℕ)
    (v : Agrees (some key.binding) b) (absent : lookup key b.sessions ≡ none)
    (bound : lookup key.binding b.bindings ≡ some x)
    (listed : lookup key.binding.host b.hosts ≡ some c) (fits : FitsProtocol key s)
    (unquoted : s.syn_quote ≡ []) where
  abbrev pub opened : Bindings
  opened = record b {
    bindings = insert key.binding (record x { sessions = x.sessions + 1 }) b.bindings;
    hosts = insert key.binding.host (c.0, c.1 + 1) b.hosts;
    sessions = insert key s b.sessions;
  }

  opened-bound : (q : BindingKey) → BoundAt none opened q (lookup q opened.bindings)
  opened-bound q =
      let sessions = count-insert (of_key q) key s b.sessions in
      let bindings =
        lookup-insert key.binding q (record x { sessions = x.sessions + 1 }) b.bindings in
      elim (Bool-cases (binding_equal key.binding q)) [
        | inl same ↦
            let e : key.binding ≡ q = (binding_equal_iff key.binding q).0 same in
            ground (arith, e, v.bound key.binding, bindings, sessions)
        | inr other ↦ ground (arith, v.bound q, bindings, sessions)
      ]

  opened-back : (p : PortKey) → BackAt opened p (lookup p opened.reverse)
  opened-back p = elim (Option-cases (lookup p b.reverse)) [
    | inl e ↦ rw e tt
    | inr (j, e) ↦
        let bindings =
          lookup-insert key.binding j (record x { sessions = x.sessions + 1 }) b.bindings in
        ground (arith, v.back p, bindings, binding_equal_iff key.binding j)
  ]

  pub opened-IsConsistent : IsConsistent opened
  opened-IsConsistent = record {
    unique_bindings = insert-Unique key.binding _ b.bindings v.unique_bindings;
    unique_reverse = v.unique_reverse;
    unique_sessions = insert-Unique key s b.sessions v.unique_sessions;
    unique_hosts = insert-Unique key.binding.host _ b.hosts v.unique_hosts;
    bound = opened-bound;
    back = opened-back;
    host = λ h. ground (
      arith,
      v.host key.binding.host,
      v.host h,
      count-insert (on_host h) key.binding (record x { sessions = x.sessions + 1 }) b.bindings,
      count-insert (of_host h) key s b.sessions,
      lookup-insert key.binding.host h (c.0, c.1 + 1) b.hosts,
    );
    session = λ q. elim (Bool-cases (session_equal key q)) [
      | inl same ↦
          let e : key ≡ q = (session_equal_iff key q).0 same in
          rw (lookup-insert key q s b.sessions, same) (subst (λ t. FitsProtocol t s) e fits)
      | inr other ↦ rw (lookup-insert key q s b.sessions, other) (v.session q)
    ];
    quotes = ground (arith, v.quotes, sum-insert quote_of key s b.sessions);
    ports = v.ports;
  }

-- A session that is there is written again.
pub stored-IsConsistent :
    (b : Bindings) (key : SessionKey) (old s : Session) (quotes : ℕ)
    → IsConsistent b
    → lookup key b.sessions ≡ some old
    → FitsProtocol key s
    → quotes + length old.syn_quote ≡ b.tcp_quote_bytes + length s.syn_quote
    → IsConsistent (record b { sessions = insert key s b.sessions; tcp_quote_bytes = quotes })
stored-IsConsistent b key old s quotes v found fits balance = record {
  unique_bindings = v.unique_bindings;
  unique_reverse = v.unique_reverse;
  unique_sessions = insert-Unique key s b.sessions v.unique_sessions;
  unique_hosts = v.unique_hosts;
  bound = λ k. ground (arith, v.bound k, count-insert (of_key k) key s b.sessions);
  back = v.back;
  host = λ h. ground (arith, v.host h, count-insert (of_host h) key s b.sessions);
  session = λ q. elim (Bool-cases (session_equal key q)) [
    | inl same ↦
        let e : key ≡ q = (session_equal_iff key q).0 same in
        rw (lookup-insert key q s b.sessions, same) (subst (λ t. FitsProtocol t s) e fits)
    | inr other ↦ rw (lookup-insert key q s b.sessions, other) (v.session q)
  ];
  quotes = ground (arith, v.quotes, sum-insert quote_of key s b.sessions);
  ports = v.ports;
}

-- A new binding without sessions, under a free port.
module _ (b : Bindings) (key : BindingKey) (port lease : ℕ) (ports : PortState) (v : IsConsistent b)
    (absent : lookup key b.bindings ≡ none)
    (free_port : lookup (key.protocol, port) b.reverse ≡ none) (counted : IsCounted ports) where
  abbrev fresh : Binding
  fresh = record { lease = lease; port = port; sessions = 0 }

  added-bound :
      (q : BindingKey)
      → BoundAt
          (some key)
          (add_binding key port lease ports b)
          q
          (lookup q (add_binding key port lease ports b).bindings)
  unfolding add_binding
  added-bound q =
      let bindings = lookup-insert key q fresh b.bindings in
      elim (Bool-cases (binding_equal key q)) [
        | inl same ↦
            let e : key ≡ q = (binding_equal_iff key q).0 same in
            let p : PortKey = (key.protocol, port) in
            ground (arith, e, v.bound key, bindings, lookup-insert p p key b.reverse, equal_refl p)
        | inr other ↦ elim (Option-cases (lookup q b.bindings)) [
          | inl e ↦ ground (arith, v.bound q, bindings)
          | inr (y, e) ↦
              let p : PortKey = (key.protocol, port) in
              let p' : PortKey = (q.protocol, y.port) in
              ground
                (arith, v.bound q, bindings, lookup-insert p p' key b.reverse, pair_equal_iff p p')
        ]
      ]

  added-back :
      (p : PortKey)
      → BackAt
          (add_binding key port lease ports b)
          p
          (lookup p (add_binding key port lease ports b).reverse)
  unfolding add_binding
  added-back p =
      let p0 : PortKey = (key.protocol, port) in
      let reverse = lookup-insert p0 p key b.reverse in
      elim (Bool-cases (pair_equal p0 p)) [
        | inl same ↦
            let e : p0 ≡ p = (pair_equal_iff p0 p).0 same in
            ground (arith, e, reverse, lookup-insert key key fresh b.bindings, equal_refl key)
        | inr other ↦ elim (Option-cases (lookup p b.reverse)) [
          | inl e ↦ ground (arith, reverse)
          | inr (j, e) ↦ ground (
            arith,
            reverse,
            v.back p,
            lookup-insert key j fresh b.bindings,
            binding_equal_iff key j,
          )
        ]
      ]

  pub added-Agrees : Agrees (some key) (add_binding key port lease ports b)
  unfolding add_binding
  added-Agrees = record {
    unique_bindings = insert-Unique key fresh b.bindings v.unique_bindings;
    unique_reverse = insert-Unique _ key b.reverse v.unique_reverse;
    unique_sessions = v.unique_sessions;
    unique_hosts = insert-Unique key.host _ b.hosts v.unique_hosts;
    bound = added-bound;
    back = added-back;
    host = λ h.
        let c = host_counts (lookup key.host b.hosts) in
        ground (
          arith,
          v.host key.host,
          v.host h,
          count-insert (on_host h) key fresh b.bindings,
          lookup-insert key.host h (c.0 + 1, c.1) b.hosts,
        );
    session = v.session;
    quotes = v.quotes;
    ports = counted;
  }
