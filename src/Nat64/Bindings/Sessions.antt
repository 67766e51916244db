-- ===== src/Nat64/Bindings/Sessions.antt =====
-- `udp_session`, `tcp_session` and `icmp_session`, and the creation of a binding, which the three
-- outbound operations share.
use snak_machine_rs.Base.{
  ℕ, ◌+◌, ◌*◌, min, Bool, false, Option, none, some, [], if◌then◌else◌, Byte, length,
  saturating_add, Io, ok, err,
}
use snak_machine_rs.Base.Maps.{nat_key, pair_key, lookup, contains, insert}
use snak_machine_rs.Time.{Rng}
use snak_machine_rs.Ports.{PortState, translation, claim}
use snak_machine_rs.Nat64.Tcp.{State, v4_init, v6_init, packet, transitory_ms}
use snak_machine_rs.Nat64.Bindings.Tables.{
  Bindings, BindingKey, Remote, Session, SessionKey, binding_key, session_key,
}
use snak_machine_rs.Nat64.Bindings.Expire.{◌>>=◌, checked_sub, is_v4_init, count_binding}
use snak_machine_rs.Nat64.Bindings.Allocate.{allocate}

-- `Some(next.map_or(expires, |old| old.min(expires)))`.
abbrev pub sooner : Option ℕ → ℕ → Option ℕ
sooner none expires = some expires
sooner (some old) expires = some (min old expires)

abbrev pub fresh_session : ℕ → Option State → Session
fresh_session expires tcp = record { expires = expires; tcp = tcp; probe = false; syn_quote = [] }

-- `bindings.get_mut(&key).unwrap().sessions += 1; hosts.get_mut(&key.1).unwrap().1 += 1`.
unfoldable pub count_in : BindingKey → Bindings → Option Bindings
count_in key b = do
  x ← lookup key b.bindings
  host ← lookup key.host b.hosts
  some (record b {
    bindings = insert key (record x { sessions = x.sessions + 1 }) b.bindings;
    hosts = insert key.host (host.0, host.1 + 1) b.hosts;
  })

-- The insertion of a session that carries no transport state, counted if it is new.
unfoldable pub plain_session : BindingKey → Remote → ℕ → Bindings → Option Bindings
unfolding count_in
plain_session key remote expires b =
    let k : SessionKey = record { binding = key; remote = remote } in
    let stored = record b { sessions = insert k (fresh_session expires none) b.sessions } in
    do
      b' ← (if contains k b.sessions then some stored else count_in key stored)
      some (record b' { next = sooner b'.next expires })

unfoldable pub udp_session : BindingKey → Remote → ℕ → Bindings → Option Bindings
unfolding plain_session
udp_session key remote now b =
    plain_session key remote (saturating_add now (b.udp_seconds * 1000)) b

unfoldable pub icmp_session : BindingKey → ℕ → ℕ → Bindings → Option Bindings
unfolding plain_session
icmp_session key ip now b =
    plain_session key (record { ip = ip; port = 0 }) (saturating_add now (b.icmp_seconds * 1000)) b

-- What a segment does to its session; the quoted SYN goes when the session leaves its first state.
unfoldable pub update_tcp : SessionKey → Session → State × ℕ → Bindings → Option Bindings
update_tcp k s (state, expires) b =
    if is_v4_init state
    then some (record b {
      sessions =
          insert k (record s { tcp = some state; expires = expires; probe = false }) b.sessions;
    })
    else (do
      quotes ← checked_sub b.tcp_quote_bytes (length s.syn_quote)
      some (record b {
        tcp_quote_bytes = quotes;
        sessions =
            insert k (record { tcp = some state; expires = expires; probe = false; syn_quote = [] })
              b.sessions;
      }))

unfoldable pub tcp_session : BindingKey → Remote → Bool → Byte → ℕ → Bindings → Option Bindings
unfolding update_tcp count_in
tcp_session key remote v6 flags now b =
    let k : SessionKey = record { binding = key; remote = remote } in
    elim (lookup k b.sessions) [
      | some s ↦ do
        state ← s.tcp
        let after = packet state v6 flags s.expires now
        b' ← update_tcp k s after b
        some (record b' { next = sooner b'.next after.1 })
      | none ↦
          let expires = saturating_add now transitory_ms in
          let tcp = if v6 then v6_init else v4_init in
          do
            b' ←
                count_in key
                  (record b { sessions = insert k (fresh_session expires (some tcp)) b.sessions })
            some (record b' { next = sooner b'.next expires })
    ]

-- A binding without sessions under a claimed port.
unfoldable pub add_binding : BindingKey → ℕ → ℕ → PortState → Bindings → Bindings
add_binding key port lease ports b = record b {
  ports = ports;
  bindings = insert key (record { lease = lease; port = port; sessions = 0 }) b.bindings;
  reverse = insert (key.protocol, port) key b.reverse;
  hosts = count_binding key.host b.hosts;
}

-- The claim of the allocated port.
unfoldable pub claim_binding : BindingKey → ℕ → Bindings → Bindings × Io ℕ
unfolding add_binding
claim_binding key port b =
    let (ports, claimed) = claim b.ports key.protocol port translation in
    elim claimed [
      | err e ↦ (record b { ports = ports }, err e)
      | ok lease ↦ (add_binding key port lease ports b, ok port)
    ]

-- The port of the binding, which is created if it is not there.
unfoldable pub bind : BindingKey → Rng → (ℕ → Bool) → Bindings → Bindings × Io ℕ
unfolding claim_binding
bind key rng taken b = elim (lookup key b.bindings) [
  | some x ↦ (b, ok x.port)
  | none ↦ elim (allocate b key.protocol key.port rng taken) [
    | err e ↦ (b, err e)
    | ok (port, _) ↦ claim_binding key port b
  ]
]
