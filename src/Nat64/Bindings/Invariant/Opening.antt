-- ===== src/Nat64/Bindings/Invariant/Opening.antt =====
-- `udp_session`, `icmp_session` and `tcp_session`: a session of a binding is made or refreshed.
use snak_machine_rs.Base.{
  ℕ, ◌+◌, ◌-◌, ◌≡◌, refl, sym, subst, ◌≢◌, inl, inr, Bool, false, Option, none, some, [], arith,
  Byte, length, Bool-cases, Option-cases, if◌then◌else◌, saturating_add,
}
use snak_machine_rs.Base.Maps.{lookup, contains, insert, lookup-insert, equal_refl}
use snak_machine_rs.Base.Maps.Counts.{sum-remove}
use snak_machine_rs.Wire.Address.{Ipv6Addr}
use snak_machine_rs.Nat64.Tcp.{State, v4_init, v6_init, packet, transitory_ms}
use snak_machine_rs.Nat64.Bindings.Tables.{
  Bindings, Binding, BindingKey, Remote, Session, SessionKey, binding_key, session_key,
}
use snak_machine_rs.Nat64.Bindings.Expire.{is_v4_init}
use snak_machine_rs.Nat64.Bindings.Sessions.{
  sooner, fresh_session, count_in, plain_session, update_tcp, tcp_session,
}
use snak_machine_rs.Nat64.Bindings.Invariant.{
  quote_of, SessionAt, settings, port_at, IsConsistent, Agrees, FitsProtocol,
}
use snak_machine_rs.Nat64.Bindings.Invariant.Insert.{
  settled-IsConsistent, host-listed, opened, opened-IsConsistent, stored-IsConsistent,
}

-- What a segment leaves of a session: the quoted SYN stays while the session is in its first state.
abbrev pub followed : Session → State × ℕ → Session
followed s (state, expires) = record {
  tcp = some state;
  expires = expires;
  probe = false;
  syn_quote = if is_v4_init state then s.syn_quote else [];
}

-- The session after a segment: a new one is transitory, one that is there makes the step of its state.
abbrev pub tcp_after : Option Session → Bool → Byte → ℕ → Session
tcp_after none v6 flags now =
    fresh_session (saturating_add now transitory_ms) (some (if v6 then v6_init else v4_init))
tcp_after (some s) v6 flags now = elim s.tcp [
  | none ↦ s
  | some state ↦ followed s (packet state v6 flags s.expires now)
]

-- The next deadline and the domain of the last packet are not part of the agreement.
pub context-IsConsistent :
    (b : Bindings) (next : Option ℕ) (domain : Ipv6Addr)
    → IsConsistent b
    → IsConsistent (record b { next = next; domain = domain })
context-IsConsistent b next domain v = record {
  unique_bindings = v.unique_bindings;
  unique_reverse = v.unique_reverse;
  unique_sessions = v.unique_sessions;
  unique_hosts = v.unique_hosts;
  bound = v.bound;
  back = v.back;
  host = v.host;
  session = v.session;
  quotes = v.quotes;
  ports = v.ports;
}

-- A run gives consistent tables in which the session stands as given and its binding has the port.
abbrev pub Opens : Bindings → SessionKey → Session → ℕ → Option Bindings → Type 0
Opens b k s port run =
    (b' : Bindings) × (run ≡ some b')
    × IsConsistent b'
    × (lookup k b'.sessions ≡ some s)
    × (port_at (lookup k.binding b'.bindings) ≡ some port)
    × (settings b' ≡ settings b)

module _ (b : Bindings) (key : BindingKey) (remote : Remote) (x : Binding) (v : Agrees (some key) b)
    (bound : lookup key b.bindings ≡ some x) where
  abbrev here : SessionKey
  here = record { binding = key; remote = remote }

  stored_here : (s : Session) → lookup here (insert here s b.sessions) ≡ some s
  stored_here s = ground (arith, lookup-insert here here s b.sessions, equal_refl here)

  counted_here :
      port_at (lookup key (insert key (record x { sessions = x.sessions + 1 }) b.bindings))
      ≡ some x.port
  counted_here = ground (
    arith,
    lookup-insert key key (record x { sessions = x.sessions + 1 }) b.bindings,
    equal_refl key,
  )

  -- A session that carries no transport state is made or refreshed.
  pub plain_session-Opens :
      (expires : ℕ)
      → key.protocol ≢ 6
      → Opens b here (fresh_session expires none) x.port (plain_session key remote expires b)
  unfolding plain_session count_in contains
  plain_session-Opens expires plain =
      let s = fresh_session expires none in
      let fits : FitsProtocol here s = ((λ e. absurd (plain e)), λ _. refl) in
      elim (Option-cases (lookup here b.sessions)) [
        | inl absent ↦
            let (c, listed) = host-listed (some key) b key x v bound in
            (
              record (opened b here s x c v absent bound listed fits refl) {
                next = sooner b.next expires;
              },
              ground (arith, absent, bound, listed),
              context-IsConsistent _ _ _
                  (opened-IsConsistent b here s x c v absent bound listed fits refl),
              stored_here s,
              ground (arith, counted_here),
              refl,
            )
        | inr (old, found) ↦
            let settled = settled-IsConsistent here old b v found in
            let unquoted = (subst (SessionAt b here) found (v.session here)).1 plain in
            (
              record b { sessions = insert here s b.sessions; next = sooner b.next expires },
              ground (arith, found),
              context-IsConsistent _ _ _ (
                  stored-IsConsistent b here old s b.tcp_quote_bytes settled found fits
                    (ground (arith, unquoted))),
              stored_here s,
              ground (arith, bound),
              refl,
            )
      ]

  update_tcp-Opens :
      (old : Session) (after : State × ℕ)
      → lookup here b.sessions ≡ some old
      → Opens b here (followed old after) x.port (update_tcp here old after b)
  unfolding update_tcp
  update_tcp-Opens old (state, expires) found =
      let settled = settled-IsConsistent here old b v found in
      let fits : FitsProtocol here (followed old (state, expires)) =
        ((λ _. refl), λ p. ground (arith, (subst (SessionAt b here) found (v.session here)).1 p)) in
      let held = sum-remove quote_of here b.sessions in
      elim (Bool-cases (is_v4_init state)) [
        | inl first ↦ (
          record b { sessions = insert here (followed old (state, expires)) b.sessions },
          ground (arith, first),
          stored-IsConsistent b here old (followed old (state, expires)) b.tcp_quote_bytes settled
              found fits (ground arith),
          stored_here (followed old (state, expires)),
          ground (arith, bound),
          refl,
        )
        | inr later ↦ (
          record b {
            sessions = insert here (followed old (state, expires)) b.sessions;
            tcp_quote_bytes = b.tcp_quote_bytes - length old.syn_quote;
          },
          ground (arith, later, v.quotes, held),
          stored-IsConsistent b here old (followed old (state, expires)) _ settled found fits
              (ground (arith, later, v.quotes, held)),
          stored_here (followed old (state, expires)),
          ground (arith, bound),
          refl,
        )
      ]

  -- A segment makes or updates its session.
  pub tcp_session-Opens :
      (v6 : Bool) (flags : Byte) (now : ℕ)
      → key.protocol ≡ 6
      → Opens b here
          (tcp_after (lookup here b.sessions) v6 flags now)
          x.port
          (tcp_session key remote v6 flags now b)
  unfolding tcp_session count_in
  tcp_session-Opens v6 flags now tcp = elim (Option-cases (lookup here b.sessions)) [
    | inl absent ↦
        let s = tcp_after none v6 flags now in
        let fits : FitsProtocol here s = ((λ _. refl), λ other. refl) in
        let (c, listed) = host-listed (some key) b key x v bound in
        subst
          (λ o.
            Opens b here (tcp_after o v6 flags now) x.port (tcp_session key remote v6 flags now b))
          (sym absent)
          (
            record (opened b here s x c v absent bound listed fits refl) {
              next = sooner b.next s.expires;
            },
            ground (arith, absent, bound, listed),
            context-IsConsistent _ _ _
                (opened-IsConsistent b here s x c v absent bound listed fits refl),
            stored_here s,
            ground (arith, counted_here),
            refl,
          )
    | inr (old, found) ↦ elim (Option-cases old.tcp) [
      | inl none_there ↦
          absurd (ground (arith, (subst (SessionAt b here) found (v.session here)).0 tcp))
      | inr (state, there) ↦
          let after = packet state v6 flags old.expires now in
          let (b', run, v', stored, port, set) = update_tcp-Opens old after found in
          let same : tcp_after (lookup here b.sessions) v6 flags now ≡ followed old after =
            ground (arith, found, there) in
          subst (λ s. Opens b here s x.port (tcp_session key remote v6 flags now b)) (sym same)
            (
              record b' { next = sooner b'.next after.1 },
              ground (arith, found, there, run),
              context-IsConsistent _ _ _ v',
              stored,
              port,
              set,
            )
    ]
  ]
