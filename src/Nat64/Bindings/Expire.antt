-- ===== src/Nat64/Bindings/Expire.antt =====
-- `expire`, `clear` and `retain_domains` of src/nat64/bindings.rs.
-- An `unwrap` of none, an index of a missing key and an underflow of a counter are a panic: none.
use snak_machine_rs.Base.{
  ℕ, ◌+◌, ◌-◌, Bool, true, false, ◌&&◌, not, Option, none, some, List, [], ◌∷◌, ◌++◌, ltb, leb,
  ◌==◌, if◌then◌else◌, Bytes, length, saturating_add, any,
}
use snak_machine_rs.Base.Maps.{
  Map, nat_key, pair_key, lookup, insert, remove, retain, map_values, keys_where, min_value,
  sum_values,
}
use snak_machine_rs.Wire.Address.{Ipv6Addr}
use snak_machine_rs.Wire.Prefix.{Prefix}
use snak_machine_rs.Ports.{PortKey, PortState, drop_lease}
use snak_machine_rs.Nat64.Tcp.{State, v4_init, established, transitory, transitory_ms}
use snak_machine_rs.Nat64.Bindings.Tables.{
  Bindings, Binding, BindingKey, Session, SessionKey, binding_key, session_key, host_counts,
}

infixl 5 ◌>>=◌
abbrev pub ◌>>=◌ {ℓ κ} : {A : Type ℓ} {B : Type κ} → Option A → (A → Option B) → Option B
none >>= f = none
some a >>= f = f a

-- `x -= n`.
abbrev pub checked_sub : ℕ → ℕ → Option ℕ
checked_sub a b = if ltb a b then none else some (a - b)

abbrev pub is_state : Option State → (State → Bool) → Bool
is_state none q = false
is_state (some s) q = q s

abbrev pub is_established : State → Bool
is_established established = true
is_established _ = false

abbrev pub is_v4_init : State → Bool
is_v4_init v4_init = true
is_v4_init _ = false

-- An established session that runs out is probed for a transitory time.
unfoldable pub demote : ℕ → Session → Session
demote now s =
    if leb s.expires now && is_state s.tcp is_established
    then (let later = saturating_add s.expires transitory_ms in
        record s { tcp = some transitory; expires = later; probe = ltb now later })
    else s

abbrev pub Released : Type 0
Released = List PortKey

-- An unanswered SYN from the IPv4 side is kept for an ICMP error, 32 at most.
unfoldable pub queue_timeout : Session → List Bytes → List Bytes
queue_timeout s timeouts =
    if is_state s.tcp is_v4_init && ltb 0 (length s.syn_quote) && ltb (length timeouts) 32
    then timeouts ++ s.syn_quote ∷ []
    else timeouts

-- The binding of the last session goes with its port; the port comes back to the registry.
unfoldable pub unbind :
    BindingKey → Binding → ℕ × ℕ → Bindings → Option (Bindings × Released × ℕ × ℕ)
unbind key x (bound, open_sessions) b =
    if x.sessions == 0
    then (do
      ports ← drop_lease b.ports (key.protocol, x.port) x.lease
      bound' ← checked_sub bound 1
      some (
        record b {
          ports = ports;
          bindings = remove key b.bindings;
          reverse = remove (key.protocol, x.port) b.reverse;
        },
        (key.protocol, x.port) ∷ [],
        bound',
        open_sessions,
      ))
    else some (record b { bindings = insert key x b.bindings }, [], bound, open_sessions)

abbrev pub store_host : Ipv6Addr → ℕ × ℕ → Map Ipv6Addr (ℕ × ℕ) → Map Ipv6Addr (ℕ × ℕ)
store_host host c hosts = if c.0 == 0 then remove host hosts else insert host c hosts

-- The body of the loop over the expired sessions.
unfoldable pub remove_session : SessionKey → Bindings → Option (Bindings × Released)
unfolding queue_timeout unbind
remove_session key b = do
  s ← lookup key b.sessions
  quotes ← checked_sub b.tcp_quote_bytes (length s.syn_quote)
  x ← lookup key.binding b.bindings
  left ← checked_sub x.sessions 1
  host ← lookup key.binding.host b.hosts
  open_sessions ← checked_sub host.1 1
  let b' = record b {
    sessions = remove key b.sessions;
    tcp_quote_bytes = quotes;
    tcp_timeouts = queue_timeout s b.tcp_timeouts;
  }
  (b'', released, bound, remaining) ←
      unbind key.binding (record x { sessions = left }) (host.0, open_sessions) b'
  some (record b'' { hosts = store_host key.binding.host (bound, remaining) b''.hosts }, released)

unfoldable pub remove_sessions : List SessionKey → Bindings → Option (Bindings × Released)
remove_sessions [] b = some (b, [])
remove_sessions (key ∷ keys) b = do
  (b', released) ← remove_session key b
  (b'', others) ← remove_sessions keys b'
  some (b'', released ++ others)

abbrev pub expires_of : Session → ℕ
expires_of s = s.expires

-- `next.is_none_or(|t| t > now)`.
abbrev pub nothing_due : Option ℕ → ℕ → Bool
nothing_due none now = true
nothing_due (some t) now = ltb now t

abbrev pub is_over : ℕ → SessionKey → Session → Bool
is_over now _ s = leb s.expires now

unfoldable pub expire : Bindings → ℕ → Option (Bindings × Released)
expire b now =
    if nothing_due b.next now
    then some (b, [])
    else (let marked = record b { sessions = map_values (demote now) b.sessions } in
        do
          (b', released) ← remove_sessions (keys_where (is_over now) marked.sessions) marked
          some (record b' { next = min_value expires_of b'.sessions }, released))

-- The drop of every binding, one after the other.
unfoldable pub drop_bindings : Map BindingKey Binding → PortState → Option PortState
drop_bindings [] ports = some ports
drop_bindings ((key, x) ∷ m) ports = do
  ports' ← drop_lease ports (key.protocol, x.port) x.lease
  drop_bindings m ports'

abbrev all_keys : Map PortKey BindingKey → List PortKey
all_keys [] = []
all_keys ((k, _) ∷ m) = k ∷ all_keys m

unfoldable pub clear : Bindings → Option (Bindings × Released)
unfolding drop_bindings
clear b = do
  ports ← drop_bindings b.bindings b.ports
  some (
    record b {
      ports = ports;
      bindings = [];
      reverse = [];
      sessions = [];
      hosts = [];
      next = none;
      tcp_timeouts = [];
      tcp_quote_bytes = 0;
    },
    all_keys b.reverse,
  )

-- `hosts.entry(host).or_default()`, with one more binding.
abbrev pub count_binding : Ipv6Addr → Map Ipv6Addr (ℕ × ℕ) → Map Ipv6Addr (ℕ × ℕ)
count_binding host hosts =
    let (bindings, sessions) = host_counts (lookup host hosts) in
    insert host (bindings + 1, sessions) hosts

-- The same, with one more session.
abbrev pub count_session : Ipv6Addr → Map Ipv6Addr (ℕ × ℕ) → Map Ipv6Addr (ℕ × ℕ)
count_session host hosts =
    let (bindings, sessions) = host_counts (lookup host hosts) in
    insert host (bindings, sessions + 1) hosts

unfoldable pub count_hosts :
    Map BindingKey Binding → Map SessionKey Session → Map Ipv6Addr (ℕ × ℕ) → Map Ipv6Addr (ℕ × ℕ)
count_hosts [] [] hosts = hosts
count_hosts [] ((key, _) ∷ m) hosts = count_hosts [] m (count_session key.binding.host hosts)
count_hosts ((key, _) ∷ m) sessions hosts = count_hosts m sessions (count_binding key.host hosts)

unfoldable pub retain_domains : Bindings → List Prefix → Option Bindings
unfolding drop_bindings count_hosts
retain_domains b domains =
    let kept = λ (key : BindingKey). any (λ (p : Prefix). p.address == key.domain) domains in
    let sessions = retain (λ key _. kept key.binding) b.sessions in
    let bindings = retain (λ key _. kept key) b.bindings in
    do
      ports ← drop_bindings (retain (λ key _. not (kept key)) b.bindings) b.ports
      some (record b {
        ports = ports;
        sessions = sessions;
        bindings = bindings;
        reverse = retain (λ _ key. kept key) b.reverse;
        hosts = count_hosts bindings sessions [];
        tcp_quote_bytes = sum_values (λ s. length s.syn_quote) sessions;
        next = min_value expires_of sessions;
      })
