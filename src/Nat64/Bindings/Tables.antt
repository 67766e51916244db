-- ===== src/Nat64/Bindings/Tables.antt =====
-- src/nat64/bindings.rs: the tables and the operations that only read them.
use mathlib.Core.Option
use snak_machine_rs.Base.{
  ℕ, ◌+◌, ◌*◌, ◌≡◌, ◌↔◌, Bool, true, false, ◌&&◌, ◌||◌, not, Option, none, some, List, [], ltb, leb,
  ◌==◌, if◌then◌else◌, Bytes, length, Io, ok, err, invalid_input, would_block, arith,
}
use snak_machine_rs.Base.Maps.{Map, Key, nat_key, pair_key, lookup, contains, size, any_value}
use snak_machine_rs.Wire.Address.{Ipv6Addr}
use snak_machine_rs.Ports.{PortKey, PortState}
use snak_machine_rs.Nat64.Tcp.{State}

-- `SocketAddrV4`.
pub record Remote : Type 0 where
  pub ip : ℕ
  pub port : ℕ

-- `Key`: protocol, host, its port or identifier, and the translation domain.
pub record BindingKey : Type 0 where
  pub protocol : ℕ
  pub host : Ipv6Addr
  pub port : ℕ
  pub domain : Ipv6Addr

pub record SessionKey : Type 0 where
  pub binding : BindingKey
  pub remote : Remote

unfoldable pub remote_equal : Remote → Remote → Bool
remote_equal a b = a.ip == b.ip && a.port == b.port

unfoldable pub binding_equal : BindingKey → BindingKey → Bool
binding_equal a b =
    a.protocol == b.protocol && a.host == b.host && a.port == b.port && a.domain == b.domain

unfoldable pub remote_less : Remote → Remote → Bool
remote_less a b = ltb a.ip b.ip || (a.ip == b.ip && ltb a.port b.port)

-- Field by field, from the first.
unfoldable pub binding_less : BindingKey → BindingKey → Bool
binding_less a b =
    ltb a.protocol b.protocol
    || (a.protocol == b.protocol
        && (ltb a.host b.host
            || (a.host == b.host
                && (ltb a.port b.port || (a.port == b.port && ltb a.domain b.domain)))))

pub remote_equal_iff : (a b : Remote) → (remote_equal a b ≡ true) ↔ (a ≡ b)
unfolding remote_equal
remote_equal_iff a b = ground arith

pub binding_equal_iff : (a b : BindingKey) → (binding_equal a b ≡ true) ↔ (a ≡ b)
unfolding binding_equal
binding_equal_iff a b = ground arith

instance abbrev pub binding_key : Key BindingKey
binding_key = record { equal = binding_equal; less = binding_less; equal_iff = binding_equal_iff }

unfoldable pub session_equal : SessionKey → SessionKey → Bool
session_equal a b = binding_equal a.binding b.binding && remote_equal a.remote b.remote

pub session_equal_iff : (a b : SessionKey) → (session_equal a b ≡ true) ↔ (a ≡ b)
unfolding session_equal
session_equal_iff a b =
    ground (arith, binding_equal_iff a.binding b.binding, remote_equal_iff a.remote b.remote)

unfoldable pub session_less : SessionKey → SessionKey → Bool
session_less a b =
    binding_less a.binding b.binding
    || (binding_equal a.binding b.binding && remote_less a.remote b.remote)

instance abbrev pub session_key : Key SessionKey
session_key = record { equal = session_equal; less = session_less; equal_iff = session_equal_iff }

pub data UdpFiltering : Type 0 where
  address_dependent endpoint_independent : UdpFiltering

-- The lease is the generation that the port registry gave.
pub record Binding : Type 0 where
  pub lease : ℕ
  pub port : ℕ
  pub sessions : ℕ

pub record Session : Type 0 where
  pub expires : ℕ
  pub tcp : Option State
  pub probe : Bool
  pub syn_quote : Bytes

-- The port registry is shared with the rest of the interface; here it is the state at the call.
pub record Bindings : Type 0 where
  pub domain : Ipv6Addr
  pub ports : PortState
  pub bindings : Map BindingKey Binding
  pub reverse : Map PortKey BindingKey
  pub sessions : Map SessionKey Session
  pub hosts : Map Ipv6Addr (ℕ × ℕ)
  pub next : Option ℕ
  pub udp_filtering : UdpFiltering
  pub udp_seconds : ℕ
  pub icmp_seconds : ℕ
  pub tcp_timeouts : List Bytes
  pub tcp_quote_bytes : ℕ

unfoldable pub with_ports : PortState → Bindings
with_ports ports = record {
  domain = 0;
  ports = ports;
  bindings = [];
  reverse = [];
  sessions = [];
  hosts = [];
  next = none;
  udp_filtering = address_dependent;
  udp_seconds = 300;
  icmp_seconds = 60;
  tcp_timeouts = [];
  tcp_quote_bytes = 0;
}

unfoldable pub owns : Bindings → ℕ → ℕ → Bool
owns b protocol port = contains (protocol, port) b.reverse

unfoldable pub domain_for : Bindings → ℕ → ℕ → Option Ipv6Addr
domain_for b protocol port =
    Option.map (λ (key : BindingKey). key.domain) (lookup (protocol, port) b.reverse)

-- `sessions.get(key).filter(|s| s.expires > now)`.
abbrev pub live_session : Option Session → ℕ → Bool
live_session none now = false
live_session (some s) now = ltb now s.expires

unfoldable pub error_in : Bindings → ℕ → ℕ → Remote → ℕ → Option (Ipv6Addr × ℕ)
error_in b protocol port remote now = elim (lookup (protocol, port) b.reverse) [
  | none ↦ none
  | some key ↦
      if live_session (lookup (record { binding = key; remote = remote }) b.sessions) now
      then some (key.host, key.port)
      else none
]

abbrev pub key_of : Bindings → ℕ → Ipv6Addr → ℕ → BindingKey
key_of b protocol host port = record {
  protocol = protocol;
  host = host;
  port = port;
  domain = b.domain;
}

unfoldable pub error_out : Bindings → ℕ → Ipv6Addr → ℕ → Remote → ℕ → Option ℕ
error_out b protocol host port remote now =
    let key = key_of b protocol host port in
    if live_session (lookup (record { binding = key; remote = remote }) b.sessions) now
    then Option.map (λ (x : Binding). x.port) (lookup key b.bindings)
    else none

unfoldable pub counts : Bindings → ℕ × ℕ × ℕ
counts b = (size b.bindings, size b.sessions, size b.hosts)

unfoldable pub charged_bytes : Bindings → ℕ
charged_bytes b =
    size b.bindings * 192
    + size b.reverse * 96
    + size b.sessions * 256
    + size b.hosts * 128
    + length b.tcp_timeouts * 128
    + b.tcp_quote_bytes

unfoldable pub next_deadline : Bindings → Option ℕ
next_deadline b =
    if ltb 0 (length b.tcp_timeouts) || any_value (λ (s : Session). s.probe) b.sessions
    then some 0
    else b.next

unfoldable pub set_udp_filtering : Bindings → UdpFiltering → Bindings
set_udp_filtering b filter = record b { udp_filtering = filter }

unfoldable pub set_udp_timeout : Bindings → ℕ → Bindings × Io (Unit {0})
set_udp_timeout b seconds =
    if not (leb 120 seconds && leb seconds 86400)
    then (b, err invalid_input)
    else (record b { udp_seconds = seconds }, ok tt)

unfoldable pub set_icmp_timeout : Bindings → ℕ → Bindings × Io (Unit {0})
set_icmp_timeout b seconds =
    if not (leb 60 seconds && leb seconds 86400)
    then (b, err invalid_input)
    else (record b { icmp_seconds = seconds }, ok tt)

-- `hosts.get(&host).copied().unwrap_or_default()`.
abbrev pub host_counts : Option (ℕ × ℕ) → ℕ × ℕ
host_counts none = (0, 0)
host_counts (some c) = c

abbrev pub unless : Bool → ℕ → ℕ
unless true n = 0
unless false n = n

-- The capacities: bytes, bindings and sessions in all, and those of one host.
unfoldable pub admit : Bindings → BindingKey → Remote → Io (Unit {0})
admit b key remote =
    let (bindings, sessions) = host_counts (lookup key.host b.hosts) in
    let bound = contains key b.bindings in
    let open_session = contains (record { binding = key; remote = remote }) b.sessions in
    let bytes =
      unless bound 288 + unless (contains key.host b.hosts) 128 + unless open_session 256 in
    if ltb 4194304 (charged_bytes b + bytes)
      || (not bound && (leb 4096 (size b.bindings) || leb 128 bindings))
      || (not open_session && (leb 8192 (size b.sessions) || leb 256 sessions))
    then err would_block
    else ok tt
