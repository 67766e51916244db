-- ===== src/Nat64/Bindings/Invariant.antt =====
-- The consistency of the tables of src/nat64/bindings.rs.
pub mod Remove
pub mod Expiry
pub mod Insert
pub mod Bind
pub mod Opening
pub mod Outbound
pub mod OutboundTcp
pub mod Filtering
pub mod Inbound
pub mod InboundTcp
pub mod Errors
pub mod Quotes
use snak_machine_rs.Base.{
  ℕ, suc, ◌+◌, ◌-◌, ◌≤◌, ◌<◌, ◌≡◌, refl, ◌≢◌, ◌⊎◌, inl, inr, Bool, true, false, Option, none, some,
  List, [], ◌∷◌, arith, Bytes, length, ◌==◌, is_some,
}
use snak_machine_rs.Base.Maps.{Map, Key, nat_key, pair_key, count, lookup, Unique, sum_values}
use snak_machine_rs.Wire.Address.{Ipv6Addr}
use snak_machine_rs.Ports.{PortKey, PortState}
use snak_machine_rs.Ports.Accounting.{IsCounted}
use snak_machine_rs.Nat64.Bindings.Tables.{
  Bindings, Binding, BindingKey, Session, SessionKey, binding_key, session_key, binding_equal,
  UdpFiltering,
}

abbrev pub of_key : BindingKey → SessionKey → Session → Bool
of_key k sk _ = binding_equal sk.binding k

abbrev pub of_host : Ipv6Addr → SessionKey → Session → Bool
of_host h sk _ = sk.binding.host == h

abbrev pub on_host : Ipv6Addr → BindingKey → Binding → Bool
on_host h k _ = k.host == h

abbrev pub quote_of : Session → ℕ
quote_of s = length s.syn_quote

-- The one binding that may be without sessions, while an operation has not yet added one.
abbrev pub InUse : Option BindingKey → BindingKey → ℕ → Type 0
InUse none k n = 0 < n
InUse (some j) k n = binding_equal j k ≡ false → 0 < n

-- A binding counts its sessions and is found under its port; without one there is no session.
abbrev pub BoundAt : Option BindingKey → Bindings → BindingKey → Option Binding → Type 0
BoundAt pending b k none = count (of_key k) b.sessions ≡ 0
BoundAt pending b k (some x) =
    (x.sessions ≡ count (of_key k) b.sessions)
    × InUse pending k x.sessions
    × (lookup (k.protocol, x.port) b.reverse ≡ some k)

abbrev pub port_at : Option Binding → Option ℕ
port_at none = none
port_at (some x) = some x.port

-- A port leads to the binding that holds it.
abbrev pub BackAt : Bindings → PortKey → Option BindingKey → Type 0
BackAt b p none = Unit {0}
BackAt b p (some k) = (k.protocol ≡ p.0) × (port_at (lookup k b.bindings) ≡ some p.1)

-- A host counts its bindings and its sessions; it is listed while it has a binding.
abbrev pub HostAt : Bindings → Ipv6Addr → Option (ℕ × ℕ) → Type 0
HostAt b h none = (count (on_host h) b.bindings ≡ 0) × (count (of_host h) b.sessions ≡ 0)
HostAt b h (some c) =
    (c.0 ≡ count (on_host h) b.bindings) × (c.1 ≡ count (of_host h) b.sessions) × (0 < c.0)

-- A TCP session has a transport state, and only TCP sessions hold a quoted SYN.
abbrev pub FitsProtocol : SessionKey → Session → Type 0
FitsProtocol k s =
    (k.binding.protocol ≡ 6 → is_some s.tcp ≡ true)
    × (k.binding.protocol ≢ 6 → length s.syn_quote ≡ 0)

abbrev pub SessionAt : Bindings → SessionKey → Option Session → Type 0
SessionAt b k none = Unit {0}
SessionAt b k (some s) = FitsProtocol k s

-- The tables agree, but for the pending binding.
pub record Agrees (pending : Option BindingKey) (b : Bindings) : Type 0 where
  pub unique_bindings : Unique b.bindings
  pub unique_reverse : Unique b.reverse
  pub unique_sessions : Unique b.sessions
  pub unique_hosts : Unique b.hosts
  pub bound : (k : BindingKey) → BoundAt pending b k (lookup k b.bindings)
  pub back : (p : PortKey) → BackAt b p (lookup p b.reverse)
  pub host : (h : Ipv6Addr) → HostAt b h (lookup h b.hosts)
  pub session : (k : SessionKey) → SessionAt b k (lookup k b.sessions)
  pub quotes : b.tcp_quote_bytes ≡ sum_values quote_of b.sessions
  pub ports : IsCounted b.ports

-- What the operations on packets leave as it is.
abbrev pub settings : Bindings → Ipv6Addr × UdpFiltering × ℕ × ℕ
settings b = (b.domain, b.udp_filtering, b.udp_seconds, b.icmp_seconds)

-- Between two operations no binding is without sessions.
abbrev pub IsConsistent : Bindings → Type 0
IsConsistent b = Agrees none b
