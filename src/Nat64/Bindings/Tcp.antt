-- ===== src/Nat64/Bindings/Tcp.antt =====
-- src/nat64/bindings/tcp.rs.
use snak_machine_rs.Base.{
  ℕ, zero, suc, ◌+◌, ◌*◌, ◌%◌, min, Bool, true, false, ◌&&◌, not, Option, none, some, List, [], ◌∷◌,
  ltb, if◌then◌else◌, Bytes, Byte, byte, take, drop, length, has_bit, Io, ok, err, would_block,
}
use snak_machine_rs.Base.Maps.{Map, pair_key, lookup, contains, insert}
use snak_machine_rs.Time.{Rng}
use snak_machine_rs.Wire.Address.{Ipv6Addr}
use snak_machine_rs.Nat64.Tcp.{State}
use snak_machine_rs.Nat64.Bindings.Tables.{
  Bindings, Binding, BindingKey, Remote, Session, SessionKey, binding_key, session_key, key_of,
  charged_bytes, admit,
}
use snak_machine_rs.Nat64.Bindings.Expire.{◌>>=◌, expire, is_state, is_v4_init}
use snak_machine_rs.Nat64.Bindings.Sessions.{bind, tcp_session}
use snak_machine_rs.Nat64.Bindings.Icmp.{nothing_taken}

abbrev total_length : List Bytes → ℕ
total_length [] = 0
total_length (b ∷ bs) = length b + total_length bs

unfoldable pub tcp_timeout_load : Bindings → ℕ × ℕ
tcp_timeout_load b = (length b.tcp_timeouts, total_length b.tcp_timeouts)

unfoldable pub take_tcp_timeouts : Bindings → ℕ → Bindings × List Bytes
take_tcp_timeouts b limit =
    let n = min (min limit 32) (length b.tcp_timeouts) in
    (record b { tcp_timeouts = drop n b.tcp_timeouts }, take n b.tcp_timeouts)

-- The header and eight bytes, as far as the packet goes, 68 at most; the caller's packet is not empty.
abbrev pub quote_length : Bytes → ℕ
quote_length packet = min (min (byte packet 0 % 16 * 4 + 8) (length packet)) 68

abbrev pub is_empty : Bytes → Bool
is_empty [] = true
is_empty (_ ∷ _) = false

-- The first SYN from the IPv4 side is kept with its session.
unfoldable pub remember_tcp_syn : Bindings → ℕ → Remote → Bytes → Bindings
remember_tcp_syn b port remote packet = elim (lookup (6, port) b.reverse) [
  | none ↦ b
  | some key ↦
      let k : SessionKey = record { binding = key; remote = remote } in
      elim (lookup k b.sessions) [
        | none ↦ b
        | some s ↦
            if is_state s.tcp is_v4_init && is_empty s.syn_quote
            then (let quote = take (quote_length packet) packet in
                record b {
                  sessions = insert k (record s { syn_quote = quote }) b.sessions;
                  tcp_quote_bytes = b.tcp_quote_bytes + length quote;
                })
            else b
      ]
]

unfoldable pub tcp_state : Bindings → Ipv6Addr → ℕ → Remote → Option (State × ℕ)
tcp_state b source port remote = do
  s ← lookup (record { binding = key_of b 6 source port; remote = remote }) b.sessions
  state ← s.tcp
  some (state, s.expires)

abbrev pub Probe : Type 0
Probe = Ipv6Addr × ℕ × ℕ × Remote

-- `out.len() >= limit.min(32)` ends the loop: `room` probes may still be taken.
unfoldable pub take_probes :
    ℕ
    → Map BindingKey Binding
    → Map SessionKey Session
    → Option (Map SessionKey Session × List Probe)
take_probes room bindings [] = some ([], [])
take_probes zero bindings ((k, s) ∷ m) = some ((k, s) ∷ m, [])
take_probes (suc room) bindings ((k, s) ∷ m) =
    let taken = (do
      x ← lookup k.binding bindings
      (m', probes) ← take_probes room bindings m
      some (
        (k, record s { probe = false }) ∷ m',
        (k.binding.host, k.binding.port, x.port, k.remote) ∷ probes,
      )) in
    let passed = (do
      (m', probes) ← take_probes (suc room) bindings m
      some ((k, s) ∷ m', probes)) in
    if s.probe then taken else passed

unfoldable pub take_tcp_probes : Bindings → ℕ → Option (Bindings × List Probe)
unfolding take_probes
take_tcp_probes b limit = do
  (sessions, probes) ← take_probes (min limit 32) b.bindings b.sessions
  some (record b { sessions = sessions }, probes)

-- Only a SYN opens a session.
unfoldable pub tcp_out :
    Bindings → Ipv6Addr → ℕ → Remote → Byte → ℕ → Rng → Option (Bindings × Io (Option ℕ))
tcp_out b source port remote flags now rng = do
  (b', _) ← expire b now
  let key = key_of b' 6 source port
  if not (contains (record { binding = key; remote = remote }) b'.sessions) && not (has_bit flags 2)
      then some (b', ok none)
      else elim (admit b' key remote) [
        | err e ↦ some (b', err e)
        | ok _ ↦
            let (b'', assigned) = bind key rng nothing_taken b' in
            elim assigned [
              | err e ↦ some (b'', err e)
              | ok p ↦
                  tcp_session key remote true flags now b'' >>= λ b'''. some (b''', ok (some p))
            ]
      ]

unfoldable pub tcp_in :
    Bindings → ℕ → Remote → Byte → ℕ → Option (Bindings × Io (Option (Ipv6Addr × ℕ)))
tcp_in b port remote flags now = do
  (b', _) ← expire b now
  elim (lookup (6, port) b'.reverse) [
    | none ↦ some (b', ok none)
    | some key ↦
        if not (contains (record { binding = key; remote = remote }) b'.sessions)
          && not (has_bit flags 2)
        then some (b', ok none)
        else elim (admit b' key remote) [
          | err e ↦ some (b', err e)
          | ok _ ↦ do
            b'' ← tcp_session key remote false flags now b'
            some (record b'' { domain = key.domain }, ok (some (key.host, key.port)))
        ]
  ]

-- A SYN is quoted if its session is new, or waits for its first answer with no quote.
abbrev pub wants_quote : Byte → Option Session → Bool
wants_quote flags none = has_bit flags 2
wants_quote flags (some s) = has_bit flags 2 && is_state s.tcp is_v4_init && is_empty s.syn_quote

abbrev pub extra_session : Option Session → ℕ
extra_session none = 256
extra_session (some _) = 0

abbrev pub remember_if :
    Bool
    → ℕ
    → Remote
    → Bytes
    → Bindings × Io (Option (Ipv6Addr × ℕ))
    → Bindings × Io (Option (Ipv6Addr × ℕ))
remember_if true port remote packet (b, ok (some host)) =
    (remember_tcp_syn b port remote packet, ok (some host))
remember_if true port remote packet (b, ok none) = (b, ok none)
remember_if true port remote packet (b, err e) = (b, err e)
remember_if false port remote packet r = r

unfoldable pub tcp_in_packet :
    Bindings → ℕ → Remote → Byte → ℕ → Bytes → Option (Bindings × Io (Option (Ipv6Addr × ℕ)))
unfolding tcp_in remember_tcp_syn
tcp_in_packet b port remote flags now packet = do
  (b', _) ← expire b now
  elim (lookup (6, port) b'.reverse) [
    | none ↦ some (b', ok none)
    | some key ↦
        let session = lookup (record { binding = key; remote = remote }) b'.sessions in
        let needs_quote = wants_quote flags session in
        let added = quote_length packet + extra_session session in
        if needs_quote && ltb 4194304 (charged_bytes b' + added)
        then some (b', err would_block)
        else tcp_in b' port remote flags now >>= λ r.
            some (remember_if needs_quote port remote packet r)
  ]
