-- ===== src/Nat64/Bindings/Invariant/Quotes.antt =====
-- `remember_tcp_syn` and `tcp_in_packet`: the quoted SYNs are counted.
use snak_machine_rs.Base.{
  ℕ, ◌<◌, ◌+◌, ◌≡◌, refl, subst, inl, inr, Bool, true, false, ◌&&◌, Option, none, some, [], ◌∷◌,
  arith, Byte, Bytes, length, take, ltb, Bool-cases, Option-cases, Io, ok, err, would_block,
}
use snak_machine_rs.Base.Maps.{lookup, pair_key}
use snak_machine_rs.Wire.Address.{Ipv6Addr}
use snak_machine_rs.Nat64.Bindings.Tables.{
  Bindings, Remote, Session, SessionKey, binding_key, session_key, charged_bytes,
}
use snak_machine_rs.Nat64.Bindings.Expire.{is_state, is_v4_init}
use snak_machine_rs.Nat64.Bindings.Tcp.{
  quote_length, is_empty, remember_tcp_syn, tcp_in_packet, wants_quote, extra_session, remember_if,
}
use snak_machine_rs.Nat64.Bindings.Invariant.{IsConsistent, FitsProtocol, SessionAt}
use snak_machine_rs.Nat64.Bindings.Invariant.Expiry.{expire-IsConsistent}
use snak_machine_rs.Nat64.Bindings.Invariant.Insert.{stored-IsConsistent}
use snak_machine_rs.Nat64.Bindings.Invariant.Inbound.{reverse-bound}
use snak_machine_rs.Nat64.Bindings.Invariant.InboundTcp.{tcp_in-IsConsistent}

empty-length : (q : Bytes) → is_empty q ≡ true → length q ≡ 0
empty-length [] e = refl
empty-length (x ∷ q) e = absurd (cc)

-- Quoting a SYN keeps the tables consistent.
pub remember_tcp_syn-IsConsistent :
    (b : Bindings) (port : ℕ) (remote : Remote) (packet : Bytes)
    → IsConsistent b
    → IsConsistent (remember_tcp_syn b port remote packet)
unfolding remember_tcp_syn
remember_tcp_syn-IsConsistent b port remote packet v =
    elim (Option-cases (lookup (6, port) b.reverse)) [
      | inl unbound ↦ subst IsConsistent (ground arith) v
      | inr (key, bound) ↦
          let k : SessionKey = record { binding = key; remote = remote } in
          let (x, there, is_port, tcp) = reverse-bound b 6 port key v bound in
          elim (Option-cases (lookup k b.sessions)) [
            | inl absent ↦ subst IsConsistent (ground arith) v
            | inr (s, found) ↦
                elim (Bool-cases (is_state s.tcp is_v4_init && is_empty s.syn_quote)) [
                  | inr other ↦ subst IsConsistent (ground arith) v
                  | inl wanted ↦
                      let s' : Session = record s {
                        syn_quote = take (quote_length packet) packet;
                      } in
                      let fits_old = subst (SessionAt b k) found (v.session k) in
                      let fits : FitsProtocol k s' = (fits_old.0, λ other. absurd (other tcp)) in
                      subst IsConsistent (ground (arith, bound, found, wanted)) (
                        stored-IsConsistent b k s s' (b.tcp_quote_bytes + length s'.syn_quote) v
                          found fits (ground (arith, empty-length s.syn_quote)))
                ]
          ]
    ]

remember_if-IsConsistent :
    (wants : Bool) (port : ℕ) (remote : Remote) (packet : Bytes) (b : Bindings)
    → (r : Io (Option (Ipv6Addr × ℕ))) → IsConsistent b
    → (b' : Bindings) × (remember_if wants port remote packet (b, r) ≡ (b', r)) × IsConsistent b'
remember_if-IsConsistent true port remote packet b (ok (some host)) v = (
  remember_tcp_syn b port remote packet,
  refl,
  remember_tcp_syn-IsConsistent b port remote packet v,
)
remember_if-IsConsistent true port remote packet b (ok none) v = (b, refl, v)
remember_if-IsConsistent true port remote packet b (err e) v = (b, refl, v)
remember_if-IsConsistent false port remote packet b r v = (b, refl, v)

-- On consistent tables a TCP packet from the IPv4 side, of one byte at least, never makes the code panic
-- and leaves consistent tables, in which the bytes of the quoted SYNs are counted.
pub tcp_in_packet-IsConsistent :
    (b : Bindings) (port : ℕ) (remote : Remote) (flags : Byte) (now : ℕ) (packet : Bytes)
    → IsConsistent b
    → 0 < length packet
    → (b' : Bindings) × (r : Io (Option (Ipv6Addr × ℕ))) × (tcp_in_packet b port remote flags now
          packet
        ≡ some (b', r))
      × IsConsistent b'
unfolding tcp_in_packet
tcp_in_packet-IsConsistent b port remote flags now packet v nonempty =
    let (b1, released, expired, v1, _, _, _) = expire-IsConsistent b now v in
    elim (Option-cases (lookup (6, port) b1.reverse)) [
      | inl unbound ↦ (b1, ok none, ground (arith, expired, unbound), v1)
      | inr (key, bound) ↦
          let session = lookup (record { binding = key; remote = remote }) b1.sessions in
          let wants = wants_quote flags session in
          let (_, b2, _, r, _, run, v2, _) = tcp_in-IsConsistent b1 port remote flags now v1 in
          let (b3, remembered, v3) = remember_if-IsConsistent wants port remote packet b2 r v2 in
          elim (Bool-cases (
            wants
            && ltb 4194304 (charged_bytes b1 + (quote_length packet + extra_session session)))) [
              | inl full ↦ (b1, err would_block, ground (arith, expired, bound, full), v1)
              | inr room ↦ (b3, r, ground (arith, expired, bound, room, run, remembered), v3)
            ]
    ]
