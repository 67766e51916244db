-- ===== src/Nat64/Bindings/Invariant/InboundTcp.antt =====
-- `tcp_in` as a whole.
use snak_machine_rs.Base.{
  ℕ, ◌≡◌, refl, ◌⊎◌, inl, inr, true, false, not, ◌&&◌, Option, none, some, arith, Byte, is_some,
  Bool-cases, Option-cases, Result-cases, Io, ok, err, has_bit,
}
use snak_machine_rs.Base.Maps.{lookup, contains, pair_key}
use snak_machine_rs.Wire.Address.{Ipv6Addr}
use snak_machine_rs.Nat64.Bindings.Tables.{
  Bindings, BindingKey, Remote, SessionKey, binding_key, session_key, admit,
}
use snak_machine_rs.Nat64.Bindings.Expire.{Released, expire}
use snak_machine_rs.Nat64.Bindings.Tcp.{tcp_in}
use snak_machine_rs.Nat64.Bindings.Invariant.{IsConsistent}
use snak_machine_rs.Nat64.Bindings.Invariant.Expiry.{expire-IsConsistent}
use snak_machine_rs.Nat64.Bindings.Invariant.Insert.{pending-Agrees}
use snak_machine_rs.Nat64.Bindings.Invariant.Opening.{tcp_session-Opens, tcp_after}
use snak_machine_rs.Nat64.Bindings.Invariant.Inbound.{reverse-bound, Admits, delivered}

-- On consistent tables a TCP segment from the IPv4 side never makes the code panic and leaves consistent tables. After the
-- expiry, a segment without binding, or without SYN and without session, changes nothing and is
-- dropped. Of any other segment a refusal by the capacities changes nothing and is the answer; if there
-- is none, the segment is delivered to the binding of the port while its session makes the step of its
-- transport state.
pub tcp_in-IsConsistent :
    (b : Bindings) (port : ℕ) (remote : Remote) (flags : Byte) (now : ℕ)
    → IsConsistent b
    → (b1 b' : Bindings) × (released : Released) × (r : Io (Option (Ipv6Addr × ℕ))) × (expire b now
        ≡ some (b1, released))
      × (tcp_in b port remote flags now ≡ some (b', r))
      × IsConsistent b'
      × (((lookup (6, port) b1.reverse ≡ none) × (b' ≡ b1) × (r ≡ ok none))
          ⊎ ((key : BindingKey) × (lookup (6, port) b1.reverse ≡ some key)
              × (let before = lookup (record { binding = key; remote = remote }) b1.sessions in
                  (before ≡ none → has_bit flags 2 ≡ false → (b' ≡ b1) × (r ≡ ok none))
                  × ((is_some before ≡ true) ⊎ (has_bit flags 2 ≡ true)
                      → Admits b1 b' key port remote (tcp_after before false flags now) r))))
unfolding tcp_in contains
tcp_in-IsConsistent b port remote flags now v =
    let (b1, released, expired, v1, _, _, set1) = expire-IsConsistent b now v in
    elim (Option-cases (lookup (6, port) b1.reverse)) [
      | inl unbound ↦ (
        b1,
        b1,
        released,
        ok none,
        expired,
        ground (arith, expired, unbound),
        v1,
        inl (unbound, refl, refl),
      )
      | inr (key, bound) ↦
          let k : SessionKey = record { binding = key; remote = remote } in
          elim (Bool-cases (not (contains k b1.sessions) && not (has_bit flags 2))) [
            | inl shut ↦ (
              b1,
              b1,
              released,
              ok none,
              expired,
              ground (arith, expired, bound, shut),
              v1,
              inr (key, bound, ((λ _ _. (refl, refl)), (λ wanted. absurd (ground arith)))),
            )
            | inr open_to ↦ elim (Result-cases (admit b1 key remote)) [
              | inl (e, refused) ↦ (
                b1,
                b1,
                released,
                err e,
                expired,
                ground (arith, expired, bound, open_to, refused),
                v1,
                inr (
                  key,
                  bound,
                  (
                    (λ absent plain. absurd (ground arith)),
                    (λ _. ((λ e' same_error. (refl, ground arith)), (λ u admitted. absurd (cc)))),
                  ),
                ),
              )
              | inr (u, admitted) ↦
                  let (x, there, is_port, tcp) = reverse-bound b1 6 port key v1 bound in
                  let opens =
                    tcp_session-Opens b1 key remote x (pending-Agrees key b1 v1) there false flags
                      now tcp in
                  let (b', run, v', gives) = delivered b1 key port remote _ _ x is_port opens in
                  (
                    b1,
                    b',
                    released,
                    ok (some (key.host, key.port)),
                    expired,
                    ground (arith, expired, bound, open_to, admitted, run),
                    v',
                    inr (
                      key,
                      bound,
                      (
                        (λ absent plain. absurd (ground arith)),
                        (λ _. ((λ e refused. absurd (cc)), (λ _ _. gives))),
                      ),
                    ),
                  )
            ]
          ]
    ]
