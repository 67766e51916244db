-- ===== src/Nat64/Bindings/Invariant/OutboundTcp.antt =====
-- `tcp_out` as a whole.
use snak_machine_rs.Base.{
  ℕ, ◌≡◌, refl, subst, ◌∙◌, ◌⊎◌, inl, inr, true, false, not, ◌&&◌, Option, none, some, arith, Byte,
  is_some, Bool-cases, Result-cases, Io, Error, ok, err, has_bit,
}
use snak_machine_rs.Base.Maps.{lookup, contains, pair_key}
use snak_machine_rs.Time.{Rng}
use snak_machine_rs.Wire.Address.{Ipv6Addr}
use snak_machine_rs.Nat64.Bindings.Tables.{
  Bindings, Remote, SessionKey, binding_key, session_key, key_of, admit,
}
use snak_machine_rs.Nat64.Bindings.Expire.{Released, expire}
use snak_machine_rs.Nat64.Bindings.Sessions.{tcp_session}
use snak_machine_rs.Nat64.Bindings.Icmp.{nothing_taken}
use snak_machine_rs.Nat64.Bindings.Tcp.{tcp_out}
use snak_machine_rs.Nat64.Bindings.Invariant.{IsConsistent, settings}
use snak_machine_rs.Nat64.Bindings.Invariant.Expiry.{expire-IsConsistent}
use snak_machine_rs.Nat64.Bindings.Invariant.Opening.{Opens, tcp_session-Opens, tcp_after}
use snak_machine_rs.Nat64.Bindings.Invariant.Outbound.{Answers, bind_then-IsConsistent}

-- On consistent tables a TCP segment to the IPv4 side never makes the code panic, and leaves consistent tables and the
-- settings. After the expiry, a segment without SYN for which there is no session changes nothing and
-- gets no port. For every other segment a refusal by the capacities changes nothing and is the answer,
-- and the answer is never empty: it is an error, or the port of the segment's binding, by which the
-- binding is found again, and the session made the step of its transport state.
pub tcp_out-IsConsistent :
    (b : Bindings) (source : Ipv6Addr) (port : ℕ) (remote : Remote) (flags : Byte) (now : ℕ)
    → (rng : Rng) → IsConsistent b
    → (b1 b' : Bindings) × (released : Released) × (r : Io (Option ℕ)) × (expire b now
        ≡ some (b1, released))
      × (tcp_out b source port remote flags now rng ≡ some (b', r))
      × IsConsistent b'
      × (settings b' ≡ settings b)
      × (let k : SessionKey = record { binding = key_of b 6 source port; remote = remote } in
          let before = lookup k b1.sessions in
          (before ≡ none → has_bit flags 2 ≡ false → (b' ≡ b1) × (r ≡ ok none))
          × ((is_some before ≡ true) ⊎ (has_bit flags 2 ≡ true)
              → ((e : Error)
                  → admit b1 (key_of b 6 source port) remote ≡ err e
                  → (b' ≡ b1) × (r ≡ err e))
                × Answers b' k (tcp_after before true flags now) some r))
unfolding tcp_out contains
tcp_out-IsConsistent b source port remote flags now rng v =
    let (b1, released, expired, v1, _, _, set1) = expire-IsConsistent b now v in
    let key = key_of b 6 source port in
    let same : key_of b1 6 source port ≡ key = ground arith in
    let k : SessionKey = record { binding = key; remote = remote } in
    let closed_to = not (contains k b1.sessions) && not (has_bit flags 2) in
    elim (Bool-cases closed_to) [
      | inl ignored ↦ (
        b1,
        b1,
        released,
        ok none,
        expired,
        ground (arith, expired, same, ignored),
        v1,
        set1,
        ((λ _ _. (refl, refl)), (λ asked. absurd (ground arith))),
      )
      | inr wanted ↦ elim (Result-cases (admit b1 key remote)) [
        | inl (e, refused) ↦ (
          b1,
          b1,
          released,
          err e,
          expired,
          ground (arith, expired, refused, same, wanted),
          v1,
          set1,
          (
            (λ absent plain. absurd (ground arith)),
            (λ _. ((λ e' same_error. (refl, ground arith)), inl (e, refl))),
          ),
        )
        | inr (u, admitted) ↦
            let (b', r, run, v', set', answer) =
              bind_then-IsConsistent some (tcp_session key remote true flags now) b1 k
                (tcp_after (lookup k b1.sessions) true flags now) rng nothing_taken v1
                (λ b2 x v2 there same_sessions _.
                  subst
                    (λ m.
                      Opens b2 k (tcp_after (lookup k m) true flags now) x.port
                        (tcp_session key remote true flags now b2))
                    same_sessions
                    (tcp_session-Opens b2 key remote x v2 there true flags now refl)) in
            (
              b1,
              b',
              released,
              r,
              expired,
              ground (arith, expired, admitted, same, wanted, run),
              v',
              set' ∙ set1,
              (
                (λ absent plain. absurd (ground arith)),
                (λ _. ((λ e refused. absurd (cc)), answer)),
              ),
            )
      ]
    ]
