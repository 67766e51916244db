-- ===== src/Nat64/Bindings/Invariant/Inbound.antt =====
-- `udp_in` and `icmp_in` as wholes.
use snak_machine_rs.Base.{
  ℕ, ◌*◌, ◌≡◌, refl, subst, ap, ◌∙◌, ◌⊎◌, inl, inr, ◌&&◌, Option, none, some, arith, ◌==◌,
  Bool-cases, Option-cases, Result-cases, saturating_add, Io, Error, ok, err,
}
use snak_machine_rs.Base.Maps.{lookup, contains, count, pair_key}
use snak_machine_rs.Wire.Address.{Ipv6Addr}
use snak_machine_rs.Nat64.Bindings.Tables.{
  Bindings, Binding, BindingKey, Remote, Session, binding_key, session_key, admit,
  address_dependent, endpoint_independent,
}
use snak_machine_rs.Nat64.Bindings.Expire.{◌>>=◌, Released, expire}
use snak_machine_rs.Nat64.Bindings.Sessions.{fresh_session, udp_session, icmp_session}
use snak_machine_rs.Nat64.Bindings.Udp.{udp_in, filters, from_address}
use snak_machine_rs.Nat64.Bindings.Icmp.{icmp_in}
use snak_machine_rs.Nat64.Bindings.Invariant.{IsConsistent}
use snak_machine_rs.Nat64.Bindings.Invariant.Expiry.{expire-IsConsistent}
use snak_machine_rs.Nat64.Bindings.Invariant.Insert.{pending-Agrees}
use snak_machine_rs.Nat64.Bindings.Invariant.Opening.{
  context-IsConsistent, Opens, plain_session-Opens,
}
use snak_machine_rs.Nat64.Bindings.Invariant.Filtering.{HasSession, filter_passes, filter_shuts}
use snak_machine_rs.Nat64.Bindings.Invariant.Outbound.{Granted, Granted-opens}

-- The binding that a port leads to.
pub reverse-bound :
    (b : Bindings) (protocol port : ℕ) (key : BindingKey)
    → IsConsistent b
    → lookup (protocol, port) b.reverse ≡ some key
    → (x : Binding) × (lookup key b.bindings ≡ some x) × (x.port ≡ port) × (key.protocol ≡ protocol)
reverse-bound b protocol port key v e = elim (Option-cases (lookup key b.bindings)) [
  | inl unbound ↦ absurd (ground (arith, v.back (protocol, port)))
  | inr (x, bound) ↦
      (x, bound, ground (arith, v.back (protocol, port)), ground (arith, v.back (protocol, port)))
]

-- A packet is let in: to the host and port of the binding that the port leads to, in the binding's
-- domain, with the session as given.
abbrev pub Delivers :
    Bindings → Bindings → BindingKey → ℕ → Remote → Session → Io (Option (Ipv6Addr × ℕ)) → Type 0
Delivers b b' key port remote s r =
    (r ≡ ok (some (key.host, key.port)))
    × (b'.domain ≡ key.domain)
    × Granted b' (record { binding = key; remote = remote }) port s

-- A packet that may pass: a refusal by the capacities is the answer and the tables stay; without one
-- the packet is delivered.
abbrev pub Admits :
    Bindings → Bindings → BindingKey → ℕ → Remote → Session → Io (Option (Ipv6Addr × ℕ)) → Type 0
Admits b b' key port remote s r =
    ((e : Error) → admit b key remote ≡ err e → (b' ≡ b) × (r ≡ err e))
    × ((u : Unit {0}) → admit b key remote ≡ ok u → Delivers b b' key port remote s r)

-- The rest of the three operations once the binding is found.
pub delivered :
    (b : Bindings) (key : BindingKey) (port : ℕ) (remote : Remote) (s : Session)
    → (run : Option Bindings) (x : Binding) → x.port ≡ port
    → Opens b (record { binding = key; remote = remote }) s x.port run
    → (b' : Bindings) × (◌>>=◌ {B = Bindings × Io (Option (Ipv6Addr × ℕ))} run
          (λ b2. some (record b2 { domain = key.domain }, ok (some (key.host, key.port))))
        ≡ some (b', ok (some (key.host, key.port))))
      × IsConsistent b'
      × Delivers b b' key port remote s (ok (some (key.host, key.port)))
delivered b key port remote s run x e (b2, ran, v2, stored, kept, set) =
    let v' = context-IsConsistent b2 b2.next key.domain v2 in
    let b' = record b2 { domain = key.domain } in
    (
      b',
      ground (arith, ran),
      v',
      (
        refl,
        refl,
        Granted-opens b b' (record { binding = key; remote = remote }) s port v' stored
            (kept ∙ ap some e),
      ),
    )

-- On consistent tables a UDP packet from the IPv4 side never makes the code panic and leaves consistent tables. After the
-- expiry, a packet to a port without binding changes nothing and is dropped; so is, under address
-- dependent filtering, a packet from an address with which the binding has no session at any port.
-- Of any other packet a refusal by the capacities changes nothing and is the answer; if there is none,
-- the packet is delivered to the binding of the port while its session is made anew.
pub udp_in-IsConsistent :
    (b : Bindings) (port : ℕ) (remote : Remote) (now : ℕ)
    → IsConsistent b
    → (b1 b' : Bindings) × (released : Released) × (r : Io (Option (Ipv6Addr × ℕ))) × (expire b now
        ≡ some (b1, released))
      × (udp_in b port remote now ≡ some (b', r))
      × IsConsistent b'
      × (((lookup (17, port) b1.reverse ≡ none) × (b' ≡ b1) × (r ≡ ok none))
          ⊎ ((key : BindingKey) × (lookup (17, port) b1.reverse ≡ some key)
              × (b.udp_filtering ≡ address_dependent
                  → ¬ HasSession b1 key remote.ip
                  → (b' ≡ b1) × (r ≡ ok none))
              × ((b.udp_filtering ≡ endpoint_independent) ⊎ HasSession b1 key remote.ip
                  → Admits b1 b' key port remote
                      (fresh_session (saturating_add now (b.udp_seconds * 1000)) none)
                      r)))
unfolding udp_in udp_session
udp_in-IsConsistent b port remote now v =
    let (b1, released, expired, v1, _, _, set1) = expire-IsConsistent b now v in
    let filter : b1.udp_filtering ≡ b.udp_filtering = ground arith in
    let time : b1.udp_seconds ≡ b.udp_seconds = ground arith in
    elim (Option-cases (lookup (17, port) b1.reverse)) [
      | inl unbound ↦ (
        b1,
        b1,
        released,
        ok none,
        expired,
        ground (arith, expired, unbound),
        v1,
        inl (unbound, refl, refl),
      )
      | inr (key, bound) ↦
          elim (Bool-cases
            (filters b.udp_filtering && count (from_address key remote) b1.sessions == 0)) [
              | inl shut ↦ (
                b1,
                b1,
                released,
                ok none,
                expired,
                ground (arith, expired, bound, shut, filter),
                v1,
                inr (
                  key,
                  bound,
                  (λ _ _. (refl, refl)),
                  (λ passes. absurd (filter_passes b1 key remote b.udp_filtering passes shut)),
                ),
              )
              | inr open_to ↦ elim (Result-cases (admit b1 key remote)) [
                | inl (e, refused) ↦ (
                  b1,
                  b1,
                  released,
                  err e,
                  expired,
                  ground (arith, expired, bound, open_to, filter, refused),
                  v1,
                  inr (
                    key,
                    bound,
                    (λ dependent absent.
                        absurd
                          (filter_shuts b1 key remote b.udp_filtering dependent absent open_to)),
                    (λ _. ((λ e' same_error. (refl, ground arith)), (λ u admitted. absurd (cc)))),
                  ),
                )
                | inr (u, admitted) ↦
                    let (x, there, is_port, udp) = reverse-bound b1 17 port key v1 bound in
                    let opens =
                      plain_session-Opens b1 key remote x (pending-Agrees key b1 v1) there
                        (saturating_add now (b1.udp_seconds * 1000)) (λ h. omega (arith, h, udp)) in
                    let (b', run, v', gives) = delivered b1 key port remote _ _ x is_port opens in
                    (
                      b1,
                      b',
                      released,
                      ok (some (key.host, key.port)),
                      expired,
                      ground (arith, expired, bound, open_to, filter, admitted, run),
                      v',
                      inr (
                        key,
                        bound,
                        (λ dependent absent.
                            absurd (
                              filter_shuts b1 key remote b.udp_filtering dependent absent open_to)),
                        (λ _. (
                          (λ e refused. absurd (cc)),
                          (λ _ _.
                              subst
                                (λ n.
                                  Delivers b1 b' key port remote
                                    (fresh_session (saturating_add now (n * 1000)) none)
                                    (ok (some (key.host, key.port))))
                                time gives),
                        )),
                      ),
                    )
              ]
            ]
    ]

-- On consistent tables an ICMP echo from the IPv4 side never makes the code panic and leaves consistent tables. After the
-- expiry, an echo without binding or without session changes nothing and is dropped; any other is
-- delivered to the binding of the identifier while its session is made anew.
pub icmp_in-IsConsistent :
    (b : Bindings) (id ip now : ℕ)
    → IsConsistent b
    → (b1 b' : Bindings) × (released : Released) × (r : Io (Option (Ipv6Addr × ℕ))) × (expire b now
        ≡ some (b1, released))
      × (icmp_in b id ip now ≡ some (b', r))
      × IsConsistent b'
      × (let remote : Remote = record { ip = ip; port = 0 } in
          ((lookup (1, id) b1.reverse ≡ none) × (b' ≡ b1) × (r ≡ ok none))
          ⊎ ((key : BindingKey) × (lookup (1, id) b1.reverse ≡ some key)
              × (lookup (record { binding = key; remote = remote }) b1.sessions ≡ none
                  → (b' ≡ b1) × (r ≡ ok none))
              × ((s : Session)
                  → lookup (record { binding = key; remote = remote }) b1.sessions ≡ some s
                  → Delivers b1 b' key id remote
                      (fresh_session (saturating_add now (b.icmp_seconds * 1000)) none)
                      r)))
unfolding icmp_in icmp_session contains
icmp_in-IsConsistent b id ip now v =
    let (b1, released, expired, v1, _, _, set1) = expire-IsConsistent b now v in
    let time : b1.icmp_seconds ≡ b.icmp_seconds = ground arith in
    let remote : Remote = record { ip = ip; port = 0 } in
    elim (Option-cases (lookup (1, id) b1.reverse)) [
      | inl unbound ↦ (
        b1,
        b1,
        released,
        ok none,
        expired,
        ground (arith, expired, unbound),
        v1,
        inl (unbound, refl, refl),
      )
      | inr (key, bound) ↦
          elim (Option-cases (lookup (record { binding = key; remote = remote }) b1.sessions)) [
            | inl absent ↦ (
              b1,
              b1,
              released,
              ok none,
              expired,
              ground (arith, expired, bound, absent),
              v1,
              inr (key, bound, (λ _. (refl, refl)), (λ s there. absurd (cc))),
            )
            | inr (s, open_session) ↦
                let (x, there, is_port, icmp) = reverse-bound b1 1 id key v1 bound in
                let opens =
                  plain_session-Opens b1 key remote x (pending-Agrees key b1 v1) there
                    (saturating_add now (b1.icmp_seconds * 1000)) (λ h. omega (arith, h, icmp)) in
                let (b', run, v', gives) = delivered b1 key id remote _ _ x is_port opens in
                (
                  b1,
                  b',
                  released,
                  ok (some (key.host, key.port)),
                  expired,
                  ground (arith, expired, bound, open_session, run),
                  v',
                  inr (
                    key,
                    bound,
                    (λ absent. absurd (cc)),
                    (λ _ _.
                        subst
                          (λ n.
                            Delivers b1 b' key id remote
                              (fresh_session (saturating_add now (n * 1000)) none)
                              (ok (some (key.host, key.port))))
                          time gives),
                  ),
                )
          ]
    ]
