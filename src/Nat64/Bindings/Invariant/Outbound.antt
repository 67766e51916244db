-- ===== src/Nat64/Bindings/Invariant/Outbound.antt =====
-- `udp_out` and `icmp_out` as wholes.
use snak_machine_rs.Base.{
  ℕ, ◌*◌, ◌≡◌, refl, subst, ◌∙◌, ◌⊎◌, inl, inr, Bool, Option, none, some, arith, Option-cases,
  Result-cases, saturating_add, Io, Error, ok, err,
}
use snak_machine_rs.Base.Maps.{lookup, pair_key}
use snak_machine_rs.Time.{Rng}
use snak_machine_rs.Wire.Address.{Ipv6Addr}
use snak_machine_rs.Nat64.Bindings.Tables.{
  Bindings, Binding, Remote, Session, SessionKey, binding_key, session_key, key_of, admit,
}
use snak_machine_rs.Nat64.Bindings.Expire.{◌>>=◌}
use snak_machine_rs.Nat64.Bindings.Sessions.{fresh_session, bind, udp_session, icmp_session}
use snak_machine_rs.Nat64.Bindings.Udp.{udp_out}
use snak_machine_rs.Nat64.Bindings.Icmp.{icmp_out, nothing_taken}
use snak_machine_rs.Nat64.Bindings.Invariant.{IsConsistent, Agrees, settings, port_at}
use snak_machine_rs.Nat64.Bindings.Invariant.Bind.{Bound, bind-Bound}
use snak_machine_rs.Nat64.Bindings.Invariant.Expiry.{expire-IsConsistent}
use snak_machine_rs.Nat64.Bindings.Invariant.Opening.{Opens, plain_session-Opens}

-- The tables in which a port is granted: the binding has the port, the port leads back to the
-- binding, and the session stands as given.
pub record Granted (b : Bindings) (k : SessionKey) (p : ℕ) (s : Session) : Type 0 where
  pub forward : port_at (lookup k.binding b.bindings) ≡ some p
  pub backward : lookup (k.binding.protocol, p) b.reverse ≡ some k.binding
  pub session : lookup k b.sessions ≡ some s

pub Granted-opens :
    (b b' : Bindings) (k : SessionKey) (s : Session) (p : ℕ)
    → IsConsistent b'
    → lookup k b'.sessions ≡ some s
    → port_at (lookup k.binding b'.bindings) ≡ some p
    → Granted b' k p s
Granted-opens b b' k s p v stored port = record {
  forward = port;
  backward = elim (Option-cases (lookup k.binding b'.bindings)) [
    | inl unbound ↦ absurd (ground arith)
    | inr (x, bound) ↦ ground (arith, v.bound k.binding)
  ];
  session = stored;
}

-- What a client gets: an error, or a granted port.
abbrev pub Answers {ℓ} : {A : Type ℓ} → Bindings → SessionKey → Session → (ℕ → A) → Io A → Type ℓ
Answers b k s ret r = ((e : Error) × (r ≡ err e)) ⊎ ((p : ℕ) × (r ≡ ok (ret p)) × Granted b k p s)

-- `bind` and then the session, which the three operations share.
abbrev pub bind_then {ℓ} :
    {A : Type ℓ}
    → (ℕ → A)
    → (Bindings → Option Bindings)
    → Bindings × Io ℕ
    → Option (Bindings × Io A)
bind_then ret open_session (b, assigned) = elim assigned [
  | err e ↦ some (b, err e)
  | ok p ↦ open_session b >>= λ b'. some (b', ok (ret p))
]

pub bind_then-IsConsistent {ℓ} :
    {A : Type ℓ} (ret : ℕ → A) (open_session : Bindings → Option Bindings) (b : Bindings)
    (k : SessionKey) (s : Session)
    → (rng : Rng) (taken : ℕ → Bool) → IsConsistent b
    → ((b2 : Bindings) (x : Binding)
        → Agrees (some k.binding) b2
        → lookup k.binding b2.bindings ≡ some x
        → b2.sessions ≡ b.sessions
        → settings b2 ≡ settings b
        → Opens b2 k s x.port (open_session b2))
    → (b' : Bindings) × (r : Io A) × (bind_then ret open_session (bind k.binding rng taken b)
        ≡ some (b', r))
      × IsConsistent b'
      × (settings b' ≡ settings b)
      × Answers b' k s ret r
bind_then-IsConsistent ret open_session b k s rng taken v opens =
    let (b2, assigned) = bind k.binding rng taken b in
    let bound = bind-Bound b k.binding rng taken v in
    elim (Result-cases assigned) [
      | inl (e, bad) ↦
          let (v2, set2) = subst (λ t. Bound k.binding b (b2, t)) bad bound in
          (b2, err e, ground (arith, bad), v2, set2, inl (e, refl))
      | inr (p, good) ↦
          let (v2, same, set2, (x, there, port)) =
            subst (λ t. Bound k.binding b (b2, t)) good bound in
          let (b3, run, v3, stored, kept, set3) = opens b2 x v2 there same set2 in
          (
            b3,
            ok (ret p),
            ground (arith, good, run),
            v3,
            set3 ∙ set2,
            inr (p, refl, Granted-opens b2 b3 k s p v3 stored (ground (arith, kept, port))),
          )
    ]

-- On consistent tables a UDP packet to the IPv4 side never makes the code panic, and leaves consistent tables and the
-- settings. The answer is an error, or a port: the port of the packet's binding, by which the binding
-- is found again, while the session with the remote end runs for the configured time from now.
pub udp_out-IsConsistent :
    (b : Bindings) (source : Ipv6Addr) (port : ℕ) (remote : Remote) (now : ℕ) (rng : Rng)
    → (taken : ℕ → Bool) → IsConsistent b
    → (b' : Bindings) × (r : Io ℕ) × (udp_out b source port remote now rng taken ≡ some (b', r))
      × IsConsistent b'
      × (settings b' ≡ settings b)
      × Answers b'
          (record { binding = key_of b 17 source port; remote = remote })
          (fresh_session (saturating_add now (b.udp_seconds * 1000)) none)
          (λ p. p)
          r
unfolding udp_out udp_session
udp_out-IsConsistent b source port remote now rng taken v =
    let (b1, released, expired, v1, _, _, set1) = expire-IsConsistent b now v in
    let key = key_of b 17 source port in
    let same : key_of b1 17 source port ≡ key = ground arith in
    elim (Result-cases (admit b1 key remote)) [
      | inl (e, refused) ↦
          (b1, err e, ground (arith, expired, refused, same), v1, set1, inl (e, refl))
      | inr (u, admitted) ↦
          let (b', r, run, v', set', answer) =
            bind_then-IsConsistent (λ p. p) (udp_session key remote now) b1
              (record { binding = key; remote = remote })
              (fresh_session (saturating_add now (b.udp_seconds * 1000)) none) rng taken v1
              (λ b2 x v2 there _ set2.
                let e : b2.udp_seconds ≡ b.udp_seconds = ground arith in
                subst
                  (λ n.
                    Opens b2 (record { binding = key; remote = remote })
                      (fresh_session (saturating_add now (n * 1000)) none) x.port
                      (udp_session key remote now b2))
                  e
                  (plain_session-Opens b2 key remote x v2 there
                    (saturating_add now (b2.udp_seconds * 1000)) λ h. omega (arith, h))) in
          (b', r, ground (arith, expired, admitted, same, run), v', set' ∙ set1, answer)
    ]

-- On consistent tables an ICMP echo to the IPv4 side does as a UDP packet does, for an identifier in place of the port and
-- a remote end without one.
pub icmp_out-IsConsistent :
    (b : Bindings) (source : Ipv6Addr) (id ip now : ℕ) (rng : Rng)
    → IsConsistent b
    → (b' : Bindings) × (r : Io ℕ) × (icmp_out b source id ip now rng ≡ some (b', r))
      × IsConsistent b'
      × (settings b' ≡ settings b)
      × Answers b'
          (record { binding = key_of b 1 source id; remote = record { ip = ip; port = 0 } })
          (fresh_session (saturating_add now (b.icmp_seconds * 1000)) none)
          (λ p. p)
          r
unfolding icmp_out icmp_session
icmp_out-IsConsistent b source id ip now rng v =
    let (b1, released, expired, v1, _, _, set1) = expire-IsConsistent b now v in
    let key = key_of b 1 source id in
    let remote : Remote = record { ip = ip; port = 0 } in
    let same : key_of b1 1 source id ≡ key = ground arith in
    elim (Result-cases (admit b1 key remote)) [
      | inl (e, refused) ↦
          (b1, err e, ground (arith, expired, refused, same), v1, set1, inl (e, refl))
      | inr (u, admitted) ↦
          let (b', r, run, v', set', answer) =
            bind_then-IsConsistent (λ p. p) (icmp_session key ip now) b1
              (record { binding = key; remote = remote })
              (fresh_session (saturating_add now (b.icmp_seconds * 1000)) none) rng nothing_taken v1
              (λ b2 x v2 there _ set2.
                let e : b2.icmp_seconds ≡ b.icmp_seconds = ground arith in
                subst
                  (λ n.
                    Opens b2 (record { binding = key; remote = remote })
                      (fresh_session (saturating_add now (n * 1000)) none) x.port
                      (icmp_session key ip now b2))
                  e
                  (plain_session-Opens b2 key remote x v2 there
                    (saturating_add now (b2.icmp_seconds * 1000)) λ h. omega (arith, h))) in
          (b', r, ground (arith, expired, admitted, same, run), v', set' ∙ set1, answer)
    ]
