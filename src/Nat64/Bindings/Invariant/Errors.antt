-- ===== src/Nat64/Bindings/Invariant/Errors.antt =====
-- `error_in`, `error_out` and `domain_for` on the tables that the operations leave, and `with_ports`.
use snak_machine_rs.Base.{
  ℕ, ◌*◌, ◌<◌, ◌≡◌, refl, subst, inl, inr, Bool, none, some, arith, Option-cases, saturating_add,
  ok,
}
use snak_machine_rs.Base.Maps.{lookup, count, sum_values, pair_key}
use snak_machine_rs.Time.{Rng}
use snak_machine_rs.Wire.Address.{Ipv6Addr}
use snak_machine_rs.Ports.{PortState}
use snak_machine_rs.Ports.Accounting.{IsCounted}
use snak_machine_rs.Nat64.Bindings.Tables.{
  Bindings, Remote, Session, SessionKey, binding_key, session_key, key_of, error_in, error_out,
  domain_for, with_ports,
}
use snak_machine_rs.Nat64.Bindings.Udp.{udp_out}
use snak_machine_rs.Nat64.Bindings.Sessions.{fresh_session}
use snak_machine_rs.Nat64.Bindings.Invariant.{IsConsistent}
use snak_machine_rs.Nat64.Bindings.Invariant.Outbound.{Granted, udp_out-IsConsistent}

Granted-errors :
    (b : Bindings) (k : SessionKey) (p now : ℕ) (s : Session)
    → Granted b k p s
    → now < s.expires
    → b.domain ≡ k.binding.domain
    → (error_in b k.binding.protocol p k.remote now ≡ some (k.binding.host, k.binding.port))
      × (domain_for b k.binding.protocol p ≡ some k.binding.domain)
      × (error_out b k.binding.protocol k.binding.host k.binding.port k.remote now ≡ some p)
unfolding error_in error_out domain_for
Granted-errors b k p now s g live here =
    let same : key_of b k.binding.protocol k.binding.host k.binding.port ≡ k.binding =
      ground arith in
    let forward = g.forward in
    elim (Option-cases (lookup k.binding b.bindings)) [
      | inl absent ↦ absurd (ground arith)
      | inr (x, bound) ↦ (
        ground (arith, g.backward, g.session),
        ground (arith, g.backward),
        ground (arith, same, g.session, bound, forward),
      )
    ]

-- While the session of a UDP packet that was sent over consistent tables runs, an ICMP error about it from the IPv4 side finds
-- the sender and its domain by the external port, and an error from the sender finds the port.
pub udp_out-errors :
    (b b' : Bindings) (source : Ipv6Addr) (port p : ℕ) (remote : Remote) (now later : ℕ)
    → (rng : Rng) (taken : ℕ → Bool) → IsConsistent b
    → udp_out b source port remote now rng taken ≡ some (b', ok p)
    → later < saturating_add now (b.udp_seconds * 1000)
    → (error_in b' 17 p remote later ≡ some (source, port))
      × (domain_for b' 17 p ≡ some b.domain)
      × (error_out b' 17 source port remote later ≡ some p)
udp_out-errors b b' source port p remote now later rng taken v run live =
    let (b2, r, run2, v2, set, answer) =
      udp_out-IsConsistent b source port remote now rng taken v in
    let same : b2 ≡ b' = ground arith in
    let is_ok : r ≡ ok p = ground arith in
    elim answer [
      | inl (e, bad) ↦ absurd (cc)
      | inr (q, good, g) ↦
          let is_p : q ≡ p = ground arith in
          let k : SessionKey = record { binding = key_of b 17 source port; remote = remote } in
          let s = fresh_session (saturating_add now (b.udp_seconds * 1000)) none in
          Granted-errors b' k p later s
            (subst (λ t. Granted t k p s) same (subst (λ n. Granted b2 k n s) is_p g)) live
            (ground arith)
    ]

-- New tables over a registry whose counters are right are consistent.
pub with_ports-IsConsistent :
    (ports : PortState) → IsCounted ports → IsConsistent (with_ports ports)
unfolding with_ports lookup count sum_values
with_ports-IsConsistent ports counted = record {
  unique_bindings = λ q. omega arith;
  unique_reverse = λ q. omega arith;
  unique_sessions = λ q. omega arith;
  unique_hosts = λ q. omega arith;
  bound = λ k. refl;
  back = λ p. tt;
  host = λ h. (refl, refl);
  session = λ k. tt;
  quotes = refl;
  ports = counted;
}
