-- ===== src/Nat64/Bindings/Invariant/Bind.antt =====
-- `allocate` and the creation of a binding: the port is free, and the tables stay in agreement.
use snak_machine_rs.Base.{
  ℕ, zero, suc, ◌+◌, ◌-◌, ◌*◌, ◌%◌, min, ◌≡◌, refl, sym, subst, inl, inr, Bool, true, false, ◌&&◌,
  ◌||◌, not, none, some, List, [], ◌∷◌, arith, ◌==◌, Bool-cases, Option-cases, Io, ok, err,
  Result-cases,
}
use snak_machine_rs.Base.Maps.{pair_key, lookup, contains}
use snak_machine_rs.Time.{Rng, sample}
use snak_machine_rs.Ports.{PortState, translation, occupied, claim}
use snak_machine_rs.Ports.Accounting.{IsCounted, claim-IsCounted}
use snak_machine_rs.Nat64.Bindings.Tables.{Bindings, Binding, BindingKey, binding_key, session_key}
use snak_machine_rs.Nat64.Bindings.Allocate.{free, find_port, search_ranges, ranges_for, allocate}
use snak_machine_rs.Nat64.Bindings.Sessions.{add_binding, claim_binding, bind}
use snak_machine_rs.Nat64.Bindings.Invariant.{settings, IsConsistent, Agrees}
use snak_machine_rs.Nat64.Bindings.Invariant.Insert.{pending-Agrees, added-Agrees}
use snak_machine_rs.Base.Maps.{lookup-insert, equal_refl}

find_port_lem :
    (rounds n start size first : ℕ) (test : ℕ → Bool) (p : ℕ)
    → find_port rounds n start size first test ≡ some p
    → test p ≡ true
unfolding find_port
find_port_lem zero n start size first test p e = absurd (cc)
find_port_lem (suc rounds) n start size first test p e =
    elim (Bool-cases (test (first + (start + n) % size * 2))) [
      | inl hit ↦ ground arith
      | inr miss ↦ find_port_lem rounds (n + 1) start size first test p (ground arith)
    ]

search_ranges_lem :
    (ranges : List (ℕ × ℕ)) (rng : Rng) (test : ℕ → Bool) (p : ℕ) (left : Rng)
    → search_ranges ranges rng test ≡ ok (p, left)
    → test p ≡ true
unfolding search_ranges
search_ranges_lem [] rng test p left e = absurd (cc)
search_ranges_lem ((first, size) ∷ others) rng test p left e =
    elim (Result-cases (sample (size - 1) rng)) [
      | inl (x, bad) ↦ absurd (ground arith)
      | inr ((start, rng'), drawn) ↦
          elim (Option-cases (find_port (min size 8192) 0 start size first test)) [
            | inl full ↦ search_ranges_lem others rng' test p left (ground arith)
            | inr (q, found) ↦
                ground (arith, find_port_lem (min size 8192) 0 start size first test q found)
          ]
    ]

-- An allocated port passes the closure `free`.
allocate-free :
    (b : Bindings) (protocol port : ℕ) (rng left : Rng) (taken : ℕ → Bool) (p : ℕ)
    → allocate b protocol port rng taken ≡ ok (p, left)
    → free b protocol taken p ≡ true
unfolding allocate
allocate-free b protocol port rng left taken p e =
    elim (Bool-cases ((not (port == 0) || protocol == 1) && free b protocol taken port)) [
      | inl same ↦ ground arith
      | inr other ↦
          search_ranges_lem (ranges_for port) rng (free b protocol taken) p left (ground arith)
    ]

-- An allocated port is not taken: no binding of the protocol holds it, no lease, and not the caller.
pub allocate_lem :
    (b : Bindings) (protocol port : ℕ) (rng left : Rng) (taken : ℕ → Bool) (p : ℕ)
    → allocate b protocol port rng taken ≡ ok (p, left)
    → (lookup (protocol, p) b.reverse ≡ none)
      × (lookup (protocol, p) b.ports.entries ≡ none)
      × (taken p ≡ false)
unfolding free occupied contains
allocate_lem b protocol port rng left taken p e =
    let passed = allocate-free b protocol port rng left taken p e in
    elim (Option-cases (lookup (protocol, p) b.reverse)) [
      | inl unbound ↦ elim (Option-cases (lookup (protocol, p) b.ports.entries)) [
        | inl unleased ↦ (unbound, unleased, ground arith)
        | inr (l, leased) ↦ absurd (ground arith)
      ]
      | inr (k, held) ↦ absurd (ground arith)
    ]

-- After `bind`: on an error consistent tables; else the binding is there, pending, with the port.
abbrev pub Bound : BindingKey → Bindings → Bindings × Io ℕ → Type 0
Bound key b (b', err e) = IsConsistent b' × (settings b' ≡ settings b)
Bound key b (b', ok p) =
    Agrees (some key) b'
    × (b'.sessions ≡ b.sessions)
    × (settings b' ≡ settings b)
    × ((x : Binding) × (lookup key b'.bindings ≡ some x) × (x.port ≡ p))

ports-IsConsistent :
    (b : Bindings) (ports : PortState)
    → IsConsistent b
    → IsCounted ports
    → IsConsistent (record b { ports = ports })
ports-IsConsistent b ports v counted = record {
  unique_bindings = v.unique_bindings;
  unique_reverse = v.unique_reverse;
  unique_sessions = v.unique_sessions;
  unique_hosts = v.unique_hosts;
  bound = v.bound;
  back = v.back;
  host = v.host;
  session = v.session;
  quotes = v.quotes;
  ports = counted;
}

added_sessions :
    (key : BindingKey) (port lease : ℕ) (ports : PortState) (b : Bindings)
    → ((add_binding key port lease ports b).sessions ≡ b.sessions)
      × (settings (add_binding key port lease ports b) ≡ settings b)
unfolding add_binding
added_sessions key port lease ports b = (refl, refl)

added_binding :
    (key : BindingKey) (port lease : ℕ) (ports : PortState) (b : Bindings)
    → lookup key (add_binding key port lease ports b).bindings
      ≡ some (record { lease = lease; port = port; sessions = 0 })
unfolding add_binding
added_binding key port lease ports b =
    let fresh : Binding = record { lease = lease; port = port; sessions = 0 } in
    ground (arith, lookup-insert key key fresh b.bindings, equal_refl key)

claim_binding-Bound :
    (b : Bindings) (key : BindingKey) (port : ℕ)
    → IsConsistent b
    → lookup key b.bindings ≡ none
    → lookup (key.protocol, port) b.reverse ≡ none
    → Bound key b (claim_binding key port b)
unfolding claim_binding
claim_binding-Bound b key port v absent unbound =
    let counted = claim-IsCounted b.ports key.protocol port translation v.ports in
    elim (Result-cases (claim b.ports key.protocol port translation).1) [
      | inl (x, bad) ↦
          let run : claim_binding key port b
              ≡ (record b { ports = (claim b.ports key.protocol port translation).0 }, err x) =
            ground (arith, bad) in
          subst (Bound key b) (sym run) (ports-IsConsistent b _ v counted, refl)
      | inr (lease, granted) ↦
          let fresh : Binding = record { lease = lease; port = port; sessions = 0 } in
          let ports = (claim b.ports key.protocol port translation).0 in
          let run : claim_binding key port b ≡ (add_binding key port lease ports b, ok port) =
            ground (arith, granted) in
          subst (Bound key b) (sym run) (
            added-Agrees b key port lease ports v absent unbound counted,
            (added_sessions key port lease ports b).0,
            (added_sessions key port lease ports b).1,
            (fresh, added_binding key port lease ports b, refl),
          )
    ]

-- `bind` on consistent tables gives consistent tables, but for the binding that waits for its session.
pub bind-Bound :
    (b : Bindings) (key : BindingKey) (rng : Rng) (taken : ℕ → Bool)
    → IsConsistent b
    → Bound key b (bind key rng taken b)
unfolding bind
bind-Bound b key rng taken v = elim (Option-cases (lookup key b.bindings)) [
  | inr (x, bound) ↦
      let run : bind key rng taken b ≡ (b, ok x.port) = ground (arith, bound) in
      subst (Bound key b) (sym run) (pending-Agrees key b v, refl, refl, (x, bound, refl))
  | inl absent ↦ elim (Result-cases (allocate b key.protocol key.port rng taken)) [
    | inl (x, bad) ↦
        let run : bind key rng taken b ≡ (b, err x) = ground (arith, absent, bad) in
        subst (Bound key b) (sym run) (v, refl)
    | inr ((port, left), found) ↦
        let run : bind key rng taken b ≡ claim_binding key port b = ground (arith, absent, found) in
        subst (Bound key b) (sym run) (
          claim_binding-Bound b key port v absent
            (allocate_lem b key.protocol key.port rng left taken port found).0)
  ]
]
