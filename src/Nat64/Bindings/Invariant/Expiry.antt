-- ===== src/Nat64/Bindings/Invariant/Expiry.antt =====
-- `expire` as a whole: it never panics, and exactly the sessions that are over go.
use mathlib.Core.Option
use snak_machine_rs.Base.{
  ℕ, ◌≡◌, refl, sym, ap, ◌∙◌, subst, inl, inr, true, false, not, Option, none, some, List, [], ◌∷◌,
  ◌++◌, arith, ◌==◌, Bool-cases, Option-cases,
}
use snak_machine_rs.Base.Maps.{
  Map, nat_key, pair_key, lookup, retain, map_values, keys_where, min_value,
}
use snak_machine_rs.Base.Maps.Removal.{
  count-map_values, sum-map_values, lookup-map_values, AllThere, remove_all, keys_where-AllThere,
}
use snak_machine_rs.Nat64.Bindings.Tables.{
  Bindings, Session, SessionKey, binding_key, session_key, binding_equal,
}
use snak_machine_rs.Nat64.Bindings.Expire.{
  Released, demote, remove_sessions, expire, is_over, nothing_due, expires_of,
}
use snak_machine_rs.Nat64.Bindings.Invariant.{quote_of, SessionAt, settings, IsConsistent}
use snak_machine_rs.Nat64.Bindings.Invariant.Remove.{remove_session-Removes}

demote-quote : (now : ℕ) (s : Session) → quote_of (demote now s) ≡ quote_of s
unfolding demote
demote-quote now s = ground arith

demote-tcp :
    (now : ℕ) (k : SessionKey) (b : Bindings) (o : Option Session)
    → SessionAt b k o
    → SessionAt b k (Option.map (demote now) o)
unfolding demote
demote-tcp now k b none h = tt
demote-tcp now k b (some s) h = ((λ p. ground (arith, h.0 p)), λ n. ground (arith, h.1 n))

-- Probing the established sessions keeps the tables consistent.
demote-IsConsistent :
    (b : Bindings) (now : ℕ)
    → IsConsistent b
    → IsConsistent (record b { sessions = map_values (demote now) b.sessions })
demote-IsConsistent b now v = record {
  unique_bindings = v.unique_bindings;
  unique_reverse = v.unique_reverse;
  unique_sessions = λ q. omega (
    arith,
    v.unique_sessions q,
    count-map_values (λ k. session_key.equal k q) (demote now) b.sessions,
  );
  unique_hosts = v.unique_hosts;
  bound = λ k. ground (
    arith,
    v.bound k,
    count-map_values (λ (sk : SessionKey). binding_equal sk.binding k) (demote now) b.sessions,
  );
  back = v.back;
  host = λ h. ground (
    arith,
    v.host h,
    count-map_values (λ (sk : SessionKey). sk.binding.host == h) (demote now) b.sessions,
  );
  session = λ k.
      rw (lookup-map_values (demote now) k b.sessions)
        (demote-tcp now k b (lookup k b.sessions) (v.session k));
  quotes = v.quotes ∙ sym (sum-map_values quote_of (demote now) b.sessions (demote-quote now));
  ports = v.ports;
}

-- The sessions of the given keys go, one after the other.
remove_sessions-IsConsistent :
    (keys : List SessionKey) (b : Bindings)
    → IsConsistent b
    → AllThere keys b.sessions
    → (b' : Bindings) × (released : Released) × (remove_sessions keys b ≡ some (b', released))
      × IsConsistent b'
      × (b'.sessions ≡ remove_all keys b.sessions)
      × (settings b' ≡ settings b)
unfolding remove_sessions
remove_sessions-IsConsistent [] b v there = (b, [], refl, v, refl, refl)
remove_sessions-IsConsistent (k ∷ ks) b v there = elim (Option-cases (lookup k b.sessions)) [
  | inl absent ↦ absurd (ground arith)
  | inr (s, found) ↦
      let (b1, r1, run1, v1, left1, set1) = remove_session-Removes b k s v found in
      let (b2, r2, run2, v2, left2, set2) =
        remove_sessions-IsConsistent ks b1 v1 (subst (AllThere ks) (sym left1) there.1) in
      (b2, r1 ++ r2, ground (arith, run1, run2), v2, left2 ∙ ap (remove_all ks) left1, set2 ∙ set1)
]

-- The sessions that `expire` leaves when the next deadline has come.
abbrev pub survivors : ℕ → Map SessionKey Session → Map SessionKey Session
survivors now m = retain (λ k s. not (is_over now k s)) (map_values (demote now) m)

-- `expire` on consistent tables never panics and keeps them consistent. Before the next deadline it
-- changes nothing; from then on an established session that ran out is given its transitory time,
-- exactly the sessions whose time is over go, in order, and the next deadline is the earliest left.
-- The domain, the filtering and the session times stay.
pub expire-IsConsistent :
    (b : Bindings) (now : ℕ)
    → IsConsistent b
    → (b' : Bindings) × (released : Released) × (expire b now ≡ some (b', released))
      × IsConsistent b'
      × (nothing_due b.next now ≡ true → b' ≡ b)
      × (nothing_due b.next now ≡ false
          → (b'.sessions ≡ survivors now b.sessions) × (b'.next ≡ min_value expires_of b'.sessions))
      × (settings b' ≡ settings b)
unfolding expire
expire-IsConsistent b now v = elim (Bool-cases (nothing_due b.next now)) [
  | inl early ↦ (b, [], rw early, v, (λ _. refl), (λ late. absurd (cc)), refl)
  | inr late ↦
      let marked = map_values (demote now) b.sessions in
      let vm = demote-IsConsistent b now v in
      let (there, left) = keys_where-AllThere (is_over now) marked vm.unique_sessions in
      let (b', released, run, v', sessions, set) =
        remove_sessions-IsConsistent (keys_where (is_over now) marked) _ vm there in
      (
        record b' { next = min_value expires_of b'.sessions },
        released,
        rw (late, run),
        record {
          unique_bindings = v'.unique_bindings;
          unique_reverse = v'.unique_reverse;
          unique_sessions = v'.unique_sessions;
          unique_hosts = v'.unique_hosts;
          bound = v'.bound;
          back = v'.back;
          host = v'.host;
          session = v'.session;
          quotes = v'.quotes;
          ports = v'.ports;
        },
        (λ early. absurd (cc)),
        (λ _. (sessions ∙ left, refl)),
        set,
      )
]
