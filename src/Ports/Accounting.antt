-- ===== src/Ports/Accounting.antt =====
-- src/service_io/ports.rs: the counters agree with the entries, and stay within the capacities.
use snak_machine_rs.Base.{
  ℕ, ◌+◌, ◌-◌, ◌≤◌, ◌≡◌, refl, ◌≢◌, inl, inr, Bool, true, false, none, some, arith, ok,
  Option-cases, Bool-cases, if◌then◌else◌, ◌==◌,
}
use snak_machine_rs.Base.Maps.{
  pair_key, count, lookup, contains, remove, Unique, equal_refl, lookup-insert, lookup-remove,
}
use snak_machine_rs.Base.Maps.Counts.{count-insert, count-remove, insert-Unique, remove-Unique}
use snak_machine_rs.Ports.{
  Owner, locally, translation, PortKey, PortState, empty, drop_lease, enter, is_full, claim,
}

abbrev pub is_local : Owner → Bool
is_local locally = true
is_local translation = false

abbrev pub is_translation : Owner → Bool
is_translation locally = false
is_translation translation = true

-- Each counter is the number of entries of its owner, within the owner's capacity; a key is entered
-- once; and the generations in use are not above the last one.
pub record IsCounted (s : PortState) : Type 0 where
  pub locals : s.locals ≡ count (λ _ e. is_local e.1) s.entries
  pub translations : s.translations ≡ count (λ _ e. is_translation e.1) s.entries
  pub unique : Unique s.entries
  pub local_capacity : s.locals ≤ 256
  pub translation_capacity : s.translations ≤ 4096
  pub generations : (k : PortKey) (e : ℕ × Owner) → lookup k s.entries ≡ some e → e.0 ≤ s.next

pub empty-IsCounted : IsCounted empty
unfolding empty count lookup
empty-IsCounted = record {
  locals = refl;
  translations = refl;
  unique = λ q. omega arith;
  local_capacity = omega arith;
  translation_capacity = omega arith;
  generations = λ k e h. cc;
}

enter-IsCounted :
    (s : PortState) (key : PortKey) (owner : Owner)
    → IsCounted s
    → lookup key s.entries ≡ none
    → is_full s owner ≡ false
    → IsCounted (enter s key owner)
unfolding enter
enter-IsCounted s key locally v absent room =
    let counted_local = count-insert (λ _ e. is_local e.1) key (s.next + 1, locally) s.entries in
    let counted_translation =
      count-insert (λ _ e. is_translation e.1) key (s.next + 1, locally) s.entries in
    record {
      locals = ground (arith, counted_local);
      translations = ground (arith, counted_translation);
      unique = insert-Unique key _ s.entries v.unique;
      local_capacity = ground arith;
      translation_capacity = v.translation_capacity;
      generations = λ k e h.
          ground (arith, lookup-insert key k (s.next + 1, locally) s.entries, v.generations k e);
    }
enter-IsCounted s key translation v absent room =
    let counted_local =
      count-insert (λ _ e. is_local e.1) key (s.next + 1, translation) s.entries in
    let counted_translation =
      count-insert (λ _ e. is_translation e.1) key (s.next + 1, translation) s.entries in
    record {
      locals = ground (arith, counted_local);
      translations = ground (arith, counted_translation);
      unique = insert-Unique key _ s.entries v.unique;
      local_capacity = v.local_capacity;
      translation_capacity = ground arith;
      generations = λ k e h.
          ground
            (arith, lookup-insert key k (s.next + 1, translation) s.entries, v.generations k e);
    }

-- A claim keeps the accounting, whether it succeeds or fails: the counters are the numbers of entries,
-- and neither owner passes its capacity.
pub claim-IsCounted :
    (s : PortState) (protocol port : ℕ) (owner : Owner)
    → IsCounted s
    → IsCounted (claim s protocol port owner).0
unfolding claim contains
claim-IsCounted s protocol port owner v = elim (Option-cases (lookup (protocol, port) s.entries)) [
  | inl e ↦ elim (Bool-cases (is_full s owner)) [
    | inl full ↦ ground arith
    | inr room ↦ ground (arith, enter-IsCounted s (protocol, port) owner v e room)
  ]
  | inr (w, e) ↦ ground arith
]

-- A granted claim holds the port under the new generation, and takes no other port.
pub claim_lem :
    (s s' : PortState) (protocol port id : ℕ) (owner : Owner)
    → claim s protocol port owner ≡ (s', ok id)
    → (lookup (protocol, port) s.entries ≡ none)
      × (id ≡ s.next + 1)
      × (s'.next ≡ s.next + 1)
      × ((k : PortKey)
          → lookup k s'.entries
            ≡ (if pair_key.equal (protocol, port) k then some (id, owner) else lookup k s.entries))
unfolding claim contains enter
claim_lem s s' protocol port id locally e = (
  ground arith,
  ground arith,
  ground arith,
  λ k. ground (arith, lookup-insert (protocol, port) k (s.next + 1, locally) s.entries),
)
claim_lem s s' protocol port id translation e = (
  ground arith,
  ground arith,
  ground arith,
  λ k. ground (arith, lookup-insert (protocol, port) k (s.next + 1, translation) s.entries),
)

abbrev freed : PortState → PortKey → Owner → PortState
freed s key locally = record s { entries = remove key s.entries; locals = s.locals - 1 }
freed s key translation = record s {
  entries = remove key s.entries;
  translations = s.translations - 1;
}

freed-IsCounted :
    (s : PortState) (key : PortKey) (id : ℕ) (owner : Owner)
    → IsCounted s
    → lookup key s.entries ≡ some (id, owner)
    → IsCounted (freed s key owner)
freed-IsCounted s key id owner v e = record {
  locals = ground (arith, v.locals, count-remove (λ _ x. is_local x.1) key s.entries);
  translations =
      ground (arith, v.translations, count-remove (λ _ x. is_translation x.1) key s.entries);
  unique = ground (arith, remove-Unique key s.entries v.unique);
  local_capacity = ground arith;
  translation_capacity = ground arith;
  generations = λ k x h. ground (arith, lookup-remove key k s.entries v.unique, v.generations k x);
}

pos_counter :
    (s : PortState) (key : PortKey) (id : ℕ) (owner : Owner)
    → IsCounted s
    → lookup key s.entries ≡ some (id, owner)
    → drop_lease s key id ≡ some (freed s key owner)
unfolding drop_lease
pos_counter s key id owner v e = ground (
  arith,
  count-remove (λ _ x. is_local x.1) key s.entries,
  count-remove (λ _ x. is_translation x.1) key s.entries,
)

stale :
    (s : PortState) (key : PortKey) (id : ℕ)
    → ((owner : Owner) → lookup key s.entries ≢ some (id, owner))
    → drop_lease s key id ≡ some s
unfolding drop_lease
stale s key id h = elim (Option-cases (lookup key s.entries)) [
  | inl e ↦ ground arith
  | inr ((current, owner), e) ↦ ground (arith, h owner)
]

-- Dropping any lease, current or stale, never underflows a counter and keeps the accounting. A lease
-- with the current generation frees its port; a stale one changes nothing; no other port is touched.
pub drop_lease_lem :
    (s : PortState) (key : PortKey) (id : ℕ)
    → IsCounted s
    → (s' : PortState) × (drop_lease s key id ≡ some s')
      × IsCounted s'
      × (((owner : Owner) → lookup key s.entries ≢ some (id, owner)) → s' ≡ s)
      × ((owner : Owner) → lookup key s.entries ≡ some (id, owner) → lookup key s'.entries ≡ none)
      × ((k : PortKey) → pair_key.equal key k ≡ false → lookup k s'.entries ≡ lookup k s.entries)
drop_lease_lem s key id v = elim (Option-cases (lookup key s.entries)) [
  | inl e ↦ (s, stale s key id (λ owner f. cc), v, (λ h. refl), (λ owner f. cc), λ k n. refl)
  | inr ((current, owner), e) ↦ elim (Bool-cases (current == id)) [
    | inl same ↦
        let hit : lookup key s.entries ≡ some (id, owner) = ground arith in
        let gone = lookup-remove key key s.entries v.unique in
        (
          freed s key owner,
          pos_counter s key id owner v hit,
          freed-IsCounted s key id owner v hit,
          (λ h. absurd (h owner hit)),
          (λ o f. ground (arith, gone, equal_refl key)),
          λ k n. ground (arith, lookup-remove key k s.entries v.unique),
        )
    | inr differs ↦ (
      s,
      stale s key id (λ o f. ground arith),
      v,
      (λ h. refl),
      (λ o f. absurd (ground arith)),
      λ k n. refl,
    )
  ]
]
