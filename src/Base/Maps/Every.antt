-- ===== src/Base/Maps/Every.antt =====
-- A property of every value of a map, and whether a key passes a test.
use Prim.Native.Nat.{◌<◌}
use mathlib.Core.Path.{◌≡◌, refl, subst}
use mathlib.Core.Bool.{Bool, true, false}
use mathlib.Core.List.{[], ◌∷◌}
use mathlib.Core.Option.{some}
use mathlib.Core.Logic.{inl, inr}
use native.Mathlib.Omega.{arith}
use snak_machine_rs.Base.Tests.{Bool-cases}
use snak_machine_rs.Base.Maps.{
  Key, Map, count, equal_refl, retain, lookup, contains, assign, place, insert, remove,
}

module _ {ℓ κ} {K : Type ℓ} {V : Type κ} (P : V → Type 0) where
  abbrev pub Every : Map K V → Type 0
  Every [] = Unit
  Every ((k, v) ∷ m) = P v × Every m

  pub retain-Every : (p : K → V → Bool) (m : Map K V) → Every m → Every (retain p m)
  unfolding retain
  retain-Every p [] h = tt
  retain-Every p ((k, v) ∷ m) h = elim (Bool-cases (p k v)) [
    | inl kept ↦ rw kept (h.0, retain-Every p m h.1)
    | inr gone ↦ rw gone (retain-Every p m h.1)
  ]

  module _ ⦃key : Key K⦄ where
    pub lookup-Every : (k : K) (v : V) (m : Map K V) → Every m → lookup k m ≡ some v → P v
    unfolding lookup
    lookup-Every k v [] h e = absurd cc
    lookup-Every k v ((j, u) ∷ m) h e = elim (Bool-cases (key.equal j k)) [
      | inl hit ↦ subst P (ground (arith, hit, e)) h.0
      | inr miss ↦ lookup-Every k v m h.1 (ground (arith, miss, e))
    ]

    pub remove-Every : (k : K) (m : Map K V) → Every m → Every (remove k m)
    unfolding remove
    remove-Every k [] h = tt
    remove-Every k ((j, u) ∷ m) h = elim (Bool-cases (key.equal j k)) [
      | inl hit ↦ rw hit h.1
      | inr miss ↦ rw miss (h.0, remove-Every k m h.1)
    ]

    assign-Every : (k : K) (v : V) (m : Map K V) → P v → Every m → Every (assign k v m)
    unfolding assign
    assign-Every k v [] p h = tt
    assign-Every k v ((j, u) ∷ m) p h = elim (Bool-cases (key.equal j k)) [
      | inl hit ↦ rw hit (p, h.1)
      | inr miss ↦ rw miss (h.0, assign-Every k v m p h.1)
    ]

    place-Every : (k : K) (v : V) (m : Map K V) → P v → Every m → Every (place k v m)
    unfolding place
    place-Every k v [] p h = (p, tt)
    place-Every k v ((j, u) ∷ m) p h = elim (Bool-cases (key.less k j)) [
      | inl before ↦ rw before (p, h)
      | inr behind ↦ rw behind (h.0, place-Every k v m p h.1)
    ]

    pub insert-Every : (k : K) (v : V) (m : Map K V) → P v → Every m → Every (insert k v m)
    unfolding insert
    insert-Every k v m p h = elim (Bool-cases (contains k m)) [
      | inl there ↦ rw there (assign-Every k v m p h)
      | inr new ↦ rw new (place-Every k v m p h)
    ]

module _ {ℓ κ} {K : Type ℓ} {V : Type κ} ⦃key : Key K⦄ where
  lookup_first : (j : K) (u : V) (m : Map K V) → lookup j ((j, u) ∷ m) ≡ some u
  unfolding lookup
  lookup_first j u m = rw (equal_refl j) refl

  passes_rest :
      (q : K → Bool) (j : K) (u : V) (m : Map K V)
      → ((k : K) (v : V) → lookup k ((j, u) ∷ m) ≡ some v → q k ≡ false)
      → (k : K) (v : V) → lookup k m ≡ some v
      → q k ≡ false
  unfolding lookup
  passes_rest q j u m h k v e = elim (Bool-cases (key.equal j k)) [
    | inl hit ↦ h k u (rw hit refl)
    | inr miss ↦ h k v (rw miss e)
  ]

  -- A key that passes a test is counted.
  pub count_found :
      (q : K → V → Bool) (k : K) (v : V) (m : Map K V)
      → lookup k m ≡ some v
      → q k v ≡ true
      → 0 < count q m
  unfolding lookup count
  count_found q k v [] e t = absurd cc
  count_found q k v ((j, u) ∷ m) e t = elim (Bool-cases (key.equal j k)) [
    | inl hit ↦
        let same : j ≡ k = (key.equal_iff j k).0 hit in
        let value : u ≡ v = ground (arith, hit, e) in rw (same, value, t) (omega arith)
    | inr miss ↦ let found = count_found q k v m (ground (arith, miss, e)) t in omega arith
  ]

  -- A test of the keys that none passes counts nothing.
  pub count_none :
      (q : K → Bool) (m : Map K V)
      → ((k : K) (v : V) → lookup k m ≡ some v → q k ≡ false)
      → count (λ k _. q k) m ≡ 0
  unfolding count
  count_none q [] h = refl
  count_none q ((j, u) ∷ m) h =
      let first : q j ≡ false = h j u (lookup_first j u m) in
      ground (arith, first, count_none q m (λ k v e. passes_rest q j u m h k v e))
