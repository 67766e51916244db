-- ===== src/Base/Maps/Removal.antt =====
-- Writes to every value of a map, and the removal of a list of keys.
use Prim.Native.Nat.{ℕ}
use mathlib.Core.Path.{◌≡◌, refl, ap, sym, subst, ◌∙◌}
use mathlib.Core.Logic.{inl, inr}
use mathlib.Core.Bool.{Bool, true, not}
use mathlib.Core.List.{List, [], ◌∷◌}
use mathlib.Core.Option
use mathlib.Core.Option.{Option, none, some}
use native.Mathlib.Omega.{arith}
use snak_machine_rs.Base.Tests.{is_some, Bool-cases}
use snak_machine_rs.Base.Maps.{
  Key, Map, count, sum_values, retain, map_values, keys_where, lookup, remove, Unique,
  lookup_absent, count_absent, equal_refl,
}
use snak_machine_rs.Base.Maps.Counts.{count-remove}

module _ {ℓ κ} {K : Type ℓ} {V : Type κ} where
  pub count-map_values :
      (q : K → Bool) (f : V → V) (m : Map K V)
      → count (λ k _. q k) (map_values f m) ≡ count (λ k _. q k) m
  unfolding count map_values
  count-map_values q f [] = refl
  count-map_values q f ((k, v) ∷ m) = omega (arith, count-map_values q f m)

  pub sum-map_values :
      (g : V → ℕ) (f : V → V) (m : Map K V)
      → ((v : V) → g (f v) ≡ g v)
      → sum_values g (map_values f m) ≡ sum_values g m
  unfolding sum_values map_values
  sum-map_values g f [] h = refl
  sum-map_values g f ((k, v) ∷ m) h = omega (arith, sum-map_values g f m h, h v)

module _ {ℓ κ} {K : Type ℓ} {V : Type κ} ⦃key : Key K⦄ where
  pub lookup-map_values :
      (f : V → V) (k : K) (m : Map K V) → lookup k (map_values f m) ≡ Option.map f (lookup k m)
  unfolding lookup map_values
  lookup-map_values f k [] = refl
  lookup-map_values f k ((j, v) ∷ m) = ground (arith, lookup-map_values f k m)

  -- The keys are there when their turns come.
  abbrev pub AllThere : List K → Map K V → Type 0
  AllThere [] m = Unit
  AllThere (k ∷ ks) m = (is_some (lookup k m) ≡ true) × AllThere ks (remove k m)

  abbrev pub remove_all : List K → Map K V → Map K V
  remove_all [] m = m
  remove_all (k ∷ ks) m = remove_all ks (remove k m)

  lookup-remove-none : (k j : K) (m : Map K V) → lookup k m ≡ none → lookup k (remove j m) ≡ none
  lookup-remove-none k j m h =
      lookup_absent k (remove j m)
        (omega (arith, count-remove (λ i _. key.equal i k) j m, count_absent k m h))

  -- A key that is not among the rest takes no part in their removal.
  apart :
      (k : K) (v : V) (ks : List K) (m : Map K V)
      → lookup k m ≡ none
      → AllThere ks m
      → AllThere ks ((k, v) ∷ m) × (remove_all ks ((k, v) ∷ m) ≡ (k, v) ∷ remove_all ks m)
  unfolding lookup remove
  apart k v [] m h there = (tt, refl)
  apart k v (j ∷ ks) m h there = elim (Bool-cases (key.equal k j)) [
    | inl same ↦
        let e : k ≡ j = (key.equal_iff k j).0 same in
        absurd (ground (arith, ap (λ (i : K). lookup i m) e))
    | inr other ↦
        let rest = apart k v ks (remove j m) (lookup-remove-none k j m h) there.1 in
        rw other ((there.0, rest.0), rest.1)
  ]

  tail-Unique : (k : K) (v : V) (m : Map K V) → Unique ((k, v) ∷ m) → Unique m × (lookup k m ≡ none)
  unfolding count
  tail-Unique k v m u =
      (λ q. omega (arith, u q), lookup_absent k m (ground (arith, u k, equal_refl k)))

  first_removed : (k : K) (v : V) (m : Map K V) → remove k ((k, v) ∷ m) ≡ m
  unfolding remove
  first_removed k v m = rw equal_refl

  first_there : (k : K) (v : V) (m : Map K V) → is_some (lookup k ((k, v) ∷ m)) ≡ true
  unfolding lookup
  first_there k v m = rw equal_refl

  -- The keys that pass a test are there, and removing them leaves the other entries in order.
  pub keys_where-AllThere :
      (q : K → V → Bool) (m : Map K V)
      → Unique m
      → AllThere (keys_where q m) m
        × (remove_all (keys_where q m) m ≡ retain (λ k v. not (q k v)) m)
  unfolding keys_where retain
  keys_where-AllThere q [] u = (tt, refl)
  keys_where-AllThere q ((k, v) ∷ m) u =
      let (u', absent) = tail-Unique k v m u in
      let (there, removed) = keys_where-AllThere q m u' in
      elim (Bool-cases (q k v)) [
        | inl hit ↦
            let ks = keys_where q m in
            let first = first_removed k v m in
            rw hit (
              (first_there k v m, subst (AllThere ks) (sym first) there),
              ap (remove_all ks) first ∙ removed,
            )
        | inr miss ↦
            let (there', removed') = apart k v (keys_where q m) m absent there in
            rw miss (there', removed' ∙ ap (◌∷◌ (k, v)) removed)
      ]
