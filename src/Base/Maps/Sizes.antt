-- ===== src/Base/Maps/Sizes.antt =====
-- How the size of a map changes, and what a retained part keeps.
use Prim.Native.Nat.{ℕ, suc, ◌+◌, ◌≤◌}
use mathlib.Core.Path.{◌≡◌, refl}
use mathlib.Core.Bool.{Bool, true}
use mathlib.Core.List.{List, [], ◌∷◌}
use mathlib.Core.Logic.{inl, inr}
use native.Mathlib.Omega.{arith}
use snak_machine_rs.Base.Tests.{is_some, Bool-cases}
use snak_machine_rs.Base.Maps.{
  Key, Map, count, sum_values, size, retain, keys_where, lookup, insert, remove, Unique,
  lookup-insert, equal_refl,
}
use snak_machine_rs.Base.Maps.Counts.{replaced, count-insert, count-remove}

module _ {ℓ κ} {K : Type ℓ} {V : Type κ} where
  pub size-count : (m : Map K V) → size m ≡ count (λ _ _. true) m
  unfolding size count
  size-count [] = refl
  size-count ((k, v) ∷ m) = omega (arith, size-count m)

  pub count-retain-le : (q p : K → V → Bool) (m : Map K V) → count q (retain p m) ≤ count q m
  unfolding count retain
  count-retain-le q p [] = omega arith
  count-retain-le q p ((k, v) ∷ m) = ground (arith, count-retain-le q p m)

  pub sum-retain-le :
      (f : V → ℕ) (p : K → V → Bool) (m : Map K V) → sum_values f (retain p m) ≤ sum_values f m
  unfolding sum_values retain
  sum-retain-le f p [] = omega arith
  sum-retain-le f p ((k, v) ∷ m) = ground (arith, sum-retain-le f p m)

  pub size-retain-le : (p : K → V → Bool) (m : Map K V) → size (retain p m) ≤ size m
  size-retain-le p m =
      omega (arith, size-count m, size-count (retain p m), count-retain-le (λ _ _. true) p m)

module _ {ℓ κ} {K : Type ℓ} {V : Type κ} ⦃key : Key K⦄ where
  pub size-insert :
      (k : K) (v : V) (m : Map K V)
      → size (insert k v m) + replaced (λ _. 1) 0 (lookup k m) ≡ suc (size m)
  size-insert k v m =
      omega (arith, size-count m, size-count (insert k v m), count-insert (λ _ _. true) k v m)

  pub size-remove :
      (k : K) (m : Map K V) → size (remove k m) + replaced (λ _. 1) 0 (lookup k m) ≡ size m
  size-remove k m =
      omega (arith, size-count m, size-count (remove k m), count-remove (λ _ _. true) k m)

  pub retain-Unique : (p : K → V → Bool) (m : Map K V) → Unique m → Unique (retain p m)
  retain-Unique p m u q = omega (arith, u q, count-retain-le (λ k _. key.equal k q) p m)

  -- Every key of a list is there.
  abbrev pub AllIn : List K → Map K V → Type 0
  AllIn [] m = Unit
  AllIn (k ∷ ks) m = (is_some (lookup k m) ≡ true) × AllIn ks m

  AllIn-cons : (k : K) (v : V) (ks : List K) (m : Map K V) → AllIn ks m → AllIn ks ((k, v) ∷ m)
  unfolding lookup
  AllIn-cons k v [] m h = tt
  AllIn-cons k v (j ∷ ks) m h = (ground (arith, h.0), AllIn-cons k v ks m h.1)

  pub insert-AllIn :
      (k : K) (v : V) (ks : List K) (m : Map K V) → AllIn ks m → AllIn ks (insert k v m)
  insert-AllIn k v [] m h = tt
  insert-AllIn k v (j ∷ ks) m h =
      (ground (arith, h.0, lookup-insert k j v m), insert-AllIn k v ks m h.1)

  -- The keys of the entries that pass a test are in the part that a weaker test retains.
  pub keys_where-AllIn :
      (q p : K → V → Bool) (m : Map K V)
      → ((k : K) (v : V) → q k v ≡ true → p k v ≡ true)
      → AllIn (keys_where q m) (retain p m)
  unfolding keys_where retain lookup
  keys_where-AllIn q p [] w = tt
  keys_where-AllIn q p ((k, v) ∷ m) w = elim (Bool-cases (q k v)) [
    | inl hit ↦
        rw (hit, w k v hit)
          (
            rw equal_refl refl,
            AllIn-cons k v (keys_where q m) (retain p m) (keys_where-AllIn q p m w),
          )
    | inr miss ↦ elim (Bool-cases (p k v)) [
      | inl kept ↦
          rw (miss, kept) (AllIn-cons k v (keys_where q m) (retain p m) (keys_where-AllIn q p m w))
      | inr gone ↦ rw (miss, gone) (keys_where-AllIn q p m w)
    ]
  ]
