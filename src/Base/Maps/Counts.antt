-- ===== src/Base/Maps/Counts.antt =====
-- How insertions and removals change the counts and sums over a map.
use Prim.Native.Nat.{ℕ, ◌+◌}
use mathlib.Core.Path.{◌≡◌}
use mathlib.Core.Logic.{inl, inr}
use mathlib.Core.Bool.{Bool}
use mathlib.Core.List.{[], ◌∷◌}
use mathlib.Core.Option.{Option, none, some}
use native.Mathlib.Omega.{arith}
use snak_machine_rs.Base.Tests.{Option-cases}
use snak_machine_rs.Base.Maps.{
  Key, Map, to_nat, count, sum_values, lookup, contains, assign, place, insert, remove, Unique,
  count_absent,
}

-- What stood under the key before.
abbrev pub replaced {ℓ κ} : {V : Type ℓ} {B : Type κ} → (V → B) → B → Option V → B
replaced f b none = b
replaced f b (some w) = f w

module _ {ℓ κ} {K : Type ℓ} {V : Type κ} ⦃key : Key K⦄ where
  count-assign :
      (q : K → V → Bool) (k : K) (v w : V) (m : Map K V)
      → lookup k m ≡ some w
      → count q (assign k v m) + to_nat (q k w) ≡ count q m + to_nat (q k v)
  unfolding count lookup assign
  count-assign q k v w [] h = cc
  count-assign q k v w ((j, u) ∷ m) h = ground (arith, count-assign q k v w m, key.equal_iff j k)

  count-place :
      (q : K → V → Bool) (k : K) (v : V) (m : Map K V)
      → count q (place k v m) ≡ count q m + to_nat (q k v)
  unfolding count place
  count-place q k v [] = omega arith
  count-place q k v ((j, u) ∷ m) = ground (arith, count-place q k v m)

  pub count-insert :
      (q : K → V → Bool) (k : K) (v : V) (m : Map K V)
      → count q (insert k v m) + replaced (λ w. to_nat (q k w)) 0 (lookup k m)
        ≡ count q m + to_nat (q k v)
  unfolding insert contains
  count-insert q k v m = elim (Option-cases (lookup k m)) [
    | inl e ↦ ground (arith, count-place q k v m)
    | inr (w, e) ↦ ground (arith, count-assign q k v w m e)
  ]

  pub count-remove :
      (q : K → V → Bool) (k : K) (m : Map K V)
      → count q (remove k m) + replaced (λ w. to_nat (q k w)) 0 (lookup k m) ≡ count q m
  unfolding count lookup remove
  count-remove q k [] = omega arith
  count-remove q k ((j, u) ∷ m) = ground (arith, count-remove q k m, key.equal_iff j k)

  sum-assign :
      (f : V → ℕ) (k : K) (v w : V) (m : Map K V)
      → lookup k m ≡ some w
      → sum_values f (assign k v m) + f w ≡ sum_values f m + f v
  unfolding sum_values lookup assign
  sum-assign f k v w [] h = cc
  sum-assign f k v w ((j, u) ∷ m) h = ground (arith, sum-assign f k v w m)

  sum-place :
      (f : V → ℕ) (k : K) (v : V) (m : Map K V) → sum_values f (place k v m) ≡ sum_values f m + f v
  unfolding sum_values place
  sum-place f k v [] = omega arith
  sum-place f k v ((j, u) ∷ m) = ground (arith, sum-place f k v m)

  pub sum-insert :
      (f : V → ℕ) (k : K) (v : V) (m : Map K V)
      → sum_values f (insert k v m) + replaced f 0 (lookup k m) ≡ sum_values f m + f v
  unfolding insert contains
  sum-insert f k v m = elim (Option-cases (lookup k m)) [
    | inl e ↦ ground (arith, sum-place f k v m)
    | inr (w, e) ↦ ground (arith, sum-assign f k v w m e)
  ]

  pub sum-remove :
      (f : V → ℕ) (k : K) (m : Map K V)
      → sum_values f (remove k m) + replaced f 0 (lookup k m) ≡ sum_values f m
  unfolding sum_values lookup remove
  sum-remove f k [] = omega arith
  sum-remove f k ((j, u) ∷ m) = ground (arith, sum-remove f k m)

  pub insert-Unique : (k : K) (v : V) (m : Map K V) → Unique m → Unique (insert k v m)
  insert-Unique k v m u q = elim (Option-cases (lookup k m)) [
    | inl e ↦
        let counted = count-insert (λ j _. key.equal j q) k v m in
        ground (arith, counted, u q, key.equal_iff k q, count_absent k m e)
    | inr (w, e) ↦
        let counted = count-insert (λ j _. key.equal j q) k v m in ground (arith, counted, u q)
  ]

  pub remove-Unique : (k : K) (m : Map K V) → Unique m → Unique (remove k m)
  remove-Unique k m u q = omega (arith, count-remove (λ j _. key.equal j q) k m, u q)
