-- ===== src/Base/Maps.antt =====
-- `BTreeMap`: an association list that keeps the order of its keys, with each key once.
pub mod Counts
pub mod Removal
pub mod Sizes
pub mod Every
use Prim.Native.Nat.{ℕ, suc, ◌+◌, ◌-◌, ◌≤◌, ◌<◌}
use mathlib.Core.Path.{◌≡◌, refl, ap, sym, ◌∙◌}
use mathlib.Core.Logic.{◌↔◌, ◌⊎◌, inl, inr}
use mathlib.Core.Bool.{Bool, true, false, ◌&&◌, ◌||◌, not}
use mathlib.Core.List.{List, [], ◌∷◌, ◌++◌, map}
use mathlib.Core.Option.{Option, none, some}
use native.Mathlib.Omega.{arith}
use snak_machine_rs.Base.Tests.{if◌then◌else◌, ltb, ◌==◌, ==_iff, is_some, Bool-cases, Option-cases}

-- The derived `Eq` and `Ord` of a key.
pub record Key {ℓ} (K : Type ℓ) : Type ℓ where
  pub equal : K → K → Bool
  pub less : K → K → Bool
  pub equal_iff : (a b : K) → (equal a b ≡ true) ↔ (a ≡ b)

instance abbrev pub nat_key : Key ℕ
nat_key = record { equal = λ a b. a == b; less = λ a b. ltb a b; equal_iff = ==_iff }

unfoldable pub pair_equal : ℕ × ℕ → ℕ × ℕ → Bool
pair_equal a b = a.0 == b.0 && a.1 == b.1

pub pair_equal_iff : (a b : ℕ × ℕ) → (pair_equal a b ≡ true) ↔ (a ≡ b)
unfolding pair_equal
pair_equal_iff (a, b) (c, d) = ground arith

-- Tuples are compared from the left.
instance abbrev pub pair_key : Key (ℕ × ℕ)
pair_key = record {
  equal = pair_equal;
  less = λ a b. ltb a.0 b.0 || (a.0 == b.0 && ltb a.1 b.1);
  equal_iff = pair_equal_iff;
}

abbrev pub to_nat : Bool → ℕ
to_nat true = 1
to_nat false = 0

abbrev pub Map {ℓ κ} : Type ℓ → Type κ → Type (ℓ ⊔ κ)
Map K V = List (K × V)

module _ {ℓ κ} {K : Type ℓ} {V : Type κ} where
  -- How many entries pass a test.
  unfoldable pub count : (K → V → Bool) → Map K V → ℕ
  count q [] = 0
  count q ((k, v) ∷ m) = to_nat (q k v) + count q m

  -- The sum of a measure over the values.
  unfoldable pub sum_values : (V → ℕ) → Map K V → ℕ
  sum_values f [] = 0
  sum_values f ((k, v) ∷ m) = f v + sum_values f m

  -- `len`.
  unfoldable pub size : Map K V → ℕ
  size [] = 0
  size ((k, v) ∷ m) = suc (size m)

  -- `retain`.
  unfoldable pub retain : (K → V → Bool) → Map K V → Map K V
  retain q [] = []
  retain q ((k, v) ∷ m) = let rest = retain q m in if q k v then (k, v) ∷ rest else rest

  -- `values_mut`, one write to each value.
  unfoldable pub map_values : (V → V) → Map K V → Map K V
  map_values f [] = []
  map_values f ((k, v) ∷ m) = (k, f v) ∷ map_values f m

  -- The keys whose entries pass a test, in order.
  unfoldable pub keys_where : (K → V → Bool) → Map K V → List K
  keys_where q [] = []
  keys_where q ((k, v) ∷ m) = let rest = keys_where q m in if q k v then k ∷ rest else rest

  -- `values().min()` of a measure.
  unfoldable pub min_value : (V → ℕ) → Map K V → Option ℕ
  min_value f [] = none
  min_value f ((k, v) ∷ m) = elim (min_value f m) [
    | none ↦ some (f v)
    | some least ↦ some (if ltb least (f v) then least else f v)
  ]

  -- `values().any(…)`.
  unfoldable pub any_value : (V → Bool) → Map K V → Bool
  any_value q [] = false
  any_value q ((k, v) ∷ m) = let rest = any_value q m in if q v then true else rest

pub equal_refl {ℓ} : {K : Type ℓ} ⦃key : Key K⦄ (a : K) → key.equal a a ≡ true
equal_refl ⦃key⦄ a = (key.equal_iff a a).1 refl

module _ {ℓ κ} {K : Type ℓ} {V : Type κ} ⦃key : Key K⦄ where
  unfoldable pub lookup : K → Map K V → Option V
  lookup q [] = none
  lookup q ((k, v) ∷ m) = let rest = lookup q m in if key.equal k q then some v else rest

  unfoldable pub contains : K → Map K V → Bool
  contains q m = is_some (lookup q m)

  -- The write to a key that is there.
  unfoldable pub assign : K → V → Map K V → Map K V
  assign q v [] = []
  assign q v ((k, w) ∷ m) =
      let rest = assign q v m in if key.equal k q then (k, v) ∷ m else (k, w) ∷ rest

  -- A new key goes before the first larger one.
  unfoldable pub place : K → V → Map K V → Map K V
  place q v [] = (q, v) ∷ []
  place q v ((k, w) ∷ m) =
      let rest = place q v m in if key.less q k then (q, v) ∷ (k, w) ∷ m else (k, w) ∷ rest

  unfoldable pub insert : K → V → Map K V → Map K V
  insert q v m = if contains q m then assign q v m else place q v m

  unfoldable pub remove : K → Map K V → Map K V
  remove q [] = []
  remove q ((k, w) ∷ m) = let rest = remove q m in if key.equal k q then m else (k, w) ∷ rest

  -- Each key occurs once at most.
  abbrev pub Unique : Map K V → Type ℓ
  Unique m = (q : K) → count (λ k _. key.equal k q) m ≤ 1

  pub lookup_absent : (q : K) (m : Map K V) → count (λ k _. key.equal k q) m ≡ 0 → lookup q m ≡ none
  unfolding count lookup
  lookup_absent q [] h = refl
  lookup_absent q ((k, v) ∷ m) h = ground (arith, lookup_absent q m)

  pub count_absent : (q : K) (m : Map K V) → lookup q m ≡ none → count (λ k _. key.equal k q) m ≡ 0
  unfolding count lookup
  count_absent q [] h = refl
  count_absent q ((k, v) ∷ m) h = ground (arith, count_absent q m)

  lookup-assign :
      (k q : K) (v w : V) (m : Map K V)
      → lookup k m ≡ some w
      → lookup q (assign k v m) ≡ (if key.equal k q then some v else lookup q m)
  unfolding lookup assign
  lookup-assign k q v w [] h = cc
  lookup-assign k q v w ((j, u) ∷ m) h =
      ground
        (arith, lookup-assign k q v w m, key.equal_iff j k, key.equal_iff k q, key.equal_iff j q)

  lookup-place :
      (k q : K) (v : V) (m : Map K V)
      → lookup k m ≡ none
      → lookup q (place k v m) ≡ (if key.equal k q then some v else lookup q m)
  unfolding lookup place
  lookup-place k q v [] h = refl
  lookup-place k q v ((j, u) ∷ m) h =
      ground (arith, lookup-place k q v m, key.equal_iff j k, key.equal_iff k q, key.equal_iff j q)

  -- A lookup after an insertion.
  pub lookup-insert :
      (k q : K) (v : V) (m : Map K V)
      → lookup q (insert k v m) ≡ (if key.equal k q then some v else lookup q m)
  unfolding insert contains
  lookup-insert k q v m = elim (Option-cases (lookup k m)) [
    | inl e ↦ ground (arith, lookup-place k q v m e)
    | inr (w, e) ↦ ground (arith, lookup-assign k q v w m e)
  ]

  -- What is inserted is found.
  pub lookup-insert-same : (k : K) (v : V) (m : Map K V) → lookup k (insert k v m) ≡ some v
  lookup-insert-same k v m = ground (arith, lookup-insert k k v m, equal_refl k)

  pub remove_absent : (q : K) (m : Map K V) → lookup q m ≡ none → remove q m ≡ m
  unfolding lookup remove
  remove_absent q [] h = refl
  remove_absent q ((k, v) ∷ m) h = ground (arith, remove_absent q m)

  -- A lookup after a removal.
  pub lookup-remove :
      (k q : K) (m : Map K V)
      → Unique m
      → lookup q (remove k m) ≡ (if key.equal k q then none else lookup q m)
  unfolding lookup remove count
  lookup-remove k q [] u = ground arith
  lookup-remove k q ((j, v) ∷ m) u = ground (
    arith,
    lookup-remove k q m (λ p. omega (arith, u p)),
    u k,
    lookup_absent k m,
    key.equal_iff j k,
    key.equal_iff k q,
    key.equal_iff j q,
  )

  -- What is removed is gone.
  pub lookup-remove-same : (k : K) (m : Map K V) → Unique m → lookup k (remove k m) ≡ none
  lookup-remove-same k m u = ground (arith, lookup-remove k k m u, equal_refl k)
