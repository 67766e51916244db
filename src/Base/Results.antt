-- ===== src/Base/Results.antt =====
-- `Result<A, E>`, and `io::Result`, whose errors are told apart by their `io::ErrorKind`.
use mathlib.Core.Bool.{Bool, true, false}
use mathlib.Core.Option.{Option, none, some}
use mathlib.Core.Path.{◌≡◌, refl}
use mathlib.Core.Logic.{◌⊎◌, inl, inr}

pub data Error : Type 0 where
  other invalid_input invalid_data would_block : Error

pub data Result {ℓ} (E : Type 0) (A : Type ℓ) : Type ℓ where
  ok : A → Result E A
  err : E → Result E A

abbrev pub Io {ℓ} : Type ℓ → Type ℓ
Io A = Result Error A

infixl 5 ◌>>=◌
-- The question mark: the first error ends the chain.
abbrev pub ◌>>=◌ {ℓ κ} :
    {F : Type 0} {X : Type ℓ} {Y : Type κ} → Result F X → (X → Result F Y) → Result F Y
err failure >>= next = err failure
ok x >>= next = next x

-- `if test { return Err(e) }`.
abbrev pub fail_if : {E : Type 0} → Bool → E → Result E (Unit {0})
fail_if false e = ok tt
fail_if true e = err e

infixl 5 ◌>>◌
abbrev pub ◌>>◌ {κ} : {F : Type 0} {Y : Type κ} → Result F (Unit {0}) → Result F Y → Result F Y
first >> next = first >>= λ done. next

-- `ok_or`.
abbrev pub ok_or {ℓ} : {E : Type 0} {A : Type ℓ} → Option A → E → Result E A
ok_or none e = err e
ok_or (some a) e = ok a

-- `map_err(|_| e)`.
abbrev pub map_err {ℓ} : {E F : Type 0} {A : Type ℓ} → F → Result E A → Result F A
map_err f (ok a) = ok a
map_err f (err e) = err f

pub Result-cases {ℓ} :
    {E : Type 0} {A : Type ℓ} (r : Result E A) → ((e : E) × (r ≡ err e)) ⊎ ((a : A) × (r ≡ ok a))
Result-cases (err e) = inl (e, refl)
Result-cases (ok a) = inr (a, refl)

-- What a chain that succeeds went through.
pub chain-ok {ℓ κ} :
    {F : Type 0} {X : Type ℓ} {Y : Type κ} (step : Result F X) (next : X → Result F Y) (y : Y)
    → (step >>= next) ≡ ok y
    → (x : X) × (step ≡ ok x) × (next x ≡ ok y)
chain-ok (err failure) next y h = cc
chain-ok (ok x) next y h = (x, refl, h)
