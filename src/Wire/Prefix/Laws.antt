-- ===== src/Wire/Prefix/Laws.antt =====
-- Masking and membership of `Prefix`.
use native.Mathlib.Nat.{mul-div_left, one-le-pow, div-mul-le_self, div-eq_of_lt, zero-div}
use native.Mathlib.Decide.{ℕ_discrete}
use snak_machine_rs.Base.{ℕ, ◌-◌, ◌/◌, ◌^◌, ◌≤◌, ◌<◌, ◌≡◌, refl, sym, ◌∙◌, ◌↔◌, true, some, arith}
use snak_machine_rs.Wire.Address.{Ipv6Addr}
use snak_machine_rs.Wire.Prefix.{Prefix, masked, new, contains}

-- What `new` builds is canonical.
abbrev pub IsCanonical : Prefix → Type 0
IsCanonical p = new p.address p.length ≡ some p

masked-masked : (a l : ℕ) → masked (masked a l) l ≡ masked a l
unfolding masked
masked-masked a l =
    ground (arith, mul-div_left (a / 2 ^ (128 - l)) (one-le-pow (128 - l) 2 (omega arith)))

masked-le : (a l : ℕ) → masked a l ≤ a
unfolding masked
masked-le a l = ground (arith, div-mul-le_self a (2 ^ (128 - l)))

-- A prefix that was built from an address is canonical, contains that address, its address is not
-- larger, and its length is at most 128.
pub new-IsCanonical :
    (a l : ℕ) (p : Prefix)
    → new a l ≡ some p
    → IsCanonical p × (contains p a ≡ true) × (p.address ≤ a) × (p.length ≤ 128)
unfolding new contains
new-IsCanonical a l p e =
    (ground (arith, masked-masked a l), ground arith, ground (arith, masked-le a l), ground arith)

masked-zero : (a : ℕ) → masked a 0 ≡ 0
unfolding masked
masked-zero a = refl

-- A canonical prefix, the empty one included, contains exactly the 128-bit addresses that agree with it
-- above its host bits.
pub contains_iff :
    (p : Prefix) (a : Ipv6Addr)
    → IsCanonical p
    → a < 2 ^ 128
    → (contains p a ≡ true) ↔ (a / 2 ^ (128 - p.length) ≡ p.address / 2 ^ (128 - p.length))
unfolding contains new masked
contains_iff p a c wide = elim (ℕ_discrete p.length 0) [
  | yes none_fixed ↦
      let zero_address : p.address ≡ 0 = ground arith in
      let host : a / 2 ^ (128 - p.length) ≡ 0 =
        rw none_fixed (div-eq_of_lt {n = a} {m = 2 ^ 128} wide) in
      let base : p.address / 2 ^ (128 - p.length) ≡ 0 =
        rw (zero_address, none_fixed) (zero-div (2 ^ 128)) in
      (λ _. host ∙ sym base, λ _. ground (arith, none_fixed, zero_address))
  | no some_fixed ↦ (
    ground (
      arith,
      mul-div_left (a / 2 ^ (128 - p.length)) (one-le-pow (128 - p.length) 2 (omega arith)),
    ),
    ground arith,
  )
]
