-- ===== src/Wire/RoundTrip.antt =====
-- What the options of src/wire.rs encode is decoded to the same value.
use snak_machine_rs.Base.{
  ℕ, ◌+◌, ◌-◌, ◌*◌, ◌/◌, ◌%◌, ◌^◌, ◌≤◌, ◌<◌, min, ◌≡◌, refl, ap, sym, ◌∙◌, inl, inr, some, arith,
  u32_max, from_be, to_be, from_be-to_be, pow-add, ok, take, ◌++◌, replicate, Bytes, to_be-zero,
  Bool-cases, Option-cases, leb, ◌==◌,
}
use snak_machine_rs.Wire.Prefix.{Prefix, new, masked}
use native.Mathlib.Decide.{ℕ_discrete}
use native.Mathlib.Nat.{zero-mod, mul-mod_right, mul-mod_left}
use snak_machine_rs.Wire.Prefix.Laws.{IsCanonical}
use snak_machine_rs.Wire.Address.{octets, of_octets}
use snak_machine_rs.Wire.Pio
use snak_machine_rs.Wire.Pio.{Pio}
use snak_machine_rs.Wire.Preference
use snak_machine_rs.Wire.Rio
use snak_machine_rs.Wire.Rio.{Rio}
use snak_machine_rs.Wire.Pref64
use snak_machine_rs.Wire.Pref64.{Pref64}

-- A canonical prefix over a 128-bit address.
pub record IsPrefix (p : Prefix) : Type 0 where
  pub canonical : IsCanonical p
  pub wide : p.address < 0x1_0000_0000_0000_0000_0000_0000_0000_0000
  pub bounded : p.length ≤ 128

pub record IsPio (p : Pio) : Type 0 where
  pub prefix : IsPrefix p.prefix
  pub preferred : p.preferred ≤ u32_max
  pub valid : p.valid ≤ u32_max

-- A Prefix Information option with a canonical prefix and 32-bit lifetimes is read back unchanged.
pub Pio_decode-encode : (p : Pio) → IsPio p → Pio.decode (Pio.encode p) ≡ some p
unfolding Pio.decode Pio.encode
Pio_decode-encode p v = rw (
  from_be-to_be 16 p.prefix.address v.prefix.wide,
  v.prefix.canonical,
  from_be-to_be 4 p.valid (omega arith),
  from_be-to_be 4 p.preferred (omega arith),
)

-- The host bits of a canonical prefix are zero.
low_bits-IsCanonical :
    (p : Prefix) (j : ℕ) → IsCanonical p → p.length + j ≤ 128 → p.address % 2 ^ j ≡ 0
unfolding new masked
low_bits-IsCanonical p j c h =
    let k = 128 - p.length - j in
    let e : 2 ^ (128 - p.length) ≡ 2 ^ j * 2 ^ k =
      rw (← pow-add 2 k j) (ap (λ (t : ℕ). 2 ^ t) (omega arith)) in
    let a : p.address ≡ masked p.address p.length = ground arith in
    elim (ℕ_discrete p.length 0) [
      | yes z ↦
          let zero_address : p.address ≡ 0 = ground arith in rw zero_address (zero-mod (2 ^ j))
      | no z ↦
          let q = p.address / 2 ^ (128 - p.length) in
          let whole : p.address ≡ q * (2 ^ j * 2 ^ k) = ground arith in
          let factor : p.address ≡ 2 ^ j * (2 ^ k * q) = omega (arith, whole) in
          ap (λ (t : ℕ). t % 2 ^ j) factor ∙ mul-mod_right (2 ^ j) (2 ^ k * q)
    ]

pub record IsRio (r : Rio) : Type 0 where
  pub prefix : IsPrefix r.prefix
  pub lifetime : r.lifetime ≤ u32_max

-- The bytes that `encode` leaves out are zero, so the padded option holds the whole address.
padded_8 :
    (a : ℕ) → a < 2 ^ 128 → a % 2 ^ 64 ≡ 0 → of_octets (take 8 (octets a) ++ replicate 8 0) ≡ a
padded_8 a w h =
    ap (λ (t : Bytes). of_octets (take 8 (octets a) ++ t)) (sym (to_be-zero 8 a h))
    ∙ from_be-to_be 16 a w

padded_12 :
    (a : ℕ) → a < 2 ^ 128 → a % 2 ^ 32 ≡ 0 → of_octets (take 12 (octets a) ++ replicate 4 0) ≡ a
padded_12 a w h =
    ap (λ (t : Bytes). of_octets (take 12 (octets a) ++ t)) (sym (to_be-zero 4 a h))
    ∙ from_be-to_be 16 a w

-- A Route Information option with a canonical prefix and a 32-bit lifetime is read back unchanged, in
-- each of its three sizes.
pub Rio_decode-encode : (r : Rio) → IsRio r → Rio.decode (Rio.encode r) ≡ some r
unfolding Rio.decode Rio.encode
Rio_decode-encode r v = elim (Bool-cases (r.prefix.length == 0)) [
  | inl none_left ↦
      let l : r.prefix.length ≡ 0 = ground arith in
      let a : r.prefix.address ≡ 0 =
        ground (arith, low_bits-IsCanonical r.prefix 128 v.prefix.canonical) in
      let u : Rio.units r.prefix.length ≡ 1 = ground arith in
      let c : new 0 0 ≡ some (record { address = 0; length = 0 }) = unfold new masked in refl in
      rw u (ground (arith, a, l, c, time, Preference.decode-bits r.preference))
  | inr some_left ↦ elim (Bool-cases (leb r.prefix.length 64)) [
    | inl short ↦
        let a =
          padded_8 r.prefix.address v.prefix.wide
            (low_bits-IsCanonical r.prefix 64 v.prefix.canonical (ground arith)) in
        let u : Rio.units r.prefix.length ≡ 2 = ground arith in
        rw u (ground (arith, a, time, Preference.decode-bits r.preference, v.prefix.canonical))
    | inr long ↦
        let u : Rio.units r.prefix.length ≡ 3 = ground arith in
        let a = from_be-to_be 16 r.prefix.address v.prefix.wide in
        rw u (ground (arith, a, time, Preference.decode-bits r.preference, v.prefix.canonical))
  ]
]
  where
    time : from_be (to_be 4 r.lifetime) ≡ r.lifetime
    time = from_be-to_be 4 r.lifetime (omega arith)

plc_of-length_of :
    (n plc : ℕ)
    → Pref64.plc_of n ≡ some plc
    → (Pref64.length_of plc ≡ some n) × (plc ≤ 5) × (n ≤ 96)
unfolding Pref64.plc_of Pref64.length_of
plc_of-length_of n plc h = ground arith

-- The seconds that a PREF64 option carries: rounded up to a multiple of eight, at most 65528.
abbrev pub rounded : ℕ → ℕ
rounded lifetime = (min lifetime 65528 + 7) / 8 * 8

scaled-rounded : (l : ℕ) → Pref64.scaled l ≡ rounded l
unfolding Pref64.scaled
scaled-rounded l = omega arith

word_lem :
    (l plc : ℕ)
    → plc ≤ 5
    → let w = rounded l + plc in
      (w / 256 % 256 * 256 + w / 1 % 256 ≡ w) × (w % 8 ≡ plc) × (w / 8 * 8 ≡ rounded l)
word_lem l plc h = (omega arith, omega arith, omega arith)

-- A PREF64 option that can be encoded is decoded to the same prefix, and to a lifetime rounded up to a
-- multiple of eight seconds: not below the given one, up to the maximum of 65528, and less than eight
-- seconds above it.
pub Pref64_decode-encode :
    (p : Pref64) {b : Bytes}
    → IsPrefix p.prefix
    → Pref64.encode p ≡ ok b
    → (l : ℕ) × (Pref64.decode b ≡ some (record { prefix = p.prefix; lifetime = l }))
      × (l % 8 ≡ 0)
      × (min p.lifetime 65528 ≤ l)
      × (l < p.lifetime + 8)
      × (l ≤ 65528)
unfolding Pref64.decode Pref64.encode
Pref64_decode-encode p {b} v e = elim (Option-cases (Pref64.plc_of p.prefix.length)) [
  | inl missing ↦ absurd (ground arith)
  | inr (plc, found) ↦
      let (code, small, short) = plc_of-length_of p.prefix.length plc found in
      let (joined, low, high) = word_lem p.lifetime plc small in
      let a =
        padded_12 p.prefix.address v.wide
          (low_bits-IsCanonical p.prefix 32 v.canonical (omega arith)) in
      let s = scaled-rounded p.lifetime in
      (
        rounded p.lifetime,
        ground (arith, s, joined, low, high, code, a, v.canonical),
        mul-mod_left ((min p.lifetime 65528 + 7) / 8) 8,
        omega arith,
        omega arith,
        omega arith,
      )
]
