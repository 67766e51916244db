-- ===== src/Time/Random.antt =====
-- `RandomSource::sample` of src/time.rs: range, uniformity and termination.
use native.Mathlib.Nat.{
  mod-lt, mod-eq_of_lt, div-add-mod', div-lt_iff_lt-mul, mul-add-mod_self_right,
}
use snak_machine_rs.Base.{
  ℕ, suc, ◌+◌, ◌*◌, ◌/◌, ◌%◌, ◌≤◌, ◌<◌, ◌≡◌, ◌↔◌, List, [], ◌∷◌, arith, u64_max, ok, ltb,
  Bool-cases, inl, inr, lt→ltb,
}
use snak_machine_rs.Time.{Rng, word, fails, scripted, sample_limit, sample_loop, sample}

pub sample_limit_pos : (range : ℕ) → 0 < range → range ≤ u64_max → range ≤ sample_limit range
unfolding sample_limit
sample_limit_pos range h k = grind arith

sample_loop-lt :
    (range : ℕ) (rng rest : Rng) (x : ℕ)
    → 0 < range
    → sample_loop range rng ≡ ok (x, rest)
    → x < range
unfolding sample_loop
sample_loop-lt range [] rest x h e = cc
sample_loop-lt range (fails ∷ rng) rest x h e = cc
sample_loop-lt range (word w ∷ rng) rest x h e =
    ground (arith, sample_loop-lt range rng rest x h, mod-lt w h)

-- A sample lies between zero and the given maximum.
pub sample-le : (max x : ℕ) (rng rest : Rng) → sample max rng ≡ ok (x, rest) → x ≤ max
unfolding sample
sample-le max x rng rest e = ground (arith, sample_loop-lt (max + 1) rng rest x)

-- The bound of the rejection loop is a whole number of ranges.
sample_limit_mul : (range : ℕ) → sample_limit range ≡ u64_max / range * range
unfolding sample_limit
sample_limit_mul range = omega (arith, div-add-mod' u64_max range)

block-lt : (q r x n : ℕ) → x < r → q < n → q * r + x < n * r
block-lt q r x n h l = grind arith

word_taken :
    (max x q : ℕ) (rest : Rng)
    → max < u64_max
    → x ≤ max
    → q < u64_max / (max + 1)
    → sample max (word (q * (max + 1) + x) ∷ rest) ≡ ok (x, rest)
unfolding sample sample_loop
word_taken max x q rest h k l = rw (
  lt→ltb max u64_max h,
  sample_limit_mul (max + 1),
  lt→ltb _ _ (block-lt q (max + 1) x (u64_max / (max + 1)) (omega arith) l),
  mul-add-mod_self_right q (max + 1) x,
  mod-eq_of_lt {n = x} {m = max + 1} (omega arith),
)

-- A sample skips every word at or above the bound, whatever their number.
word_skipped :
    (max w : ℕ) (rest : Rng)
    → max < u64_max
    → u64_max / (max + 1) * (max + 1) ≤ w
    → sample max (word w ∷ rest) ≡ sample max rest
unfolding sample sample_loop
word_skipped max w rest h k = ground (arith, sample_limit_mul (max + 1))

-- A word that is accepted is one of them.
word_accepted :
    (max x w : ℕ)
    → max < u64_max
    → sample max (word w ∷ []) ≡ ok (x, [])
    → (q : ℕ) × (q < u64_max / (max + 1)) × (w ≡ q * (max + 1) + x)
unfolding sample sample_loop
word_accepted max x w h e = elim (Bool-cases (ltb w (sample_limit (max + 1)))) [
  | inr high ↦ absurd (ground arith)
  | inl low ↦
      let value : w % (max + 1) ≡ x = ground arith in
      let below : w < u64_max / (max + 1) * (max + 1) =
        ground (arith, low, sample_limit_mul (max + 1)) in
      (
        w / (max + 1),
        (div-lt_iff_lt-mul {k = max + 1} {x = w} {y = u64_max / (max + 1)} (omega arith)).1 below,
        omega (arith, div-add-mod' w (max + 1), value),
      )
]

-- The samples are uniform. The words that give `x`, whatever comes behind them, are those of the form
-- `q * (max + 1) + x` with `q` below `u64_max / (max + 1)`, and no others: for every `x` up to the
-- maximum they are equally many. Every word at or above `u64_max / (max + 1) * (max + 1)` is skipped.
pub sample_uniform :
    (max x w : ℕ)
    → max < u64_max
    → x ≤ max
    → (((rest : Rng) → sample max (word w ∷ rest) ≡ ok (x, rest))
        ↔ ((q : ℕ) × (q < u64_max / (max + 1)) × (w ≡ q * (max + 1) + x)))
      × (u64_max / (max + 1) * (max + 1) ≤ w
          → (rest : Rng) → sample max (word w ∷ rest) ≡ sample max rest)
sample_uniform max x w h k = (
  (
    λ gives. word_accepted max x w h (gives []),
    λ taken rest. rw (taken.2) (word_taken max x taken.0 rest h k taken.1),
  ),
  λ high rest. word_skipped max w rest h high,
)

sample_loop-scripted :
    (range more : ℕ) (values : List ℕ)
    → 0 < range
    → range ≤ u64_max
    → (x : ℕ) × (rest : Rng) × (sample_loop range (scripted values (suc more)) ≡ ok (x, rest))
unfolding sample_loop scripted
sample_loop-scripted range more [] h k = (
  0 % range,
  scripted [] more,
  rw (lt→ltb 0 (sample_limit range) (omega (arith, sample_limit_pos range h k))),
)
sample_loop-scripted range more (v ∷ values) h k = elim (Bool-cases (ltb v (sample_limit range))) [
  | inl low ↦ (v % range, scripted values (suc more), rw low)
  | inr high ↦ rw high (sample_loop-scripted range more values h k)
]

-- A scripted source always ends the rejection loop: behind its values there are zeros, and the first
-- zero is accepted at the latest. So a sample of a representable range returns a value in range.
pub sample-scripted :
    (max more : ℕ) (values : List ℕ)
    → max < u64_max
    → (x : ℕ) × (rest : Rng) × (sample max (scripted values (suc more)) ≡ ok (x, rest)) × (x ≤ max)
sample-scripted max more values h =
    let (x, rest, e) = sample_loop-scripted (max + 1) more values (omega arith) (omega arith) in
    let run : sample max (scripted values (suc more)) ≡ ok (x, rest) =
      unfold sample in rw (lt→ltb max u64_max h) e in
    (x, rest, run, sample-le max x _ rest run)
