-- ===== src/Ipv4/Wire/Options.antt =====
-- The loop over the options of an IPv4 header.
use snak_machine_rs.Base.{
  ℕ, zero, suc, ◌+◌, ◌≤◌, ◌<◌, ◌≡◌, refl, arith, Bytes, none, some, ok, inl, inr, Result-cases,
}
use snak_machine_rs.Ipv4.Wire.{options_step, options_loop}

-- A round moves forward.
options_step-lt :
    (b : Bytes) (h at next : ℕ) → options_step b h at ≡ ok (some next) → (at < h) × (at < next)
unfolding options_step
options_step-lt b h at next e = (ground arith, ground arith)

-- The scan of the options of a header gives the same with any two numbers of rounds above the number of
-- bytes that are left.
pub options_loop-enough :
    (rounds rounds' : ℕ) (b : Bytes) (h at : ℕ)
    → h < at + rounds
    → h < at + rounds'
    → 1 ≤ rounds
    → 1 ≤ rounds'
    → options_loop rounds b h at ≡ options_loop rounds' b h at
unfolding options_loop
options_loop-enough zero rounds' b h at e e' p p' = absurd (omega arith)
options_loop-enough (suc rounds) zero b h at e e' p p' = absurd (omega arith)
options_loop-enough (suc rounds) (suc rounds') b h at e e' p p' =
    elim (Result-cases (options_step b h at)) [
      | inl (x, bad) ↦ rw bad refl
      | inr (none, done) ↦ rw done refl
      | inr (some next, moved) ↦
          let (inside, forward) = options_step-lt b h at next moved in
          rw moved (
            options_loop-enough rounds rounds' b h next (omega arith) (omega arith) (omega arith)
              (omega arith))
    ]
