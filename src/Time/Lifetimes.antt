-- ===== src/Time/Lifetimes.antt =====
-- Lifetimes of src/time.rs: what conversion to seconds keeps.
use snak_machine_rs.Base.{ℕ, ◌+◌, ◌*◌, ◌≤◌, ◌<◌, ◌≡◌, refl, true, false, arith, u32_max, u64_max}
use snak_machine_rs.Time.{Lifetime, until, infinite, from_secs, remaining, live}

-- A lifetime received in seconds is advertised unchanged at the instant it is received, for every
-- 32-bit value, unless the deadline would pass the end of the clock.
pub remaining-from_secs :
    (now seconds : ℕ)
    → seconds ≤ u32_max
    → now + seconds * 1000 ≤ u64_max
    → remaining (from_secs now seconds) now ≡ seconds
unfolding remaining from_secs
remaining-from_secs now seconds h k = ground arith

-- The remaining seconds never grow as time passes, and a lifetime that died stays dead.
pub remaining_antitone :
    (l : Lifetime) (now later : ℕ)
    → now ≤ later
    → (remaining l later ≤ remaining l now) × (live l now ≡ false → live l later ≡ false)
unfolding remaining live
remaining_antitone infinite now later h = ground arith
remaining_antitone (until t) now later h = ground arith

-- A lifetime with a whole second left is live, and a dead one has none.
pub live-remaining : (l : Lifetime) (now : ℕ) → 0 < remaining l now → live l now ≡ true
unfolding remaining live
live-remaining infinite now h = refl
live-remaining (until t) now h = ground arith
