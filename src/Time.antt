-- ===== src/Time.antt =====
-- src/time.rs: the monotonic clock, lifetimes, and random sampling.
pub mod Lifetimes
pub mod Random
use snak_machine_rs.Base.{
  ℕ, suc, ◌+◌, ◌-◌, ◌*◌, ◌/◌, ◌%◌, ◌<◌, min, Bool, true, false, List, [], ◌∷◌, ◌++◌, map, Option,
  none, some, ltb, ◌==◌, if◌then◌else◌, u32_max, u64_max, saturating_add, Io, ok, err, Error, other,
  replicate,
}

-- Monotonic milliseconds, below 2 ^ 64.
abbrev pub Instant : Type 0
Instant = ℕ

-- `ManualClock::advance`.
unfoldable pub advance : Instant → ℕ → Instant
advance clock ms = saturating_add clock ms

pub data Lifetime : Type 0 where
  until : Instant → Lifetime
  infinite : Lifetime

unfoldable pub from_secs : Instant → ℕ → Lifetime
from_secs now seconds =
    if seconds == u32_max then infinite else until (saturating_add now (seconds * 1000))

unfoldable pub remaining : Lifetime → Instant → ℕ
remaining infinite now = u32_max
remaining (until t) now = min ((t - now) / 1000) u32_max

unfoldable pub live : Lifetime → Instant → Bool
live infinite now = true
live (until t) now = ltb now t

-- What one `fill` of eight bytes does: it gives a little-endian word, or it fails.
pub data Fill : Type 0 where
  word : ℕ → Fill
  fails : Fill

-- A source of randomness is the outcomes of its next fills; past its end a fill fails.
abbrev pub Rng : Type 0
Rng = List Fill

-- `ScriptedRandom`: its values, then zeros for as long as it is asked.
unfoldable pub scripted : List ℕ → ℕ → Rng
scripted values zeros = map word values ++ replicate zeros (word 0)

-- The largest multiple of `range` that a word can be compared with.
unfoldable pub sample_limit : ℕ → ℕ
sample_limit range = u64_max - u64_max % range

-- The rejection loop of `RandomSource::sample`, over the fills that it consumes.
unfoldable pub sample_loop : ℕ → Rng → Io (ℕ × Rng)
unfolding sample_limit
sample_loop range [] = err other
sample_loop range (fails ∷ rest) = err other
sample_loop range (word x ∷ rest) =
    let again = sample_loop range rest in
    if ltb x (sample_limit range) then ok (x % range, rest) else again

-- `max.checked_add(1)` fails at the largest word only.
unfoldable pub sample : ℕ → Rng → Io (ℕ × Rng)
unfolding sample_loop
sample max rng = if ltb max u64_max then sample_loop (max + 1) rng else err other
