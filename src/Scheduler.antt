-- ===== src/Scheduler.antt =====
-- src/scheduler.rs: when the next Router Advertisement of a link is sent.
-- An operation returns the scheduler, and the rest of the random source or the error.
pub mod Spacing
use snak_machine_rs.Base.{
  ℕ, ◌+◌, ◌-◌, ◌≤◌, min, max, Bool, true, false, not, Option, none, some, ltb, leb, ◌==◌,
  if◌then◌else◌, add_u64, saturating_add, Io, ok, err, other, ◌>>=◌, map_err,
}
use snak_machine_rs.Time.{Instant, Rng, sample}
use snak_machine_rs.Wire.Envelope.{Envelope}
use snak_machine_rs.Wire.Nd.{Nd, decode_nd}

pub record RaScheduler : Type 0 where
  pub next : Instant
  pub last : Option Instant
  pub burst : ℕ
  pub response : Option Instant

unfoldable pub new : Instant → Rng → Io (RaScheduler × Rng)
new now rng = sample 16000 rng >>= λ r.
    ok (record { next = add_u64 now r.0; last = none; burst = 3; response = none }, r.1)

unfoldable pub deadline : RaScheduler → Instant
deadline s = elim s.response [ none ↦ s.next | some t ↦ min t s.next ]

unfoldable pub due : RaScheduler → Instant → Bool
unfolding deadline
due s now = leb (deadline s) now

-- At least three seconds after the last advertisement.
unfoldable pub spaced : RaScheduler → Instant → Instant
spaced s t = elim s.last [ none ↦ t | some last ↦ max t (add_u64 last 3000) ]

unfoldable pub enable : RaScheduler → Instant → Rng → RaScheduler × Io Rng
unfolding spaced
enable s now rng =
    let reset = record s { burst = 3; response = none } in
    elim (sample 16000 rng) [
      | err e ↦ (reset, err e)
      | ok (x, rest) ↦ (record reset { next = spaced reset (saturating_add now x) }, ok rest)
    ]

unfoldable pub changed : RaScheduler → Instant → Rng → RaScheduler × Io Rng
unfolding spaced
changed s now rng =
    let burst = record s { burst = 3 } in
    elim (sample 16000 rng) [
      | err e ↦ (burst, err e)
      | ok (x, rest) ↦ (record burst { next = min s.next (spaced burst (add_u64 now x)) }, ok rest)
    ]

-- The delay to the next advertisement: short while the burst lasts.
unfoldable pub draw_delay : ℕ → Rng → Io (ℕ × Rng)
draw_delay burst rng =
    if ltb 0 burst
    then sample 16000 rng
    else (sample 52000 rng >>= λ r. ok (add_u64 154000 r.0, r.1))

unfoldable pub sent : RaScheduler → Instant → Rng → RaScheduler × Io Rng
unfolding spaced draw_delay
sent s now rng =
    let marked = record s { response = none; last = some now; burst = s.burst - 1 } in
    elim (draw_delay (s.burst - 1) rng) [
      | err e ↦ (marked, err e)
      | ok (delay, rest) ↦ (record marked { next = spaced marked (add_u64 now delay) }, ok rest)
    ]

-- The first solicitation fixes the time of the response; the later ones wait for it.
unfoldable pub answer : RaScheduler → Instant → Rng → RaScheduler × Io Rng
unfolding spaced
answer s now rng = elim s.response [
  | some t ↦ (s, ok rng)
  | none ↦ elim (sample 500 rng) [
    | err e ↦ (s, err e)
    | ok (x, rest) ↦ (record s { response = some (spaced s (add_u64 now x)) }, ok rest)
  ]
]

unfoldable pub receive_rs : RaScheduler → Envelope → Instant → Rng → RaScheduler × Io Rng
unfolding answer
receive_rs s packet now rng = elim (decode_nd packet) [
  | err e ↦ (s, err other)
  | ok nd ↦ if nd.kind == 133 then answer s now rng else (s, err other)
]
