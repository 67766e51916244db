-- ===== src/Scheduler/Spacing.antt =====
-- src/scheduler.rs: advertisements stay three seconds apart, whatever happens in between.
use snak_machine_rs.Base.{
  ℕ, ◌+◌, ◌-◌, ◌≤◌, ◌<◌, ◌≡◌, refl, ◌∙◌, ◌⊎◌, inl, inr, true, Option, none, some, List, [], ◌∷◌,
  arith, ok, ltb, u64_max, Result-cases, Bool-cases, ltb→lt,
}
use snak_machine_rs.Time.{Instant, Rng, sample}
use snak_machine_rs.Time.Random.{sample-le}
use snak_machine_rs.Wire.Envelope.{Envelope}
use snak_machine_rs.Scheduler.{
  RaScheduler, deadline, due, spaced, enable, changed, draw_delay, sent, answer, receive_rs,
}

-- The clock is far from its end: nothing that is added to `t` wraps.
abbrev pub IsEarly : Instant → Type 0
IsEarly t = t + 300000 ≤ u64_max

-- Nothing is planned less than three seconds after the last advertisement.
abbrev pub After : Option Instant → Instant → Type 0
After none t = Unit {0}
After (some last) t = last + 3000 ≤ t

abbrev pub Planned : Option Instant → Option Instant → Type 0
Planned last none = Unit {0}
Planned last (some t) = After last t

abbrev pub Early : Option Instant → Type 0
Early none = Unit {0}
Early (some t) = IsEarly t

pub record IsSpaced (s : RaScheduler) : Type 0 where
  pub early : Early s.last
  pub next : After s.last s.next
  pub response : Planned s.last s.response

spaced-After : (s : RaScheduler) (t : Instant) → Early s.last → After s.last (spaced s t)
unfolding spaced
spaced-After s t h = ground arith

-- The planned time is after the last advertisement.
pub deadline-After : (s : RaScheduler) → IsSpaced s → After s.last (deadline s)
unfolding deadline
deadline-After s v = ground arith

enable-IsSpaced :
    (s : RaScheduler) (now : Instant) (rng : Rng) → IsSpaced s → IsSpaced (enable s now rng).0
unfolding enable
enable-IsSpaced s now rng v = ground arith

changed-IsSpaced :
    (s : RaScheduler) (now : Instant) (rng : Rng) → IsSpaced s → IsSpaced (changed s now rng).0
unfolding changed
changed-IsSpaced s now rng v = ground arith

answer-IsSpaced :
    (s : RaScheduler) (now : Instant) (rng : Rng) → IsSpaced s → IsSpaced (answer s now rng).0
unfolding answer
answer-IsSpaced s now rng v = ground arith

-- What the link does with its scheduler between two advertisements.
pub data Event : Type 0 where
  enables changes : Instant → Rng → Event
  solicited : Envelope → Instant → Rng → Event

unfoldable pub apply : RaScheduler → Event → RaScheduler
apply s (enables now rng) = (enable s now rng).0
apply s (changes now rng) = (changed s now rng).0
apply s (solicited packet now rng) = (receive_rs s packet now rng).0

pub apply-IsSpaced : (s : RaScheduler) (e : Event) → IsSpaced s → IsSpaced (apply s e)
unfolding apply receive_rs
apply-IsSpaced s (enables now rng) v = enable-IsSpaced s now rng v
apply-IsSpaced s (changes now rng) v = changed-IsSpaced s now rng v
apply-IsSpaced s (solicited packet now rng) v = ground (arith, answer-IsSpaced s now rng v)

unfoldable pub apply_all : RaScheduler → List Event → RaScheduler
apply_all s [] = s
apply_all s (e ∷ es) = apply_all (apply s e) es

apply-last : (s : RaScheduler) (e : Event) → (apply s e).last ≡ s.last
unfolding apply receive_rs enable changed answer
apply-last s (enables now rng) = ground arith
apply-last s (changes now rng) = ground arith
apply-last s (solicited packet now rng) = ground arith

apply_all-IsSpaced :
    (s : RaScheduler) (es : List Event)
    → IsSpaced s
    → IsSpaced (apply_all s es) × ((apply_all s es).last ≡ s.last)
unfolding apply_all
apply_all-IsSpaced s [] v = (v, refl)
apply_all-IsSpaced s (e ∷ es) v =
    let (spaced, last) = apply_all-IsSpaced (apply s e) es (apply-IsSpaced s e v) in
    (spaced, last ∙ apply-last s e)

-- The delay drawn after an advertisement: at most 16 seconds within a burst, else 154 to 206 seconds.
abbrev pub InWindow : ℕ → ℕ → Type 0
InWindow burst delay =
    ((0 < burst) × (delay ≤ 16000)) ⊎ ((burst ≡ 0) × (154000 ≤ delay) × (delay ≤ 206000))

draw_delay-InWindow :
    (burst delay : ℕ) (rng rest : Rng)
    → draw_delay burst rng ≡ ok (delay, rest)
    → InWindow burst delay
unfolding draw_delay
draw_delay-InWindow burst delay rng rest e = elim (Bool-cases (ltb 0 burst)) [
  | inl short ↦ inl (ltb→lt 0 burst short, sample-le 16000 delay rng rest (ground arith))
  | inr long ↦ elim (Result-cases (sample 52000 rng)) [
    | inl (f, failed) ↦ absurd (ground arith)
    | inr ((x, r), drawn) ↦
        let small = sample-le 52000 x rng r drawn in inr (ground arith, ground arith, ground arith)
  ]
]

-- An advertisement that is recorded at `now` plans the next one between three seconds later and the
-- end of its window, with no response left over: the window is 16 seconds while the burst lasts, and
-- 154 to 206 seconds after it.
pub sent_window :
    (s s' : RaScheduler) (now : Instant) (rng rest : Rng)
    → IsEarly now
    → sent s now rng ≡ (s', ok rest)
    → IsSpaced s'
      × (s'.last ≡ some now)
      × (s'.response ≡ none)
      × (now + 3000 ≤ s'.next)
      × (1 < s.burst → s'.next ≤ now + 16000)
      × (s.burst ≤ 1 → (now + 154000 ≤ s'.next) × (s'.next ≤ now + 206000))
unfolding sent spaced
sent_window s s' now rng rest early e = elim (Result-cases (draw_delay (s.burst - 1) rng)) [
  | inl (f, failed) ↦ absurd (ground arith)
  | inr ((x, r), drawn) ↦
      let w = draw_delay-InWindow (s.burst - 1) x rng r drawn in
      (ground arith, ground arith, ground arith, ground arith, ground arith, ground arith)
]

-- Two advertisements of a link are at least three seconds apart: after one at `now`, whatever sequence
-- of restarts, changes and solicitations comes next, the scheduler is not due before `now + 3000`.
pub due_after_sent :
    (s s' : RaScheduler) (now later : Instant) (rng rest : Rng) (es : List Event)
    → IsEarly now
    → sent s now rng ≡ (s', ok rest)
    → due (apply_all s' es) later ≡ true
    → now + 3000 ≤ later
unfolding due
due_after_sent s s' now later rng rest es early e d =
    let (spaced, last, _, _, _, _) = sent_window s s' now rng rest early e in
    let (after, kept) = apply_all-IsSpaced s' es spaced in
    let planned : After (some now) (deadline (apply_all s' es)) =
      rw (kept ∙ last) at (deadline-After (apply_all s' es) after) in
    ground arith
