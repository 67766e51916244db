-- ===== src/Nat64/Headers/Walk.antt =====
-- What the walk over the extension headers gives.
use snak_machine_rs.Base.{
  ℕ, zero, suc, ◌+◌, ◌-◌, ◌*◌, ◌≤◌, ◌<◌, ◌≡◌, refl, ◌≢◌, ◌⊎◌, ◌∙◌, inl, inr, true, false, Option,
  none, some, leb, ◌==◌, arith, Byte, Bytes, byte, length, ok, Bool-cases, Result-cases,
}
use snak_machine_rs.Nat64.Headers.{Seen, is_extension, accept, options_fit, walk, transport6}

-- The scan of the options is the same with any number of rounds that covers their bytes.
pub options_fit-enough :
    (rounds more : ℕ) (b : Bytes) (option end : ℕ)
    → end - option ≤ rounds
    → rounds ≤ more
    → options_fit more b option end ≡ options_fit rounds b option end
unfolding options_fit
options_fit-enough zero zero b option end h l = refl
options_fit-enough zero (suc more) b option end h l = ground arith
options_fit-enough (suc rounds) zero b option end h l = absurd (omega arith)
options_fit-enough (suc rounds) (suc more) b option end h l =
    let size = byte b (option + 1) + 2 in
    elim (Bool-cases (leb end option)) [
      | inl done ↦ ground arith
      | inr inside ↦
          let padding =
            options_fit-enough rounds more b (option + 1) end (ground arith) (omega arith) in
          let rest =
            options_fit-enough rounds more b (option + size) end (ground arith) (omega arith) in
          ground (arith, padding, rest)
    ]

-- The header that the chain of next header fields leads to after `k` headers, with its place: a header
-- names the one behind it in its first byte, and in its second its length, in units of eight bytes
-- behind the first eight.
abbrev pub header_after : ℕ → Bytes → Byte → ℕ → Byte × ℕ
header_after zero b next at = (next, at)
header_after (suc k) b next at = header_after k b (byte b at) (at + (byte b (at + 1) + 1) * 8)

-- The header of a chain is a Routing header with segments left.
abbrev pub HasSegments : Bytes → Byte × ℕ → Type 0
HasSegments b h = (h.0 ≡ 43) × (byte b (h.1 + 3) ≢ 0)

-- What a walk over `k` headers reports: the count of segments of a Routing header that has some left, or
-- what was reported before if none has.
abbrev pub Reports : ℕ → Bytes → Byte → ℕ → Option ℕ → Option ℕ → Type 0
Reports k b next at before problem =
    ((problem ≡ before) × ((j : ℕ) → j < k → ¬ HasSegments b (header_after j b next at)))
    ⊎ ((j : ℕ) × (j < k)
        × HasSegments b (header_after j b next at)
        × (problem ≡ some ((header_after j b next at).1 + 3)))

accept-segments :
    (b : Bytes) (next : Byte) (at : ℕ) (seen seen' : Seen)
    → accept b next at seen ≡ ok seen'
    → ((seen'.problem ≡ seen.problem) × ¬ HasSegments b (next, at))
      ⊎ ((seen'.problem ≡ some (at + 3)) × HasSegments b (next, at))
unfolding accept
accept-segments b next at seen seen' e = elim (Bool-cases (next == 43)) [
  | inr other ↦ inl (ground arith, λ has. absurd (ground (arith, has.0, other)))
  | inl routing ↦ elim (Bool-cases (byte b (at + 3) == 0)) [
    | inl ended ↦ inl (ground arith, λ has. has.1 (ground (arith, ended)))
    | inr left ↦ inr (ground arith, (ground arith, λ z. absurd (ground (arith, z, left))))
  ]
]

clear_more :
    (k : ℕ) (b : Bytes) (next : Byte) (at : ℕ)
    → ¬ HasSegments b (next, at)
    → ((j : ℕ)
        → j < k
        → ¬ HasSegments b (header_after j b (byte b at) (at + (byte b (at + 1) + 1) * 8)))
    → (j : ℕ) → j < suc k
    → ¬ HasSegments b (header_after j b next at)
clear_more k b next at clear clear' zero within = clear
clear_more k b next at clear clear' (suc j) within = clear' j (omega (arith, within))

-- A walk over one header more.
Reports-more :
    (k : ℕ) (b : Bytes) (next : Byte) (at : ℕ) (before middle problem : Option ℕ)
    → ((middle ≡ before) × ¬ HasSegments b (next, at))
      ⊎ ((middle ≡ some (at + 3)) × HasSegments b (next, at))
    → Reports k b (byte b at) (at + (byte b (at + 1) + 1) * 8) middle problem
    → Reports (suc k) b next at before problem
Reports-more k b next at before middle problem first (inr (j, within, has, points)) =
    inr (suc j, omega arith, has, points)
Reports-more k b next at before middle problem (inr (points, has)) (inl (same, clear)) =
    inr (zero, omega arith, has, same ∙ points)
Reports-more k b next at before middle problem (inl (same, clear)) (inl (same', clear')) =
    inl (same' ∙ same, λ j within. clear_more k b next at clear clear' j within)

-- A chain of `k` extension headers from the header `next` at `at`, inside the packet, to the header `last`
-- at `offset`, which is none.
pub record Leads (k : ℕ) (b : Bytes) (next : Byte) (at : ℕ) (last : Byte) (offset : ℕ)
    : Type 0 where
  pub ends : header_after k b next at ≡ (last, offset)
  pub stops : is_extension last ≡ false
  pub extends : (j : ℕ) → j < k → is_extension ((header_after j b next at).0) ≡ true
  pub inside : offset ≤ length b

extends_more :
    (k : ℕ) (b : Bytes) (next : Byte) (at : ℕ)
    → is_extension next ≡ true
    → ((j : ℕ)
        → j < k
        → is_extension ((header_after j b (byte b at) (at + (byte b (at + 1) + 1) * 8)).0) ≡ true)
    → (j : ℕ) → j < suc k
    → is_extension ((header_after j b next at).0) ≡ true
extends_more k b next at first rest zero within = first
extends_more k b next at first rest (suc j) within = rest j (omega (arith, within))

Leads-more :
    (k : ℕ) (b : Bytes) (next : Byte) (at : ℕ) (last : Byte) (offset : ℕ)
    → is_extension next ≡ true
    → Leads k b (byte b at) (at + (byte b (at + 1) + 1) * 8) last offset
    → Leads (suc k) b next at last offset
Leads-more k b next at last offset header rest = record {
  ends = rest.ends;
  stops = rest.stops;
  extends = λ j within. extends_more k b next at header rest.extends j within;
  inside = rest.inside;
}

walk_lem :
    (rounds : ℕ) (b : Bytes) (next : Byte) (at : ℕ) (seen : Seen) (last : Byte) (offset : ℕ)
    → (problem : Option ℕ) → at ≤ length b
    → walk rounds b next at seen ≡ ok (last, offset, problem)
    → (k : ℕ) × (k < rounds)
      × Leads k b next at last offset
      × Reports k b next at seen.problem problem
unfolding walk
walk_lem zero b next at seen last offset problem high e = absurd (cc)
walk_lem (suc rounds) b next at seen last offset problem high e =
    let n = (byte b (at + 1) + 1) * 8 in
    elim (Bool-cases (is_extension next)) [
      | inr other ↦
          let here : Path (Byte × ℕ) (next, at) (last, offset) = ground arith in
          let same : problem ≡ seen.problem = ground arith in
          (
            zero,
            omega arith,
            record {
              ends = here;
              stops = ground arith;
              extends = λ j within. absurd (omega (arith, within));
              inside = ground arith;
            },
            inl (same, λ j within. absurd (omega (arith, within))),
          )
      | inl header ↦ elim (Result-cases (accept b next at seen)) [
        | inl (x, bad) ↦ absurd (ground arith)
        | inr (seen', good) ↦
            let fits : at + n ≤ length b = ground arith in
            let rest : walk rounds b (byte b at) (at + n) seen' ≡ ok (last, offset, problem) =
              ground arith in
            let (k, few, leads, reports) =
              walk_lem rounds b (byte b at) (at + n) seen' last offset problem fits rest in
            (
              suc k,
              omega arith,
              Leads-more k b next at last offset header leads,
              Reports-more k b next at seen.problem seen'.problem problem
                  (accept-segments b next at seen seen' good) reports,
            )
      ]
    ]

-- What the walk gives for a packet: the header and the place behind a chain of less than 16 extension
-- headers, from the next header field of the fixed header on. Each header of the chain is one of the
-- three extensions, the header behind it is none, and its place is inside the packet. A problem is
-- reported exactly if a Routing header of the chain has segments left, at the count of its segments.
pub transport6_lem :
    (b : Bytes) (next : Byte) (at : ℕ) (problem : Option ℕ)
    → 40 ≤ length b
    → transport6 b ≡ ok (next, at, problem)
    → (k : ℕ) × (k < 16) × Leads k b (byte b 6) 40 next at × Reports k b (byte b 6) 40 none problem
unfolding transport6
transport6_lem b next at problem long e =
    walk_lem 16 b (byte b 6) 40
      (record { hop = false; route = false; before = false; after = false; problem = none }) next at
      problem long e
