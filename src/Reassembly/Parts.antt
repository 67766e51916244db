-- ===== src/Reassembly/Parts.antt =====
-- The parts of a datagram: in order, apart, and put together.
use snak_machine_rs.Base.{
  ℕ, ◌+◌, ◌-◌, ◌≤◌, ◌<◌, ◌≡◌, refl, subst, false, none, some, [], ◌∷◌, ◌++◌, arith, ltb, ◌==◌,
  Bytes, length, take, drop, length-append, take-append, drop-append-add, Bool-cases, inl, inr,
}
use snak_machine_rs.Base.Maps.{Map, nat_key, lookup, contains, place, insert}
use snak_machine_rs.Reassembly.{overlaps, contiguous, joined}

-- No part is empty, and each starts at `lo` or behind it, and where the one before ends or behind it.
abbrev pub Laid : ℕ → Map ℕ Bytes → Type 0
Laid lo [] = Unit
Laid lo ((at, b) ∷ m) = (lo ≤ at) × (0 < length b) × Laid (at + length b) m

-- The place of a part that overlaps no other is free.
pub apart_absent :
    (lo from to : ℕ) (m : Map ℕ Bytes)
    → Laid lo m
    → from < to
    → overlaps from to m ≡ false
    → lookup from m ≡ none
unfolding lookup overlaps
apart_absent lo from to [] h short e = refl
apart_absent lo from to ((at, b) ∷ m) h short e =
    ground (arith, h.0, h.1, apart_absent (at + length b) from to m h.2 short)

place-Laid :
    (lo from : ℕ) (b : Bytes) (m : Map ℕ Bytes)
    → Laid lo m
    → lo ≤ from
    → 0 < length b
    → overlaps from (from + length b) m ≡ false
    → Laid lo (place from b m)
unfolding place overlaps
place-Laid lo from b [] h at_least long e = (at_least, long, tt)
place-Laid lo from b ((at, v) ∷ m) h at_least long e = elim (Bool-cases (ltb from at)) [
  | inl before ↦ rw before (at_least, long, (ground (arith, before, e), h.1, h.2))
  | inr behind ↦ rw behind (
    h.0,
    h.1,
    place-Laid (at + length v) from b m h.2 (ground (arith, behind, e)) long (ground (arith, e)),
  )
]

-- A part that overlaps no other is put at its place.
pub insert-Laid :
    (from : ℕ) (b : Bytes) (m : Map ℕ Bytes)
    → Laid 0 m
    → 0 < length b
    → overlaps from (from + length b) m ≡ false
    → Laid 0 (insert from b m)
unfolding insert contains
insert-Laid from b m h long e =
    let free = apart_absent 0 from (from + length b) m h (omega arith) e in
    rw (insert, contains, free) (place-Laid 0 from b m h (omega arith) long e)

-- Joined parts without a gap end where the loop ends, and each is found at its offset.
pub joined_lem :
    (lo n : ℕ) (m : Map ℕ Bytes)
    → contiguous lo m ≡ some n
    → (lo + length (joined m) ≡ n)
      × ((at : ℕ) (b : Bytes)
          → lookup at m ≡ some b
          → (lo ≤ at) × (take (length b) (drop (at - lo) (joined m)) ≡ b))
unfolding contiguous joined lookup
joined_lem lo n [] e = (ground (arith, e), λ at b there. absurd cc)
joined_lem lo n ((first, v) ∷ m) e =
    let starts : first ≡ lo = ground (arith, e) in
    let rest : contiguous (lo + length v) m ≡ some n = ground (arith, e) in
    let (whole, found) = joined_lem (lo + length v) n m rest in
    (
      omega (arith, whole, length-append v (joined m)),
      λ at b there. elim (Bool-cases (first == at)) [
        | inl hit ↦
            let here : v ≡ b = ground (arith, hit, there) in
            let none_before : at - lo ≡ 0 = ground (arith, hit) in
            (
              ground (arith, hit),
              rw none_before (
                  subst (λ (x : Bytes). take (length x) (v ++ joined m) ≡ x) here
                    (take-append v (joined m))),
            )
        | inr miss ↦
            let later : lookup at m ≡ some b = ground (arith, miss, there) in
            let (behind, same) = found at b later in
            let gap : at - lo ≡ length v + (at - (lo + length v)) = omega (arith, behind) in
            (
              omega (arith, behind),
              rw (gap, drop-append-add v (joined m) (at - (lo + length v))) same,
            )
      ],
    )
