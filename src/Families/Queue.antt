-- ===== src/Families/Queue.antt =====
-- The queue of AIL frames keeps its bounds and its order.
use snak_machine_rs.Base.{
  ℕ, ◌+◌, ◌-◌, ◌≤◌, ◌<◌, ◌≡◌, refl, sym, subst, ap, ◌⊎◌, inl, inr, Bool, true, false, ◌||◌, Option,
  none, some, List, [], ◌∷◌, ◌++◌, ltb, leb, arith, Bytes, length, length-append, Bool-cases,
}
use snak_machine_rs.Families.{AilFrames, push, pop}

abbrev pub total : List Bytes → ℕ
total [] = 0
total (f ∷ fs) = length f + total fs

total-append : (fs gs : List Bytes) → total (fs ++ gs) ≡ total fs + total gs
total-append [] gs = omega arith
total-append (f ∷ fs) gs = omega (arith, total-append fs gs)

-- At most 64 frames and 65535 bytes, which are counted.
pub record IsBounded (q : AilFrames) : Type 0 where
  pub counted : q.bytes ≡ total q.frames
  pub few : length q.frames ≤ 64
  pub small : q.bytes ≤ 65535

-- A push either puts the frame at the end and keeps the bounds, or refuses it and changes nothing, which
-- it does only if the frame would break the bounds.
pub push_lem :
    (q q' : AilFrames) (frame : Bytes) (taken : Bool)
    → IsBounded q
    → push q frame ≡ (q', taken)
    → IsBounded q'
      × (taken ≡ true → q'.frames ≡ q.frames ++ frame ∷ [])
      × (taken ≡ false
          → (q' ≡ q) × ((length q.frames ≡ 64) ⊎ (65535 < total (q.frames ++ frame ∷ []))))
unfolding push
push_lem q q' frame taken v e =
    elim (Bool-cases (
      leb 64 (length q.frames) || ltb 65535 (length frame) || ltb 65535 (q.bytes + length frame))) [
        | inl full ↦
            let same : q ≡ q' = ground arith in
            (
              subst IsBounded same v,
              (λ h. absurd (ground arith)),
              λ h. (sym same, ground (arith, v.counted, v.few, total-append q.frames (frame ∷ []))),
            )
        | inr room ↦
            let added : AilFrames = record {
              frames = q.frames ++ frame ∷ [];
              bytes = q.bytes + length frame;
            } in
            let same : added ≡ q' = ground arith in
            let bounded : IsBounded added = record {
              counted = ground (arith, v.counted, total-append q.frames (frame ∷ []));
              few = ground (arith, length-append q.frames (frame ∷ []));
              small = ground arith;
            } in
            (
              subst IsBounded same bounded,
              (λ h. ap (λ (t : AilFrames). t.frames) (sym same)),
              λ h. absurd (ground arith),
            )
      ]

-- A pop on a bounded queue never panics and keeps the bounds. It gives the first frame and leaves the
-- others in order, and gives nothing only if there is none.
pub pop_lem :
    (q : AilFrames)
    → IsBounded q
    → (q' : AilFrames) × (out : Option Bytes) × (pop q ≡ some (q', out))
      × IsBounded q'
      × ((frame : Bytes) → out ≡ some frame → q.frames ≡ frame ∷ q'.frames)
      × (out ≡ none → q.frames ≡ [])
unfolding pop
pop_lem q v = go q.frames refl
  where
    go :
        (fs : List Bytes)
        → q.frames ≡ fs
        → (q' : AilFrames) × (out : Option Bytes) × (pop q ≡ some (q', out))
          × IsBounded q'
          × ((frame : Bytes) → out ≡ some frame → q.frames ≡ frame ∷ q'.frames)
          × (out ≡ none → q.frames ≡ [])
    go [] e = (q, none, ground (arith, e), v, (λ frame h. absurd (cc)), λ h. e)
    go (f ∷ fs) e =
        let left : AilFrames = record { frames = fs; bytes = q.bytes - length f } in
        (
          left,
          some f,
          ground (arith, e, v.counted),
          record {
            counted = ground (arith, e, v.counted);
            few = ground (arith, e, v.few);
            small = ground (arith, v.small);
          },
          (λ frame h. ground (arith, e)),
          λ h. absurd (cc),
        )
