-- ===== src/Dns/Reader/Rounds.antt =====
-- The loop of `name` ends within its rounds.
use snak_machine_rs.Base.{
  ℕ, zero, suc, ◌+◌, ◌-◌, ◌≤◌, ◌<◌, ◌≡◌, refl, ap, sym, ◌∙◌, ◌⊎◌, take, drop, slice, Bool, ◌&&◌,
  List, [], ◌∷◌, ◌++◌, arith, Byte, Bytes, byte, inl, inr, length, ltb, leb, ◌==◌, Bool-cases,
  Result-cases, Io, Error, ok, err, invalid_data, ◌>>=◌,
}
use snak_machine_rs.Dns.Reader.{max_work, Walk, take_at, label_step, pointer_step, name_loop}

-- The bounds of a walk, and the rounds that it can still take.
abbrev pub IsBounded : Walk → Type 0
IsBounded w = (w.size ≤ 255) × (w.hops ≤ 64)

abbrev pub rounds_left : Walk → ℕ
rounds_left w = (255 - w.size) + (64 - w.hops) + 1

label_step-IsBounded :
    (b : Bytes) (n : ℕ) (w w' : Walk)
    → IsBounded w
    → label_step b n w ≡ ok w'
    → IsBounded w' × (rounds_left w' < rounds_left w)
unfolding label_step
label_step-IsBounded b n w w' v e = elim (Result-cases (take_at b (w.pos + 1) w.limit n)) [
  | inl (x, bad) ↦ absurd (ground arith)
  | inr ((l, pos), good) ↦ (ground arith, ground arith)
]

pointer_step-IsBounded :
    (b : Bytes) (known : List ℕ) (c : Byte) (w w' : Walk)
    → IsBounded w
    → pointer_step b known c w ≡ ok w'
    → IsBounded w' × (rounds_left w' < rounds_left w)
unfolding pointer_step
pointer_step-IsBounded b known c w w' v e = elim (Result-cases (take_at b (w.pos + 1) w.limit 1)) [
  | inl (x, bad) ↦ absurd (ground arith)
  | inr ((l, pos), good) ↦ (ground arith, ground arith)
]

take_at-malformed :
    (b : Bytes) (at end n : ℕ) (x : Error) → take_at b at end n ≡ err x → x ≡ invalid_data
unfolding take_at
take_at-malformed b at end n x e = ground arith

label_step-malformed :
    (b : Bytes) (n : ℕ) (w : Walk) (x : Error) → label_step b n w ≡ err x → x ≡ invalid_data
unfolding label_step take_at
label_step-malformed b n w x e = ground arith

pointer_step-malformed :
    (b : Bytes) (known : List ℕ) (c : Byte) (w : Walk) (x : Error)
    → pointer_step b known c w ≡ err x
    → x ≡ invalid_data
unfolding pointer_step take_at
pointer_step-malformed b known c w x e = ground arith

-- How a walk ends: behind a root label, within the bounds, or as malformed.
abbrev pub Ends : Bytes → Io Walk → Type 0
Ends b r =
    ((w' : Walk) × (r ≡ ok w') × IsBounded w' × (0 < w'.pos) × (byte b (w'.pos - 1) ≡ 0))
    ⊎ (r ≡ err invalid_data)

-- A step and the rest of the loop.
step_Ends :
    (b : Bytes) (step : Io Walk) (rest : Walk → Io Walk)
    → ((x : Error) → step ≡ err x → x ≡ invalid_data)
    → ((w' : Walk) → step ≡ ok w' → Ends b (rest w'))
    → Ends b (step >>= rest)
step_Ends b (err x) rest bad good = inr (ap (λ (t : Error). err t) (bad x refl))
step_Ends b (ok w') rest bad good = good w' refl

first_byte : (p : ℕ) (b : Bytes) → byte (take 1 (drop p b)) 0 ≡ byte b p
first_byte zero [] = refl
first_byte zero (x ∷ b) = refl
first_byte (suc p) [] = refl
first_byte (suc p) (x ∷ b) = first_byte p b

one_more : (p : ℕ) → p + 1 - p ≡ 1
one_more p = omega arith

root_byte :
    (b : Bytes) (p limit next : ℕ) (head : Bytes)
    → take_at b p limit 1 ≡ ok (head, next)
    → (next ≡ p + 1) × (byte head 0 ≡ byte b p)
unfolding take_at
root_byte b p limit next head e = (
  ground arith,
  let made : slice p (p + 1) b ≡ head = ground arith in
      ap (λ (t : Bytes). byte t 0) (sym made) ∙ rw (one_more p) (first_byte p b),
)

name_loop_ending :
    (rounds : ℕ) (b : Bytes) (known : List ℕ) (compressed : Bool) (w : Walk)
    → IsBounded w
    → rounds_left w ≤ rounds
    → Ends b (name_loop rounds b known compressed w)
unfolding name_loop
name_loop_ending zero b known compressed w v h = absurd (omega arith)
name_loop_ending (suc rounds) b known compressed w v h =
    let w1 : Walk = record w { work = w.work + 1 } in
    let again : (w' : Walk)
        → IsBounded w' × (rounds_left w' < rounds_left w1)
        → Ends b (name_loop rounds b known compressed w') =
      λ w' smaller.
        name_loop_ending rounds b known compressed w' smaller.0 (omega (arith, smaller.1)) in
    elim (Bool-cases (ltb max_work (w.work + 1))) [
      | inl worked ↦ rw worked (inr refl)
      | inr fresh ↦ elim (Result-cases (take_at b w.pos w.limit 1)) [
        | inl (x, bad) ↦
            rw (fresh, bad)
              (inr (ap (λ (t : Error). err t) (take_at-malformed b w.pos w.limit 1 x bad)))
        | inr ((head, pos), good) ↦
            let c = byte head 0 in
            let (next, same) = root_byte b w.pos w.limit pos head good in
            let labels =
              step_Ends b (label_step b c w1) (name_loop rounds b known compressed)
                (label_step-malformed b c w1)
                (λ w' e. again w' (label_step-IsBounded b c w1 w' v e)) in
            let pointers =
              step_Ends b (pointer_step b known c w1) (name_loop rounds b known compressed)
                (pointer_step-malformed b known c w1)
                (λ w' e. again w' (pointer_step-IsBounded b known c w1 w' v e)) in
            elim (Bool-cases (c == 0)) [
              | inl root ↦
                  rw (fresh, good, root)
                    (inl (
                      _,
                      refl,
                      v,
                      omega (arith, next),
                      let back : pos - 1 ≡ w.pos = omega (arith, next) in
                          rw back (sym same ∙ ground (arith, root)),
                    ))
              | inr more ↦ elim (Bool-cases (leb c 63)) [
                | inl label ↦ rw (fresh, good, more, label) labels
                | inr long ↦ elim (Bool-cases (leb 192 c && compressed)) [
                  | inl pointer ↦ rw (fresh, good, more, long, pointer) pointers
                  | inr unknown ↦ rw (fresh, good, more, long, unknown) (inr refl)
                ]
              ]
            ]
      ]
    ]

-- The loop ends: with as many rounds as the labels and pointers that the bounds still allow, and one,
-- it never asks for another round, which would be an error of another kind. It either ends behind a root
-- label, within the bounds, or the name is malformed. A root label at the place of the walk, inside its
-- limit and the message and within the work, ends it at once.
pub name_loop-Ends :
    (rounds : ℕ) (b : Bytes) (known : List ℕ) (compressed : Bool) (w : Walk)
    → IsBounded w
    → rounds_left w ≤ rounds
    → Ends b (name_loop rounds b known compressed w)
      × (w.pos < w.limit
          → w.pos < length b
          → w.work < max_work
          → byte b w.pos ≡ 0
          → name_loop rounds b known compressed w
            ≡ ok (record w {
              pos = w.pos + 1;
              positions = w.positions ++ w.pos ∷ [];
              work = w.work + 1;
            }))
unfolding name_loop take_at
name_loop-Ends zero b known compressed w v h = absurd (omega arith)
name_loop-Ends (suc rounds) b known compressed w v h = (
  name_loop_ending (suc rounds) b known compressed w v h,
  λ inside within little root.
      let zero_byte : byte (take 1 (drop w.pos b)) 0 ≡ 0 = first_byte w.pos b ∙ root in
      rw (one_more w.pos) (ground (arith, zero_byte)),
)
