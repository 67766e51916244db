-- ===== src/Dns/Reader/Advance.antt =====
-- A read moves the cursor forward, and not past its end.
use snak_machine_rs.Base.{
  ℕ, zero, suc, ◌+◌, ◌*◌, ◌%◌, ◌≤◌, ◌<◌, ◌≡◌, subst, Bool, List, [], ◌∷◌, ◌++◌, arith, Byte, Bytes,
  byte, length, leb, ◌==◌, Option, none, some, inl, inr, Bool-cases, Result-cases, ok,
}
use snak_machine_rs.Dns.Name.{Name, from_labels}
use snak_machine_rs.Dns.Reader.{
  Cursor, Walk, take_at, take_bytes, read_u16, read_u32, label_step, pointer_step, name_loop,
  name_rounds, read_name, or_else,
}

pub take_bytes-advance :
    (b : Bytes) (end n : ℕ) (c c' : Cursor) (r : Bytes)
    → take_bytes b end n c ≡ ok (r, c')
    → (c'.at ≡ c.at + n) × (c'.at ≤ end) × (c'.at ≤ length b)
unfolding take_bytes take_at
take_bytes-advance b end n c c' r e = (ground arith, ground arith, ground arith)

pub read_u16-advance :
    (b : Bytes) (end : ℕ) (c c' : Cursor) (n : ℕ)
    → read_u16 b end c ≡ ok (n, c')
    → (c'.at ≡ c.at + 2) × (c'.at ≤ end)
unfolding read_u16
read_u16-advance b end c c' n e = elim (Result-cases (take_bytes b end 2 c)) [
  | inl (x, bad) ↦ absurd (ground arith)
  | inr ((r, c1), good) ↦ ground (arith, take_bytes-advance b end 2 c c1 r good)
]

pub read_u32-advance :
    (b : Bytes) (end : ℕ) (c c' : Cursor) (n : ℕ)
    → read_u32 b end c ≡ ok (n, c')
    → (c'.at ≡ c.at + 4) × (c'.at ≤ end)
unfolding read_u32
read_u32-advance b end c c' n e = elim (Result-cases (take_bytes b end 4 c)) [
  | inl (x, bad) ↦ absurd (ground arith)
  | inr ((r, c1), good) ↦ ground (arith, take_bytes-advance b end 4 c c1 r good)
]

-- Where the read goes on after a walk from `start`: behind it, and not behind `end`.
abbrev Reach : ℕ → ℕ → Option ℕ → ℕ → ℕ → Type 0
Reach start end none pos limit = (start ≤ pos) × (limit ≤ end)
Reach start end (some p) pos limit = (start < p) × (p ≤ end)

abbrev InReach : ℕ → ℕ → Walk → Type 0
InReach start end w = Reach start end w.consumed w.pos w.limit

later_Reach :
    (start end : ℕ) (o : Option ℕ) (pos pos' limit : ℕ)
    → pos ≤ pos'
    → Reach start end o pos limit
    → Reach start end o pos' limit
later_Reach start end none pos pos' limit h v = (omega (arith, v.0), v.1)
later_Reach start end (some p) pos pos' limit h v = v

consumed_Reach :
    (start end : ℕ) (o : Option ℕ) (pos limit next pos' limit' : ℕ)
    → pos < next
    → next ≤ limit
    → Reach start end o pos limit
    → Reach start end (some (or_else o next)) pos' limit'
consumed_Reach start end none pos limit next pos' limit' h l v =
    (omega (arith, v.0), omega (arith, v.1))
consumed_Reach start end (some p) pos limit next pos' limit' h l v = v

ended_Reach :
    (start end : ℕ) (o : Option ℕ) (pos limit : ℕ)
    → pos < limit + 1
    → Reach start end o pos limit
    → (start ≤ or_else o pos) × (or_else o pos ≤ end)
ended_Reach start end none pos limit h v = (v.0, omega (arith, v.1))
ended_Reach start end (some p) pos limit h v = (omega (arith, v.0), v.1)

take_at-advance :
    (b : Bytes) (p end n next : ℕ) (r : Bytes)
    → take_at b p end n ≡ ok (r, next)
    → (next ≡ p + n) × (next ≤ end)
unfolding take_at
take_at-advance b p end n next r e = (ground arith, ground arith)

label_step-InReach :
    (b : Bytes) (start end n : ℕ) (w w' : Walk)
    → InReach start end w
    → label_step b n w ≡ ok w'
    → InReach start end w'
unfolding label_step
label_step-InReach b start end n w w' v e = elim (Result-cases (take_at b (w.pos + 1) w.limit n)) [
  | inl (x, bad) ↦ absurd (ground arith)
  | inr ((l, pos), good) ↦
      let next = take_at-advance b (w.pos + 1) w.limit n pos l good in
      let same : record w {
        pos = pos;
        labels = w.labels ++ l ∷ [];
        positions = w.positions ++ w.pos ∷ [];
        size = w.size + (1 + length l);
      }
          ≡ w' =
        ground arith in
      subst (InReach start end) same
        (later_Reach start end w.consumed w.pos pos w.limit (omega (arith, next)) v)
]

pointer_step-InReach :
    (b : Bytes) (known : List ℕ) (start end : ℕ) (c : Byte) (w w' : Walk)
    → InReach start end w
    → pointer_step b known c w ≡ ok w'
    → InReach start end w'
unfolding pointer_step
pointer_step-InReach b known start end c w w' v e =
    elim (Result-cases (take_at b (w.pos + 1) w.limit 1)) [
      | inl (x, bad) ↦ absurd (ground arith)
      | inr ((l, pos), good) ↦
          let next = take_at-advance b (w.pos + 1) w.limit 1 pos l good in
          let target = c % 64 * 256 + byte l 0 in
          let same : record w {
            pos = target;
            limit = length b;
            consumed = some (or_else w.consumed pos);
            positions = w.positions ++ w.pos ∷ [];
            hops = w.hops + 1;
          }
              ≡ w' =
            ground arith in
          subst (InReach start end) same (
            consumed_Reach start end w.consumed w.pos w.limit pos target (length b)
              (omega (arith, next)) (omega (arith, next)) v)
    ]

name_loop-InReach :
    (rounds : ℕ) (b : Bytes) (known : List ℕ) (compressed : Bool) (start end : ℕ) (w w' : Walk)
    → InReach start end w
    → name_loop rounds b known compressed w ≡ ok w'
    → (start ≤ or_else w'.consumed w'.pos) × (or_else w'.consumed w'.pos ≤ end)
unfolding name_loop
name_loop-InReach zero b known compressed start end w w' v e = absurd (cc)
name_loop-InReach (suc rounds) b known compressed start end w w' v e =
    elim (Result-cases (take_at b w.pos w.limit 1)) [
      | inl (x, bad) ↦ absurd (ground arith)
      | inr ((head, pos), good) ↦
          let next = take_at-advance b w.pos w.limit 1 pos head good in
          let c = byte head 0 in
          let w1 : Walk = record w { work = w.work + 1 } in
          elim (Bool-cases (c == 0)) [
            | inl done ↦
                let same : record w1 { pos = pos; positions = w.positions ++ w.pos ∷ [] } ≡ w' =
                  ground arith in
                subst
                  (λ (t : Walk).
                    (start ≤ or_else t.consumed t.pos) × (or_else t.consumed t.pos ≤ end))
                  same
                  (ended_Reach start end w.consumed pos w.limit (omega (arith, next))
                    (later_Reach start end w.consumed w.pos pos w.limit (omega (arith, next)) v))
            | inr more ↦ elim (Bool-cases (leb c 63)) [
              | inl label ↦ elim (Result-cases (label_step b c w1)) [
                | inl (x, bad) ↦ absurd (ground arith)
                | inr (w2, stepped) ↦
                    name_loop-InReach rounds b known compressed start end w2 w'
                      (label_step-InReach b start end c w1 w2 v stepped) (ground arith)
              ]
              | inr pointer ↦ elim (Result-cases (pointer_step b known c w1)) [
                | inl (x, bad) ↦ absurd (ground arith)
                | inr (w2, stepped) ↦
                    name_loop-InReach rounds b known compressed start end w2 w'
                      (pointer_step-InReach b known start end c w1 w2 v stepped) (ground arith)
              ]
            ]
          ]
    ]

-- A name that is read ends not before its start, and not behind `end`.
pub read_name-advance :
    (b : Bytes) (end : ℕ) (compressed : Bool) (c c' : Cursor) (n : Name)
    → read_name b end compressed c ≡ ok (n, c')
    → (c.at ≤ c'.at) × (c'.at ≤ end)
unfolding read_name
read_name-advance b end compressed c c' n e =
    let w : Walk = record {
      pos = c.at;
      limit = end;
      consumed = none;
      labels = [];
      positions = [];
      size = 1;
      hops = 0;
      work = c.work;
    } in
    elim (Result-cases (name_loop name_rounds b c.known compressed w)) [
      | inl (x, bad) ↦ absurd (ground arith)
      | inr (w', good) ↦ elim (Result-cases (from_labels w'.labels)) [
        | inl (x, bad) ↦ absurd (ground arith)
        | inr (m, built) ↦ ground (
          arith,
          name_loop-InReach name_rounds b c.known compressed c.at end w w'
              (omega arith, omega arith) good,
        )
      ]
    ]
