-- ===== src/Nat64/Tcp/States.antt =====
-- The TCP state machine of src/nat64/tcp.rs over the segments of a connection.
use snak_machine_rs.Base.{
  ℕ, ◌≤◌, ◌≡◌, refl, ◌≢◌, ◌∙◌, subst, Bool, true, false, ◌&&◌, ◌||◌, not, arith, List, [], ◌∷◌, max,
  any, Byte, saturating_add,
}
use snak_machine_rs.Nat64.Tcp.{
  State, v4_init, v6_init, established, v4_fin, v6_fin, both_fin, transitory, packet, fin_of,
  syn_of, rst_of, established_ms, transitory_ms,
}

-- A segment that the translator passes: its side, its flags and the time.
pub record Segment : Type 0 where
  pub v6 : Bool
  pub flags : Byte
  pub now : ℕ

pub run : State → ℕ → List Segment → State × ℕ
run s expires [] = (s, expires)
run s expires (p ∷ ps) =
    let (s', expires') = packet s p.v6 p.flags expires p.now in run s' expires' ps

-- The state of a session that one side opened.
abbrev pub opened : Bool → State
opened true = v6_init
opened false = v4_init

abbrev pub same_side : Bool → Bool → Bool
same_side true b = b
same_side false b = not b

-- A FIN from the given side.
abbrev pub is_fin : Bool → Segment → Bool
is_fin side p = same_side side p.v6 && fin_of p.flags

-- A SYN from the given side.
abbrev pub is_syn : Bool → Segment → Bool
is_syn side p = same_side side p.v6 && syn_of p.flags

-- What a state says of the segments so far: FINs of the two sides, and an answer to the first SYN.
abbrev Explains : Bool → State → Bool → Bool → Bool → Type 0
Explains side v4_init fin6 fin4 answer = side ≡ false
Explains side v6_init fin6 fin4 answer = side ≡ true
Explains side established fin6 fin4 answer = answer ≡ true
Explains side v4_fin fin6 fin4 answer = (answer ≡ true) × (fin4 ≡ true)
Explains side v6_fin fin6 fin4 answer = (answer ≡ true) × (fin6 ≡ true)
Explains side both_fin fin6 fin4 answer = (answer ≡ true) × (fin6 ≡ true) × (fin4 ≡ true)
Explains side transitory fin6 fin4 answer = answer ≡ true

packet-Explains :
    (side : Bool) (s : State) (expires : ℕ) (p : Segment) (fin6 fin4 answer : Bool)
    → Explains side s fin6 fin4 answer
    → Explains side
        (packet s p.v6 p.flags expires p.now).0
        (fin6 || is_fin true p)
        (fin4 || is_fin false p)
        (answer || is_syn (not side) p)
unfolding packet
packet-Explains side v4_init expires p fin6 fin4 answer h = ground arith
packet-Explains side s expires p fin6 fin4 answer h = ground arith

-- Whether a segment with a property has passed, behind what is known already.
abbrev seen : (Segment → Bool) → Bool → List Segment → Bool
seen q known [] = known
seen q known (p ∷ ps) = seen q (known || q p) ps

seen-any :
    (q : Segment → Bool) (known : Bool) (ps : List Segment) → seen q known ps ≡ (known || any q ps)
seen-any q known [] = ground arith
seen-any q known (p ∷ ps) = seen-any q (known || q p) ps ∙ ground arith

run-Explains :
    (side : Bool) (s : State) (expires : ℕ) (ps : List Segment) (fin6 fin4 answer : Bool)
    → Explains side s fin6 fin4 answer
    → Explains side
        (run s expires ps).0
        (seen (is_fin true) fin6 ps)
        (seen (is_fin false) fin4 ps)
        (seen (is_syn (not side)) answer ps)
unfolding run
run-Explains side s expires [] fin6 fin4 answer h = h
run-Explains side s expires (p ∷ ps) fin6 fin4 answer h =
    let after = packet s p.v6 p.flags expires p.now in
    run-Explains side after.0 after.1 ps (fin6 || is_fin true p) (fin4 || is_fin false p)
      (answer || is_syn (not side) p) (packet-Explains side s expires p fin6 fin4 answer h)

opened-Explains : (side : Bool) → Explains side (opened side) false false false
opened-Explains true = refl
opened-Explains false = refl

answered :
    (side : Bool) (s : State) (fin6 fin4 answer : Bool)
    → Explains side s fin6 fin4 answer
    → s ≢ opened side
    → answer ≡ true
answered side v4_init fin6 fin4 answer h n = absurd (n (ground arith))
answered side v6_init fin6 fin4 answer h n = absurd (n (ground arith))
answered side s fin6 fin4 answer h n = ground arith

-- A session that one side opened leaves its initial state only when the other side has sent a SYN,
-- whatever else is sent; and it reaches the closing state only when both sides have sent a FIN.
pub run-opened :
    (side : Bool) (expires : ℕ) (ps : List Segment)
    → let s = (run (opened side) expires ps).0 in
      (s ≢ opened side → any (is_syn (not side)) ps ≡ true)
      × (s ≡ both_fin → (any (is_fin true) ps ≡ true) × (any (is_fin false) ps ≡ true))
run-opened side expires ps =
    let s = (run (opened side) expires ps).0 in
    let h = run-Explains side (opened side) expires ps false false false (opened-Explains side) in
    (
      λ n. ground (arith, answered side s _ _ _ h n, seen-any (is_syn (not side)) false ps),
      λ e.
          let k =
            subst
              (λ t.
                Explains side t (seen (is_fin true) false ps) (seen (is_fin false) false ps)
                  (seen (is_syn (not side)) false ps))
              e h in
          ground (arith, seen-any (is_fin true) false ps, seen-any (is_fin false) false ps),
    )

-- Nothing renews a closing session: it keeps its state and its deadline whatever is sent.
pub run-both_fin : (expires : ℕ) (ps : List Segment) → run both_fin expires ps ≡ (both_fin, expires)
unfolding run packet
run-both_fin expires [] = refl
run-both_fin expires (p ∷ ps) = run-both_fin expires ps

-- A segment never moves a deadline past the established timeout from now, unless it was there
-- already; and an established session that a RST closes half has the transitory timeout.
pub packet-expires :
    (s : State) (v6 : Bool) (flags : Byte) (expires now : ℕ)
    → ((packet s v6 flags expires now).1 ≤ max expires (saturating_add now established_ms))
      × (s ≡ established
          → fin_of flags ≡ false
          → rst_of flags ≡ true
          → packet s v6 flags expires now ≡ (transitory, saturating_add now transitory_ms))
unfolding packet
packet-expires established v6 flags expires now = (ground arith, λ e f r. ground arith)
packet-expires s v6 flags expires now = (ground arith, λ e f r. absurd (cc))
