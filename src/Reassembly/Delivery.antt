-- ===== src/Reassembly/Delivery.antt =====
-- What a datagram is put together of.
use snak_machine_rs.Base.{
  ℕ, ◌+◌, ◌-◌, ◌≡◌, refl, sym, ap, subst, ◌∙◌, true, false, not, ◌&&◌, Option, none, some, arith,
  ◌==◌, Bytes, length, take, drop, Bool-cases, Option-cases, Result-cases, inl, inr, Io, ok,
}
use snak_machine_rs.Base.Maps.{
  nat_key, lookup, insert, lookup-insert-same, lookup-insert, lookup-remove-same,
}
use snak_machine_rs.Base.Maps.Counts.{insert-Unique}
use snak_machine_rs.Reassembly.Parse.{fragment_key, Fragment}
use snak_machine_rs.Reassembly.{
  Context, Reassembler, Datagram, conflict_with, is_invalid, is_exhausted, or_new, extended,
  is_complete, contiguous, joined, admit, enter, complete,
}
use snak_machine_rs.Reassembly.Parts.{apart_absent, joined_lem}
use snak_machine_rs.Reassembly.Invariant.{IsBounded, apart_lem}

-- A packet of a header and data in which the fragment and the parts of its context stand at their offsets.
abbrev pub IsAssembled : Reassembler → Fragment → Datagram → Type 0
IsAssembled s f d =
    (header content : Bytes) × (complete header content ≡ ok d.packet)
    × (take (length f.payload) (drop f.offset content) ≡ f.payload)
    × ((c : Context)
        → lookup f.key s ≡ some c
        → (header ≡ c.header)
          × ((at : ℕ) (b : Bytes)
              → lookup at c.parts ≡ some b
              → take (length b) (drop at content) ≡ b))

complete_parts :
    (c : Context)
    → is_complete c ≡ true
    → (at : ℕ) (b : Bytes) → lookup at c.parts ≡ some b
    → take (length b) (drop at (joined c.parts)) ≡ b
unfolding is_complete
complete_parts c done at b there = elim (Option-cases (contiguous 0 c.parts)) [
  | inl gap ↦ absurd (ground (arith, done, gap))
  | inr (n, e) ↦
      let start : at - 0 ≡ at = omega arith in
      subst (λ (k : ℕ). take (length b) (drop k (joined c.parts)) ≡ b) start
        ((joined_lem 0 n c.parts e).1 at b there).1
]

-- The datagram of a context that is complete with the fragment.
admit_lem :
    (s : Reassembler) (f : Fragment) (now : ℕ) (d : Datagram)
    → IsBounded s
    → is_invalid f ≡ false
    → conflict_with (lookup f.key s) f ≡ false
    → (admit s f now).1 ≡ ok (some d)
    → IsAssembled s f d × (lookup f.key (admit s f now).0 ≡ none)
unfolding admit extended
admit_lem s f now d v valid agree e =
    let c = extended s f now in
    let old = or_new (lookup f.key s) f.header now in
    let (long, laid, apart) = apart_lem s f now v valid agree in
    let free =
      apart_absent 0 f.offset (f.offset + length f.payload) old.parts laid (omega arith) apart in
    elim (Bool-cases (is_complete c)) [
      | inr part ↦ absurd (ground (arith, part, e))
      | inl done ↦ elim (Result-cases (complete c.header (joined c.parts))) [
        | inl (x, bad) ↦ absurd (ground (arith, done, bad, e))
        | inr (p, built) ↦
            let same : p ≡ d.packet = ground (arith, done, built, e) in
            let found = complete_parts c done in
            let gone =
              lookup-remove-same f.key (insert f.key c s) (insert-Unique f.key c s v.unique) in
            (
              (
                c.header,
                joined c.parts,
                built ∙ ap (λ (x : Bytes). ok x) same,
                found f.offset f.payload (lookup-insert-same f.offset f.payload old.parts),
                λ w there.
                    let as_old : old ≡ w =
                      ap (λ (o : Option Context). or_new o f.header now) there in
                    (
                      ap (λ (x : Context). x.header) as_old,
                      λ at b part.
                          let part' : lookup at old.parts ≡ some b =
                            ap (λ (x : Context). lookup at x.parts) as_old ∙ part in
                          found at b (
                            ground
                              (arith, lookup-insert f.offset at f.payload old.parts, part', free)),
                    ),
              ),
              rw (admit, done) gone,
            )
      ]
    ]

-- A datagram that a fragment completes is the header of its context with data in which the fragment, and
-- each fragment that came before, stands at its offset; the context is gone.
pub enter-IsAssembled :
    (s : Reassembler) (f : Fragment) (now : ℕ) (d : Datagram)
    → IsBounded s
    → (f.offset == 0 && not f.more) ≡ false
    → (enter s f now).1 ≡ ok (some d)
    → IsAssembled s f d × (lookup f.key (enter s f now).0 ≡ none)
unfolding enter
enter-IsAssembled s f now d v part e = elim (Bool-cases (is_invalid f)) [
  | inl bad ↦ absurd (ground (arith, part, bad, e))
  | inr valid ↦ elim (Bool-cases (conflict_with (lookup f.key s) f)) [
    | inl other ↦ absurd (ground (arith, part, valid, other, e))
    | inr agree ↦ elim (Bool-cases (is_exhausted s f)) [
      | inl full ↦ absurd (ground (arith, part, valid, agree, full, e))
      | inr room ↦
          let entered : enter s f now ≡ admit s f now = rw (enter, part, valid, agree, room) refl in
          let (made, gone) =
            admit_lem s f now d v valid agree
              (ap (λ (r : Reassembler × Io (Option Datagram)). r.1) (sym entered) ∙ e) in
          (made, ap (λ (r : Reassembler × Io (Option Datagram)). lookup f.key r.0) entered ∙ gone)
    ]
  ]
]
