-- ===== src/Reassembly/Invariant.antt =====
-- The bounds of the reassembler and the order of the parts, on every path.
use snak_machine_rs.Base.{
  ℕ, ◌+◌, ◌≤◌, ◌<◌, ◌≡◌, refl, ap, false, not, ◌&&◌, Option, none, some, [], arith, ltb, ◌==◌,
  Bytes, length, Bool-cases, Option-cases, Result-cases, inl, inr,
}
use snak_machine_rs.Base.Maps.{
  nat_key, count, size, sum_values, lookup, contains, insert, remove, Unique,
}
use snak_machine_rs.Base.Maps.Counts.{
  replaced, sum-insert, sum-remove, insert-Unique, remove-Unique,
}
use snak_machine_rs.Base.Maps.Sizes.{
  size-insert, size-remove, size-retain-le, sum-retain-le, retain-Unique,
}
use snak_machine_rs.Base.Maps.Every.{Every, retain-Every, remove-Every, insert-Every, lookup-Every}
use snak_machine_rs.Reassembly.Parse.{FragmentKey, fragment_key, Fragment, parse}
use snak_machine_rs.Reassembly.{
  Context, Reassembler, capacity, context_bytes, retained_bytes, expire, conflicts, overlaps,
  conflict_with, is_invalid, charge, is_exhausted, or_new, extended, is_complete, admit, enter,
  input_scoped,
}
use snak_machine_rs.Reassembly.Parts.{Laid, apart_absent, insert-Laid}

-- The parts of a context are in order and apart.
abbrev pub IsLaid : Context → Type 0
IsLaid c = Laid 0 c.parts

-- At most 64 contexts and 4 MiB with the fixed charges, each key once.
pub record IsBounded (s : Reassembler) : Type 0 where
  pub contexts : size s ≤ 64
  pub bytes : retained_bytes s ≤ capacity
  pub unique : Unique s
  pub laid : Every IsLaid s

pub expire-IsBounded : (s : Reassembler) (now : ℕ) → IsBounded s → IsBounded (expire s now)
unfolding expire retained_bytes
expire-IsBounded s now v = record {
  contexts = omega (arith, v.contexts, size-retain-le (λ _ (c : Context). ltb now c.deadline) s);
  bytes =
      omega (arith, v.bytes, sum-retain-le context_bytes (λ _ (c : Context). ltb now c.deadline) s);
  unique = retain-Unique (λ _ (c : Context). ltb now c.deadline) s v.unique;
  laid = retain-Every IsLaid (λ _ (c : Context). ltb now c.deadline) s v.laid;
}

pub remove-IsBounded : (k : FragmentKey) (s : Reassembler) → IsBounded s → IsBounded (remove k s)
unfolding retained_bytes
remove-IsBounded k s v = record {
  contexts = omega (arith, v.contexts, size-remove k s);
  bytes = omega (arith, v.bytes, sum-remove context_bytes k s);
  unique = remove-Unique k s v.unique;
  laid = remove-Every IsLaid k s v.laid;
}

-- The part overlaps none of the context that there is.
pub apart_lem :
    (s : Reassembler) (f : Fragment) (now : ℕ)
    → IsBounded s
    → is_invalid f ≡ false
    → conflict_with (lookup f.key s) f ≡ false
    → let c = or_new (lookup f.key s) f.header now in
      (0 < length f.payload)
      × Laid 0 c.parts
      × (overlaps f.offset (f.offset + length f.payload) c.parts ≡ false)
unfolding is_invalid conflicts overlaps
apart_lem s f now v valid agree = elim (Option-cases (lookup f.key s)) [
  | inl new ↦ rw new (ground (arith, valid), tt, refl)
  | inr (c, there) ↦ rw there (
    ground (arith, valid),
    lookup-Every IsLaid f.key c s v.laid there,
    ground (arith, agree, there),
  )
]

-- A context grows by its new part and the charge for it.
extended_grows :
    (s : Reassembler) (f : Fragment) (now : ℕ)
    → IsBounded s
    → is_invalid f ≡ false
    → conflict_with (lookup f.key s) f ≡ false
    → context_bytes (extended s f now)
      ≡ context_bytes (or_new (lookup f.key s) f.header now) + (length f.payload + 128)
unfolding extended context_bytes
extended_grows s f now v valid agree =
    let c = or_new (lookup f.key s) f.header now in
    let (long, laid, apart) = apart_lem s f now v valid agree in
    let free =
      apart_absent 0 f.offset (f.offset + length f.payload) c.parts laid (omega arith) apart in
    let grown = sum-insert (λ (b : Bytes). length b + 128) f.offset f.payload c.parts in
    ground (arith, free, grown)

start_lem :
    (s : Reassembler) (f : Fragment) (now : ℕ)
    → lookup f.key s ≡ none
    → context_bytes (or_new (lookup f.key s) f.header now) ≡ 128 + length f.header
unfolding context_bytes sum_values
start_lem s f now new = rw new (omega arith)

extended_bytes :
    (s : Reassembler) (f : Fragment) (now : ℕ)
    → IsBounded s
    → is_invalid f ≡ false
    → conflict_with (lookup f.key s) f ≡ false
    → retained_bytes (insert f.key (extended s f now) s) ≡ retained_bytes s + charge s f
unfolding retained_bytes charge contains
extended_bytes s f now v valid agree =
    let grows = extended_grows s f now v valid agree in
    let outer = sum-insert context_bytes f.key (extended s f now) s in
    elim (Option-cases (lookup f.key s)) [
      | inl new ↦
          let start : context_bytes (or_new (lookup f.key s) f.header now) ≡ 128 + length f.header =
            start_lem s f now new in
          let before : replaced context_bytes 0 (lookup f.key s) ≡ 0 =
            ap (replaced context_bytes 0) new in
          rw new (omega (arith, grows, outer, start, before))
      | inr (c, there) ↦
          let same : context_bytes (or_new (lookup f.key s) f.header now) ≡ context_bytes c =
            ap (λ (o : Option Context). context_bytes (or_new o f.header now)) there in
          let before : replaced context_bytes 0 (lookup f.key s) ≡ context_bytes c =
            ap (replaced context_bytes 0) there in
          rw there (omega (arith, grows, outer, same, before))
    ]

admit-IsBounded :
    (s : Reassembler) (f : Fragment) (now : ℕ)
    → IsBounded s
    → is_invalid f ≡ false
    → conflict_with (lookup f.key s) f ≡ false
    → is_exhausted s f ≡ false
    → IsBounded (admit s f now).0
unfolding admit is_exhausted contains
admit-IsBounded s f now v valid agree room =
    let c = extended s f now in
    let bytes = extended_bytes s f now v valid agree in
    let sizes = size-insert f.key c s in
    let (long, laid, apart) = apart_lem s f now v valid agree in
    let bounded : IsBounded (insert f.key c s) = record {
      contexts = elim (Option-cases (lookup f.key s)) [
        | inl new ↦ ground (arith, room, new, sizes)
        | inr (w, there) ↦ ground (arith, there, sizes, v.contexts)
      ];
      bytes = ground (arith, room, bytes);
      unique = insert-Unique f.key c s v.unique;
      laid =
          insert-Every IsLaid f.key c s
            (unfold extended in
              insert-Laid f.offset f.payload (or_new (lookup f.key s) f.header now).parts laid long
                apart)
            v.laid;
    } in
    elim (Bool-cases (is_complete c)) [
      | inl done ↦ rw (admit, done) (remove-IsBounded f.key (insert f.key c s) bounded)
      | inr part ↦ rw (admit, part) bounded
    ]

pub enter-IsBounded :
    (s : Reassembler) (f : Fragment) (now : ℕ) → IsBounded s → IsBounded (enter s f now).0
unfolding enter
enter-IsBounded s f now v = elim (Bool-cases (f.offset == 0 && not f.more)) [
  | inl whole ↦ rw (enter, whole) v
  | inr part ↦ elim (Bool-cases (is_invalid f)) [
    | inl bad ↦ rw (enter, part, bad) v
    | inr valid ↦ elim (Bool-cases (conflict_with (lookup f.key s) f)) [
      | inl other ↦ rw (enter, part, valid, other) (remove-IsBounded f.key s v)
      | inr agree ↦ elim (Bool-cases (is_exhausted s f)) [
        | inl full ↦ rw (enter, part, valid, agree, full) v
        | inr room ↦
            rw (enter, part, valid, agree, room) (admit-IsBounded s f now v valid agree room)
      ]
    ]
  ]
]

-- Whatever packet arrives and whatever the answer is, the contexts stay within 64 and 4 MiB, each key has
-- one, and the parts of each stay in order, not empty and without a common byte.
pub input_scoped-IsBounded :
    (s : Reassembler) (b : Bytes) (now scope : ℕ)
    → IsBounded s
    → IsBounded (input_scoped s b now scope).0
unfolding input_scoped
input_scoped-IsBounded s b now scope v =
    let w = expire-IsBounded s now v in
    elim (Result-cases (parse b)) [
      | inl (x, bad) ↦ rw (input_scoped, bad) w
      | inr (none, whole) ↦ rw (input_scoped, whole) w
      | inr (some f, part) ↦
          rw (input_scoped, part)
            (enter-IsBounded (expire s now) (record f { key = record f.key { scope = scope } }) now
              w)
    ]

pub empty-IsBounded : IsBounded []
unfolding size sum_values retained_bytes count
empty-IsBounded = record {
  contexts = omega arith;
  bytes = omega arith;
  unique = λ q. omega arith;
  laid = tt;
}
