-- ===== src/Nat64/Observations/Capacity.antt =====
-- The capacity of the observations: 32 on each link.
use snak_machine_rs.Base.{
  ℕ, ◌≤◌, ◌≡◌, refl, Bool, false, not, List, [], ◌∷◌, arith, Bytes, ltb, ◌==◌, Bool-cases,
  Option-cases, Result-cases, inl, inr, saturating_add, ◌*◌,
}
use snak_machine_rs.Base.Maps.{retain, insert, remove}
use snak_machine_rs.Base.Maps.Counts.{count-insert, count-remove}
use snak_machine_rs.Base.Maps.Sizes.{count-retain-le}
use snak_machine_rs.Wire.Address.{Ipv6Addr}
use snak_machine_rs.Wire.Nd.{NdOption}
use snak_machine_rs.Wire.Advertisement.{Link, ail, stub}
use snak_machine_rs.Nat64.Observations.{
  Observed, observed_key, Observations, expire, link_lost, usable_option, take_options,
  open_advertisement, on_link, link_equal, receive,
}

pub record IsBounded (s : Observations) : Type 0 where
  pub on_ail : on_link ail s ≤ 32
  pub on_stub : on_link stub s ≤ 32

retained-IsBounded :
    (s : Observations) (p : Observed → ℕ → Bool) → IsBounded s → IsBounded (retain p s)
retained-IsBounded s p v = record {
  on_ail = omega (arith, v.on_ail, count-retain-le (λ k _. link_equal k.link ail) p s);
  on_stub = omega (arith, v.on_stub, count-retain-le (λ k _. link_equal k.link stub) p s);
}

pub expire-IsBounded : (s : Observations) (now : ℕ) → IsBounded s → IsBounded (expire s now)
unfolding expire
expire-IsBounded s now v = retained-IsBounded s (λ _ until. ltb now until) v

pub link_lost-IsBounded :
    (s : Observations) (link : Link) → IsBounded s → IsBounded (link_lost s link)
unfolding link_lost
link_lost-IsBounded s link v = retained-IsBounded s (λ k _. not (link_equal k.link link)) v

-- The options that arrive on a link add nothing to the other one.
take_options-other :
    (link other : Link) (router : Ipv6Addr) (now : ℕ) (os : List NdOption) (s : Observations)
    → link_equal link other ≡ false
    → on_link other (take_options link router now os s) ≤ on_link other s
unfolding take_options
take_options-other link other router now [] s apart = omega arith
take_options-other link other router now (o ∷ os) s apart = elim (Option-cases (usable_option o)) [
  | inl skipped ↦ rw (take_options, skipped) (take_options-other link other router now os s apart)
  | inr (p, taken) ↦
      let key : Observed = record { link = link; router = router; prefix = p.prefix } in
      let until = saturating_add now (p.lifetime * 1000) in
      let q : Observed → ℕ → Bool = λ k _. link_equal k.link other in
      elim (Bool-cases (p.lifetime == 0)) [
        | inl zero_life ↦
            let rest = take_options-other link other router now os (remove key s) apart in
            rw (take_options, taken, zero_life) (omega (arith, rest, count-remove q key s))
        | inr some_life ↦
            let rest = take_options-other link other router now os (insert key until s) apart in
            let added = count-insert q key until s in
            let same : on_link other (insert key until s) ≤ on_link other s =
              ground (arith, added, apart) in
            rw (take_options, taken, some_life) (omega (arith, rest, same))
      ]
]

other_side :
    (link : Link) (router : Ipv6Addr) (now : ℕ) (os : List NdOption) (s : Observations)
    → IsBounded s
    → on_link link (take_options link router now os s) ≤ 32
    → IsBounded (take_options link router now os s)
other_side ail router now os s v room = record {
  on_ail = room;
  on_stub = omega (arith, v.on_stub, take_options-other ail stub router now os s refl);
}
other_side stub router now os s v room = record {
  on_ail = omega (arith, v.on_ail, take_options-other stub ail router now os s refl);
  on_stub = room;
}

within : (n : ℕ) → ltb 32 n ≡ false → n ≤ 32
within n h = ground arith

-- An advertisement is refused whole, or it leaves 32 observations at most on its link; those of the other
-- link do not grow.
pub receive-IsBounded :
    (s : Observations) (link : Link) (b : Bytes) (now : ℕ)
    → IsBounded s
    → IsBounded (receive s link b now).0
unfolding receive
receive-IsBounded s link b now v = elim (Result-cases (open_advertisement b)) [
  | inl (x, bad) ↦ rw (receive, bad) v
  | inr ((source, options), good) ↦
      let next = take_options link source now options (expire s now) in
      let w = expire-IsBounded s now v in
      elim (Bool-cases (ltb 32 (on_link link next))) [
        | inl full ↦ rw (receive, good, full) v
        | inr room ↦
            rw (receive, good, room)
              (other_side link source now options (expire s now) w
                (within (on_link link next) room))
      ]
]
