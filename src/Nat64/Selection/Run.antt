-- ===== src/Nat64/Selection/Run.antt =====
-- Any sequence of calls of the public operations of `Selector`, from its creation on.
use snak_machine_rs.Base.{
  ℕ, ◌≡◌, Bool, not, ◌&&◌, ◌||◌, Option, List, [], ◌∷◌, arith, ltb, ◌==◌, length, Bytes, Bool-cases,
  Result-cases, inl, inr, ok,
}
use snak_machine_rs.Base.Maps.{count, size, contains}
use snak_machine_rs.Base.Maps.Sizes.{size-insert}
use snak_machine_rs.Wire.Address.{Ipv6Addr}
use snak_machine_rs.Wire.Prefix.{Prefix, eq}
use snak_machine_rs.Wire.Advertisement.{Link}
use snak_machine_rs.Nat64.Observations.{prefix_key, usable}
use snak_machine_rs.Nat64.Observations.Capacity
use snak_machine_rs.Nat64.Selection.{
  Policy, Readiness, Mode, Announcement, Promise, Selector, new, local_of, current, expire,
  rotate_local, configure, is_foreign_local, restore_promise, receive, link_lost, advertised,
  record_all, announcement_failed, validate, policy_equal, blocked_all,
}
use snak_machine_rs.Nat64.Selection.Select.{select}
use snak_machine_rs.Nat64.Selection.Promises.{
  IsBounded, expire-IsBounded, failed-IsBounded, select-AllWhole,
}

advertised-IsBounded :
    (s : Selector) (as' : List Announcement) (now : ℕ)
    → IsBounded s
    → IsBounded (advertised s as' now).0
unfolding advertised
advertised-IsBounded s as' now v = elim (Bool-cases (ltb 8 (length as'))) [
  | inl many ↦ rw (advertised, many) v
  | inr few ↦ elim (Result-cases (record_all as' now (current now s.promised))) [
    | inl (x, bad) ↦ rw (advertised, few, bad) v
    | inr (next, good) ↦ elim (Bool-cases (ltb 8 (size next))) [
      | inl full ↦ rw (advertised, few, good, full) v
      | inr room ↦
          rw (advertised, few, good, room)
            (record { promises = ground (arith, room); observations = v.observations })
    ]
  ]
]

restore_promise-IsBounded :
    (s : Selector) (p : Prefix) (promise : Promise)
    → IsBounded s
    → IsBounded (restore_promise s p promise).0
unfolding restore_promise
restore_promise-IsBounded s p promise v =
    elim (Bool-cases (
      not (usable p)
      || is_foreign_local p promise.source
      || size s.promised == 8
      || contains p s.promised)) [
        | inl refused ↦ rw (restore_promise, refused) v
        | inr good ↦
            let sizes = size-insert p promise s.promised in
            rw (restore_promise, good)
              (record {
                promises = ground (arith, good, sizes, v.promises);
                observations = v.observations;
              })
      ]

rotate_local-IsBounded :
    (s : Selector) (site : Prefix) (now : ℕ) → IsBounded s → IsBounded (rotate_local s site now).0
unfolding rotate_local
rotate_local-IsBounded s site now v =
    let w = expire-IsBounded s now v in
    elim (Result-cases (local_of site)) [
      | inl (x, bad) ↦ rw (rotate_local, bad) v
      | inr (p, good) ↦
          let t = expire s now in
          elim (Bool-cases
            (not (eq p t.local) && not (contains p t.promised) && size t.promised == 8)) [
              | inl full ↦ rw (rotate_local, good, full) w
              | inr room ↦
                  rw (rotate_local, good, room)
                    (record { promises = w.promises; observations = w.observations })
            ]
    ]

-- Before anything was received.
none_seen : Capacity.IsBounded []
unfolding count
none_seen = record { on_ail = omega arith; on_stub = omega arith }

configure-IsBounded : (s : Selector) (p : Policy) → IsBounded s → IsBounded (configure s p).0
unfolding configure size blocked_all
configure-IsBounded s p v = elim (Result-cases (validate p)) [
  | inl (x, bad) ↦ rw (configure, bad) v
  | inr (done, good) ↦ elim (Bool-cases (policy_equal s.policy p)) [
    | inl same ↦
        rw (configure, good, same) (record { promises = v.promises; observations = v.observations })
    | inr other ↦ elim (Bool-cases p.enabled) [
      | inl on ↦
          rw (configure, good, other, on)
            (record { promises = v.promises; observations = none_seen })
      | inr off ↦ elim (Bool-cases (ltb 74 (size (blocked_all s p)))) [
        | inl full ↦
            rw (configure, good, other, off, full)
              (record { promises = v.promises; observations = v.observations })
        | inr room ↦
            rw (configure, good, other, off, room)
              (record { promises = v.promises; observations = none_seen })
      ]
    ]
  ]
]

receive-IsBounded :
    (s : Selector) (link : Link) (b : Bytes) (now : ℕ)
    → IsBounded s
    → IsBounded (receive s link b now).0
unfolding receive
receive-IsBounded s link b now v = elim (Bool-cases s.policy.enabled) [
  | inr off ↦ rw (receive, off) (record { promises = v.promises; observations = v.observations })
  | inl on ↦
      rw (receive, on)
        (record {
          promises = v.promises;
          observations = Capacity.receive-IsBounded s.observations link b now v.observations;
        })
]

link_lost-IsBounded : (s : Selector) (link : Link) → IsBounded s → IsBounded (link_lost s link)
unfolding link_lost
link_lost-IsBounded s link v = record {
  promises = v.promises;
  observations = Capacity.link_lost-IsBounded s.observations link v.observations;
}

pub new-IsBounded : (site : Prefix) (s : Selector) → new site ≡ ok s → IsBounded s
unfolding new size
new-IsBounded site s e = elim (Result-cases (local_of site)) [
  | inl (x, bad) ↦ absurd (ground (arith, bad, e))
  | inr (p, good) ↦
      let promises : s.promised ≡ [] = ground (arith, good, e) in
      let observations : s.observations ≡ [] = ground (arith, good, e) in
      record { promises = rw promises (omega arith); observations = rw observations none_seen }
]

-- A call with its arguments.
pub data Event : Type 0 where
  expired : ℕ → Event
  rotated : Prefix → ℕ → Event
  configured : Policy → Event
  restored : Prefix → Promise → Event
  received : Link → Bytes → ℕ → Event
  lost : Link → Event
  sent : List Announcement → ℕ → Event
  failed : Mode → ℕ → Event
  selected : ℕ → Readiness → (Link → Ipv6Addr → Bool) → (Prefix → Option ℕ) → Event

-- The state after a call.
unfoldable pub step : Event → Selector → Selector
step (expired now) s = expire s now
step (rotated site now) s = (rotate_local s site now).0
step (configured p) s = (configure s p).0
step (restored p promise) s = (restore_promise s p promise).0
step (received link b now) s = (receive s link b now).0
step (lost link) s = link_lost s link
step (sent as' now) s = (advertised s as' now).0
step (failed mode now) s = announcement_failed s mode now
step (selected now ready reachable route) s = (select s now ready reachable route).0

unfoldable pub run : List Event → Selector → Selector
unfolding step
run [] s = s
run (e ∷ es) s = run es (step e s)

step-IsBounded : (e : Event) (s : Selector) → IsBounded s → IsBounded (step e s)
unfolding step
step-IsBounded (expired now) s v = expire-IsBounded s now v
step-IsBounded (rotated site now) s v = rotate_local-IsBounded s site now v
step-IsBounded (configured p) s v = configure-IsBounded s p v
step-IsBounded (restored p promise) s v = restore_promise-IsBounded s p promise v
step-IsBounded (received link b now) s v = receive-IsBounded s link b now v
step-IsBounded (lost link) s v = link_lost-IsBounded s link v
step-IsBounded (sent as' now) s v = advertised-IsBounded s as' now v
step-IsBounded (failed mode now) s v = failed-IsBounded s mode now v
step-IsBounded (selected now ready reachable route) s v =
    (select-AllWhole s now ready reachable route v).0

run_from : (es : List Event) (s : Selector) → IsBounded s → IsBounded (run es s)
unfolding run
run_from [] s v = v
run_from (e ∷ es) s v = run_from es (step e s) (step-IsBounded e s v)

-- After any sequence of calls on a selector that was created, whatever each answered, there are at most
-- eight promised prefixes, and 32 observations on each link.
pub selector_run-IsBounded :
    (site : Prefix) (s : Selector) (es : List Event) → new site ≡ ok s → IsBounded (run es s)
selector_run-IsBounded site s es e = run_from es s (new-IsBounded site s e)
