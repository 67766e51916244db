-- ===== src/Nat64/Selection/Promises.antt =====
-- The promises of the selector and the announcements of its decisions.
use snak_machine_rs.Base.{
  ℕ, zero, suc, ◌-◌, ◌%◌, ◌≤◌, min, ◌≡◌, refl, Bool, not, ◌&&◌, ◌||◌, Option, List, [], ◌∷◌, ◌++◌,
  arith, ltb, ◌==◌, any, length, Bool-cases, Option-cases, inl, inr, saturating_add,
}
use snak_machine_rs.Base.Maps.{Map, size, contains, lookup}
use snak_machine_rs.Base.Maps.Sizes.{size-retain-le}
use snak_machine_rs.Wire.Address.{Ipv6Addr}
use snak_machine_rs.Wire.Prefix.{Prefix}
use snak_machine_rs.Wire.Advertisement.{Link, stub}
use snak_machine_rs.Nat64.Observations.{prefix_key, live}
use snak_machine_rs.Nat64.Observations.Capacity
use snak_machine_rs.Nat64.Selection.{
  Readiness, Mode, infrastructure, Announcement, Decision, Promise, Selector, expire,
  announcement_failed, is_infrastructure, no_peer, remaining,
}
use snak_machine_rs.Nat64.Selection.Select.{
  Candidate, after, offer, candidates, is_active, select_local, decide, noted, select_ready,
  settled, select_active, keep_promises, select, names, is_nil, pd_bound,
}

-- Eight promises at most, and 32 observations on each link.
pub record IsBounded (s : Selector) : Type 0 where
  pub promises : size s.promised ≤ 8
  pub observations : Capacity.IsBounded s.observations

-- A lifetime that the option can hold.
abbrev pub IsWhole : Announcement → Type 0
IsWhole a = (a.pref64.lifetime % 8 ≡ 0) × (a.pref64.lifetime ≤ 65528)

abbrev pub AllWhole : List Announcement → Type 0
AllWhole [] = Unit
AllWhole (a ∷ as') = IsWhole a × AllWhole as'

append-AllWhole : (xs ys : List Announcement) → AllWhole xs → AllWhole ys → AllWhole (xs ++ ys)
append-AllWhole [] ys h k = k
append-AllWhole (x ∷ xs) ys h k = (h.0, append-AllWhole xs ys h.1 k)

remaining_lem : (until now : ℕ) → (remaining until now % 8 ≡ 0) × (remaining until now ≤ 65528)
unfolding remaining
remaining_lem until now = (omega arith, omega arith)

offer-AllWhole :
    (left slots now bound : ℕ) (promised : Map Prefix Promise) (route : Prefix → Option ℕ)
    (cs : List Candidate)
    → AllWhole (offer left slots now bound promised route cs).0
      × (length (offer left slots now bound promised route cs).0 ≤ left)
unfolding offer
offer-AllWhole left slots now bound promised route [] = (tt, omega arith)
offer-AllWhole zero slots now bound promised route (c ∷ cs) = (tt, omega arith)
offer-AllWhole (suc left) slots now bound promised route (c ∷ cs) =
    elim (Option-cases (route c.prefix)) [
      | inl unrouted ↦
          rw (offer, unrouted) (offer-AllWhole (suc left) slots now bound promised route cs)
      | inr (end, routed) ↦
          let life = remaining (min (min c.until end) bound) now in
          let whole = remaining_lem (min (min c.until end) bound) now in
          let skipped = offer-AllWhole (suc left) slots now bound promised route cs in
          let known = offer-AllWhole left slots now bound promised route cs in
          let fresh = offer-AllWhole left (slots - 1) now bound promised route cs in
          elim (Bool-cases (life == 0)) [
            | inl dead ↦ rw (offer, routed, dead) skipped
            | inr live ↦ elim (Bool-cases (contains c.prefix promised)) [
              | inl there ↦
                  rw (offer, routed, live, there) ((whole, known.0), omega (arith, known.1))
              | inr absent ↦ elim (Bool-cases (slots == 0)) [
                | inl full ↦ rw (offer, routed, live, absent, full) skipped
                | inr room ↦
                    rw (offer, routed, live, absent, room)
                      ((whole, fresh.0), omega (arith, fresh.1))
              ]
            ]
          ]
    ]

pub failed-IsBounded :
    (s : Selector) (mode : Mode) (now : ℕ)
    → IsBounded s
    → IsBounded (announcement_failed s mode now)
unfolding announcement_failed
failed-IsBounded s mode now v = elim (Bool-cases (is_infrastructure mode && not (no_peer s now))) [
  | inl peers ↦
      rw (announcement_failed, peers)
        (record { promises = v.promises; observations = v.observations })
  | inr alone ↦ rw (announcement_failed, alone) v
]

select_local-AllWhole :
    (s : Selector) (now : ℕ) (ready : Readiness) (end : ℕ) (reachable : Link → Ipv6Addr → Bool)
    → AllWhole (select_local s now ready end reachable).announcements
unfolding select_local
select_local-AllWhole s now ready end reachable =
    let is_peer = not (size (live s.observations stub now (reachable stub)) == 0) in
    elim (Bool-cases (is_peer && not (is_active now (lookup s.local s.promised)))) [
      | inl served ↦ rw (select_local, served) tt
      | inr alone ↦ elim (Bool-cases ready.translator) [
        | inr idle ↦ rw (select_local, alone, idle) tt
        | inl running ↦ elim (Option-cases (after now ready.ipv4)) [
          | inl down ↦ rw (select_local, alone, running, down) tt
          | inr (ipv4, up) ↦
              let until = min (min ipv4 end) (saturating_add now 1800000) in
              elim (Bool-cases (
                ltb 0 (remaining until now)
                && (contains s.local s.promised || ltb (size s.promised) 8))) [
                  | inl room ↦
                      rw (select_local, alone, running, up, room) (remaining_lem until now, tt)
                  | inr full ↦ rw (select_local, alone, running, up, full) tt
                ]
        ]
      ]
    ]

-- A selection keeps the bounds and announces whole lifetimes.
abbrev IsGood : Selector × Decision → Type 0
IsGood r = IsBounded r.0 × AllWhole r.1.announcements

decide-IsGood :
    (t : Selector) (found : List Announcement) (failed : Bool) (now : ℕ) (ready : Readiness)
    (end : ℕ) (reachable : Link → Ipv6Addr → Bool)
    → IsBounded t
    → AllWhole found
    → IsGood (decide t found failed now ready end reachable)
unfolding decide
decide-IsGood t found failed now ready end reachable v whole =
    elim (Bool-cases (is_nil found && (failed && t.suppressed))) [
      | inl waits ↦ rw (decide, waits) (v, tt)
      | inr goes ↦ elim (Bool-cases (is_nil found)) [
        | inr some_found ↦ rw (decide, some_found) (v, whole)
        | inl nothing ↦
            rw (decide, goes, nothing) (v, select_local-AllWhole t now ready end reachable)
      ]
    ]

noted-IsBounded :
    (s : Selector) (found : List Announcement) (failed : Bool) (now : ℕ)
    → IsBounded s
    → IsBounded (noted s found failed now)
unfolding noted
noted-IsBounded s found failed now v = elim (Bool-cases (is_nil found && failed)) [
  | inl bad ↦ rw (noted, bad) (failed-IsBounded s infrastructure now v)
  | inr good ↦ rw (noted, good) v
]

select_ready-IsGood :
    (s : Selector) (now : ℕ) (ready : Readiness) (end : ℕ) (reachable : Link → Ipv6Addr → Bool)
    (route : Prefix → Option ℕ)
    → IsBounded s
    → IsGood (select_ready s now ready end reachable route)
unfolding select_ready
select_ready-IsGood s now ready end reachable route v =
    elim (Option-cases (pd_bound s.policy.allow_without_pd (after now ready.pd))) [
      | inl undelegated ↦
          rw (select_ready, undelegated) (v, select_local-AllWhole s now ready end reachable)
      | inr (pd, delegated) ↦
          let offered =
            offer 8 (8 - size s.promised) now (min end pd) s.promised route
              (candidates s now reachable) in
          let whole =
            offer-AllWhole 8 (8 - size s.promised) now (min end pd) s.promised route
              (candidates s now reachable) in
          rw (select_ready, delegated)
            (decide-IsGood (noted s offered.0 offered.1 now) offered.0 offered.1 now ready end
              reachable (noted-IsBounded s offered.0 offered.1 now v) whole.0)
    ]

pub expire-IsBounded : (s : Selector) (now : ℕ) → IsBounded s → IsBounded (expire s now)
unfolding expire
expire-IsBounded s now v = record {
  promises =
      omega (arith, v.promises, size-retain-le (λ _ (p : Promise). ltb now p.until) s.promised);
  observations = Capacity.expire-IsBounded s.observations now v.observations;
}

settled-IsBounded : (s : Selector) (now : ℕ) → IsBounded s → IsBounded (settled s now)
unfolding settled
settled-IsBounded s now v =
    let w = expire-IsBounded s now v in
    elim (Bool-cases (no_peer (expire s now) now)) [
      | inl alone ↦
          rw (settled, alone) (record { promises = w.promises; observations = w.observations })
      | inr peers ↦ rw (settled, peers) w
    ]

select_active-IsGood :
    (s : Selector) (now : ℕ) (ready : Readiness) (reachable : Link → Ipv6Addr → Bool)
    (route : Prefix → Option ℕ)
    → IsBounded s
    → IsGood (select_active s now ready reachable route)
unfolding select_active settled
select_active-IsGood s now ready reachable route v =
    let t = settled s now in
    let w = settled-IsBounded s now v in
    elim (Bool-cases t.policy.enabled) [
      | inr off ↦ rw (select_active, off) (w, tt)
      | inl on ↦ elim (Option-cases (after now ready.stub)) [
        | inl down ↦ rw (select_active, on, down) (w, tt)
        | inr (end, up) ↦ elim (Bool-cases t.suppressed) [
          | inl waits ↦ rw (select_active, on, up, waits) (w, tt)
          | inr goes ↦
              rw (select_active, on, up, goes)
                (select_ready-IsGood t now ready end reachable route w)
        ]
      ]
    ]

keep_promises-AllWhole :
    (s : Selector) (now : ℕ) (ready : Readiness) (m : Map Prefix Promise) (d : Decision)
    → AllWhole d.announcements
    → AllWhole (keep_promises s now ready m d).announcements
unfolding keep_promises
keep_promises-AllWhole s now ready [] d h = h
keep_promises-AllWhole s now ready ((p, promise) ∷ m) d h =
    elim (Bool-cases (any (names p) d.announcements)) [
      | inl named ↦ rw (keep_promises, named) (keep_promises-AllWhole s now ready m d h)
      | inr absent ↦ elim (Bool-cases promise.withdrawn) [
        | inl gone ↦ rw (keep_promises, absent, gone) (keep_promises-AllWhole s now ready m _ h)
        | inr running ↦
            rw (keep_promises, absent, running)
              (keep_promises-AllWhole s now ready m _
                (append-AllWhole d.announcements _ h ((refl, omega arith), tt)))
      ]
    ]

-- A selection keeps the bounds. Every lifetime that it announces is a multiple of eight seconds of at most
-- 65528, which the PREF64 option holds without rounding.
pub select-AllWhole :
    (s : Selector) (now : ℕ) (ready : Readiness) (reachable : Link → Ipv6Addr → Bool)
    (route : Prefix → Option ℕ)
    → IsBounded s
    → IsBounded (select s now ready reachable route).0
      × AllWhole (select s now ready reachable route).1.announcements
unfolding select
select-AllWhole s now ready reachable route v =
    let (w, whole) = select_active-IsGood s now ready reachable route v in
    let (t, active) = select_active s now ready reachable route in
    (
      record { promises = w.promises; observations = w.observations },
      keep_promises-AllWhole t now ready t.promised active whole,
    )
