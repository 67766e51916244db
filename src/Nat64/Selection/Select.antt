-- ===== src/Nat64/Selection/Select.antt =====
-- `select` and `select_active` of src/nat64/selection.rs.
use snak_machine_rs.Base.{
  ℕ, zero, suc, ◌-◌, ◌/◌, min, Bool, true, false, ◌&&◌, ◌||◌, not, Option, none, some, List, [],
  ◌∷◌, ◌++◌, map, ltb, ◌==◌, if◌then◌else◌, any, saturating_add, u32_max, u64_max,
}
use snak_machine_rs.Base.Maps.{Map, size, lookup, contains}
use snak_machine_rs.Wire.Address.{Ipv6Addr}
use snak_machine_rs.Wire.Prefix.{Prefix, eq}
use snak_machine_rs.Wire.Rio.{Rio}
use snak_machine_rs.Wire.Preference.{medium}
use snak_machine_rs.Wire.Advertisement.{Link, ail, stub}
use snak_machine_rs.Nat64.Observations.{prefix_key, live}
use snak_machine_rs.Nat64.Selection.{
  Readiness, Mode, disabled, none_usable, local, infrastructure, peer, Source, local_source,
  infrastructure_source, configured_source, is_local, Announcement, Reason,
  administratively_disabled, stub_not_ready, admission_failed, history_full, infrastructure_usable,
  peer_provides, local_ready, no_path, Decision, Promise, Selector, expire, no_peer,
  announcement_failed, remaining,
}

-- `filter(|t| *t > now)`.
abbrev pub after : ℕ → Option ℕ → Option ℕ
after now none = none
after now (some t) = if ltb now t then some t else none

abbrev pub empty : Mode → Reason → Decision
empty mode reason = record { mode = mode; announcements = []; routes = []; reason = reason }

-- A prefix with the end of its evidence.
pub record Candidate : Type 0 where
  pub prefix : Prefix
  pub until : ℕ
  pub source : Source

-- The loop over the candidates: `take` of 8, with what is left of it, and the slots for prefixes that are
-- not promised. It tells if a prefix found no slot.
unfoldable pub offer :
    ℕ
    → ℕ
    → ℕ
    → ℕ
    → Map Prefix Promise
    → (Prefix → Option ℕ)
    → List Candidate
    → List Announcement × Bool
unfolding remaining
offer left slots now bound promised route [] = ([], false)
offer zero slots now bound promised route (c ∷ cs) = ([], false)
offer (suc left) slots now bound promised route (c ∷ cs) = elim (route c.prefix) [
  | none ↦ offer (suc left) slots now bound promised route cs
  | some end ↦
      let lifetime = remaining (min (min c.until end) bound) now in
      let one : Announcement = record {
        pref64 = record { prefix = c.prefix; lifetime = lifetime };
        source = c.source;
      } in
      let skipped = offer (suc left) slots now bound promised route cs in
      let known = offer left slots now bound promised route cs in
      let new = offer left (slots - 1) now bound promised route cs in
      if lifetime == 0
      then skipped
      else if contains c.prefix promised
      then (one ∷ known.0, known.1)
      else if slots == 0
      then (skipped.0, true)
      else (one ∷ new.0, new.1)
]

abbrev pub route_of : Announcement → Rio
route_of a = record { prefix = a.pref64.prefix; preference = medium; lifetime = a.pref64.lifetime }

-- The configured prefix, or those of reachable routers on the AIL.
unfoldable pub candidates : Selector → ℕ → (Link → Ipv6Addr → Bool) → List Candidate
unfolding live
candidates s now reachable = elim s.policy.infrastructure [
  | some p ↦ record { prefix = p; until = u64_max; source = configured_source } ∷ []
  | none ↦
      map (λ (e : Prefix × ℕ). record { prefix = e.0; until = e.1; source = infrastructure_source })
        (live s.observations ail now (reachable ail))
]

-- The local prefix is promised and not withdrawn.
abbrev pub is_active : ℕ → Option Promise → Bool
is_active now none = false
is_active now (some p) = is_local p.source && ltb now p.until && not p.withdrawn

-- The end of `select_active`, behind the infrastructure.
unfoldable pub select_local : Selector → ℕ → Readiness → ℕ → (Link → Ipv6Addr → Bool) → Decision
unfolding remaining live
select_local s now ready end reachable =
    let is_peer = not (size (live s.observations stub now (reachable stub)) == 0) in
    let nothing = empty none_usable no_path in
    if is_peer && not (is_active now (lookup s.local s.promised))
    then empty peer peer_provides
    else if not ready.translator
    then nothing
    else elim (after now ready.ipv4) [
      | none ↦ nothing
      | some ipv4 ↦
          let lifetime = remaining (min (min ipv4 end) (saturating_add now 1800000)) now in
          let one : Announcement = record {
            pref64 = record { prefix = s.local; lifetime = lifetime };
            source = local_source;
          } in
          if ltb 0 lifetime && (contains s.local s.promised || ltb (size s.promised) 8)
          then record {
            mode = local;
            announcements = one ∷ [];
            routes = route_of one ∷ [];
            reason = local_ready;
          }
          else nothing
    ]

-- The end of the delegated prefix bounds an announcement, unless it is not asked for.
abbrev pub pd_bound : Bool → Option ℕ → Option ℕ
pd_bound true pd = some u64_max
pd_bound false pd = pd

abbrev pub is_nil : List Announcement → Bool
is_nil [] = true
is_nil (_ ∷ _) = false

-- The decision after the candidates: the announcements that were found, or the local prefix.
unfoldable pub decide :
    Selector
    → List Announcement
    → Bool
    → ℕ
    → Readiness
    → ℕ
    → (Link → Ipv6Addr → Bool)
    → Selector × Decision
decide t found failed now ready end reachable =
    if is_nil found && (failed && t.suppressed)
    then (t, empty peer history_full)
    else if not (is_nil found)
    then (
      t,
      record {
        mode = infrastructure;
        announcements = found;
        routes = map route_of found;
        reason = infrastructure_usable;
      },
    )
    else (t, select_local t now ready end reachable)

-- A prefix that found no slot, with none that did, is a failed announcement.
unfoldable pub noted : Selector → List Announcement → Bool → ℕ → Selector
noted s found failed now =
    if is_nil found && failed then announcement_failed s infrastructure now else s

-- The selection behind the readiness of the stub link, which ends at `end`.
unfoldable pub select_ready :
    Selector
    → ℕ
    → Readiness
    → ℕ
    → (Link → Ipv6Addr → Bool)
    → (Prefix → Option ℕ)
    → Selector × Decision
select_ready s now ready end reachable route =
    elim (pd_bound s.policy.allow_without_pd (after now ready.pd)) [
      | none ↦ (s, select_local s now ready end reachable)
      | some pd ↦
          let (found, failed) =
            offer 8 (8 - size s.promised) now (min end pd) s.promised route
              (candidates s now reachable) in
          decide (noted s found failed now) found failed now ready end reachable
    ]

-- The state without what is over; without a peer in sight nothing is suppressed.
unfoldable pub settled : Selector → ℕ → Selector
settled s now = let t = expire s now in if no_peer t now then record t { suppressed = false } else t

unfoldable pub select_active :
    Selector → ℕ → Readiness → (Link → Ipv6Addr → Bool) → (Prefix → Option ℕ) → Selector × Decision
select_active s now ready reachable route =
    let t = settled s now in
    if not t.policy.enabled
    then (t, empty disabled administratively_disabled)
    else elim (after now ready.stub) [
      | none ↦ (t, empty none_usable stub_not_ready)
      | some end ↦
          if t.suppressed
          then (t, empty peer admission_failed)
          else select_ready t now ready end reachable route
    ]

abbrev pub or_now : Option ℕ → ℕ → ℕ
or_now none now = now
or_now (some t) now = t

-- How long the route of a promised prefix stays: of a local one while its translator and paths do.
unfoldable pub route_life : Selector → ℕ → Readiness → Promise → ℕ
route_life s now ready p =
    if s.policy.enabled && is_local p.source && ready.translator
    then (min (min p.until (or_now ready.ipv4 now)) (or_now ready.stub now) - now) / 1000
    else 0

abbrev pub names : Prefix → Announcement → Bool
names p a = eq a.pref64.prefix p

-- The loop of `select` over the promises: a prefix that is not announced is withdrawn once, and keeps its
-- route as long as it is translated.
unfoldable pub keep_promises : Selector → ℕ → Readiness → Map Prefix Promise → Decision → Decision
unfolding route_life
keep_promises s now ready [] d = d
keep_promises s now ready ((p, promise) ∷ m) d =
    let gone : Announcement = record {
      pref64 = record { prefix = p; lifetime = 0 };
      source = promise.source;
    } in
    let route : Rio = record {
      prefix = p;
      preference = medium;
      lifetime = min (route_life s now ready promise) u32_max;
    } in
    let d' = record d {
      announcements = if promise.withdrawn then d.announcements else d.announcements ++ gone ∷ [];
      routes = d.routes ++ route ∷ [];
    } in
    keep_promises s now ready m (if any (names p) d.announcements then d else d')

unfoldable pub select :
    Selector → ℕ → Readiness → (Link → Ipv6Addr → Bool) → (Prefix → Option ℕ) → Selector × Decision
unfolding select_active keep_promises
select s now ready reachable route =
    let (t, active) = select_active s now ready reachable route in
    let d = keep_promises t now ready t.promised active in
    (record t { status = (d.mode, d.reason) }, d)
