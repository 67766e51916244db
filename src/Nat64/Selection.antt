-- ===== src/Nat64/Selection.antt =====
-- src/nat64/selection.rs: which translation prefixes are advertised.
-- The tests of the caller on routers and routes are functions.

pub mod Select
pub mod Promises
pub mod Run
pub mod Disabled
use snak_machine_rs.Base.{
  ℕ, zero, suc, ◌+◌, ◌-◌, ◌*◌, ◌/◌, ◌%◌, min, ◌≡◌, refl, Bool, true, false, ◌&&◌, ◌||◌, not, Option,
  none, some, List, [], ◌∷◌, ◌++◌, map, ltb, leb, ◌==◌, if◌then◌else◌, any, keep, is_some, length,
  Byte, Bytes, saturating_add, u32_max, u64_max, Io, ok, err, invalid_data, would_block, ◌>>=◌,
  ◌>>◌, fail_if,
}
use snak_machine_rs.Base.Maps.{Map, size, retain, min_value, lookup, contains, insert}
use snak_machine_rs.Wire.Address.{Ipv6Addr}
use snak_machine_rs.Wire.Prefix
use snak_machine_rs.Wire.Prefix.{Prefix, eq, is_just, ula}
use snak_machine_rs.Wire.Pref64.{Pref64}
use snak_machine_rs.Wire.Rio.{Rio}
use snak_machine_rs.Wire.Preference.{medium}
use snak_machine_rs.Wire.Advertisement.{Link, ail, stub}
use snak_machine_rs.Nat64.Observations
use snak_machine_rs.Nat64.Observations.{Observations, Observed, prefix_key, usable, live}

pub record Policy : Type 0 where
  pub enabled : Bool
  pub infrastructure : Option Prefix
  pub allow_without_pd : Bool

abbrev pub default_policy : Policy
default_policy = record { enabled = true; infrastructure = none; allow_without_pd = false }

abbrev pub option_usable : Option Prefix → Bool
option_usable none = true
option_usable (some p) = usable p

unfoldable pub validate : Policy → Io (Unit {0})
unfolding usable
validate p = fail_if (not (option_usable p.infrastructure)) invalid_data

pub record Readiness : Type 0 where
  pub pd : Option ℕ
  pub ipv4 : Option ℕ
  pub stub : Option ℕ
  pub translator : Bool

pub data Mode : Type 0 where
  disabled none_usable local infrastructure peer : Mode

pub data Source : Type 0 where
  local_source infrastructure_source configured_source : Source

abbrev pub is_local : Source → Bool
is_local local_source = true
is_local infrastructure_source = false
is_local configured_source = false

pub record Announcement : Type 0 where
  pub pref64 : Pref64
  pub source : Source

-- The texts of the reason.
pub data Reason : Type 0 where
  awaiting_readiness administratively_disabled stub_not_ready admission_failed history_full : Reason
  infrastructure_usable peer_provides local_ready no_path : Reason

pub record Decision : Type 0 where
  pub mode : Mode
  pub announcements : List Announcement
  pub routes : List Rio
  pub reason : Reason

-- The source of a promised prefix, the end of its promise, and if it was withdrawn.
pub record Promise : Type 0 where
  pub source : Source
  pub until : ℕ
  pub withdrawn : Bool

-- The blocked prefixes are a set.
pub record Selector : Type 0 where
  pub policy : Policy
  pub observations : Observations
  pub local : Prefix
  pub promised : Map Prefix Promise
  pub suppressed : Bool
  pub status : Mode × Reason
  pub blocked : Map Prefix (Unit {0})

-- The prefix of 96 bits in the last subnet of the site.
unfoldable pub local_of : Prefix → Io Prefix
unfolding ula Prefix.new
local_of site =
    if not (site.length == 48) || not (ula site) || not (is_just site (Prefix.new site.address 48))
    then err invalid_data
    else ok (record { address = site.address + 0xffff * 0x1_0000_0000_0000_0000; length = 96 })

unfoldable pub new : Prefix → Io Selector
unfolding local_of
new site = local_of site >>= λ p. ok (record {
  policy = default_policy;
  observations = [];
  local = p;
  promised = [];
  suppressed = false;
  status = (none_usable, awaiting_readiness);
  blocked = [];
})

abbrev pub current : ℕ → Map Prefix Promise → Map Prefix Promise
current now m = retain (λ _ (p : Promise). ltb now p.until) m

unfoldable pub expire : Selector → ℕ → Selector
unfolding Observations.expire
expire s now = record s {
  observations = Observations.expire s.observations now;
  promised = current now s.promised;
}

unfoldable pub rotate_local : Selector → Prefix → ℕ → Selector × Io (Unit {0})
unfolding local_of expire
rotate_local s site now = elim (local_of site) [
  | err x ↦ (s, err x)
  | ok p ↦
      let t = expire s now in
      if not (eq p t.local) && not (contains p t.promised) && size t.promised == 8
      then (t, err would_block)
      else (record t { local = p }, ok tt)
]

-- The local prefix, and the older ones whose promises run.
unfoldable pub local_prefixes : Selector → ℕ → List Prefix
local_prefixes s now =
    s.local
    ∷ map (λ e. e.0)
        (keep (λ e. not (eq e.0 s.local) && is_local e.1.source && ltb now e.1.until) s.promised)

abbrev pub option_equal : Option Prefix → Option Prefix → Bool
option_equal none none = true
option_equal none (some q) = false
option_equal (some p) none = false
option_equal (some p) (some q) = eq p q

abbrev same_bool : Bool → Bool → Bool
same_bool true b = b
same_bool false b = not b

unfoldable pub policy_equal : Policy → Policy → Bool
policy_equal p q =
    same_bool p.enabled q.enabled
    && option_equal p.infrastructure q.infrastructure
    && same_bool p.allow_without_pd q.allow_without_pd

-- `extend` of a set.
unfoldable pub extend : List Prefix → Map Prefix (Unit {0}) → Map Prefix (Unit {0})
extend [] m = m
extend (p ∷ ps) m = extend ps (insert p tt m)

abbrev pub to_list : Option Prefix → List Prefix
to_list none = []
to_list (some p) = p ∷ []

abbrev pub observed_prefixes : Selector → List Prefix
observed_prefixes s = map (λ (e : Observed × ℕ). e.0.prefix) s.observations

-- The observed prefixes are added first, and stay when there is no room for the others.
unfoldable pub blocked_first : Selector → Map Prefix (Unit {0})
unfolding extend
blocked_first s = extend (observed_prefixes s) s.blocked

-- All prefixes that may still be in use: observed, promised and configured.
unfoldable pub blocked_all : Selector → Policy → Map Prefix (Unit {0})
unfolding extend blocked_first
blocked_all s policy = extend (to_list policy.infrastructure) (
    extend (to_list s.policy.infrastructure) (
      extend (map (λ (e : Prefix × Promise). e.0) s.promised)
        (extend (observed_prefixes s) (blocked_first s))))

unfoldable pub configure : Selector → Policy → Selector × Io (Unit {0})
unfolding validate policy_equal
configure s policy = elim (validate policy) [
  | err x ↦ (s, err x)
  | ok done ↦
      if policy_equal s.policy policy
      then (record s { policy = policy }, ok tt)
      else if policy.enabled
      then (
        record s { blocked = []; observations = []; suppressed = false; policy = policy },
        ok tt,
      )
      else if ltb 74 (size (blocked_all s policy))
      then (record s { blocked = blocked_first s }, err would_block)
      else (
        record s {
          blocked = blocked_all s policy;
          observations = [];
          suppressed = false;
          policy = policy;
        },
        ok tt,
      )
]

unfoldable pub blocked : Selector → Ipv6Addr → Bool
unfolding Prefix.contains
blocked s destination =
    not s.policy.enabled
    && (Prefix.contains s.local destination || any (λ e. Prefix.contains e.0 destination) s.blocked)

-- A local prefix as `new` builds it.
unfoldable pub is_foreign_local : Prefix → Source → Bool
unfolding ula
is_foreign_local p source =
    is_local source
    && (not (p.length == 96)
        || not (ula p)
        || not (p.address / 0x1_0000_0000_0000_0000 % 0x1_0000 == 0xffff)
        || not (p.address / 0x1_0000_0000 % 0x1_0000_0000 == 0))

unfoldable pub restore_promise : Selector → Prefix → Promise → Selector × Io (Unit {0})
unfolding usable is_foreign_local
restore_promise s p promise =
    if not (usable p)
      || is_foreign_local p promise.source
      || size s.promised == 8
      || contains p s.promised
    then (s, err invalid_data)
    else (record s { promised = insert p promise s.promised }, ok tt)

unfoldable pub receive : Selector → Link → Bytes → ℕ → Selector × Io (Unit {0})
unfolding Observations.receive
receive s link packet now =
    let (observations, answer) = Observations.receive s.observations link packet now in
    if not s.policy.enabled then (s, ok tt) else (record s { observations = observations }, answer)

unfoldable pub link_lost : Selector → Link → Selector
unfolding Observations.link_lost
link_lost s link = record s { observations = Observations.link_lost s.observations link }

abbrev pub earliest : Option ℕ → Option ℕ → Option ℕ
earliest none b = b
earliest (some a) none = some a
earliest (some a) (some b) = some (min a b)

unfoldable pub next_deadline : Selector → Option ℕ
unfolding Observations.next_deadline
next_deadline s =
    earliest (Observations.next_deadline s.observations)
      (min_value (λ (p : Promise). p.until) s.promised)

abbrev pub withdrawn_at : Prefix → Option Promise → Map Prefix Promise → Map Prefix Promise
withdrawn_at p none m = m
withdrawn_at p (some promise) m = insert p (record promise { withdrawn = true }) m

-- The loop over the announcements that were sent.
unfoldable pub record_all : List Announcement → ℕ → Map Prefix Promise → Io (Map Prefix Promise)
unfolding usable
record_all [] now m = ok m
record_all (a ∷ as') now m =
    let p = a.pref64.prefix in
    let promise : Promise = record {
      source = a.source;
      until = saturating_add now (min a.pref64.lifetime 65528 / 8 * 8 * 1000);
      withdrawn = false;
    } in
    let rest =
      record_all as' now
        (if a.pref64.lifetime == 0 then withdrawn_at p (lookup p m) m else insert p promise m) in
    if not (usable p) then err invalid_data else rest

unfoldable pub advertised : Selector → List Announcement → ℕ → Selector × Io (Unit {0})
unfolding record_all
advertised s announcements now =
    if ltb 8 (length announcements)
    then (s, err invalid_data)
    else elim (record_all announcements now (current now s.promised)) [
      | err x ↦ (s, err x)
      | ok next ↦
          if ltb 8 (size next) then (s, err would_block) else (record s { promised = next }, ok tt)
    ]

abbrev is_infrastructure : Mode → Bool
is_infrastructure infrastructure = true
is_infrastructure disabled = false
is_infrastructure none_usable = false
is_infrastructure local = false
is_infrastructure peer = false

-- No peer on the stub link is seen, reachable or not.
abbrev pub no_peer : Selector → ℕ → Bool
no_peer s now = size (live s.observations stub now (λ a. true)) == 0

unfoldable pub announcement_failed : Selector → Mode → ℕ → Selector
unfolding live
announcement_failed s mode now =
    if is_infrastructure mode && not (no_peer s now) then record s { suppressed = true } else s

-- `remaining`: whole seconds, in steps of eight, up to the maximum of the option.
unfoldable pub remaining : ℕ → ℕ → ℕ
remaining until now = min ((until - now) / 1000) 65528 / 8 * 8
