-- ===== src/Examples/Selection.antt =====
-- Theorems on the code of src/nat64/selection.rs at concrete inputs.
use snak_machine_rs.Base.{◌≡◌, refl, true, false, none, some, List, [], ◌∷◌, ok}
use snak_machine_rs.Wire.Prefix
use snak_machine_rs.Wire.Prefix.{Prefix}
use snak_machine_rs.Nat64.Selection.{
  Policy, Readiness, Selector, disabled, none_usable, awaiting_readiness, local_source, new,
  default_policy,
}
use snak_machine_rs.Nat64.Selection.Select.{select}
use snak_machine_rs.Nat64.Selection.Promises.{IsBounded, AllWhole, select-AllWhole}
use snak_machine_rs.Nat64.Selection.Run.{
  Event, selected, configured, run, new-IsBounded, selector_run-IsBounded,
}
use snak_machine_rs.Nat64.Selection.Disabled.{NoneAnnounced, NoneRouted, select_disabled}

abbrev site : Prefix
site = record { address = 0xfd00_0000_0000_0000_0000_0000_0000_0000; length = 48 }

abbrev local_prefix : Prefix
local_prefix = record { address = 0xfd00_0000_0000_ffff_0000_0000_0000_0000; length = 96 }

abbrev created : Selector
created = record {
  policy = default_policy;
  observations = [];
  local = local_prefix;
  promised = [];
  suppressed = false;
  status = (none_usable, awaiting_readiness);
  blocked = [];
}

created_run : new site ≡ ok created
unfolding new Prefix.new
created_run = refl

abbrev ready : Readiness
ready = record { pd = none; ipv4 = some 900000; stub = some 900000; translator = true }

select-AllWhole_example :
    IsBounded (select created 1000 ready (λ l a. true) (λ p. none)).0
    × AllWhole (select created 1000 ready (λ l a. true) (λ p. none)).1.announcements
select-AllWhole_example =
    select-AllWhole created 1000 ready (λ l a. true) (λ p. none)
      (new-IsBounded site created created_run)

abbrev off : Policy
off = record { enabled = false; infrastructure = none; allow_without_pd = false }

abbrev events : List Event
events = selected 1000 ready (λ l a. true) (λ p. none) ∷ configured off ∷ []

selector_run-IsBounded_example : IsBounded (run events created)
selector_run-IsBounded_example = selector_run-IsBounded site created events created_run

-- A disabled selector with a promise that runs.
abbrev promising : Selector
promising = record created {
  policy = off;
  promised =
      (local_prefix, record { source = local_source; until = 500000; withdrawn = false }) ∷ [];
}

select_disabled_example :
    NoneAnnounced (select promising 1000 ready (λ l a. true) (λ p. none)).1.announcements
    × NoneRouted (select promising 1000 ready (λ l a. true) (λ p. none)).1.routes
    × ((select promising 1000 ready (λ l a. true) (λ p. none)).1.mode ≡ disabled)
select_disabled_example = select_disabled promising 1000 ready (λ l a. true) (λ p. none) refl
