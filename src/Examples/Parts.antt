-- ===== src/Examples/Parts.antt =====
-- Theorems on the clock, the scheduler, the port registry and the queues at concrete inputs.
use snak_machine_rs.Base.{
  ℕ, ◌+◌, ◌*◌, ◌/◌, ◌≤◌, ◌<◌, ◌≡◌, refl, ◌≢◌, ◌↔◌, u64_max, ◌⊎◌, true, false, not, none, some, List,
  [], ◌∷◌, ◌++◌, arith, ok, length, any, if◌then◌else◌,
}
use snak_machine_rs.Base.Maps.{lookup, contains, insert, place, pair_key}
use snak_machine_rs.Time.{until, word, sample, Rng}
use snak_machine_rs.Time.Random.{sample_uniform}
use snak_machine_rs.Scheduler.{RaScheduler, sent, due, changed}
use snak_machine_rs.Scheduler.Spacing.{
  IsSpaced, due_after_sent, sent_window, apply, apply_all, changes,
}
use snak_machine_rs.Ports.{locally, PortKey, PortState, empty, enter, claim, drop_lease}
use snak_machine_rs.Ports.Accounting.{
  IsCounted, empty-IsCounted, claim-IsCounted, claim_lem, drop_lease_lem,
}
use snak_machine_rs.Wire.Advertisement.{ail}
use snak_machine_rs.OnLink.{
  LinkPrefix, link_prefix_key, link_prefix_equal, OnLink, OnLinkTable, get, insert_entry, set_valid,
}
use snak_machine_rs.OnLink.View.{stored, get-insert}
use snak_machine_rs.Families.{AilFrames, no_frames, push}
use snak_machine_rs.Families.Queue.{IsBounded, total, push_lem}
use snak_machine_rs.Nat64.Tcp.{both_fin}
use snak_machine_rs.Nat64.Tcp.States.{Segment, run, opened, is_syn, is_fin, run-opened}
use snak_machine_rs.Nat64.Icmp.{v4_to_v6, unreachable_v4_to_v6, v6_to_v4}
use snak_machine_rs.Nat64.Icmp.Translation.{v4_to_v6_back, kind_of}

sample_uniform_example :
    (((rest : Rng) → sample 3 (word 6 ∷ rest) ≡ ok (2, rest))
      ↔ ((q : ℕ) × (q < u64_max / (3 + 1)) × (6 ≡ q * (3 + 1) + 2)))
    × (u64_max / (3 + 1) * (3 + 1) ≤ 6 → (rest : Rng) → sample 3 (word 6 ∷ rest) ≡ sample 3 rest)
sample_uniform_example = sample_uniform 3 2 6 (omega arith) (omega arith)

claim-IsCounted_example : IsCounted (claim empty 17 5353 locally).0
claim-IsCounted_example = claim-IsCounted empty 17 5353 locally empty-IsCounted

abbrev one_lease : PortState
one_lease = record {
  entries = ((17, 5353), (1, locally)) ∷ [];
  locals = 1;
  translations = 0;
  next = 1;
}

claimed : claim empty 17 5353 locally ≡ (one_lease, ok 1)
unfolding claim contains lookup empty enter insert place
claimed = refl

claim_lem_example :
    (lookup (17, 5353) empty.entries ≡ none)
    × (1 ≡ empty.next + 1)
    × (one_lease.next ≡ empty.next + 1)
    × ((k : PortKey)
        → lookup k one_lease.entries
          ≡ (if pair_key.equal (17, 5353) k then some (1, locally) else lookup k empty.entries))
claim_lem_example = claim_lem empty one_lease 17 5353 1 locally claimed

drop_lease_lem_example :
    (s' : PortState) × (drop_lease (claim empty 17 5353 locally).0 (17, 5353) 1 ≡ some s')
    × IsCounted s'
drop_lease_lem_example =
    let (s', run, counted, _, _, _) =
      drop_lease_lem (claim empty 17 5353 locally).0 (17, 5353) 1
        (claim-IsCounted empty 17 5353 locally empty-IsCounted) in
    (s', run, counted)

no_frames-IsBounded : IsBounded no_frames
no_frames-IsBounded = record { counted = refl; few = omega arith; small = omega arith }

abbrev one_frame : AilFrames
one_frame = record { frames = (1 ∷ 2 ∷ []) ∷ []; bytes = 2 }

pushed : push no_frames (1 ∷ 2 ∷ []) ≡ (one_frame, true)
unfolding push
pushed = refl

push_lem_example :
    IsBounded one_frame
    × (true ≡ true → one_frame.frames ≡ no_frames.frames ++ (1 ∷ 2 ∷ []) ∷ [])
    × (true ≡ false
        → (one_frame ≡ no_frames)
          × ((length no_frames.frames ≡ 64)
              ⊎ (65535 < total (no_frames.frames ++ (1 ∷ 2 ∷ []) ∷ []))))
push_lem_example = push_lem no_frames one_frame (1 ∷ 2 ∷ []) true no_frames-IsBounded pushed

abbrev handshake : List Segment
handshake =
    record { v6 = false; flags = 18; now = 5 } ∷ record { v6 = true; flags = 17; now = 6 } ∷ []

run-opened_example :
    (((run (opened true) 9000 handshake).0 ≢ opened true)
      → any (is_syn (not true)) handshake ≡ true)
    × ((run (opened true) 9000 handshake).0 ≡ both_fin
        → (any (is_fin true) handshake ≡ true) × (any (is_fin false) handshake ≡ true))
run-opened_example = run-opened true 9000 handshake

translated : v4_to_v6 3 3 0 0 1500 1500 ≡ some (1, 4, 0)
unfolding v4_to_v6 unreachable_v4_to_v6
translated = refl

v4_to_v6_back_example : (1 ≤ 1) × (1 ≤ 4) × (kind_of (v6_to_v4 1 4 0 1500 1500) ≡ some 3)
v4_to_v6_back_example = v4_to_v6_back 3 3 0 0 1500 1500 (1, 4, 0) translated

abbrev fresh_scheduler : RaScheduler
fresh_scheduler = record { next = 0; last = none; burst = 3; response = none }

abbrev sent_scheduler : RaScheduler
sent_scheduler = record { next = 4000; last = some 1000; burst = 2; response = none }

sent_run : sent fresh_scheduler 1000 (word 5 ∷ []) ≡ (sent_scheduler, ok [])
unfolding sent sample
sent_run = refl

due_run : due (apply_all sent_scheduler (changes 1500 (word 9 ∷ []) ∷ [])) 4000 ≡ true
unfolding due apply_all apply changed sample
due_run = refl

due_after_sent_example : 1000 + 3000 ≤ 4000
due_after_sent_example =
    due_after_sent fresh_scheduler sent_scheduler 1000 4000 (word 5 ∷ []) []
      (changes 1500 (word 9 ∷ []) ∷ []) (omega arith) sent_run due_run

sent_window_example :
    IsSpaced sent_scheduler
    × (sent_scheduler.last ≡ some 1000)
    × (sent_scheduler.response ≡ none)
    × (1000 + 3000 ≤ sent_scheduler.next)
    × (1 < fresh_scheduler.burst → sent_scheduler.next ≤ 1000 + 16000)
    × (fresh_scheduler.burst ≤ 1
        → (1000 + 154000 ≤ sent_scheduler.next) × (sent_scheduler.next ≤ 1000 + 206000))
sent_window_example =
    sent_window fresh_scheduler sent_scheduler 1000 (word 5 ∷ []) [] (omega arith) sent_run

abbrev ail_prefix : LinkPrefix
ail_prefix = record { link = ail; prefix = record { address = 1; length = 64 } }

abbrev empty_table : OnLinkTable
empty_table = record { ail_prefixes = []; stub_prefixes = [] }

abbrev some_lifetimes : OnLink
some_lifetimes = record { valid = until 5; preferred = until 4 }

get-insert_example :
    (get (insert_entry empty_table ail_prefix some_lifetimes) ail_prefix ≡ (
      if link_prefix_equal ail_prefix ail_prefix
      then some (stored ail_prefix some_lifetimes)
      else get empty_table ail_prefix))
    × (get (set_valid empty_table ail_prefix (until 9)) ail_prefix ≡ (
        if link_prefix_equal ail_prefix ail_prefix
        then elim (get empty_table ail_prefix) [
          | none ↦ none
          | some w ↦ some (stored ail_prefix (record w { valid = until 9 }))
        ]
        else get empty_table ail_prefix))
get-insert_example = get-insert empty_table ail_prefix ail_prefix some_lifetimes (until 9)
