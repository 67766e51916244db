-- ===== src/Ports.antt =====
-- src/service_io/ports.rs: the registry of transport ports and ICMP identifiers of an interface.
-- The state behind the mutex; no thread panics while it holds the lock, so it is never poisoned. A
-- lease is the key with the generation number that `claim` drew for it.
pub mod Accounting
use snak_machine_rs.Base.{
  ℕ, ◌+◌, ◌-◌, Bool, true, false, ◌&&◌, ◌||◌, not, Option, none, some, [], ltb, leb, ◌==◌,
  if◌then◌else◌, Io, Error, ok, err, invalid_input, would_block, other, u64_max,
}
use snak_machine_rs.Base.Maps.{Map, pair_key, lookup, contains, insert, remove}

pub data Owner : Type 0 where
  locally translation : Owner

abbrev pub PortKey : Type 0
PortKey = ℕ × ℕ

pub record PortState : Type 0 where
  pub entries : Map PortKey (ℕ × Owner)
  pub locals : ℕ
  pub translations : ℕ
  pub next : ℕ

unfoldable pub empty : PortState
empty = record { entries = []; locals = 0; translations = 0; next = 0 }

-- `Held::drop`: only the lease whose generation stands in the registry gives the port back. A counter
-- at zero would panic, which is `none`.
unfoldable pub drop_lease : PortState → PortKey → ℕ → Option PortState
drop_lease s key id = elim (lookup key s.entries) [
  | none ↦ some s
  | some (current, owner) ↦ if not (current == id) then some s else elim owner [
    | locally ↦
        if s.locals == 0
        then none
        else some (record s { entries = remove key s.entries; locals = s.locals - 1 })
    | translation ↦
        if s.translations == 0
        then none
        else some (record s { entries = remove key s.entries; translations = s.translations - 1 })
  ]
]

unfoldable pub occupied : PortState → ℕ → ℕ → Bool
occupied s protocol port = contains (protocol, port) s.entries

-- The owner's capacity is used up.
abbrev pub is_full : PortState → Owner → Bool
is_full s locally = leb 256 s.locals
is_full s translation = leb 4096 s.translations

abbrev pub counted : PortState → Owner → PortState
counted s locally = record s { locals = s.locals + 1 }
counted s translation = record s { translations = s.translations + 1 }

-- The entry and the count of a claim that is granted.
unfoldable pub enter : PortState → PortKey → Owner → PortState
enter s key owner =
    counted (record s { next = s.next + 1; entries = insert key (s.next + 1, owner) s.entries })
      owner

-- The new state and the generation of the lease.
unfoldable pub claim : PortState → ℕ → ℕ → Owner → PortState × Io ℕ
claim s protocol port owner =
    if not (protocol == 1 || protocol == 6 || protocol == 17) || (not (protocol == 1) && port == 0)
    then (s, err invalid_input)
    else if contains (protocol, port) s.entries || is_full s owner
    then (s, err would_block)
    else if leb u64_max s.next
    then (s, err other)
    else (enter s (protocol, port) owner, ok (s.next + 1))
