-- ===== src/Ipv4/Routing.antt =====
-- src/ipv4/mod.rs: the state, its configuration and the choice of the next hop.
use snak_machine_rs.Base.{
  ℕ, ◌-◌, ◌/◌, ◌%◌, ◌^◌, Bool, true, false, ◌&&◌, ◌||◌, not, Option, none, some, List, [], ◌∷◌, ltb,
  leb, ◌==◌, if◌then◌else◌, is_some, any, keep, length, Bytes, Io, ok, err, other,
}
use snak_machine_rs.Base.Maps.{Map}
use snak_machine_rs.Ipv4.Wire.{Ipv4Addr, Mac, unicast}

pub record Neighbor : Type 0 where
  pub mac : Option Mac
  pub deadline : ℕ
  pub attempts : ℕ
  pub queue : List Bytes

pub record Route : Type 0 where
  pub network : Ipv4Addr
  pub length : ℕ
  pub gateway : Ipv4Addr

pub record Ipv4 : Type 0 where
  pub mac : Mac
  pub address : Option (Ipv4Addr × ℕ)
  pub gateway : Option Ipv4Addr
  pub neighbors : Map Ipv4Addr Neighbor
  pub routes : List Route
  pub input : List Bytes
  pub arp_window : ℕ
  pub arp_sent : ℕ

unfoldable pub new : Mac → Ipv4
new mac = record {
  mac = mac;
  address = none;
  gateway = none;
  neighbors = [];
  routes = [];
  input = [];
  arp_window = 0;
  arp_sent = 0;
}

-- `default`.
unfoldable pub default : Ipv4
unfolding new
default = new 0x02_00_00_00_00_01

-- The mask of a length above 32 is zero; `2 ^ (32 - length)` is the weight of the last bit of the network.
unfoldable pub same_prefix : Ipv4Addr → Ipv4Addr → ℕ → Bool
same_prefix a b length =
    if ltb 32 length then true else a / 2 ^ (32 - length) == b / 2 ^ (32 - length)

-- Neither the network's own address nor its broadcast address.
unfoldable pub host_address : Ipv4Addr → ℕ → Bool
host_address address length =
    leb 31 length
    || (not (address % 2 ^ (32 - length) == 0)
        && not (address % 2 ^ (32 - length) == 2 ^ (32 - length) - 1))

abbrev pub is_bad_gateway : Ipv4Addr → ℕ → Option Ipv4Addr → Bool
unfolding same_prefix
is_bad_gateway address length none = false
is_bad_gateway address length (some g) = not (unicast g) || not (same_prefix address g length)

abbrev pub cleared : Ipv4 → Option (Ipv4Addr × ℕ) → Option Ipv4Addr → Ipv4
cleared s address gateway = record s {
  address = address;
  gateway = gateway;
  neighbors = [];
  routes = [];
  input = [];
}

unfoldable pub configure : Ipv4 → Ipv4Addr → ℕ → Option Ipv4Addr → Ipv4 × Io (Unit {0})
configure s address length gateway =
    if ltb 32 length
      || not (unicast address)
      || not (host_address address length)
      || is_bad_gateway address length gateway
    then (s, err other)
    else (cleared s (some (address, length)) gateway, ok tt)

unfoldable pub unavailable : Ipv4 → Ipv4
unavailable s = cleared s none none

unfoldable pub ready : Ipv4 → Bool
ready s = is_some s.address

unfoldable pub route_count : Ipv4 → ℕ
route_count s = length s.routes

-- A route of at most 32 bits to a network without host bits, over a gateway on the link if it has one.
unfoldable pub is_bad_route : Ipv4Addr → ℕ → Route → Bool
unfolding same_prefix host_address
is_bad_route address length r =
    ltb 32 r.length
    || (not (r.length == 0) && not (unicast r.network))
    || not (r.network % 2 ^ (32 - r.length) == 0)
    || (not (r.gateway == 0)
        && (not (unicast r.gateway)
            || not (host_address r.gateway length)
            || not (same_prefix address r.gateway length)))

unfoldable pub set_routes : Ipv4 → List Route → Ipv4 × Io (Unit {0})
set_routes s routes = elim s.address [
  | none ↦ (s, err other)
  | some (address, len) ↦
      if ltb 64 (length routes) || any (is_bad_route address len) routes
      then (s, err other)
      else (record s { routes = routes; neighbors = [] }, ok tt)
]

-- `max_by_key` of the length: the last of the longest.
unfoldable pub longest : List Route → Option Route
longest [] = none
longest (r ∷ rs) = elim (longest rs) [
  | none ↦ some r
  | some q ↦ some (if ltb q.length r.length then r else q)
]

-- `Option::filter`.
abbrev pub filter_option : (Route → Bool) → Option Route → Option Route
filter_option p none = none
filter_option p (some r) = if p r then some r else none

-- The route that is used: more specific than the link, or to a destination that is not on the link.
unfoldable pub chosen_route : Ipv4 → Ipv4Addr → ℕ → Ipv4Addr → Option Route
unfolding same_prefix longest
chosen_route s address length destination =
    filter_option (λ r. ltb length r.length || not (same_prefix address destination length))
      (longest (keep (λ r. same_prefix r.network destination r.length) s.routes))

-- The addresses of the link that name no host.
unfoldable pub is_reserved : Ipv4Addr → ℕ → Ipv4Addr → Bool
unfolding same_prefix
is_reserved address length destination =
    ltb length 31
    && (same_prefix address destination length
        && (destination % 2 ^ (32 - length) == 2 ^ (32 - length) - 1
            || destination % 2 ^ (32 - length) == 0))

unfoldable pub next_hop : Ipv4 → Ipv4Addr → Option Ipv4Addr
next_hop s destination = elim s.address [
  | none ↦ none
  | some (address, length) ↦
      if not (unicast destination)
      then none
      else if is_reserved address length destination
      then none
      else elim (chosen_route s address length destination) [
        | some route ↦ some (if route.gateway == 0 then destination else route.gateway)
        | none ↦ if same_prefix address destination length then some destination else s.gateway
      ]
]
