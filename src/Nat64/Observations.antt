-- ===== src/Nat64/Observations.antt =====
-- src/nat64/mod.rs: the PREF64 options that routers advertise on both links.
pub mod Capacity
use snak_machine_rs.Base.{
  ℕ, ◌+◌, ◌*◌, ◌/◌, ◌≡◌, ◌↔◌, refl, arith, Bool, true, false, ◌&&◌, ◌||◌, not, Option, none, some,
  List, [], ◌∷◌, ltb, leb, ◌==◌, if◌then◌else◌, max, Byte, Bytes, length, saturating_add, Io, ok,
  err, invalid_data, would_block, ◌>>=◌, ◌>>◌, fail_if, map_err,
}
use snak_machine_rs.Base.Maps.{Map, Key, size, count, retain, min_value, lookup, insert, remove}
use snak_machine_rs.Wire.Address.{Ipv6Addr}
use snak_machine_rs.Wire.Envelope.{envelope, raw_ipv6}
use snak_machine_rs.Wire.Nd.{NdOption, decode_nd}
use snak_machine_rs.Wire.Pref64
use snak_machine_rs.Wire.Pref64.{Pref64}
use snak_machine_rs.Wire.Prefix.{Prefix, new, eq, less, is_just, routable}
use snak_machine_rs.Wire.Advertisement.{Link, ail, stub, is_ail}

pub prefix_equal_iff : (a b : Prefix) → (eq a b ≡ true) ↔ (a ≡ b)
prefix_equal_iff a b = ground arith

instance abbrev pub prefix_key : Key Prefix
prefix_key = record { equal = λ a b. eq a b; less = λ a b. less a b; equal_iff = prefix_equal_iff }

abbrev pub link_equal : Link → Link → Bool
link_equal a b = (is_ail a && is_ail b) || (not (is_ail a) && not (is_ail b))

-- The key of an observation: the link, the router and the prefix.
pub record Observed : Type 0 where
  pub link : Link
  pub router : Ipv6Addr
  pub prefix : Prefix

unfoldable pub observed_equal : Observed → Observed → Bool
observed_equal a b = link_equal a.link b.link && a.router == b.router && eq a.prefix b.prefix

-- Tuples are compared from the left, the AIL before the stub.
unfoldable pub observed_less : Observed → Observed → Bool
observed_less a b =
    (is_ail a.link && not (is_ail b.link))
    || (link_equal a.link b.link
        && (ltb a.router b.router || (a.router == b.router && less a.prefix b.prefix)))

same_link : (a b : Link) → is_ail a ≡ is_ail b → a ≡ b
same_link ail ail h = refl
same_link ail stub h = absurd cc
same_link stub ail h = absurd cc
same_link stub stub h = refl

pub observed_equal_iff : (a b : Observed) → (observed_equal a b ≡ true) ↔ (a ≡ b)
unfolding observed_equal
observed_equal_iff a b = ground (arith, same_link a.link b.link)

instance abbrev pub observed_key : Key Observed
observed_key = record {
  equal = observed_equal;
  less = observed_less;
  equal_iff = observed_equal_iff;
}

-- A length of RFC 6052, a routable address that is not IPv4-mapped, and no host bits.
unfoldable pub usable : Prefix → Bool
unfolding routable new
usable p =
    (p.length == 32
      || p.length == 40
      || p.length == 48
      || p.length == 56
      || p.length == 64
      || p.length == 96)
    && routable p
    && not (p.address / 0x1_0000_0000 == 0xffff)
    && is_just p (new p.address p.length)

abbrev pub Observations : Type 0
Observations = Map Observed ℕ

unfoldable pub len : Observations → ℕ
len s = size s

unfoldable pub is_empty : Observations → Bool
is_empty s = size s == 0

unfoldable pub next_deadline : Observations → Option ℕ
next_deadline s = min_value (λ until. until) s

unfoldable pub expire : Observations → ℕ → Observations
expire s now = retain (λ _ until. ltb now until) s

unfoldable pub link_lost : Observations → Link → Observations
link_lost s link = retain (λ k _. not (link_equal k.link link)) s

-- The PREF64 option with a usable prefix, if the option is one.
unfoldable pub usable_option : NdOption → Option Pref64
unfolding usable Pref64.decode
usable_option o = if not (o.kind == 38) then none else elim (Pref64.decode o.bytes) [
  | none ↦ none
  | some p ↦ if usable p.prefix then some p else none
]

-- The loop over the options.
unfoldable pub take_options : Link → Ipv6Addr → ℕ → List NdOption → Observations → Observations
unfolding usable_option
take_options link router now [] s = s
take_options link router now (o ∷ os) s = elim (usable_option o) [
  | none ↦ take_options link router now os s
  | some p ↦
      let key : Observed = record { link = link; router = router; prefix = p.prefix } in
      take_options link router now os (
        if p.lifetime == 0
        then remove key s
        else insert key (saturating_add now (p.lifetime * 1000)) s)
]

-- How many observations are of a link.
abbrev pub on_link : Link → Observations → ℕ
on_link link s = count (λ k _. link_equal k.link link) s

-- The source and the options of a whole Router Advertisement.
unfoldable pub open_advertisement : Bytes → Io (Ipv6Addr × List NdOption)
unfolding envelope decode_nd
open_advertisement packet = do
  fail_if (ltb 4096 (length packet)) invalid_data
  e ← map_err invalid_data (envelope raw_ipv6 packet)
  nd ← map_err invalid_data (decode_nd e)
  fail_if (not (nd.kind == 134) || not (length e.packet == length packet)) invalid_data
  ok (e.source, nd.options)

unfoldable pub receive : Observations → Link → Bytes → ℕ → Observations × Io (Unit {0})
unfolding expire take_options open_advertisement
receive s link packet now = elim (open_advertisement packet) [
  | err x ↦ (s, err x)
  | ok (source, options) ↦
      let next = take_options link source now options (expire s now) in
      if ltb 32 (on_link link next) then (s, err would_block) else (next, ok tt)
]

abbrev pub latest : Option ℕ → ℕ → ℕ
latest none until = until
latest (some v) until = max v until

-- The loop of `live`, over the prefixes that were seen.
unfoldable pub live_from : Observations → Link → ℕ → (Ipv6Addr → Bool) → Map Prefix ℕ → Map Prefix ℕ
live_from [] link now reachable m = m
live_from ((k, until) ∷ s) link now reachable m = live_from s link now reachable (
    if link_equal k.link link && ltb now until && reachable k.router
    then insert k.prefix (latest (lookup k.prefix m) until) m
    else m)

-- The latest end that was seen for each prefix of a link, by routers that are reachable.
unfoldable pub live : Observations → Link → ℕ → (Ipv6Addr → Bool) → Map Prefix ℕ
unfolding live_from
live s link now reachable = live_from s link now reachable []
