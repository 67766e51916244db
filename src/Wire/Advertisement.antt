-- ===== src/Wire/Advertisement.antt =====
-- `Advertisement` of src/wire.rs: the Router Advertisement that is sent on a link.
use snak_machine_rs.Base.{
  ℕ, ◌+◌, ◌*◌, ◌/◌, min, Bool, true, false, ◌&&◌, ◌||◌, not, List, [], ◌∷◌, ◌++◌, Option, none,
  some, ltb, if◌then◌else◌, Byte, Bytes, length, to_be, Result, ok, ◌>>=◌, ◌>>◌, fail_if,
}
use snak_machine_rs.Wire.Address.{
  Ipv6Addr, octets, link_local, is_unspecified, is_multicast, is_loopback,
}
use snak_machine_rs.Wire.Envelope.{WireError, invalid, capacity}
use snak_machine_rs.Wire.Packets.{icmp_packet}
use snak_machine_rs.Wire.Pio
use snak_machine_rs.Wire.Pio.{Pio}
use snak_machine_rs.Wire.Pref64
use snak_machine_rs.Wire.Pref64.{Pref64}
use snak_machine_rs.Wire.Prefix.{Prefix, less, eq}
use snak_machine_rs.Wire.Rio
use snak_machine_rs.Wire.Rio.{Rio}

-- `Link` of src/lib.rs.
pub data Link : Type 0 where
  ail stub : Link

abbrev pub is_ail : Link → Bool
is_ail ail = true
is_ail stub = false

pub record Advertisement : Type 0 where
  pub link : Link
  pub source : Ipv6Addr
  pub destination : Ipv6Addr
  pub mac : Option Bytes
  pub mtu : ℕ
  pub mo : Byte
  pub default_lifetime : ℕ
  pub pios : List Pio
  pub rios : List Rio

-- The stable `sort_by_key` of a list by prefix.
module _ {A : Type 0} (key : A → Prefix) where
  unfoldable pub insert_by_prefix : A → List A → List A
  insert_by_prefix x [] = x ∷ []
  insert_by_prefix x (y ∷ ys) =
      let rest = insert_by_prefix x ys in if less (key y) (key x) then y ∷ rest else x ∷ y ∷ ys

  unfoldable pub sort_by_prefix : List A → List A
  unfolding insert_by_prefix
  sort_by_prefix [] = []
  sort_by_prefix (x ∷ xs) = insert_by_prefix x (sort_by_prefix xs)

-- `dedup_by_key`: of neighbours with one prefix the first stays.
unfoldable pub drop_same : Prefix → List Rio → List Rio
drop_same p [] = []
drop_same p (s ∷ ss) =
    let same = drop_same p ss in
    let other = s ∷ drop_same s.prefix ss in if eq s.prefix p then same else other

unfoldable pub dedup_rios : List Rio → List Rio
unfolding drop_same
dedup_rios [] = []
dedup_rios (r ∷ rs) = r ∷ drop_same r.prefix rs

abbrev pub concat_map {ℓ} : {A : Type ℓ} → (A → Bytes) → List A → Bytes
concat_map f [] = []
concat_map f (x ∷ xs) = f x ++ concat_map f xs

-- The RDNSS options, one for each resolver.
unfoldable pub encode_resolvers : List (Ipv6Addr × ℕ) → Result WireError Bytes
encode_resolvers [] = ok []
encode_resolvers ((address, lifetime) ∷ rest) = do
  fail_if (is_unspecified address || is_multicast address || is_loopback address) invalid
  others ← encode_resolvers rest
  ok ((25 ∷ 3 ∷ 0 ∷ 0 ∷ []) ++ to_be 4 lifetime ++ octets address ++ others)

unfoldable pub encode_pref64s : List Pref64 → Result WireError Bytes
encode_pref64s [] = ok []
encode_pref64s (p ∷ rest) = do
  first ← Pref64.encode p
  others ← encode_pref64s rest
  ok (first ++ others)

-- The message up to the services: the fixed part, addresses, MTU, prefixes and routes.
unfoldable pub encode_head : Advertisement → Bytes
encode_head a =
    (134 ∷ 0 ∷ 0 ∷ 0 ∷ 0 ∷ (if is_ail a.link then 2 + a.mo / 64 * 64 else 0) ∷ [])
    ++ to_be 2 (if is_ail a.link then 0 else min a.default_lifetime 1800)
    ++ to_be 8 0
    ++ (elim a.mac [ none ↦ [] | some mac ↦ 1 ∷ 1 ∷ mac ])
    ++ (if is_ail a.link then [] else (5 ∷ 1 ∷ 0 ∷ 0 ∷ []) ++ to_be 4 a.mtu)
    ++ concat_map Pio.encode (sort_by_prefix (λ p. p.prefix) a.pios)
    ++ concat_map Rio.encode (dedup_rios (sort_by_prefix (λ r. r.prefix) a.rios))

unfoldable pub encode_services :
    Advertisement → List (Ipv6Addr × ℕ) → List Pref64 → Result WireError Bytes
unfolding encode_head
encode_services a resolvers pref64 = do
  fail_if (ltb 2 (length resolvers) || ltb 8 (length pref64)) capacity
  fail_if (is_ail a.link && (ltb 0 (length resolvers) || ltb 0 (length pref64))) invalid
  fail_if (ltb a.mtu 1280 || not (link_local a.source)) invalid
  rdnss ← encode_resolvers resolvers
  nat64 ← encode_pref64s pref64
  let b = encode_head a ++ rdnss ++ nat64
  fail_if (ltb 1280 (length b + 40)) capacity
  icmp_packet a.source a.destination 255 b

unfoldable pub encode : Advertisement → Result WireError Bytes
encode a = encode_services a [] []
