-- ===== src/Reassembly.antt =====
-- src/ip_reassembly.rs: the reassembly of IP fragments.
-- An offset is at most 65535 and a length fits a usize, so their sum does not overflow.
pub mod Parse
pub mod Split
pub mod Parts
pub mod Invariant
pub mod Conflict
pub mod Delivery
use snak_machine_rs.Base.{
  ℕ, ◌+◌, ◌-◌, ◌*◌, ◌/◌, ◌%◌, Bool, true, false, ◌&&◌, ◌||◌, not, Option, none, some, List, [], ◌∷◌,
  ◌++◌, ltb, leb, ◌==◌, if◌then◌else◌, is_some, Byte, Bytes, byte, length, to_be, overwrite,
  u16_max, Io, ok, err, invalid_data, would_block, ◌>>=◌, ◌>>◌, fail_if, saturating_add,
}
use snak_machine_rs.Base.Maps.{
  Map, nat_key, size, sum_values, retain, min_value, lookup, contains, insert, remove,
}
use snak_machine_rs.Dns.Name.{bytes_equal}
use snak_machine_rs.Ipv4.Wire.{checksum}
use snak_machine_rs.Reassembly.Parse.{FragmentKey, fragment_key, Fragment, parse}

abbrev pub capacity : ℕ
capacity = 4 * 1024 * 1024

pub record Datagram : Type 0 where
  pub packet : Bytes
  pub fragment_id : Option ℕ

-- The parts stand under their offsets.
pub record Context : Type 0 where
  pub header : Bytes
  pub parts : Map ℕ Bytes
  pub end : Option ℕ
  pub deadline : ℕ

abbrev pub Reassembler : Type 0
Reassembler = Map FragmentKey Context

-- `Context::bytes`.
unfoldable pub context_bytes : Context → ℕ
context_bytes c = 128 + length c.header + sum_values (λ (b : Bytes). length b + 128) c.parts

unfoldable pub context_count : Reassembler → ℕ
context_count s = size s

unfoldable pub retained_bytes : Reassembler → ℕ
retained_bytes s = sum_values context_bytes s

unfoldable pub next_deadline : Reassembler → Option ℕ
next_deadline s = min_value (λ (c : Context). c.deadline) s

unfoldable pub expire : Reassembler → ℕ → Reassembler
expire s now = retain (λ _ (c : Context). ltb now c.deadline) s

-- The packet of a header, whose length field is zero, and its data. The header of the first byte 6x has 40
-- bytes at least.
unfoldable pub complete : Bytes → Bytes → Io Bytes
complete header content =
    if byte header 0 / 16 == 6
    then (do
      fail_if (ltb u16_max (length header - 40 + length content)) invalid_data
      ok (overwrite 4 (to_be 2 (length header - 40 + length content)) header ++ content))
    else (do
      fail_if (ltb u16_max (length header + length content)) invalid_data
      let sized = overwrite 2 (to_be 2 (length header + length content)) header
      ok (overwrite 10 (to_be 2 (checksum sized)) sized ++ content))

abbrev pub named : ℕ → Io Bytes → Io (Option Datagram)
named id packet = packet >>= λ p. ok (some (record { packet = p; fragment_id = some id }))

-- `parts.iter().any(…)`: a part shares a byte with `from..to`.
unfoldable pub overlaps : ℕ → ℕ → Map ℕ Bytes → Bool
overlaps from to [] = false
overlaps from to ((at, b) ∷ m) =
    let rest = overlaps from to m in if ltb from (at + length b) && ltb at to then true else rest

-- A part ends behind `to`.
unfoldable pub reaches_behind : ℕ → Map ℕ Bytes → Bool
reaches_behind to [] = false
reaches_behind to ((at, b) ∷ m) =
    let rest = reaches_behind to m in if ltb to (at + length b) then true else rest

abbrev pub ends_elsewhere : Option ℕ → ℕ → Bool → Bool
ends_elsewhere none end more = false
ends_elsewhere (some e) end more = ltb e end || (not more && not (end == e))

-- The fragment contradicts what is there.
unfoldable pub conflicts : Context → Fragment → Bool
unfolding overlaps reaches_behind
conflicts c f =
    let end = f.offset + length f.payload in
    not (bytes_equal c.header f.header)
    || overlaps f.offset end c.parts
    || ends_elsewhere c.end end f.more
    || (not f.more && reaches_behind end c.parts)

abbrev pub conflict_with : Option Context → Fragment → Bool
conflict_with none f = false
conflict_with (some c) f = conflicts c f

-- The extension headers are charged to the datagram of an IPv6 packet.
unfoldable pub overhead : Fragment → ℕ
overhead f = if byte f.header 0 / 16 == 6 then length f.header - 40 else length f.header

unfoldable pub is_invalid : Fragment → Bool
unfolding overhead
is_invalid f =
    length f.payload == 0
    || ltb 65535 (f.offset + length f.payload + overhead f)
    || (f.more && not (length f.payload % 8 == 0))

-- What the fragment adds to the retained bytes.
unfoldable pub charge : Reassembler → Fragment → ℕ
charge s f = length f.payload + 128 + (if not (contains f.key s) then 128 + length f.header else 0)

unfoldable pub is_exhausted : Reassembler → Fragment → Bool
unfolding charge retained_bytes
is_exhausted s f =
    (not (contains f.key s) && leb 64 (size s)) || ltb capacity (retained_bytes s + charge s f)

abbrev pub or_new : Option Context → Bytes → ℕ → Context
or_new (some c) header now = c
or_new none header now = record {
  header = header;
  parts = [];
  end = none;
  deadline = saturating_add now 60000;
}

-- The context with the fragment.
unfoldable pub extended : Reassembler → Fragment → ℕ → Context
extended s f now =
    let c = or_new (lookup f.key s) f.header now in
    record c {
      end = if not f.more then some (f.offset + length f.payload) else c.end;
      parts = insert f.offset f.payload c.parts;
    }

-- The loop over the parts: where they end, if there is no gap.
unfoldable pub contiguous : ℕ → Map ℕ Bytes → Option ℕ
contiguous next [] = some next
contiguous next ((at, b) ∷ m) =
    let rest = contiguous (next + length b) m in if at == next then rest else none

unfoldable pub joined : Map ℕ Bytes → Bytes
joined [] = []
joined ((at, b) ∷ m) = b ++ joined m

abbrev pub equals : Option ℕ → ℕ → Bool
equals none n = false
equals (some m) n = m == n

-- The parts are there from the start to the end.
unfoldable pub is_complete : Context → Bool
unfolding contiguous
is_complete c = elim (contiguous 0 c.parts) [ none ↦ false | some next ↦ equals c.end next ]

-- A fragment that agrees with its context and has room.
unfoldable pub admit : Reassembler → Fragment → ℕ → Reassembler × Io (Option Datagram)
unfolding extended is_complete joined complete
admit s f now =
    let c = extended s f now in
    let t = insert f.key c s in
    if is_complete c
    then (remove f.key t, named f.key.id (complete c.header (joined c.parts)))
    else (t, ok none)

-- A fragment, behind the expiry.
unfoldable pub enter : Reassembler → Fragment → ℕ → Reassembler × Io (Option Datagram)
unfolding is_invalid conflicts is_exhausted admit
enter s f now =
    if f.offset == 0 && not f.more
    then (s, named f.key.id (complete f.header f.payload))
    else if is_invalid f
    then (s, err invalid_data)
    else if conflict_with (lookup f.key s) f
    then (remove f.key s, err invalid_data)
    else if is_exhausted s f
    then (s, err would_block)
    else admit s f now

unfoldable pub input_scoped : Reassembler → Bytes → ℕ → ℕ → Reassembler × Io (Option Datagram)
unfolding expire enter parse
input_scoped s b now scope =
    let t = expire s now in
    elim (parse b) [
      | err x ↦ (t, err x)
      | ok none ↦ (t, ok (some (record { packet = b; fragment_id = none })))
      | ok (some f) ↦ enter t (record f { key = record f.key { scope = scope } }) now
    ]

abbrev pub packet_of : Io (Option Datagram) → Io (Option Bytes)
packet_of (err x) = err x
packet_of (ok none) = ok none
packet_of (ok (some d)) = ok (some d.packet)

unfoldable pub input : Reassembler → Bytes → ℕ → Reassembler × Io (Option Bytes)
unfolding input_scoped
input s b now = let (t, answer) = input_scoped s b now 0 in (t, packet_of answer)
