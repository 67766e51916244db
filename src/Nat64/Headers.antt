-- ===== src/Nat64/Headers.antt =====
-- `transport6` of src/nat64/translate/headers.rs: the walk over the extension headers of an IPv6 packet.
-- The caller gives 40 bytes at least. An index that the code has checked is read by `byte`.
pub mod Walk
use snak_machine_rs.Base.{
  ℕ, zero, suc, ◌+◌, ◌-◌, ◌*◌, Bool, true, false, ◌&&◌, ◌||◌, not, Option, none, some, ltb, leb,
  ◌==◌, if◌then◌else◌, Byte, Bytes, byte, length, Io, ok, err, invalid_data, ◌>>=◌, ◌>>◌, fail_if,
}

-- The headers that came, and the offset of a Routing header's segments that are left.
pub record Seen : Type 0 where
  pub hop : Bool
  pub route : Bool
  pub before : Bool
  pub after : Bool
  pub problem : Option ℕ

abbrev pub is_extension : Byte → Bool
is_extension next = next == 0 || next == 43 || next == 60

-- `match next`, by its guards in their order.
unfoldable pub accept : Bytes → Byte → ℕ → Seen → Io Seen
accept b next at seen =
    if next == 0 && at == 40 && not seen.hop
    then ok (record seen { hop = true })
    else if next == 43 && not seen.route && not seen.after
    then ok (record seen {
      route = true;
      problem = if not (byte b (at + 3) == 0) then some (at + 3) else seen.problem;
    })
    else if next == 60 && not seen.route && not seen.before
    then ok (record seen { before = true })
    else if next == 60 && seen.route && not seen.after
    then ok (record seen { after = true })
    else err invalid_data

-- The loop over the options up to `end`. Each round goes forward, so `end - option` rounds are enough.
unfoldable pub options_fit : ℕ → Bytes → ℕ → ℕ → Bool
options_fit zero b option end = leb end option
options_fit (suc rounds) b option end =
    let padding = options_fit rounds b (option + 1) end in
    let size = byte b (option + 1) + 2 in
    let rest = options_fit rounds b (option + size) end in
    if leb end option
    then true
    else if byte b option == 0
    then padding
    else if ltb end (option + 2)
    then false
    else if ltb end (option + size)
    then false
    else rest

-- `for _ in 0..16`, with the rounds that are left.
unfoldable pub walk : ℕ → Bytes → Byte → ℕ → Seen → Io (Byte × ℕ × Option ℕ)
unfolding accept options_fit
walk zero b next at seen = err invalid_data
walk (suc rounds) b next at seen =
    let n = (byte b (at + 1) + 1) * 8 in
    let rest : Seen → Io (Byte × ℕ × Option ℕ) = λ s. walk rounds b (byte b at) (at + n) s in
    if not (is_extension next) then ok (next, at, seen.problem) else (do
      fail_if (ltb (length b) (at + 8)) invalid_data
      fail_if (ltb (length b) (at + n)) invalid_data
      s ← accept b next at seen
      fail_if (not (next == 43) && not (options_fit n b (at + 2) (at + n))) invalid_data
      rest s)

unfoldable pub transport6 : Bytes → Io (Byte × ℕ × Option ℕ)
unfolding walk
transport6 b =
    walk 16 b (byte b 6) 40
      (record { hop = false; route = false; before = false; after = false; problem = none })
