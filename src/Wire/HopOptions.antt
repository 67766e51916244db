-- ===== src/Wire/HopOptions.antt =====
-- `hop_options` of src/wire.rs: the options of the first Hop-by-Hop header.
use snak_machine_rs.Base.{
  ℕ, zero, suc, ◌+◌, ◌*◌, ◌/◌, Bool, ◌&&◌, ◌||◌, not, Option, none, some, ltb, ◌==◌, if◌then◌else◌,
  Byte, Bytes, byte, slice, length, any, Result, ok, err, ◌>>=◌, ◌>>◌, fail_if,
}
use snak_machine_rs.Wire.Address.{is_multicast}
use snak_machine_rs.Wire.Envelope.{Envelope, WireError, truncated, invalid, unsupported}

-- What one option asks for: the scan goes on, or it ends with a pointer to the option.
abbrev pub Verdict : Type 0
Verdict = Option ℕ

-- One option other than Pad1, at `at`: `kind` and `size` are its first bytes.
unfoldable pub option_verdict : Bool → Bytes → ℕ → Byte → ℕ → Result WireError Verdict
option_verdict multicast p at kind size =
    if kind == 1
    then (do fail_if (any (λ b. not (b == 0)) (slice (at + 2) (at + 2 + size) p)) invalid; ok none)
    else if kind == 5
    then (do fail_if (not (size == 2)) invalid; ok none)
    else if kind / 64 == 0
    then ok none
    else if kind / 64 == 1
    then err unsupported
    else if (kind / 64 == 3) && multicast
    then err unsupported
    else ok (some (40 + at))

-- `while at < end`. Each round moves `at` on, so `end` is enough fuel.
unfoldable pub scan_options : ℕ → Bool → Bytes → ℕ → ℕ → Result WireError Verdict
unfolding option_verdict
scan_options zero multicast p end at = ok none
scan_options (suc fuel) multicast p end at =
    let kind = byte p at in
    let size = byte p (at + 1) in
    let skip = scan_options fuel multicast p end (at + 1) in
    let next = scan_options fuel multicast p end (at + (2 + size)) in
    let body = (do
      fail_if (ltb end (at + 2) || ltb end (at + 2 + size)) truncated
      verdict ← option_verdict multicast p at kind size
      elim verdict [ none ↦ next | some pointer ↦ ok (some pointer) ]) in
    if ltb at end then (if kind == 0 then skip else body) else ok none

unfoldable pub hop_options : Envelope → Result WireError Verdict
unfolding scan_options
hop_options e =
    let p = e.payload in
    let end = (byte p 1 + 1) * 8 in
    if not (e.next_header == 0) then ok none else (do
      fail_if (ltb (length p) 2) truncated
      fail_if (ltb (length p) end) truncated
      scan_options end (is_multicast e.destination) p end 2)
