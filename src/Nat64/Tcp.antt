-- ===== src/Nat64/Tcp.antt =====
-- src/nat64/tcp.rs: the transport states of RFC 6146 and the checks on a TCP header.
pub mod States
use snak_machine_rs.Base.{
  ℕ, zero, suc, ◌+◌, ◌-◌, ◌*◌, ◌/◌, ◌%◌, Bool, true, false, ◌&&◌, ◌||◌, not, ltb, ◌==◌,
  if◌then◌else◌, Byte, Bytes, byte, slice, length, any, has_bit, u16_of, saturating_add, Io, ok,
  err, invalid_data, ◌>>=◌, ◌>>◌, fail_if,
}

abbrev pub established_ms : ℕ
established_ms = 7_200_000

abbrev pub transitory_ms : ℕ
transitory_ms = 240_000

pub data State : Type 0 where
  v4_init v6_init established v4_fin v6_fin both_fin transitory : State

-- Bits of the flags byte.
abbrev pub fin_of : Byte → Bool
fin_of flags = has_bit flags 1

abbrev pub syn_of : Byte → Bool
syn_of flags = has_bit flags 2

abbrev pub rst_of : Byte → Bool
rst_of flags = has_bit flags 4

-- The arms of `State::packet`, by state and then by the guards in their order.
unfoldable pub packet : State → Bool → Byte → ℕ → ℕ → State × ℕ
packet v4_init v6 flags expires now =
    if v6 && syn_of flags
    then (established, saturating_add now established_ms)
    else (v4_init, expires)
packet v6_init v6 flags expires now =
    if not v6 && syn_of flags
    then (established, saturating_add now established_ms)
    else if v6 && syn_of flags
    then (v6_init, saturating_add now transitory_ms)
    else (v6_init, expires)
packet both_fin v6 flags expires now = (both_fin, expires)
packet established v6 flags expires now =
    if fin_of flags
    then ((if v6 then v6_fin else v4_fin), expires)
    else if rst_of flags
    then (transitory, saturating_add now transitory_ms)
    else (established, saturating_add now established_ms)
packet v4_fin v6 flags expires now =
    if v6 && fin_of flags
    then (both_fin, saturating_add now transitory_ms)
    else (v4_fin, saturating_add now established_ms)
packet v6_fin v6 flags expires now =
    if not v6 && fin_of flags
    then (both_fin, saturating_add now transitory_ms)
    else (v6_fin, saturating_add now established_ms)
packet transitory v6 flags expires now =
    if not (rst_of flags)
    then (established, saturating_add now established_ms)
    else (transitory, expires)

-- The sizes that the kinds of TCP options allow.
unfoldable pub option_size_bad : Byte → ℕ → Bool
option_size_bad kind n =
    if kind == 2
    then not (n == 4)
    else if kind == 3
    then not (n == 3)
    else if kind == 4
    then not (n == 2)
    else if kind == 5
    then ltb n 10 || not ((n - 2) % 8 == 0)
    else if kind == 8
    then not (n == 10)
    else false

-- `while at < header`. Each round moves `at` on, so the header length is enough fuel.
unfoldable pub check_options : ℕ → Bytes → ℕ → ℕ → Io (Unit {0})
unfolding option_size_bad
check_options zero b header at = ok tt
check_options (suc fuel) b header at =
    let kind = byte b at in
    let n = byte b (at + 1) in
    let skip = check_options fuel b header (at + 1) in
    let next = check_options fuel b header (at + n) in
    if ltb at header
    then (if kind == 0
        then fail_if (any (λ x. not (x == 0)) (slice (at + 1) header b)) invalid_data
        else if kind == 1
        then skip
        else if ltb header (at + 2)
        then err invalid_data
        else if ltb n 2 || ltb header (at + n) || option_size_bad kind n
        then err invalid_data
        else next)
    else ok tt

-- The source and destination ports of a segment whose header is well formed.
unfoldable pub ports : Bytes → Io (ℕ × ℕ)
unfolding check_options
ports b =
    let header = byte b 12 / 16 * 4 in
    let source = u16_of (byte b 0) (byte b 1) in
    let dest = u16_of (byte b 2) (byte b 3) in
    let flags = byte b 13 in
    do
      fail_if (ltb (length b) 20) invalid_data
      fail_if
          (ltb header 20
            || ltb (length b) header
            || source == 0
            || dest == 0
            || (syn_of flags && (fin_of flags || rst_of flags)))
          invalid_data
      check_options header b header 20
      ok (source, dest)
