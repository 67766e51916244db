-- ===== src/Dns/Fields.antt =====
-- `rdata`, `options`, `bitmap_valid` and `svcb_valid` of src/dns/wire.rs.
use snak_machine_rs.Base.{
  ℕ, zero, suc, ◌+◌, ◌-◌, ◌%◌, Bool, true, false, ◌&&◌, ◌||◌, not, Option, none, some, List, [],
  ◌∷◌, ltb, leb, ◌==◌, if◌then◌else◌, any, Byte, Bytes, byte, slice, length, u16_of, Io, ok, err,
  invalid_data, ◌>>=◌, ◌>>◌, fail_if,
}
use snak_machine_rs.Dns.Rdata.{
  Rdata, Params, a_data, aaaa_data, name_data, srv, txt, preference, two_names, px, soa, key, sig,
  opt, nsec, svcb, bytes_data, opaque,
}
use snak_machine_rs.Dns.Reader.{Cursor, take_bytes, read_u8, read_u16, read_u32, read_name}

-- A read of rdata gives the data and moves the cursor.
abbrev pub Read : Type 0 → Type 0
Read A = Cursor → Io (A × Cursor)

-- What is left up to `end`.
abbrev pub rest_of : Bytes → ℕ → Read Bytes
rest_of b end c = take_bytes b end (end - c.at) c

-- `end - *at` bytes, at least one for each string.
unfoldable pub read_strings : ℕ → Bytes → ℕ → Read (List Bytes)
read_strings zero b end c = ok ([], c)
read_strings (suc rounds) b end c = if not (ltb c.at end) then ok ([], c) else (do
  (n, c1) ← read_u8 b end c
  (s, c2) ← take_bytes b end n c1
  (ss, c3) ← read_strings rounds b end c2
  ok (s ∷ ss, c3))

-- Not above the key before it, where the keys are ordered.
abbrev pub not_above : Option ℕ → ℕ → Bool
not_above none code = false
not_above (some p) code = leb code p

-- `options`, with as many rounds as there are bytes; each takes four at least.
unfoldable pub read_options : ℕ → Bytes → ℕ → Bool → Option ℕ → Read Params
read_options zero b end ordered prev c = ok ([], c)
read_options (suc rounds) b end ordered prev c = if not (ltb c.at end) then ok ([], c) else (do
  (code, c1) ← read_u16 b end c
  (n, c2) ← read_u16 b end c1
  fail_if (ordered && not_above prev code) invalid_data
  (s, c3) ← take_bytes b end n c2
  (ss, c4) ← read_options rounds b end ordered (some code) c3
  ok ((code, s) ∷ ss, c4))

unfoldable pub options : Bytes → ℕ → Bool → Read Params
unfolding read_options
options b end ordered c = read_options (end - c.at) b end ordered none c

-- The loop of `bitmap_valid`: windows in order, with 1 to 32 bytes, the last not zero.
unfoldable pub windows_valid : ℕ → Bytes → ℕ → Option ℕ → Bool
windows_valid zero b at prev = leb (length b) at
windows_valid (suc rounds) b at prev =
    let w = byte b at in
    let n = byte b (at + 1) in
    let rest = windows_valid rounds b (at + 2 + n) (some w) in
    if leb (length b) at
    then true
    else if leb (length b) (at + 1)
    then false
    else if n == 0 || ltb 32 n || not_above prev w
    then false
    else if ltb (length b) (at + 2 + n) || byte b (at + 1 + n) == 0
    then false
    else rest

unfoldable pub bitmap_valid : Bytes → Bool
unfolding windows_valid
bitmap_valid b = windows_valid (length b) b 0 none

abbrev pub has_key : ℕ → Params → Bool
has_key k params = any (λ p. p.0 == k) params

-- The keys of a mandatory parameter: rising, and each is there.
unfoldable pub mandatory_keys : Params → ℕ → Bytes → Bool
mandatory_keys params prev [] = true
mandatory_keys params prev (x ∷ []) = true
mandatory_keys params prev (hi ∷ lo ∷ rest) =
    let k = u16_of hi lo in
    let others = mandatory_keys params k rest in ltb prev k && has_key k params && others

-- The protocol names of an alpn parameter, none of them empty; each round takes a byte at least.
unfoldable pub alpn_valid : ℕ → Bytes → ℕ → Bool
alpn_valid zero b at = leb (length b) at
alpn_valid (suc rounds) b at =
    let n = byte b at in
    let rest = alpn_valid rounds b (at + (1 + n)) in
    if leb (length b) at
    then true
    else if n == 0 || ltb (length b) (at + (1 + n))
    then false
    else rest

unfoldable pub param_valid : Params → ℕ × Bytes → Bool
unfolding mandatory_keys alpn_valid
param_valid params (code, b) =
    if code == 0
    then not (length b == 0) && length b % 2 == 0 && mandatory_keys params 0 b
    else if code == 1
    then not (length b == 0) && alpn_valid (length b) b 0
    else if code == 2
    then length b == 0 && has_key 1 params
    else if code == 3
    then length b == 2
    else if code == 4
    then not (length b == 0) && length b % 4 == 0
    else if code == 6
    then not (length b == 0) && length b % 16 == 0
    else true

unfoldable pub svcb_valid : Params → Bool
unfolding param_valid
svcb_valid params = not (any (λ p. not (param_valid params p)) params)

abbrev pub one_of : List ℕ → ℕ → Bool
one_of ks k = any (λ x. x == k) ks

unfoldable pub read_soa : Bytes → ℕ → Read Rdata
read_soa b end c = do
  (mname, c1) ← read_name b end true c
  (rname, c2) ← read_name b end true c1
  (serial, c3) ← read_u32 b end c2
  (refresh, c4) ← read_u32 b end c3
  (retry, c5) ← read_u32 b end c4
  (expire, c6) ← read_u32 b end c5
  (minimum, c7) ← read_u32 b end c6
  ok (soa mname rname serial refresh retry expire minimum, c7)

unfoldable pub read_sig : Bytes → ℕ → Read Rdata
read_sig b end c = do
  (covered, c1) ← read_u16 b end c
  (algorithm, c2) ← read_u8 b end c1
  (labels, c3) ← read_u8 b end c2
  (original_ttl, c4) ← read_u32 b end c3
  (expiration, c5) ← read_u32 b end c4
  (inception, c6) ← read_u32 b end c5
  (key_tag, c7) ← read_u16 b end c6
  (signer, c8) ← read_name b end false c7
  (signature, c9) ← rest_of b end c8
  fail_if (length signature == 0) invalid_data
  ok (sig covered algorithm labels original_ttl expiration inception key_tag signer signature, c9)

unfoldable pub read_srv : Bytes → ℕ → Bool → Read Rdata
read_srv b end compressed c = do
  (priority, c1) ← read_u16 b end c
  (weight, c2) ← read_u16 b end c1
  (port, c3) ← read_u16 b end c2
  (target, c4) ← read_name b end compressed c3
  ok (srv priority weight port target, c4)

unfoldable pub read_key : Bytes → ℕ → Read Rdata
read_key b end c = do
  (flags, c1) ← read_u16 b end c
  (protocol, c2) ← read_u8 b end c1
  (algorithm, c3) ← read_u8 b end c2
  (bytes, c4) ← rest_of b end c3
  ok (key flags protocol algorithm bytes, c4)

unfoldable pub read_svcb : Bytes → ℕ → Read Rdata
unfolding options svcb_valid
read_svcb b end c = do
  (priority, c1) ← read_u16 b end c
  (target, c2) ← read_name b end false c1
  (params, c3) ← options b end true c2
  fail_if (not (priority == 0) && not (svcb_valid params)) invalid_data
  ok (svcb priority target params, c3)

-- The digest of a DS record has the size of its type, where that is known.
abbrev pub bad_digest : Byte → ℕ → Bool
bad_digest kind n =
    (kind == 1 && not (n == 24)) || (kind == 2 && not (n == 36)) || (kind == 4 && not (n == 52))

unfoldable pub read_ds : Bytes → ℕ → ℕ → Read Rdata
read_ds b end n c = do
  fail_if (ltb n 4) invalid_data
  (bytes, c1) ← take_bytes b end n c
  fail_if (bad_digest (byte bytes 3) n) invalid_data
  ok (bytes_data bytes, c1)

-- The tail of an NSEC3 record; an NSEC3PARAM record ends with its salt.
unfoldable pub read_nsec3_hash : Bytes → ℕ → Cursor → Io Cursor
unfolding bitmap_valid
read_nsec3_hash b end c = do
  (hash, c1) ← read_u8 b end c
  fail_if (hash == 0) invalid_data
  (_, c2) ← take_bytes b end hash c1
  (bitmap, c3) ← rest_of b end c2
  fail_if (not (bitmap_valid bitmap)) invalid_data
  ok c3

unfoldable pub read_nsec3 : Bytes → ℕ → ℕ → Read Rdata
unfolding read_nsec3_hash
read_nsec3 b end kind c = do
  (_, c1) ← take_bytes b end 4 c
  (salt, c2) ← read_u8 b end c1
  (_, c3) ← take_bytes b end salt c2
  c4 ← (if kind == 50 then read_nsec3_hash b end c3 else ok c3)
  ok (bytes_data (slice c.at c4.at b), c4)

-- `match kind`, by its arms in their order; `n` is `end - *at`.
unfoldable pub read_rdata : Bytes → ℕ → ℕ → Bool → Bool → Read Rdata
unfolding read_soa read_sig read_srv read_key read_svcb read_ds read_nsec3 read_strings options
    bitmap_valid
read_rdata b kind end srv_compressed mdns c =
    let n = end - c.at in
    if kind == 1 && n == 4
    then (take_bytes b end 4 c >>= λ r. ok (a_data r.0, r.1))
    else if kind == 28 && n == 16
    then (take_bytes b end 16 c >>= λ r. ok (aaaa_data r.0, r.1))
    else if kind == 1 || kind == 28
    then err invalid_data
    else if one_of (2 ∷ 5 ∷ 12 ∷ 39 ∷ []) kind
    then (read_name b end (not (kind == 39) || mdns) c >>= λ r. ok (name_data r.0, r.1))
    else if kind == 33
    then read_srv b end srv_compressed c
    else if kind == 16
    then (do
      (ss, c1) ← read_strings n b end c
      fail_if (length ss == 0) invalid_data
      ok (txt ss, c1))
    else if kind == 6
    then read_soa b end c
    else if one_of (15 ∷ 18 ∷ 21 ∷ 36 ∷ []) kind
    then (do
      (value, c1) ← read_u16 b end c
      (name, c2) ← read_name b end (not (kind == 36) || mdns) c1
      ok (preference value name, c2))
    else if kind == 14 || kind == 17
    then (do
      (first, c1) ← read_name b end true c
      (second, c2) ← read_name b end true c1
      ok (two_names first second, c2))
    else if kind == 26
    then (do
      (value, c1) ← read_u16 b end c
      (map822, c2) ← read_name b end true c1
      (mapx400, c3) ← read_name b end true c2
      ok (px value map822 mapx400, c3))
    else if one_of (25 ∷ 48 ∷ 60 ∷ []) kind
    then read_key b end c
    else if kind == 24 || kind == 46
    then read_sig b end c
    else if kind == 41
    then (options b end false c >>= λ r. ok (opt r.0, r.1))
    else if kind == 47
    then (do
      (next, c1) ← read_name b end mdns c
      (bitmap, c2) ← rest_of b end c1
      fail_if (not (bitmap_valid bitmap)) invalid_data
      ok (nsec next bitmap, c2))
    else if kind == 64 || kind == 65
    then read_svcb b end c
    else if kind == 43 || kind == 59
    then read_ds b end n c
    else if kind == 50 || kind == 51
    then read_nsec3 b end kind c
    else (take_bytes b end n c >>= λ r. ok (opaque r.0, r.1))
