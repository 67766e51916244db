-- ===== src/Dns/Reader.antt =====
-- `take`, `u16`, `u32` and `name` of `Parser` in src/dns/wire.rs.
-- The cursor is the place `at`, which the functions of the source write through, the offsets that are
-- known to start a name, and the work done. After an error nothing of it is read.
pub mod Rounds
pub mod Names
pub mod Advance
use snak_machine_rs.Base.{
  ℕ, zero, suc, ◌+◌, ◌-◌, ◌*◌, ◌/◌, ◌%◌, Bool, true, false, ◌&&◌, ◌||◌, not, Option, none, some,
  List, [], ◌∷◌, ◌++◌, ltb, leb, ◌==◌, if◌then◌else◌, any, Byte, Bytes, byte, slice, length, u16_of,
  from_be, Io, ok, err, other, invalid_data, ◌>>=◌, ◌>>◌, fail_if,
}
use snak_machine_rs.Dns.Name.{Name, from_labels}

pub record Cursor : Type 0 where
  pub at : ℕ
  pub known : List ℕ
  pub work : ℕ

abbrev pub max_work : ℕ
max_work = 262144

-- The bytes from `at`, up to `end` and the end of the message, and the next place.
unfoldable pub take_at : Bytes → ℕ → ℕ → ℕ → Io (Bytes × ℕ)
take_at b at end n = do
  fail_if (ltb end (at + n)) invalid_data
  fail_if (ltb (length b) (at + n)) invalid_data
  ok (slice at (at + n) b, at + n)

unfoldable pub take_bytes : Bytes → ℕ → ℕ → Cursor → Io (Bytes × Cursor)
unfolding take_at
take_bytes b end n c = take_at b c.at end n >>= λ r. ok (r.0, record c { at = r.1 })

unfoldable pub read_u8 : Bytes → ℕ → Cursor → Io (Byte × Cursor)
unfolding take_bytes
read_u8 b end c = take_bytes b end 1 c >>= λ r. ok (byte r.0 0, r.1)

unfoldable pub read_u16 : Bytes → ℕ → Cursor → Io (ℕ × Cursor)
unfolding take_bytes
read_u16 b end c = take_bytes b end 2 c >>= λ r. ok (from_be r.0, r.1)

unfoldable pub read_u32 : Bytes → ℕ → Cursor → Io (ℕ × Cursor)
unfolding take_bytes
read_u32 b end c = take_bytes b end 4 c >>= λ r. ok (from_be r.0, r.1)

-- The local variables of `name`.
pub record Walk : Type 0 where
  pub pos : ℕ
  pub limit : ℕ
  pub consumed : Option ℕ
  pub labels : List Bytes
  pub positions : List ℕ
  pub size : ℕ
  pub hops : ℕ
  pub work : ℕ

abbrev pub known_at : List ℕ → ℕ → Bool
known_at known target = any (λ p. p == target) known

abbrev pub or_else : Option ℕ → ℕ → ℕ
or_else none n = n
or_else (some m) n = m

-- A label of `n` bytes behind its length.
unfoldable pub label_step : Bytes → ℕ → Walk → Io Walk
unfolding take_at
label_step b n w = do
  (l, pos) ← take_at b (w.pos + 1) w.limit n
  fail_if (ltb 255 (w.size + (1 + length l))) invalid_data
  ok (record w {
    pos = pos;
    labels = w.labels ++ l ∷ [];
    positions = w.positions ++ w.pos ∷ [];
    size = w.size + (1 + length l);
  })

-- A pointer: to a known start of a name before it, 64 at most.
unfoldable pub pointer_step : Bytes → List ℕ → Byte → Walk → Io Walk
unfolding take_at
pointer_step b known c w = do
  (low, pos) ← take_at b (w.pos + 1) w.limit 1
  let target = c % 64 * 256 + byte low 0
  fail_if (ltb 64 (w.hops + 1) || leb w.pos target || not (known_at known target)) invalid_data
  ok (record w {
    pos = target;
    limit = length b;
    consumed = some (or_else w.consumed pos);
    positions = w.positions ++ w.pos ∷ [];
    hops = w.hops + 1;
  })

-- `loop`, with the rounds that are left. With none left it gives an error of its own kind, which no other
-- line gives.
unfoldable pub name_loop : ℕ → Bytes → List ℕ → Bool → Walk → Io Walk
unfolding label_step pointer_step take_at
name_loop zero b known compressed w = err other
name_loop (suc rounds) b known compressed w =
    let go : Io Walk → Io Walk = λ step. step >>= λ w'. name_loop rounds b known compressed w' in
    do
      fail_if (ltb max_work (w.work + 1)) invalid_data
      (head, pos) ← take_at b w.pos w.limit 1
      let c = byte head 0
      let w1 = record w { work = w.work + 1 }
      if c == 0
          then ok (record w1 { pos = pos; positions = w.positions ++ w.pos ∷ [] })
          else if leb c 63
          then go (label_step b c w1)
          else if leb 192 c && compressed
          then go (pointer_step b known c w1)
          else err invalid_data

-- A label adds two to the size at least, which stays at 255 at most, and there are 64 pointers.
abbrev pub name_rounds : ℕ
name_rounds = 320

unfoldable pub read_name : Bytes → ℕ → Bool → Cursor → Io (Name × Cursor)
read_name b end compressed c = do
  w ← name_loop name_rounds b c.known compressed (record {
    pos = c.at;
    limit = end;
    consumed = none;
    labels = [];
    positions = [];
    size = 1;
    hops = 0;
    work = c.work;
  })
  name ← from_labels w.labels
  ok (name, record { at = or_else w.consumed w.pos; known = w.positions ++ c.known; work = w.work })
