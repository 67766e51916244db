-- ===== src/Nat64/Bindings/Allocate.antt =====
-- `allocate` of src/nat64/bindings.rs: the external port or identifier of a new binding.
use snak_machine_rs.Base.{
  ℕ, zero, suc, ◌+◌, ◌-◌, ◌*◌, ◌%◌, min, Bool, true, false, ◌&&◌, ◌||◌, not, Option, none, some,
  List, [], ◌∷◌, leb, ◌==◌, if◌then◌else◌, Io, ok, err, would_block, ◌>>=◌,
}
use snak_machine_rs.Base.Maps.{pair_key, contains}
use snak_machine_rs.Time.{Rng, sample}
use snak_machine_rs.Ports.{occupied}
use snak_machine_rs.Nat64.Bindings.Tables.{Bindings}

-- The closure `free`; `taken` is the caller's test.
unfoldable pub free : Bindings → ℕ → (ℕ → Bool) → ℕ → Bool
free b protocol taken p =
    not (contains (protocol, p) b.reverse) && not (occupied b.ports protocol p) && not (taken p)

-- `for n in …`, with the rounds that are left: every second port from `first` on, cyclically.
unfoldable pub find_port : ℕ → ℕ → ℕ → ℕ → ℕ → (ℕ → Bool) → Option ℕ
find_port zero n start size first test = none
find_port (suc rounds) n start size first test =
    let candidate = first + (start + n) % size * 2 in
    let rest = find_port rounds (n + 1) start size first test in
    if test candidate then some candidate else rest

-- The first port of a range and its size, by range and parity.
abbrev pub range_of : Bool → ℕ → ℕ × ℕ
range_of true parity = (1024 + parity, 32256)
range_of false parity = if parity == 0 then (2, 511) else (1, 512)

-- The ranges that are searched in turn, each from a random start.
unfoldable pub search_ranges : List (ℕ × ℕ) → Rng → (ℕ → Bool) → Io (ℕ × Rng)
unfolding find_port
search_ranges [] rng test = err would_block
search_ranges ((first, size) ∷ others) rng test = sample (size - 1) rng >>= λ r.
    let rest = search_ranges others r.1 test in
    elim (find_port (min size 8192) 0 r.0 size first test) [ some p ↦ ok (p, r.1) | none ↦ rest ]

-- The range and the parity of the internal port come first.
abbrev pub ranges_for : ℕ → List (ℕ × ℕ)
ranges_for port =
    let high = leb 1024 port in
    let parity = port % 2 in
    range_of high parity
    ∷ range_of high (1 - parity)
    ∷ range_of (not high) parity
    ∷ range_of (not high) (1 - parity)
    ∷ []

unfoldable pub allocate : Bindings → ℕ → ℕ → Rng → (ℕ → Bool) → Io (ℕ × Rng)
unfolding search_ranges free
allocate b protocol port rng taken =
    if (not (port == 0) || protocol == 1) && free b protocol taken port
    then ok (port, rng)
    else search_ranges (ranges_for port) rng (free b protocol taken)
