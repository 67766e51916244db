-- ===== src/Dns/Name.antt =====
-- `Name` of src/dns/wire.rs: the labels as they came, and the canonical wire form in lower case.
use snak_machine_rs.Base.{
  ℕ, ◌+◌, Bool, true, false, ◌&&◌, ◌||◌, List, [], ◌∷◌, ◌++◌, map, ltb, leb, ◌==◌, if◌then◌else◌,
  Byte, Bytes, length, any, Io, ok, invalid_data, ◌>>◌, fail_if,
}

-- `u8::to_ascii_lowercase`.
abbrev pub lower : Byte → Byte
lower c = if leb 65 c && leb c 90 then c + 32 else c

-- The sum of `l.len() + 1`.
abbrev pub labels_length : List Bytes → ℕ
labels_length [] = 0
labels_length (l ∷ ls) = length l + 1 + labels_length ls

-- The labels behind their lengths, without the root.
abbrev pub write_labels : List Bytes → Bytes
write_labels [] = []
write_labels (l ∷ ls) = length l ∷ l ++ write_labels ls

pub record Name : Type 0 where
  pub labels : List Bytes
  pub canonical : Bytes

abbrev pub bad_label : Bytes → Bool
bad_label l = length l == 0 || ltb 63 (length l)

-- The loop of `from_labels`.
abbrev pub canonical_of : List Bytes → Bytes
canonical_of ls = write_labels (map (map lower) ls) ++ 0 ∷ []

unfoldable pub from_labels : List Bytes → Io Name
from_labels labels = do
  fail_if (any bad_label labels || ltb 255 (1 + labels_length labels)) invalid_data
  ok (record { labels = labels; canonical = canonical_of labels })

abbrev pub root : Name
root = record { labels = []; canonical = 0 ∷ [] }

-- The name without compression.
unfoldable pub write : Name → Bytes
write n = write_labels n.labels ++ 0 ∷ []

-- `==` of byte strings.
unfoldable pub bytes_equal : Bytes → Bytes → Bool
bytes_equal [] [] = true
bytes_equal [] (_ ∷ _) = false
bytes_equal (_ ∷ _) [] = false
bytes_equal (x ∷ xs) (y ∷ ys) = x == y && bytes_equal xs ys

-- `<` of byte strings.
unfoldable pub bytes_less : Bytes → Bytes → Bool
bytes_less _ [] = false
bytes_less [] (_ ∷ _) = true
bytes_less (x ∷ xs) (y ∷ ys) = ltb x y || (x == y && bytes_less xs ys)

-- Names are equal, and ordered, by their canonical forms.
unfoldable pub eq : Name → Name → Bool
unfolding bytes_equal
eq a b = bytes_equal a.canonical b.canonical

unfoldable pub less : Name → Name → Bool
unfolding bytes_less
less a b = bytes_less a.canonical b.canonical
