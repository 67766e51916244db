-- ===== src/Base/ByteStrings.antt =====
-- Big-endian numbers in byte strings, slices, and the bytes of a string.
use native.Mathlib.Nat.{
  pow-zero, one-le-pow, pow-suc, div-add-mod, div-div-eq-div-mul, mod-eq_of_lt, zero-add, suc-add,
  mul_assoc,
}
use Prim.Native.Nat.{ℕ, zero, suc, ◌+◌, ◌-◌, ◌*◌, ◌/◌, ◌%◌, ◌^◌, ◌<◌}
use mathlib.Core.Path.{◌≡◌, refl, sym, ap, ◌∙◌}
use mathlib.Core.List.{[], ◌∷◌, ◌++◌}
use native.Mathlib.Omega.{arith}
use snak_machine_rs.Base.Lists.{length, take, drop, get_or, replicate}
use snak_machine_rs.Base.Words.{Byte, Bytes}

-- `x.to_be_bytes()` of a number of `n` bytes.
abbrev pub to_be : ℕ → ℕ → Bytes
to_be zero x = []
to_be (suc n) x = (x / 256 ^ n % 256) ∷ to_be n x

-- `from_be_bytes`, behind the digits already read.
abbrev pub from_be_acc : ℕ → Bytes → ℕ
from_be_acc acc [] = acc
from_be_acc acc (b ∷ bs) = from_be_acc (acc * 256 + b) bs

abbrev pub from_be : Bytes → ℕ
from_be bs = from_be_acc 0 bs

-- `b[from..to]`; the callers check the bounds.
abbrev pub slice : ℕ → ℕ → Bytes → Bytes
slice from to b = take (to - from) (drop from b)

-- `b[i]`; the callers check the bound.
abbrev pub byte : Bytes → ℕ → Byte
byte b i = get_or b i 0

-- `b[at..at + new.len()].copy_from_slice(new)`; the callers check the bounds.
abbrev pub overwrite : ℕ → Bytes → Bytes → Bytes
overwrite at new b = take at b ++ (new ++ drop (at + length new) b)

pub length-to_be : (n x : ℕ) → length (to_be n x) ≡ n
length-to_be zero x = refl
length-to_be (suc n) x = ap suc (length-to_be n x)

digit_lem : (x m : ℕ) → x % (m * 256) ≡ x / m % 256 * m + x % m
digit_lem x m = omega (
  arith,
  div-add-mod x m,
  div-add-mod x (m * 256),
  ap (λ (t : ℕ). m * 256 * t) (div-div-eq-div-mul x m 256),
  ap (λ (t : ℕ). m * t) (div-add-mod (x / m) 256),
)

pub from_be_acc-to_be : (n acc x : ℕ) → from_be_acc acc (to_be n x) ≡ acc * 256 ^ n + x % 256 ^ n
from_be_acc-to_be zero acc x = omega arith
from_be_acc-to_be (suc n) acc x = omega (
  arith,
  from_be_acc-to_be n (acc * 256 + x / 256 ^ n % 256) x,
  digit_lem x (256 ^ n),
  pow-suc 256 n,
  ap (λ (t : ℕ). acc * t) (pow-suc 256 n),
  ap (λ (t : ℕ). x % t) (pow-suc 256 n),
)

-- A number that fits its bytes is read back.
pub from_be-to_be : (n x : ℕ) → x < 256 ^ n → from_be (to_be n x) ≡ x
from_be-to_be n x h = omega (arith, from_be_acc-to_be n 0 x, mod-eq_of_lt h)

pub pow-add : (b m n : ℕ) → b ^ (m + n) ≡ b ^ n * b ^ m
pow-add b zero n = rw (zero-add, pow-zero) (omega arith)
pow-add b (suc m) n =
    rw (suc-add m n, pow-suc b (m + n), pow-suc b m, pow-add b m n) (mul_assoc (b ^ n) (b ^ m) b)

-- The high bytes come first.
pub to_be-add : (m n x : ℕ) → to_be (m + n) x ≡ to_be m (x / 256 ^ n) ++ to_be n x
to_be-add zero n x = rw zero-add
to_be-add (suc m) n x =
    rw (suc-add m n, to_be-add m n x, pow-add 256 m n, ← div-div-eq-div-mul x (256 ^ n) (256 ^ m))

pub from_be_acc-append :
    (acc : ℕ) (xs ys : Bytes) → from_be_acc acc (xs ++ ys) ≡ from_be_acc (from_be_acc acc xs) ys
from_be_acc-append acc [] ys = refl
from_be_acc-append acc (x ∷ xs) ys = from_be_acc-append (acc * 256 + x) xs ys

-- A multiple of 256 ^ n ends in n zero bytes.
pub to_be-zero : (n x : ℕ) → x % 256 ^ n ≡ 0 → to_be n x ≡ replicate n 0
to_be-zero zero x h = refl
to_be-zero (suc n) x h = cc (high, to_be-zero n x low)
  where
    digits : x / 256 ^ n % 256 * 256 ^ n + x % 256 ^ n ≡ 0
    digits = sym (digit_lem x (256 ^ n)) ∙ ap (λ (t : ℕ). x % t) (sym (pow-suc 256 n)) ∙ h

    low : x % 256 ^ n ≡ 0
    low = omega (arith, digits)

    high : x / 256 ^ n % 256 ≡ 0
    high = grind (arith, digits, one-le-pow n 256 (omega arith))

-- Every entry is a byte.
abbrev pub IsBytes : Bytes → Type 0
IsBytes [] = Unit {0}
IsBytes (b ∷ bs) = (b < 256) × IsBytes bs

pub to_be-IsBytes : (n x : ℕ) → IsBytes (to_be n x)
to_be-IsBytes zero x = tt
to_be-IsBytes (suc n) x = (omega arith, to_be-IsBytes n x)

pub drop-IsBytes : (n : ℕ) (b : Bytes) → IsBytes b → IsBytes (drop n b)
drop-IsBytes zero b h = h
drop-IsBytes (suc n) [] h = tt
drop-IsBytes (suc n) (x ∷ b) h = drop-IsBytes n b h.1

pub append-IsBytes : (a b : Bytes) → IsBytes a → IsBytes b → IsBytes (a ++ b)
append-IsBytes [] b h k = k
append-IsBytes (x ∷ a) b h k = (h.0, append-IsBytes a b h.1 k)

pub byte-lt : (b : Bytes) (i : ℕ) → IsBytes b → byte b i < 256
byte-lt [] i h = omega arith
byte-lt (x ∷ b) zero h = h.0
byte-lt (x ∷ b) (suc i) h = byte-lt b i h.1
