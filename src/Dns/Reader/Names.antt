-- ===== src/Dns/Reader/Names.antt =====
-- A name that is written without compression is read back.
use mathlib.Core.List.{append_assoc, append-nil}
use snak_machine_rs.Base.{
  ℕ, zero, suc, ◌+◌, ◌-◌, ◌≤◌, ◌<◌, ◌≡◌, refl, sym, ap, ◌∙◌, Bool, false, List, [], ◌∷◌, ◌++◌,
  arith, Bytes, length, take, drop, drop-append, take-append, length-append, any, none, ok,
}
use snak_machine_rs.Dns.Name.{
  Name, from_labels, bad_label, labels_length, write, write_labels, canonical_of,
}
use snak_machine_rs.Dns.Reader.{
  Cursor, Walk, take_at, label_step, name_loop, name_rounds, read_name, max_work,
}

-- The bytes behind a prefix.
pub take_at-append :
    (b pre xs post : Bytes) (p end n : ℕ)
    → b ≡ pre ++ (xs ++ post)
    → p ≡ length pre
    → n ≡ length xs
    → p + n ≤ end
    → take_at b p end n ≡ ok (xs, p + n)
unfolding take_at
take_at-append b pre xs post p end n e at m h =
    let behind : drop p b ≡ xs ++ post =
      ap (λ (k : ℕ). drop k b) at ∙ ap (drop (length pre)) e ∙ drop-append pre (xs ++ post) in
    let taken : take n (xs ++ post) ≡ xs =
      ap (λ (k : ℕ). take k (xs ++ post)) m ∙ take-append xs post in
    let long : length b ≡ length pre + (length xs + length post) =
      ap length e
      ∙ length-append pre (xs ++ post)
      ∙ ap (λ (k : ℕ). length pre + k) (length-append xs post) in
    let same : (p + n) - p ≡ n = omega arith in ground (arith, behind, taken, long, same)

pub length-write_labels : (ls : List Bytes) → length (write_labels ls) ≡ labels_length ls
length-write_labels [] = refl
length-write_labels (l ∷ ls) =
    omega (arith, length-append l (write_labels ls), length-write_labels ls)

-- The offsets of the labels, and of the root.
abbrev pub starts : ℕ → List Bytes → List ℕ
starts p [] = p ∷ []
starts p (l ∷ ls) = p ∷ starts (p + (1 + length l)) ls

-- The walk after the labels and the root.
abbrev walked : Walk → List Bytes → Walk
walked w ls = record w {
  pos = w.pos + labels_length ls + 1;
  labels = w.labels ++ ls;
  positions = w.positions ++ starts w.pos ls;
  size = w.size + labels_length ls;
  work = w.work + length ls + 1;
}

abbrev stepped : Walk → Bytes → Walk
stepped w l = record w {
  pos = w.pos + 1 + length l;
  labels = w.labels ++ l ∷ [];
  positions = w.positions ++ w.pos ∷ [];
  size = w.size + (1 + length l);
  work = w.work + 1;
}

walked_same : (w : Walk) (l : Bytes) (ls : List Bytes) → walked (stepped w l) ls ≡ walked w (l ∷ ls)
walked_same w l ls =
    let place : w.pos + 1 + length l ≡ w.pos + (1 + length l) = omega arith in
    let end : w.pos + 1 + length l + labels_length ls + 1 ≡ w.pos + labels_length (l ∷ ls) + 1 =
      omega arith in
    let size : w.size + (1 + length l) + labels_length ls ≡ w.size + labels_length (l ∷ ls) =
      omega arith in
    let work : w.work + 1 + length ls + 1 ≡ w.work + length (l ∷ ls) + 1 = omega arith in
    let labels = append_assoc w.labels (l ∷ []) ls in
    let positions = append_assoc w.positions (w.pos ∷ []) (starts (w.pos + 1 + length l) ls) in
    rw (end, size, work, labels, positions, place) refl

name_loop-write_labels :
    (ls : List Bytes) (rounds : ℕ) (b pre post : Bytes) (known : List ℕ) (compressed : Bool)
    (w : Walk)
    → b ≡ pre ++ (write_labels ls ++ 0 ∷ post)
    → w.pos ≡ length pre
    → any bad_label ls ≡ false
    → w.size + labels_length ls ≤ 255
    → length pre + labels_length ls + 1 ≤ w.limit
    → w.work + length ls + 1 ≤ max_work
    → length ls < rounds
    → name_loop rounds b known compressed w ≡ ok (walked w ls)
unfolding name_loop label_step
name_loop-write_labels ls zero b pre post known compressed w e at good fits room idle more =
    absurd (omega arith)
name_loop-write_labels [] (suc rounds) b pre post known compressed w e at good fits room idle more =
    let head = take_at-append b pre (0 ∷ []) post w.pos w.limit 1 e at refl (omega arith) in
    ground (arith, head, append-nil w.labels)
name_loop-write_labels (l ∷ ls) (suc rounds) b pre post known compressed w e at good fits room idle
      more =
    let tail = write_labels ls ++ 0 ∷ post in
    let split : b ≡ pre ++ (length l ∷ (l ++ tail)) =
      e ∙ ap (λ (t : Bytes). pre ++ (length l ∷ t)) (append_assoc l (write_labels ls) (0 ∷ post)) in
    let head =
      take_at-append b pre (length l ∷ []) (l ++ tail) w.pos w.limit 1 split at refl
        (omega arith) in
    let label =
      take_at-append b (pre ++ length l ∷ []) l tail (w.pos + 1) w.limit (length l)
        (split ∙ sym (append_assoc pre (length l ∷ []) (l ++ tail)))
        (omega (arith, length-append pre (length l ∷ []))) refl (omega arith) in
    let w1 : Walk = record w { work = w.work + 1 } in
    let w' : Walk = stepped w l in
    let step : label_step b (length l) w1 ≡ ok w' = ground (arith, label) in
    let rest =
      name_loop-write_labels ls rounds b (pre ++ length l ∷ l) post known compressed w'
        (split ∙ sym (append_assoc pre (length l ∷ l) tail))
        (omega (arith, length-append pre (length l ∷ l))) (ground (arith, good)) (omega arith)
        (omega (arith, length-append pre (length l ∷ l))) (omega arith) (omega arith) in
    let same : walked w' ls ≡ walked w (l ∷ ls) = walked_same w l ls in
    ground (arith, head, step, rest, same, good)

length-le-labels_length : (ls : List Bytes) → length ls ≤ labels_length ls
length-le-labels_length [] = omega arith
length-le-labels_length (l ∷ ls) = omega (arith, length-le-labels_length ls)

-- A name that was built from labels and is written without compression at the cursor is read back,
-- with or without compression allowed, whatever stands before and behind it, while the work allows
-- it. The cursor moves behind it, and the starts of its labels and of its root are known.
pub read_name-write :
    (b pre post : Bytes) (ls : List Bytes) (n : Name) (end : ℕ) (compressed : Bool) (c : Cursor)
    → from_labels ls ≡ ok n
    → b ≡ pre ++ (write n ++ post)
    → c.at ≡ length pre
    → c.at + length (write n) ≤ end
    → c.work + length ls + 1 ≤ max_work
    → read_name b end compressed c
      ≡ ok (
        n,
        record {
          at = c.at + length (write n);
          known = starts c.at ls ++ c.known;
          work = c.work + length ls + 1;
        },
      )
unfolding read_name write from_labels
read_name-write b pre post ls n end compressed c built e at room idle =
    let good : any bad_label ls ≡ false = ground (arith, built) in
    let fits : 1 + labels_length ls ≤ 255 = ground (arith, built) in
    let same : n ≡ record { labels = ls; canonical = canonical_of ls } = ground (arith, built) in
    let labels : n.labels ≡ ls = ap (λ (m : Name). m.labels) same in
    let split : b ≡ pre ++ (write_labels ls ++ 0 ∷ post) =
      e
      ∙ ap (λ (t : List Bytes). pre ++ ((write_labels t ++ 0 ∷ []) ++ post)) labels
      ∙ ap (λ (t : Bytes). pre ++ t) (append_assoc (write_labels ls) (0 ∷ []) post) in
    let size : length (write n) ≡ labels_length ls + 1 =
      ap (λ (t : List Bytes). length (write_labels t ++ 0 ∷ [])) labels
      ∙ length-append (write_labels ls) (0 ∷ [])
      ∙ ap (λ (k : ℕ). k + 1) (length-write_labels ls) in
    let loop =
      name_loop-write_labels ls name_rounds b pre post c.known compressed
        (record {
          pos = c.at;
          limit = end;
          consumed = none;
          labels = [];
          positions = [];
          size = 1;
          hops = 0;
          work = c.work;
        })
        split at good fits (omega (arith, size)) idle (omega (arith, length-le-labels_length ls)) in
    let moved : c.at + labels_length ls + 1 ≡ c.at + length (write n) = omega (arith, size) in
    ground (arith, loop, built, moved, append-nil c.known)
