-- ===== src/OnLink/View.antt =====
-- The table of on-link prefixes is one map from link and prefix to lifetimes.
use snak_machine_rs.Base.{◌≡◌, none, some, arith, if◌then◌else◌, Option-cases, Bool-cases, inl, inr}
use snak_machine_rs.Base.Maps.{lookup, Unique, lookup-insert, lookup-remove}
use snak_machine_rs.Time.{Lifetime}
use snak_machine_rs.Wire.Advertisement.{is_ail}
use snak_machine_rs.OnLink.{
  LinkPrefix, link_prefix_key, link_prefix_equal, link_prefix_equal_iff, OnLink, OnLinkTable,
  of_valid, get, insert_entry, remove_entry, set_valid,
}

-- What a table keeps of the lifetimes: on the AIL only the validity.
abbrev pub stored : LinkPrefix → OnLink → OnLink
stored k v = if is_ail k.link then of_valid v.valid else v

-- After an insertion, and after a change of a validity, the prefix is read with the new lifetimes, as far
-- as its link keeps them; a change of a missing prefix does nothing; all other prefixes are read as before.
pub get-insert :
    (t : OnLinkTable) (k q : LinkPrefix) (v : OnLink) (valid : Lifetime)
    → (get (insert_entry t k v) q ≡ (if link_prefix_equal k q then some (stored k v) else get t q))
      × (get (set_valid t k valid) q ≡ (
          if link_prefix_equal k q
          then elim (get t k) [
            | none ↦ none
            | some w ↦ some (stored k (record w { valid = valid }))
          ]
          else get t q))
unfolding get insert_entry set_valid
get-insert t k q v valid =
    let same = link_prefix_equal_iff k q in
    (
      ground (
        arith,
        same,
        lookup-insert k q v.valid t.ail_prefixes,
        lookup-insert k q v t.stub_prefixes,
      ),
      elim (Bool-cases (is_ail k.link)) [
        | inl on_ail ↦ elim (Option-cases (lookup k t.ail_prefixes)) [
          | inl absent ↦ ground (arith, same)
          | inr (w, there) ↦ ground (arith, same, lookup-insert k q valid t.ail_prefixes)
        ]
        | inr on_stub ↦ elim (Option-cases (lookup k t.stub_prefixes)) [
          | inl absent ↦ ground (arith, same)
          | inr (w, there) ↦
              ground (arith, same, lookup-insert k q (record w { valid = valid }) t.stub_prefixes)
        ]
      ],
    )

-- After a removal the prefix is gone, and all others are read as before.
pub get-remove :
    (t : OnLinkTable) (k q : LinkPrefix)
    → Unique t.ail_prefixes
    → Unique t.stub_prefixes
    → get (remove_entry t k) q ≡ (if link_prefix_equal k q then none else get t q)
unfolding get remove_entry
get-remove t k q ua us = ground (
  arith,
  link_prefix_equal_iff k q,
  lookup-remove k q t.ail_prefixes ua,
  lookup-remove k q t.stub_prefixes us,
)
