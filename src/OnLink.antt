-- ===== src/OnLink.antt =====
-- src/router/on_link.rs: the on-link prefixes of both links, of which the AIL keeps only the validity.
pub mod View
use snak_machine_rs.Base.{
  ℕ, ◌≡◌, refl, ◌↔◌, Bool, true, false, ◌&&◌, ◌||◌, not, Option, none, some, List, [], ◌∷◌, ◌++◌,
  map, arith, ltb, ◌==◌, if◌then◌else◌, is_some,
}
use snak_machine_rs.Base.Maps.{Map, Key, lookup, insert, remove, retain}
use snak_machine_rs.Time.{Lifetime, until}
use snak_machine_rs.Wire.Prefix.{Prefix, eq, less}
use snak_machine_rs.Wire.Advertisement.{Link, ail, stub, is_ail}

pub record LinkPrefix : Type 0 where
  pub link : Link
  pub prefix : Prefix

-- The derived order: the AIL is before the stub.
unfoldable pub link_prefix_equal : LinkPrefix → LinkPrefix → Bool
link_prefix_equal a b =
    ((is_ail a.link && is_ail b.link) || (not (is_ail a.link) && not (is_ail b.link)))
    && eq a.prefix b.prefix

unfoldable pub link_prefix_less : LinkPrefix → LinkPrefix → Bool
link_prefix_less a b =
    (is_ail a.link && not (is_ail b.link))
    || (((is_ail a.link && is_ail b.link) || (not (is_ail a.link) && not (is_ail b.link)))
        && less a.prefix b.prefix)

same_link : (a b : Link) → is_ail a ≡ is_ail b → a ≡ b
same_link ail ail h = refl
same_link ail stub h = absurd (cc)
same_link stub ail h = absurd (cc)
same_link stub stub h = refl

pub link_prefix_equal_iff : (a b : LinkPrefix) → (link_prefix_equal a b ≡ true) ↔ (a ≡ b)
unfolding link_prefix_equal
link_prefix_equal_iff a b = ground (arith, same_link a.link b.link)

instance abbrev pub link_prefix_key : Key LinkPrefix
link_prefix_key = record {
  equal = link_prefix_equal;
  less = link_prefix_less;
  equal_iff = link_prefix_equal_iff;
}

pub record OnLink : Type 0 where
  pub valid : Lifetime
  pub preferred : Lifetime

pub record OnLinkTable : Type 0 where
  pub ail_prefixes : Map LinkPrefix Lifetime
  pub stub_prefixes : Map LinkPrefix OnLink

-- What is read of an AIL prefix: its preferred time is over.
abbrev pub of_valid : Lifetime → OnLink
of_valid valid = record { valid = valid; preferred = until 0 }

abbrev pub entries_of : Map LinkPrefix Lifetime → Map LinkPrefix OnLink
entries_of [] = []
entries_of ((k, v) ∷ m) = (k, of_valid v) ∷ entries_of m

unfoldable pub iter : OnLinkTable → Map LinkPrefix OnLink
iter t = entries_of t.ail_prefixes ++ t.stub_prefixes

unfoldable pub keys : OnLinkTable → List LinkPrefix
unfolding iter
keys t = map (λ e. e.0) (iter t)

unfoldable pub values : OnLinkTable → List OnLink
unfolding iter
values t = map (λ e. e.1) (iter t)

abbrev pub is_nil : {A : Type 0} → List A → Bool
is_nil [] = true
is_nil (_ ∷ _) = false

unfoldable pub is_empty : OnLinkTable → Bool
is_empty t = is_nil t.ail_prefixes && is_nil t.stub_prefixes

unfoldable pub get : OnLinkTable → LinkPrefix → Option OnLink
get t k =
    if is_ail k.link
    then elim (lookup k t.ail_prefixes) [ none ↦ none | some v ↦ some (of_valid v) ]
    else lookup k t.stub_prefixes

unfoldable pub contains_key : OnLinkTable → LinkPrefix → Bool
unfolding get
contains_key t k = is_some (get t k)

unfoldable pub insert_entry : OnLinkTable → LinkPrefix → OnLink → OnLinkTable
insert_entry t k v =
    if is_ail k.link
    then record t { ail_prefixes = insert k v.valid t.ail_prefixes }
    else record t { stub_prefixes = insert k v t.stub_prefixes }

unfoldable pub remove_entry : OnLinkTable → LinkPrefix → OnLinkTable
remove_entry t k =
    if is_ail k.link
    then record t { ail_prefixes = remove k t.ail_prefixes }
    else record t { stub_prefixes = remove k t.stub_prefixes }

-- The test reads an AIL prefix as `get` does.
unfoldable pub retain_entries : (LinkPrefix → OnLink → Bool) → OnLinkTable → OnLinkTable
retain_entries f t = record {
  ail_prefixes = retain (λ k v. f k (of_valid v)) t.ail_prefixes;
  stub_prefixes = retain f t.stub_prefixes;
}

unfoldable pub set_valid : OnLinkTable → LinkPrefix → Lifetime → OnLinkTable
set_valid t k valid =
    if is_ail k.link
    then elim (lookup k t.ail_prefixes) [
      | none ↦ t
      | some _ ↦ record t { ail_prefixes = insert k valid t.ail_prefixes }
    ]
    else elim (lookup k t.stub_prefixes) [
      | none ↦ t
      | some v ↦ record t { stub_prefixes = insert k (record v { valid = valid }) t.stub_prefixes }
    ]
