-- ===== src/Snapshot.antt =====
-- crates/core/src/repofile/snapshotfile.rs and snapshotfile/grouping.rs: snapshots and their groups.
-- Times are those of the crate jiff, a parameter `Jiff`: a type of points in time with their
-- civil fields, compared by their timestamps, and a type of durations. A string is the list of its
-- character codes. A snapshot's `summary` is left out.
pub mod Groups
pub mod Tests
use rustic_core.Base.{
  ℕ, ◌≡◌, Bool, true, false, Option, none, some, List, [], ◌∷◌, ◌&&◌, ◌||◌, any, all, ltb, leb,
  if◌then◌else◌, arith, is_some,
}
use rustic_core.Config.Poly.{eq_codes}

-- What the program uses of jiff.
pub record Jiff (Zoned Span : Type 0) : Type 0 where
  pub timestamp : Zoned → ℕ
  pub year : Zoned → ℕ
  pub month : Zoned → ℕ
  pub week : Zoned → ℕ
  pub day_of_year : Zoned → ℕ
  pub hour : Zoned → ℕ
  pub minute : Zoned → ℕ
  pub saturating_add : Zoned → Span → Zoned
  pub saturating_sub : Zoned → Span → Zoned

-- `StringList`
abbrev pub StringList : Type 0
StringList = List (List ℕ)

unfoldable pub contains : StringList → List ℕ → Bool
contains l s = any (eq_codes s) l

unfoldable pub contains_all : StringList → StringList → Bool
unfolding contains
contains_all l sl = all (contains l) sl

unfoldable pub is_empty {ℓ} : {A : Type ℓ} → List A → Bool
is_empty [] = true
is_empty (x ∷ xs) = false

-- `StringList::matches`
unfoldable pub list_matches : StringList → List StringList → Bool
unfolding contains_all is_empty
list_matches l sls = is_empty sls || any (contains_all l) sls

unfoldable pub eq_lists : StringList → StringList → Bool
eq_lists [] [] = true
eq_lists (a ∷ as') (b ∷ bs) = eq_codes a b && eq_lists as' bs
eq_lists _ _ = false

pub data DeleteOption (Zoned : Type 0) : Type 0 where
  not_set never : DeleteOption Zoned
  after : Zoned → DeleteOption Zoned

pub record SnapshotFile (Zoned : Type 0) : Type 0 where
  pub time : Zoned
  pub program_version : List ℕ
  pub parent : Option ℕ
  pub parents : List ℕ
  pub tree : ℕ
  pub label : List ℕ
  pub paths : StringList
  pub hostname : List ℕ
  pub username : List ℕ
  pub uid : ℕ
  pub gid : ℕ
  pub tags : StringList
  pub original : Option ℕ
  pub delete : DeleteOption Zoned
  pub description : Option (List ℕ)
  pub id : ℕ

module _ {Zoned Span : Type 0} (j : Jiff Zoned Span) where
  delete_before : DeleteOption Zoned → Zoned → Bool
  delete_before (after time) now = ltb (j.timestamp time) (j.timestamp now)
  delete_before _ now = false

  unfoldable pub must_delete : SnapshotFile Zoned → Zoned → Bool
  unfolding delete_before
  must_delete sn now = delete_before sn.delete now

  keep_until : DeleteOption Zoned → Zoned → Bool
  keep_until never now = true
  keep_until (after time) now = leb (j.timestamp now) (j.timestamp time)
  keep_until not_set now = false

  unfoldable pub must_keep : SnapshotFile Zoned → Zoned → Bool
  unfolding keep_until
  must_keep sn now = keep_until sn.delete now

  -- No snapshot must be both kept and deleted.
  pub must_keep-must_delete :
      (sn : SnapshotFile Zoned) (now : Zoned) → must_keep sn now ≡ true → must_delete sn now ≡ false
  unfolding must_keep must_delete
  must_keep-must_delete sn now h = ground arith

-- `SnapshotGroupCriterion`
pub record SnapshotGroupCriterion : Type 0 where
  pub hostname : Bool
  pub label : Bool
  pub paths : Bool
  pub tags : Bool

-- `SnapshotGroup`
pub record SnapshotGroup : Type 0 where
  pub hostname : Option (List ℕ)
  pub label : Option (List ℕ)
  pub paths : Option StringList
  pub tags : Option StringList

abbrev pub default_group : SnapshotGroup
default_group = record { hostname = none; label = none; paths = none; tags = none }

-- `bool::then`
abbrev then_some {ℓ} : {A : Type ℓ} → Bool → A → Option A
then_some b a = if b then some a else none

is_none_or {ℓ} : {A : Type ℓ} → Option A → (A → Bool) → Bool
is_none_or none p = true
is_none_or (some a) p = p a

module _ {Zoned : Type 0} where
  -- `SnapshotGroup::from_snapshot`
  unfoldable pub group_of : SnapshotFile Zoned → SnapshotGroupCriterion → SnapshotGroup
  group_of sn crit = record {
    hostname = then_some crit.hostname sn.hostname;
    label = then_some crit.label sn.label;
    paths = then_some crit.paths sn.paths;
    tags = then_some crit.tags sn.tags;
  }

  -- `SnapshotGroup::matches`
  unfoldable pub group_matches : SnapshotGroup → SnapshotFile Zoned → Bool
  unfolding is_none_or
  group_matches g sn =
      is_none_or g.hostname (λ v. eq_codes v sn.hostname)
      && is_none_or g.label (λ v. eq_codes v sn.label)
      && is_none_or g.paths (λ v. eq_lists v sn.paths)
      && is_none_or g.tags (λ v. eq_lists v sn.tags)

-- `SnapshotGroupCriterion::from_group`
unfoldable pub criterion_of : SnapshotGroup → SnapshotGroupCriterion
criterion_of g = record {
  hostname = is_some g.hostname;
  label = is_some g.label;
  paths = is_some g.paths;
  tags = is_some g.tags;
}

pub record Group {ℓ} (T : Type ℓ) : Type ℓ where
  pub group_key : SnapshotGroup
  pub items : List T
