-- ===== src/Forget.antt =====
-- crates/core/src/commands/forget.rs: which snapshots are kept.
pub mod Equal
pub mod Run
pub mod Sort
pub mod Kept
pub mod KeptReason
pub mod Counters
pub mod Latest
pub mod Groups
mod Tests
use rustic_core.Base.{ℕ, Bool, Option, List, ◌∷◌, not, [], ◌||◌, any, is_some}
use rustic_core.Base.Int.{ℤ}
use rustic_core.Snapshot.{SnapshotFile, StringList, is_empty}

-- The nine kinds of checks, in the order of the array `keep_checks`.
pub data Period : Type 0 where
  last minutely hourly daily weekly monthly quarter_yearly half_yearly yearly : Period

abbrev pub periods : List Period
periods =
    last ∷ minutely ∷ hourly ∷ daily ∷ weekly ∷ monthly ∷ quarter_yearly ∷ half_yearly ∷ yearly ∷ []

-- `KeepOptions`. The fields `keep_last` to `keep_yearly` are `keep`, the fields `keep_within` to
-- `keep_within_yearly` are `keep_within`.
pub record KeepOptions (Span : Type 0) : Type 0 where
  pub keep_tags : List StringList
  pub keep_ids : List (List ℕ)
  pub keep : Period → Option ℤ
  pub keep_within : Period → Option Span
  pub keep_none : Bool
  pub delete_unchanged : Bool

-- The reasons, which the source writes as strings: "id", "tags", "last" and so on for `kept`,
-- "within" and so on for `within`, "snapshot", "unchanged", and "if argument".
pub data Reason : Type 0 where
  id_match tags_match by_snapshot unchanged if_argument : Reason
  kept within : Period → Reason

pub record ForgetSnapshot (Zoned : Type 0) : Type 0 where
  pub snapshot : SnapshotFile Zoned
  pub keep : Bool
  pub reasons : List Reason

-- `KeepOptions::is_valid`
unfoldable pub is_valid : {Span : Type 0} → KeepOptions Span → Bool
is_valid o =
    not (is_empty o.keep_tags)
    || not (is_empty o.keep_ids)
    || any (λ p. is_some (o.keep p)) periods
    || any (λ p. is_some (o.keep_within p)) periods
    || o.keep_none
