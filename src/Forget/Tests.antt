-- ===== src/Forget/Tests.antt =====
-- Examples for `forget`.
use mathlib.Core.List.{Perm}
use rustic_core.Forget.Latest.{AreLatest}
use rustic_core.Base.{
  map, All, take, ℕ, ◌≡◌, ◌≤◌, true, false, none, some, List, [], ◌∷◌, refl, Option, count, ok,
}
use rustic_core.Base.Int.{ℤ, pos}
use rustic_core.Snapshot.{
  Group, default_group, SnapshotFile, not_set, must_keep, must_delete, is_empty,
}
use rustic_core.Snapshot.Tests.{clock, snapshot}
use rustic_core.Forget.{Period, KeepOptions, ForgetSnapshot, is_valid, Reason}
use rustic_core.Forget.Equal.{equal_hour, equal_minute}
use rustic_core.Forget.Sort.{sort_desc}
use rustic_core.Forget.Run.{
  apply, apply_sorted, apply_loop, decide, matches, id_reasons, tag_reasons, all_reasons,
  check_reasons, check_counter, is_due, counts, count_down, check_fun, next_has_tree,
}
use rustic_core.Forget.Kept.{Outcome, apply-Outcome}
use rustic_core.Forget.KeptReason.{has_kept}
use rustic_core.Forget.Latest.{apply_last, IsUndetermined}
use rustic_core.Forget.Groups.{
  from_grouped, into_forget_ids, IsForgettable, into_forget_ids-IsForgettable,
}
use rustic_core.Forget.Counters.{apply-counter}

abbrev keep_counter : Period → Option ℤ
keep_counter Period.last = some (pos 1)
keep_counter _ = none

abbrev no_within : Period → Option ℕ
no_within p = none

abbrev keep_last_one : KeepOptions ℕ
keep_last_one = record {
  keep_tags = [];
  keep_ids = [];
  keep = keep_counter;
  keep_within = no_within;
  keep_none = false;
  delete_unchanged = false;
}

abbrev two : List (SnapshotFile ℕ)
two = snapshot 100 1 not_set ∷ snapshot 200 2 not_set ∷ []

abbrev two_forgotten : List (ForgetSnapshot ℕ)
two_forgotten =
    record {
      snapshot = snapshot 200 2 not_set;
      keep = true;
      reasons = Reason.kept Period.last ∷ [];
    }
    ∷ record { snapshot = snapshot 100 1 not_set; keep = false; reasons = [] }
    ∷ []

apply-two : apply clock keep_last_one two 300 ≡ ok two_forgotten
unfolding apply apply_sorted apply_loop decide matches id_reasons tag_reasons all_reasons
    check_reasons check_counter is_due counts count_down check_fun must_keep must_delete is_valid
    is_empty sort_desc next_has_tree
apply-two = refl

apply-Outcome_example : Outcome clock keep_last_one two 300 (apply clock keep_last_one two 300)
apply-Outcome_example = apply-Outcome clock keep_last_one two 300

apply-counter_example : count (λ f. has_kept Period.last f.reasons) two_forgotten ≤ 1
apply-counter_example =
    apply-counter clock Period.last keep_last_one 300 1 two two_forgotten refl apply-two

abbrev one_past : SnapshotFile ℕ
one_past = snapshot 3660 1 not_set

abbrev two_past : SnapshotFile ℕ
two_past = snapshot 7260 1 not_set

same_minute :
    (equal_minute clock one_past two_past ≡ true) × (equal_hour clock one_past two_past ≡ false)
unfolding equal_minute equal_hour
same_minute = (refl, refl)

two-IsUndetermined : All (IsUndetermined clock 300) two
unfolding must_keep must_delete
two-IsUndetermined = ((refl, refl), ((refl, refl), tt))

apply_last_example :
    All (λ (f : ForgetSnapshot ℕ). f.keep ≡ true) (take 1 two_forgotten)
    × AreLatest clock 1 two_forgotten
    × Perm (map (λ f. f.snapshot) two_forgotten) two
apply_last_example =
    apply_last clock keep_last_one 300 1 two two_forgotten refl refl two-IsUndetermined apply-two

abbrev groups : List (Group (SnapshotFile ℕ))
groups = record { group_key = default_group; items = two } ∷ []

abbrev forgotten_groups : List (Group (ForgetSnapshot ℕ))
forgotten_groups = record { group_key = default_group; items = two_forgotten } ∷ []

abbrev IsOfRoot : SnapshotFile ℕ → Type 0
IsOfRoot sn = sn.uid ≡ 0

from_grouped-groups : from_grouped clock groups keep_last_one 300 ≡ ok forgotten_groups
unfolding apply apply_sorted apply_loop decide matches id_reasons tag_reasons all_reasons
    check_reasons check_counter is_due counts count_down check_fun must_keep must_delete is_valid
    is_empty sort_desc next_has_tree from_grouped
from_grouped-groups = refl

into_forget_ids-IsForgettable_example :
    All (IsForgettable clock 300 IsOfRoot) (into_forget_ids forgotten_groups)
into_forget_ids-IsForgettable_example =
    into_forget_ids-IsForgettable clock 300 IsOfRoot keep_last_one groups forgotten_groups
      ((refl, (refl, tt)), tt) from_grouped-groups
