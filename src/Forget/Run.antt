-- ===== src/Forget/Run.antt =====
-- `KeepOptions::matches` and `KeepOptions::apply`.
use rustic_core.Base.{
  ℕ, zero, suc, Bool, true, false, not, ◌&&◌, ◌||◌, Option, none, some, List, [], ◌∷◌, ◌++◌, any,
  ltb, ◌==◌, if◌then◌else◌, Result, ok, err, invalid_input, ◌/◌, ◌%◌,
}
use rustic_core.Base.Int.{ℤ, pos, negsuc}
use rustic_core.Snapshot.{Jiff, SnapshotFile, list_matches, is_empty, must_keep, must_delete}
use rustic_core.Forget.{Period, periods, KeepOptions, Reason, ForgetSnapshot, is_valid}
use rustic_core.Forget.Equal
use rustic_core.Forget.Sort.{sort_desc}
use rustic_core.Config.Poly.{hex_digit}
use rustic_core.PackFile.Bytes.{be_bytes}

-- `Id::to_hex`: two digits for each of the 32 bytes.
hex_bytes : List ℕ → List ℕ
hex_bytes [] = []
hex_bytes (b ∷ bs) = hex_digit (b / 16) ∷ hex_digit (b % 16) ∷ hex_bytes bs

unfoldable pub to_hex : ℕ → List ℕ
unfolding hex_bytes
to_hex id = hex_bytes (be_bytes 32 id [])

unfoldable pub starts_with : List ℕ → List ℕ → Bool
starts_with s [] = true
starts_with [] (c ∷ cs) = false
starts_with (d ∷ s) (c ∷ cs) = d == c && starts_with s cs

-- `*counter != 0` pushes the reason, and `*counter > 0` counts down.
unfoldable pub counts : Option ℤ → Bool
counts none = false
counts (some (pos zero)) = false
counts (some (pos (suc n))) = true
counts (some (negsuc n)) = true

unfoldable pub count_down : Option ℤ → Option ℤ
count_down none = none
count_down (some (pos zero)) = some (pos zero)
count_down (some (pos (suc n))) = some (pos n)
count_down (some (negsuc n)) = some (negsuc n)

module _ {Zoned Span : Type 0} (j : Jiff Zoned Span) where
  unfoldable pub check_fun : Period → SnapshotFile Zoned → SnapshotFile Zoned → Bool
  check_fun Period.last = Equal.always_false j
  check_fun Period.minutely = Equal.equal_minute j
  check_fun Period.hourly = Equal.equal_hour j
  check_fun Period.daily = Equal.equal_day j
  check_fun Period.weekly = Equal.equal_week j
  check_fun Period.monthly = Equal.equal_month j
  check_fun Period.quarter_yearly = Equal.equal_quarter_year j
  check_fun Period.half_yearly = Equal.equal_half_year j
  check_fun Period.yearly = Equal.equal_year j

  unfoldable pub differs : Period → SnapshotFile Zoned → Option (SnapshotFile Zoned) → Bool
  differs p sn none = true
  differs p sn (some prev) = not (check_fun p sn prev)

  -- `!has_next || last.is_none() || !check_fun(sn, last.unwrap())`
  unfoldable pub is_due : Period → SnapshotFile Zoned → Option (SnapshotFile Zoned) → Bool → Bool
  unfolding differs
  is_due p sn last has_next = not has_next || differs p sn last

  is_within : SnapshotFile Zoned → Zoned → Option Span → Bool
  is_within sn latest none = false
  is_within sn latest (some w) = ltb (j.timestamp latest) (j.timestamp (j.saturating_add sn.time w))

  module _ (sn : SnapshotFile Zoned) (last : Option (SnapshotFile Zoned)) (has_next : Bool)
      (latest : Zoned) where
    -- One round of the loop over `keep_checks`.
    unfoldable pub check_reasons : KeepOptions Span → Period → List Reason
    unfolding is_within
    check_reasons o p =
        if is_due p sn last has_next
        then (if counts (o.keep p) then Reason.kept p ∷ [] else [])
          ++ (if is_within sn latest (o.keep_within p) then Reason.within p ∷ [] else [])
        else []

    unfoldable pub check_counter : KeepOptions Span → Period → Option ℤ
    check_counter o p = if is_due p sn last has_next then count_down (o.keep p) else o.keep p

    unfoldable pub all_reasons : KeepOptions Span → List Period → List Reason
    all_reasons o [] = []
    all_reasons o (p ∷ ps) = check_reasons o p ++ all_reasons o ps

    unfoldable pub id_reasons : KeepOptions Span → List Reason
    id_reasons o = if any (starts_with (to_hex sn.id)) o.keep_ids then Reason.id_match ∷ [] else []

    unfoldable pub tag_reasons : KeepOptions Span → List Reason
    tag_reasons o =
        if not (is_empty o.keep_tags) && list_matches sn.tags o.keep_tags
        then Reason.tags_match ∷ []
        else []

    -- `KeepOptions::matches`: the reasons, and the options with the counters counted down. A round
    -- reads and writes the counter of its own period only.
    unfoldable pub matches : KeepOptions Span → List Reason × KeepOptions Span
    matches o = (
      id_reasons o ++ (tag_reasons o ++ all_reasons o periods),
      record o { keep = check_counter o },
    )

  -- `iter.peek().is_some_and(|sn_next| sn_next.tree == sn.tree)`
  unfoldable pub next_has_tree : List (SnapshotFile Zoned) → ℕ → Bool
  next_has_tree [] tree = false
  next_has_tree (next ∷ rest) tree = next.tree == tree

  module _ (self : KeepOptions Span) (now latest : Zoned) where
    -- One round of the loop of `apply`: the decision, its reasons and the counters afterwards.
    unfoldable pub decide :
        KeepOptions Span
        → Option (SnapshotFile Zoned)
        → SnapshotFile Zoned
        → List (SnapshotFile Zoned)
        → Bool × List Reason × KeepOptions Span
    unfolding next_has_tree
    decide group_keep last sn rest =
        if must_keep j sn now
        then (true, Reason.by_snapshot ∷ [], group_keep)
        else if must_delete j sn now
        then (false, Reason.by_snapshot ∷ [], group_keep)
        else if self.delete_unchanged && next_has_tree rest sn.tree
        then (false, Reason.unchanged ∷ [], group_keep)
        else (let (reasons, after) = matches sn last (not (is_empty rest)) latest group_keep in
            (not (is_empty reasons), reasons, after))

    unfoldable pub apply_loop :
        KeepOptions Span
        → Option (SnapshotFile Zoned)
        → List (SnapshotFile Zoned)
        → List (ForgetSnapshot Zoned)
    apply_loop group_keep last [] = []
    apply_loop group_keep last (sn ∷ rest) =
        let d = decide group_keep last sn rest in
        record { snapshot = sn; keep = d.0; reasons = d.1 } ∷ apply_loop d.2 (some sn) rest

  unfoldable pub apply_sorted :
      KeepOptions Span → Zoned → List (SnapshotFile Zoned) → List (ForgetSnapshot Zoned)
  apply_sorted self now [] = []
  apply_sorted self now (sn ∷ rest) = apply_loop self now sn.time self none (sn ∷ rest)

  -- `KeepOptions::apply`
  unfoldable pub apply :
      KeepOptions Span → List (SnapshotFile Zoned) → Zoned → Result (List (ForgetSnapshot Zoned))
  unfolding apply_sorted
  apply self snapshots now =
      if not (is_valid self)
      then err invalid_input
      else ok (apply_sorted self now (sort_desc j snapshots))
