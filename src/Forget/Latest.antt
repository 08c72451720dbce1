-- ===== src/Forget/Latest.antt =====
-- What `keep_last` keeps.
use mathlib.Core.List.{Perm}
use rustic_core.Forget.Kept.{Outcome, apply-Outcome}
use rustic_core.Base.{
  map, drop, ◌≤◌, ℕ, zero, suc, ◌≡◌, Bool, true, false, not, ◌&&◌, Option, none, some, List, [],
  ◌∷◌, take, All, arith, refl, ◌∙◌, ok, subst, Bool-cases, inl, inr,
}
use rustic_core.Base.Int.{pos}
use rustic_core.Snapshot.{Jiff, SnapshotFile, must_keep, must_delete, is_empty}
use rustic_core.Forget.{Period, KeepOptions, Reason, ForgetSnapshot, is_valid}
use rustic_core.Forget.Equal.{always_false}
use rustic_core.Forget.Run.{
  counts, count_down, is_due, differs, check_fun, check_counter, matches, decide, next_has_tree,
  apply_loop, apply_sorted, apply,
}
use rustic_core.Forget.Sort.{IsSorted, sort_desc, sort_desc-All}
use rustic_core.Forget.KeptReason.{has_kept}
use rustic_core.Forget.Counters.{kept_here, has_kept-matches}

has_kept-kept : (p : Period) (rs : List Reason) → has_kept p rs ≡ true → is_empty rs ≡ false
unfolding is_empty
has_kept-kept p [] h = absurd (ground arith)
has_kept-kept p (r ∷ rs) h = refl

module _ {Zoned Span : Type 0} (j : Jiff Zoned Span) where
  -- No delete option of the snapshot decides now.
  abbrev pub IsUndetermined : Zoned → SnapshotFile Zoned → Type 0
  IsUndetermined now sn = (must_keep j sn now ≡ false) × (must_delete j sn now ≡ false)

  due_last :
      (sn : SnapshotFile Zoned) (last : Option (SnapshotFile Zoned)) (has_next : Bool)
      → is_due j Period.last sn last has_next ≡ true
  unfolding is_due differs check_fun always_false
  due_last sn none has_next = ground arith
  due_last sn (some prev) has_next = ground arith

  module _ (self : KeepOptions Span) (now latest : Zoned) where
    -- A round in which the counter of `keep_last` is not 0.
    decide_last :
        (g : KeepOptions Span) (n : ℕ) (last : Option (SnapshotFile Zoned))
        (sn : SnapshotFile Zoned) (rest : List (SnapshotFile Zoned))
        → g.keep Period.last ≡ some (pos (suc n))
        → self.delete_unchanged ≡ false
        → IsUndetermined now sn
        → let d = decide j self now latest g last sn rest in
          (d.0 ≡ true) × (d.2.keep Period.last ≡ some (pos n))
    unfolding decide
    decide_last g n last sn rest h u (k, l) =
        let has_next = not (is_empty rest) in
        let due = due_last sn last has_next in
        let reason =
          has_kept-kept Period.last (matches j sn last has_next latest g).0
            (has_kept-matches j Period.last sn last has_next latest g ∙ kept due) in
        let off : (self.delete_unchanged && next_has_tree j rest sn.tree) ≡ false = rw u refl in
        rw (k, l, off) (rw reason refl, counter due)
      where
        kept :
            is_due j Period.last sn last (not (is_empty rest)) ≡ true
            → kept_here j Period.last sn last (not (is_empty rest)) latest g ≡ true
        kept due = unfold kept_here counts in rw (due, h) refl

        counter :
            is_due j Period.last sn last (not (is_empty rest)) ≡ true
            → (matches j sn last (not (is_empty rest)) latest g).1.keep Period.last ≡ some (pos n)
        counter due = unfold matches check_counter count_down in rw (due, h) refl

    loop_last :
        (g : KeepOptions Span) (n : ℕ) (last : Option (SnapshotFile Zoned))
        (sns : List (SnapshotFile Zoned))
        → g.keep Period.last ≡ some (pos n)
        → self.delete_unchanged ≡ false
        → All (IsUndetermined now) sns
        → All
            (λ (f : ForgetSnapshot Zoned). f.keep ≡ true)
            (take n (apply_loop j self now latest g last sns))
    unfolding apply_loop
    loop_last g zero last sns h u a = tt
    loop_last g (suc n) last [] h u a = tt
    loop_last g (suc n) last (sn ∷ rest) h u a =
        let d = decide j self now latest g last sn rest in
        let (k, c) = decide_last g n last sn rest h u a.0 in
        (k, loop_last d.2 n (some sn) rest c u a.1)

  sorted_last :
      (self : KeepOptions Span) (now : Zoned) (n : ℕ) (sns : List (SnapshotFile Zoned))
      → self.keep Period.last ≡ some (pos n)
      → self.delete_unchanged ≡ false
      → All (IsUndetermined now) sns
      → All (λ (f : ForgetSnapshot Zoned). f.keep ≡ true) (take n (apply_sorted j self now sns))
  unfolding apply_sorted
  sorted_last self now zero [] h u a = tt
  sorted_last self now (suc n) [] h u a = tt
  sorted_last self now n (sn ∷ rest) h u a =
      loop_last self now sn.time self n none (sn ∷ rest) h u a

  All-map_snapshot :
      (P : SnapshotFile Zoned → Type 0) (r : List (ForgetSnapshot Zoned))
      → All P (map (λ f. f.snapshot) r)
      → All (λ (f : ForgetSnapshot Zoned). P f.snapshot) r
  All-map_snapshot P [] h = tt
  All-map_snapshot P (f ∷ r) h = (h.0, All-map_snapshot P r h.1)

  All-drop :
      (P : ForgetSnapshot Zoned → Type 0) (n : ℕ) (r : List (ForgetSnapshot Zoned))
      → All P r
      → All P (drop n r)
  All-drop P zero r h = h
  All-drop P (suc n) [] h = h
  All-drop P (suc n) (f ∷ r) h = All-drop P n r h.1

  -- None of the answers after the first `n` is for a later snapshot than one of those.
  abbrev pub AreLatest : ℕ → List (ForgetSnapshot Zoned) → Type 0
  AreLatest n r =
      All
        (λ (f : ForgetSnapshot Zoned).
          All
            (λ (g : ForgetSnapshot Zoned).
              j.timestamp g.snapshot.time ≤ j.timestamp f.snapshot.time)
            (drop n r))
        (take n r)

  sorted-AreLatest :
      (n : ℕ) (r : List (ForgetSnapshot Zoned))
      → IsSorted j (map (λ f. f.snapshot) r)
      → AreLatest n r
  sorted-AreLatest zero r h = tt
  sorted-AreLatest (suc n) [] h = tt
  sorted-AreLatest (suc n) (f ∷ r) h =
      (All-drop _ n r (All-map_snapshot _ r h.0), sorted-AreLatest n r h.1)

  first_kept :
      (self : KeepOptions Span) (now : Zoned) (n : ℕ) (snapshots : List (SnapshotFile Zoned))
      (r : List (ForgetSnapshot Zoned))
      → self.keep Period.last ≡ some (pos n)
      → self.delete_unchanged ≡ false
      → All (IsUndetermined now) snapshots
      → apply j self snapshots now ≡ ok r
      → All (λ (f : ForgetSnapshot Zoned). f.keep ≡ true) (take n r)
  unfolding apply
  first_kept self now n snapshots r h u a e =
      let all_kept =
        sorted_last self now n (sort_desc j snapshots) h u
          (sort_desc-All j (IsUndetermined now) snapshots a) in
      elim (Bool-cases (is_valid self)) [
        | inl v ↦
            subst (λ l. All (λ (f : ForgetSnapshot Zoned). f.keep ≡ true) (take n l)) (same v)
              all_kept
        | inr v ↦ absurd (ground arith)
      ]
    where
      same : is_valid self ≡ true → apply_sorted j self now (sort_desc j snapshots) ≡ r
      same v = ground arith

  -- If `apply` succeeds with `keep_last` set to n and without `delete_unchanged`, and no delete option
  -- decides now, then the first n of its answers are kept. The answers are for the given snapshots, and
  -- none after the first n is for a snapshot that is later than one of theirs.
  pub apply_last :
      (self : KeepOptions Span) (now : Zoned) (n : ℕ) (snapshots : List (SnapshotFile Zoned))
      (r : List (ForgetSnapshot Zoned))
      → self.keep Period.last ≡ some (pos n)
      → self.delete_unchanged ≡ false
      → All (IsUndetermined now) snapshots
      → apply j self snapshots now ≡ ok r
      → All (λ (f : ForgetSnapshot Zoned). f.keep ≡ true) (take n r)
        × AreLatest n r
        × Perm (map (λ f. f.snapshot) r) snapshots
  apply_last self now n snapshots r h u a e =
      let (valid, answers) =
        subst (Outcome j self snapshots now) e (apply-Outcome j self snapshots now) in
      (
        first_kept self now n snapshots r h u a e,
        sorted-AreLatest n r answers.latest_first,
        answers.same,
      )
