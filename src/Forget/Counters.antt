-- ===== src/Forget/Counters.antt =====
-- The counters of the keep options.
use rustic_core.Base.{
  any-append, ℕ, zero, suc, ◌≡◌, refl, ap, Bool, true, false, ◌&&◌, ◌||◌, Option, List, [], ◌∷◌,
  ◌++◌, any, arith, inl, inr, ◌==◌, sym, Bool-cases, ◌∙◌, ◌⊎◌, count, some, not, ◌≤◌, none, ok,
}
use mathlib.Core.Path.{ap₂}
use rustic_core.Snapshot.{Jiff, SnapshotFile, must_keep, must_delete}
use rustic_core.Forget.{Period, periods, KeepOptions, Reason, ForgetSnapshot, is_empty, is_valid}
use rustic_core.Forget.Run.{
  counts, is_due, check_reasons, all_reasons, matches, id_reasons, decide, apply_loop, tag_reasons,
  count_down, check_counter, next_has_tree, apply_sorted, apply,
}
use rustic_core.Base.Int.{pos}
use rustic_core.Forget.Sort.{sort_desc}
use rustic_core.Forget.KeptReason.{
  index, index-injective, is_kept, has_kept, or-and, any-periods, count_skip, count_hit,
}

module _ {Zoned Span : Type 0} (j : Jiff Zoned Span) (p : Period) where
  module _ (sn : SnapshotFile Zoned) (last : Option (SnapshotFile Zoned)) (has_next : Bool)
      (latest : Zoned) (o : KeepOptions Span) where
    has_kept-check_reasons :
        (q : Period)
        → has_kept p (check_reasons j sn last has_next latest o q)
          ≡ (index p == index q && (is_due j q sn last has_next && counts (o.keep q)))
    unfolding check_reasons
    has_kept-check_reasons q = ground arith

    unfoldable pub kept_here : Bool
    kept_here = is_due j p sn last has_next && counts (o.keep p)

    has_kept-round :
        (q : Period)
        → has_kept p (check_reasons j sn last has_next latest o q)
          ≡ (index p == index q && kept_here)
    unfolding kept_here
    has_kept-round q = elim (Bool-cases (index p == index q)) [
      | inl e ↦
          let same = index-injective p q (ground arith) in
          has_kept-check_reasons q
          ∙ ap (λ r. index p == index q && (is_due j r sn last has_next && counts (o.keep r)))
              (sym same)
      | inr e ↦ has_kept-check_reasons q ∙ rw e
    ]

    has_kept-all_reasons :
        (ps : List Period)
        → has_kept p (all_reasons j sn last has_next latest o ps)
          ≡ (any (λ q. index p == index q) ps && kept_here)
    unfolding all_reasons
    has_kept-all_reasons [] = refl
    has_kept-all_reasons (q ∷ ps) =
        any-append (is_kept p) (check_reasons j sn last has_next latest o q) _
        ∙ ap₂ ◌||◌ (has_kept-round q) (has_kept-all_reasons ps)
        ∙ or-and (index p == index q) _ kept_here

    -- The reason of a period is given exactly if the period is due and its counter is not 0.
    pub has_kept-matches : has_kept p (matches j sn last has_next latest o).0 ≡ kept_here
    unfolding matches
    has_kept-matches =
        any-append (is_kept p) (id_reasons j sn last has_next latest o) _
        ∙ ap
            (λ b.
              b
              || has_kept p (
                  tag_reasons j sn last has_next latest o
                  ++ all_reasons j sn last has_next latest o periods))
            no_id
        ∙ any-append (is_kept p) (tag_reasons j sn last has_next latest o) _
        ∙ ap (λ b. b || has_kept p (all_reasons j sn last has_next latest o periods)) no_tag
        ∙ has_kept-all_reasons periods
        ∙ ap (λ b. b && kept_here) (any-periods p)
      where
        no_id : has_kept p (id_reasons j sn last has_next latest o) ≡ false
        no_id = unfold id_reasons in ground arith

        no_tag : has_kept p (tag_reasons j sn last has_next latest o) ≡ false
        no_tag = unfold tag_reasons in ground arith

  module _ (self : KeepOptions Span) (now latest : Zoned) where
    abbrev Round : KeepOptions Span → List Reason → KeepOptions Span → Type 0
    Round g reasons after =
        ((has_kept p reasons ≡ false)
          × ((after.keep p ≡ g.keep p) ⊎ (after.keep p ≡ count_down (g.keep p))))
        ⊎ ((has_kept p reasons ≡ true)
            × (counts (g.keep p) ≡ true)
            × (after.keep p ≡ count_down (g.keep p)))

    matches-Round :
        (g : KeepOptions Span) (last : Option (SnapshotFile Zoned)) (sn : SnapshotFile Zoned)
        (has_next : Bool)
        → Round g (matches j sn last has_next latest g).0 (matches j sn last has_next latest g).1
    matches-Round g last sn has_next =
        let e = has_kept-matches sn last has_next latest g in
        elim (Bool-cases (is_due j p sn last has_next)) [
          | inl d ↦ elim (Bool-cases (counts (g.keep p))) [
            | inl c ↦ inr (e ∙ here d c, c, due d)
            | inr c ↦ inl (e ∙ here_not (ground arith), inr (due d))
          ]
          | inr d ↦ inl (e ∙ here_not (ground arith), inl (not_due d))
        ]
      where
        here :
            is_due j p sn last has_next ≡ true
            → counts (g.keep p) ≡ true
            → kept_here sn last has_next latest g ≡ true
        here d c = unfold kept_here in ground arith

        here_not :
            (is_due j p sn last has_next && counts (g.keep p)) ≡ false
            → kept_here sn last has_next latest g ≡ false
        here_not h = unfold kept_here in h

        due :
            is_due j p sn last has_next ≡ true
            → (matches j sn last has_next latest g).1.keep p ≡ count_down (g.keep p)
        due d = unfold matches check_counter in rw d

        not_due :
            is_due j p sn last has_next ≡ false
            → (matches j sn last has_next latest g).1.keep p ≡ g.keep p
        not_due d = unfold matches check_counter in rw d

    -- A round of `apply` gives the reason and counts down, or it does neither.
    decide-Round :
        (g : KeepOptions Span) (last : Option (SnapshotFile Zoned)) (sn : SnapshotFile Zoned)
        (rest : List (SnapshotFile Zoned))
        → Round g
            (decide j self now latest g last sn rest).1
            (decide j self now latest g last sn rest).2
    unfolding decide
    decide-Round g last sn rest = elim (Bool-cases (must_keep j sn now)) [
      | inl h ↦ rw h (inl (refl, inl refl))
      | inr h ↦ elim (Bool-cases (must_delete j sn now)) [
        | inl k ↦ rw (h, k) (inl (refl, inl refl))
        | inr k ↦ elim (Bool-cases (self.delete_unchanged && next_has_tree j rest sn.tree)) [
          | inl u ↦ rw (h, k, u) (inl (refl, inl refl))
          | inr u ↦ rw (h, k, u) (matches-Round g last sn (not (is_empty rest)))
        ]
      ]
    ]

    -- The number of snapshots that are kept for a period's counter.
    abbrev pub kept_count : List (ForgetSnapshot Zoned) → ℕ
    kept_count = count (λ f. has_kept p f.reasons)

    spent :
        (n : ℕ) (reasons : List Reason) (g after : KeepOptions Span)
        → Round g reasons after
        → g.keep p ≡ some (pos n)
        → ((has_kept p reasons ≡ false) × (m : ℕ) × ((after.keep p ≡ some (pos m)) × (m ≤ n)))
          ⊎ ((has_kept p reasons ≡ true) × (m : ℕ) × ((after.keep p ≡ some (pos m)) × (suc m ≤ n)))
    unfolding counts count_down
    spent n reasons g after (inl (e, inl k)) h = inl (e, n, (k ∙ h, omega arith))
    spent zero reasons g after (inl (e, inr k)) h = inl (e, 0, (k ∙ rw h refl, omega arith))
    spent (suc n) reasons g after (inl (e, inr k)) h = inl (e, n, (k ∙ rw h refl, omega arith))
    spent zero reasons g after (inr (e, c, k)) h = absurd (ground arith)
    spent (suc n) reasons g after (inr (e, c, k)) h = inr (e, n, (k ∙ rw h refl, omega arith))

    loop_counter :
        (g : KeepOptions Span) (n : ℕ) (last : Option (SnapshotFile Zoned))
        (sns : List (SnapshotFile Zoned))
        → g.keep p ≡ some (pos n)
        → kept_count (apply_loop j self now latest g last sns) ≤ n
    unfolding apply_loop
    loop_counter g n last [] h = omega arith
    loop_counter g n last (sn ∷ rest) h =
        let d = decide j self now latest g last sn rest in
        let f : ForgetSnapshot Zoned = record { snapshot = sn; keep = d.0; reasons = d.1 } in
        let fs = apply_loop j self now latest d.2 (some sn) rest in
        elim (spent n d.1 g d.2 (decide-Round g last sn rest) h) [
          | inl (e, m, (k, le)) ↦
              count_skip (λ (f : ForgetSnapshot Zoned). has_kept p f.reasons) f fs e
                (loop_counter d.2 m (some sn) rest k) le
          | inr (e, m, (k, le)) ↦
              count_hit (λ (f : ForgetSnapshot Zoned). has_kept p f.reasons) f fs
                (loop_counter d.2 m (some sn) rest k) le
        ]

  sorted_counter :
      (self : KeepOptions Span) (now : Zoned) (n : ℕ) (sns : List (SnapshotFile Zoned))
      → self.keep p ≡ some (pos n)
      → count (λ f. has_kept p f.reasons) (apply_sorted j self now sns) ≤ n
  unfolding apply_sorted
  sorted_counter self now n [] h = omega arith
  sorted_counter self now n (sn ∷ rest) h = loop_counter self now sn.time self n none (sn ∷ rest) h

  -- At most as many snapshots are kept for the counter of a period as the option asks for.
  pub apply-counter :
      (self : KeepOptions Span) (now : Zoned) (n : ℕ) (snapshots : List (SnapshotFile Zoned))
      (r : List (ForgetSnapshot Zoned))
      → self.keep p ≡ some (pos n)
      → apply j self snapshots now ≡ ok r
      → count (λ f. has_kept p f.reasons) r ≤ n
  unfolding apply
  apply-counter self now n snapshots r h e =
      let le = sorted_counter self now n (sort_desc j snapshots) h in
      elim (Bool-cases (is_valid self)) [ inl v ↦ ground arith | inr v ↦ ground arith ]
