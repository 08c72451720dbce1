-- ===== src/Forget/Kept.antt =====
-- What `apply` does with every snapshot, and which snapshots it answers for.
use mathlib.Core.List.{Perm}
use rustic_core.Base.{
  ◌≡◌, true, false, Option, none, some, List, [], ◌∷◌, map, All, Result, ok, err, invalid_input,
  arith, ap, refl, inl, inr, Bool-cases, subst, sym,
}
use rustic_core.Snapshot.{
  Jiff, SnapshotFile, must_keep, must_delete, must_keep-must_delete, is_empty,
}
use rustic_core.Forget.{KeepOptions, ForgetSnapshot, is_valid}
use rustic_core.Forget.Run.{decide, apply_loop, apply_sorted, apply}
use rustic_core.Forget.Sort.{sort_desc, sort_desc-perm, sort_desc-IsSorted, IsSorted}

module _ {Zoned Span : Type 0} (j : Jiff Zoned Span) where
  -- The delete option of the snapshot decides where it is set, and a reason is given for every
  -- snapshot that is kept.
  pub record Obeys (now : Zoned) (f : ForgetSnapshot Zoned) : Type 0 where
    pub kept : must_keep j f.snapshot now ≡ true → f.keep ≡ true
    pub deleted : must_delete j f.snapshot now ≡ true → f.keep ≡ false
    pub reasoned : f.keep ≡ true → is_empty f.reasons ≡ false

  module _ (self : KeepOptions Span) (now latest : Zoned) where
    decide-Obeys :
        (g : KeepOptions Span) (last : Option (SnapshotFile Zoned)) (sn : SnapshotFile Zoned)
        (rest : List (SnapshotFile Zoned))
        → let d = decide j self now latest g last sn rest in
          Obeys now (record { snapshot = sn; keep = d.0; reasons = d.1 })
    unfolding decide is_empty
    decide-Obeys g last sn rest = record {
      kept = λ h. ground arith;
      deleted = λ h. ground (arith, must_keep-must_delete j sn now);
      reasoned = λ h. ground arith;
    }

    loop-Obeys :
        (g : KeepOptions Span) (last : Option (SnapshotFile Zoned))
        (sns : List (SnapshotFile Zoned))
        → All (Obeys now) (apply_loop j self now latest g last sns)
    unfolding apply_loop
    loop-Obeys g last [] = tt
    loop-Obeys g last (sn ∷ rest) = (
      decide-Obeys g last sn rest,
      loop-Obeys (decide j self now latest g last sn rest).2 (some sn) rest,
    )

    map-loop :
        (g : KeepOptions Span) (last : Option (SnapshotFile Zoned))
        (sns : List (SnapshotFile Zoned))
        → map (λ f. f.snapshot) (apply_loop j self now latest g last sns) ≡ sns
    unfolding apply_loop
    map-loop g last [] = refl
    map-loop g last (sn ∷ rest) =
        ap (λ l. sn ∷ l) (map-loop (decide j self now latest g last sn rest).2 (some sn) rest)

  pub sorted-Obeys :
      (self : KeepOptions Span) (now : Zoned) (sns : List (SnapshotFile Zoned))
      → All (Obeys now) (apply_sorted j self now sns)
  unfolding apply_sorted
  sorted-Obeys self now [] = tt
  sorted-Obeys self now (sn ∷ rest) = loop-Obeys self now sn.time self none (sn ∷ rest)

  pub map-sorted :
      (self : KeepOptions Span) (now : Zoned) (sns : List (SnapshotFile Zoned))
      → map (λ f. f.snapshot) (apply_sorted j self now sns) ≡ sns
  unfolding apply_sorted
  map-sorted self now [] = refl
  map-sorted self now (sn ∷ rest) = map-loop self now sn.time self none (sn ∷ rest)

  -- A result of `apply` for some snapshots.
  pub record Answers (now : Zoned) (snapshots : List (SnapshotFile Zoned))
      (r : List (ForgetSnapshot Zoned)) : Type 0 where
    pub same : Perm (map (λ f. f.snapshot) r) snapshots
    pub latest_first : IsSorted j (map (λ f. f.snapshot) r)
    pub obeys : All (Obeys now) r

  abbrev pub Outcome :
      KeepOptions Span
      → List (SnapshotFile Zoned)
      → Zoned
      → Result (List (ForgetSnapshot Zoned))
      → Type 0
  Outcome self snapshots now (ok r) = (is_valid self ≡ true) × Answers now snapshots r
  Outcome self snapshots now (err e) = (is_valid self ≡ false) × (e ≡ invalid_input)

  -- `apply` fails exactly if no keep option is given. Otherwise it answers for every snapshot once,
  -- the latest first: what must be kept now is kept, what must be deleted now is not, and whatever
  -- is kept has a reason.
  pub apply-Outcome :
      (self : KeepOptions Span) (snapshots : List (SnapshotFile Zoned)) (now : Zoned)
      → Outcome self snapshots now (apply j self snapshots now)
  unfolding apply
  apply-Outcome self snapshots now = elim (Bool-cases (is_valid self)) [
    | inl h ↦
        let e = map-sorted self now (sort_desc j snapshots) in
        rw h (
          h,
          record {
            same = subst (λ l. Perm l snapshots) (sym e) (sort_desc-perm j snapshots);
            latest_first = subst (IsSorted j) (sym e) (sort_desc-IsSorted j snapshots);
            obeys = sorted-Obeys self now (sort_desc j snapshots);
          },
        )
    | inr h ↦ rw h (h, refl)
  ]
