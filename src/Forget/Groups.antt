-- ===== src/Forget/Groups.antt =====
-- `ForgetGroups` of crates/core/src/commands/forget.rs: what is forgotten of grouped snapshots.
use rustic_core.Base.{
  ℕ, ◌≡◌, true, false, List, [], ◌∷◌, ◌++◌, map, All, All-append, arith, refl, ok, Result, ◌>>=◌,
  >>=-eq-ok, ok-injective, Bool-cases, inl, inr, subst, sym, if◌then◌else◌,
}
use rustic_core.Snapshot.{Jiff, SnapshotFile, Group, default_group, must_keep}
use rustic_core.Forget.{KeepOptions, ForgetSnapshot, Reason, is_valid}
use rustic_core.Forget.Run.{apply, apply_sorted}
use rustic_core.Forget.Sort.{sort_desc, sort_desc-All}
use rustic_core.Forget.Kept.{Obeys, sorted-Obeys, map-sorted}

module _ {Zoned Span : Type 0} (j : Jiff Zoned Span) where
  -- `from_grouped_snapshots_with_retention`
  unfoldable pub from_grouped :
      List (Group (SnapshotFile Zoned))
      → KeepOptions Span
      → Zoned
      → Result (List (Group (ForgetSnapshot Zoned)))
  from_grouped [] keep now = ok []
  from_grouped (g ∷ groups) keep now = do
    items ← apply j keep g.items now
    rest ← from_grouped groups keep now
    ok (record { group_key = g.group_key; items = items } ∷ rest)

  by_delete_option : Zoned → SnapshotFile Zoned → ForgetSnapshot Zoned
  by_delete_option now sn = record {
    snapshot = sn;
    keep = must_keep j sn now;
    reasons = (if must_keep j sn now then Reason.by_snapshot else Reason.if_argument) ∷ [];
  }

  unfoldable pub from_snapshots :
      List (SnapshotFile Zoned) → Zoned → List (Group (ForgetSnapshot Zoned))
  unfolding by_delete_option
  from_snapshots snapshots now =
      record { group_key = default_group; items = map (by_delete_option now) snapshots } ∷ []

module _ {Zoned : Type 0} where
  forgotten : List (ForgetSnapshot Zoned) → List ℕ
  forgotten [] = []
  forgotten (f ∷ fs) = let rest = forgotten fs in if f.keep then rest else f.snapshot.id ∷ rest

  unfoldable pub into_forget_ids : List (Group (ForgetSnapshot Zoned)) → List ℕ
  unfolding forgotten
  into_forget_ids [] = []
  into_forget_ids (g ∷ groups) = forgotten g.items ++ into_forget_ids groups

All-unmap {ℓ κ} :
    {A : Type ℓ} {B : Type κ} (f : A → B) (P : B → Type 0) (xs : List A)
    → All P (map f xs)
    → All (λ x. P (f x)) xs
All-unmap f P [] h = tt
All-unmap f P (x ∷ xs) h = (h.0, All-unmap f P xs h.1)

module _ {Zoned Span : Type 0} (j : Jiff Zoned Span) (now : Zoned)
    (P : SnapshotFile Zoned → Type 0) where
  -- The id is that of a snapshot with the property that need not be kept.
  abbrev pub IsForgettable : ℕ → Type 0
  IsForgettable id = (sn : SnapshotFile Zoned) × P sn × (sn.id ≡ id) × (must_keep j sn now ≡ false)

  forgotten-IsForgettable :
      (fs : List (ForgetSnapshot Zoned))
      → All (Obeys j now) fs
      → All (λ (f : ForgetSnapshot Zoned). P f.snapshot) fs
      → All IsForgettable (forgotten fs)
  unfolding forgotten
  forgotten-IsForgettable [] o p = tt
  forgotten-IsForgettable (f ∷ fs) o p =
      let rest = forgotten-IsForgettable fs o.1 p.1 in
      elim (Bool-cases f.keep) [
        | inl e ↦ rw e rest
        | inr e ↦ rw e ((f.snapshot, p.0, refl, not_kept e), rest)
      ]
    where
      not_kept : f.keep ≡ false → must_keep j f.snapshot now ≡ false
      not_kept e = let k = o.0.kept in ground arith

  apply-All :
      (self : KeepOptions Span) (snapshots : List (SnapshotFile Zoned))
      (r : List (ForgetSnapshot Zoned))
      → apply j self snapshots now ≡ ok r
      → All P snapshots
      → All (Obeys j now) r × All (λ (f : ForgetSnapshot Zoned). P f.snapshot) r
  unfolding apply
  apply-All self snapshots r e h = elim (Bool-cases (is_valid self)) [
    | inl v ↦
        let sorted = sort_desc j snapshots in
        let a = sorted-Obeys j self now sorted in
        let b =
          All-unmap (λ (f : ForgetSnapshot Zoned). f.snapshot) P (apply_sorted j self now sorted)
            (subst (All P) (sym (map-sorted j self now sorted)) (sort_desc-All j P snapshots h)) in
        subst (λ r. All (Obeys j now) r × All (λ (f : ForgetSnapshot Zoned). P f.snapshot) r)
          (same v) (a, b)
    | inr v ↦ absurd (ground arith)
  ]
    where
      same : is_valid self ≡ true → apply_sorted j self now (sort_desc j snapshots) ≡ r
      same v = ground arith

  -- Whatever holds of all snapshots of the groups: every id that is forgotten is the id of such a
  -- snapshot, and of one that need not be kept now.
  pub into_forget_ids-IsForgettable :
      (self : KeepOptions Span) (groups : List (Group (SnapshotFile Zoned)))
      (r : List (Group (ForgetSnapshot Zoned)))
      → All (λ (g : Group (SnapshotFile Zoned)). All P g.items) groups
      → from_grouped j groups self now ≡ ok r
      → All IsForgettable (into_forget_ids r)
  unfolding into_forget_ids from_grouped
  into_forget_ids-IsForgettable self [] r h e =
      subst (λ r. All IsForgettable (into_forget_ids r)) (ok-injective e) tt
  into_forget_ids-IsForgettable self (g ∷ groups) r h e =
      let (items, first, next) = >>=-eq-ok (apply j self g.items now) _ e in
      let (rest, others, last) = >>=-eq-ok (from_grouped j groups self now) _ next in
      let (o, p) = apply-All self g.items items first h.0 in
      subst (λ r. All IsForgettable (into_forget_ids r)) (ok-injective last)
        (All-append IsForgettable (forgotten items) (into_forget_ids rest)
          (forgotten-IsForgettable items o p)
          (into_forget_ids-IsForgettable self groups rest h.1 others))
