-- ===== src/Forget/Sort.antt =====
-- `snapshots.sort_unstable_by(|sn1, sn2| sn1.cmp(sn2).reverse())`: the latest first. The standard
-- library leaves the order of snapshots of the same time open; the model keeps the given one.
use mathlib.Core.List.{Perm}
use mathlib.Core.List.Perm
use rustic_core.Base.{
  ℕ, ◌≤◌, List, [], ◌∷◌, ltb, arith, if◌then◌else◌, All, Bool-cases, inl, inr, All-impl,
}
use rustic_core.Snapshot.{Jiff, SnapshotFile}

module _ {Zoned Span : Type 0} (j : Jiff Zoned Span) where
  abbrev stamp : SnapshotFile Zoned → ℕ
  stamp sn = j.timestamp sn.time

  insert : SnapshotFile Zoned → List (SnapshotFile Zoned) → List (SnapshotFile Zoned)
  insert a [] = a ∷ []
  insert a (b ∷ bs) =
      let rest = insert a bs in if ltb (stamp a) (stamp b) then b ∷ rest else a ∷ b ∷ bs

  unfoldable pub sort_desc : List (SnapshotFile Zoned) → List (SnapshotFile Zoned)
  unfolding insert
  sort_desc [] = []
  sort_desc (a ∷ as') = insert a (sort_desc as')

  -- No later snapshot stands behind an earlier one.
  abbrev pub IsSorted : List (SnapshotFile Zoned) → Type 0
  IsSorted [] = Unit
  IsSorted (a ∷ as') = All (λ b. j.timestamp b.time ≤ j.timestamp a.time) as' × IsSorted as'

  insert-perm :
      (a : SnapshotFile Zoned) (bs : List (SnapshotFile Zoned)) → Perm (insert a bs) (a ∷ bs)
  unfolding insert
  insert-perm a [] = Perm.refl _
  insert-perm a (b ∷ bs) = elim (Bool-cases (ltb (stamp a) (stamp b))) [
    | inl h ↦ rw h (Perm.trans (Perm.cons b (insert-perm a bs)) (Perm.swap a b bs))
    | inr h ↦ rw h (Perm.refl _)
  ]

  pub sort_desc-perm : (as' : List (SnapshotFile Zoned)) → Perm (sort_desc as') as'
  unfolding sort_desc
  sort_desc-perm [] = Perm.refl _
  sort_desc-perm (a ∷ as') =
      Perm.trans (insert-perm a (sort_desc as')) (Perm.cons a (sort_desc-perm as'))

  insert-All :
      (P : SnapshotFile Zoned → Type 0) (a : SnapshotFile Zoned) (bs : List (SnapshotFile Zoned))
      → P a
      → All P bs
      → All P (insert a bs)
  unfolding insert
  insert-All P a [] h k = (h, tt)
  insert-All P a (b ∷ bs) h k = elim (Bool-cases (ltb (stamp a) (stamp b))) [
    | inl c ↦ rw c (k.0, insert-All _ a bs h k.1)
    | inr c ↦ rw c (h, k)
  ]

  insert-IsSorted :
      (a : SnapshotFile Zoned) (bs : List (SnapshotFile Zoned))
      → IsSorted bs
      → IsSorted (insert a bs)
  unfolding insert
  insert-IsSorted a [] s = (tt, tt)
  insert-IsSorted a (b ∷ bs) s = elim (Bool-cases (ltb (stamp a) (stamp b))) [
    | inl c ↦
        let le : stamp a ≤ stamp b = ground arith in
        rw c (insert-All _ a bs le s.0, insert-IsSorted a bs s.1)
    | inr c ↦
        let le : stamp b ≤ stamp a = ground arith in
        rw c ((le, All-impl _ _ (λ x (h : stamp x ≤ stamp b). omega arith) bs s.0), s)
  ]

  pub sort_desc-IsSorted : (as' : List (SnapshotFile Zoned)) → IsSorted (sort_desc as')
  unfolding sort_desc
  sort_desc-IsSorted [] = tt
  sort_desc-IsSorted (a ∷ as') = insert-IsSorted a (sort_desc as') (sort_desc-IsSorted as')

  pub sort_desc-All :
      (P : SnapshotFile Zoned → Type 0) (as' : List (SnapshotFile Zoned))
      → All P as'
      → All P (sort_desc as')
  unfolding sort_desc
  sort_desc-All P [] h = tt
  sort_desc-All P (a ∷ as') h = insert-All P a (sort_desc as') h.0 (sort_desc-All P as' h.1)
