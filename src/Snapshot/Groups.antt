-- ===== src/Snapshot/Groups.antt =====
-- A snapshot belongs to a group exactly if the group is the one made from it.
use rustic_core.Base.{
  ◌≡◌, ◌↔◌, true, refl, Bool, [], ◌∷◌, ◌&&◌, arith, Option, ap, is_some, some, none,
}
use rustic_core.Snapshot.{
  SnapshotFile, SnapshotGroup, group_of, group_matches, criterion_of, eq_lists, StringList,
  eq_codes, is_none_or, then_some,
}
use rustic_core.Config.Poly.{eq_codes_iff}

pub eq_lists_iff : (a b : StringList) → (eq_lists a b ≡ true) ↔ (a ≡ b)
unfolding eq_lists
eq_lists_iff [] [] = ((λ h. refl), (λ h. refl))
eq_lists_iff [] (b ∷ bs) = ((λ h. cc), (λ h. cc))
eq_lists_iff (a ∷ as') [] = ((λ h. cc), (λ h. cc))
eq_lists_iff (a ∷ as') (b ∷ bs) = (
  (λ h. ground (arith, eq_codes_iff a b, eq_lists_iff as' bs)),
  (λ h. ground (arith, eq_codes_iff a b, eq_lists_iff as' bs)),
)

module _ {A : Type 0} (eq : A → A → Bool) (eq_iff : (a b : A) → (eq a b ≡ true) ↔ (a ≡ b)) where
  field_iff :
      (o : Option A) (v : A) → (is_none_or o (λ x. eq x v) ≡ true) ↔ (o ≡ then_some (is_some o) v)
  unfolding is_none_or
  field_iff none v = ((λ h. refl), (λ h. refl))
  field_iff (some a) v = ((λ h. ap some ((eq_iff a v).0 h)), (λ h. (eq_iff a v).1 (cc)))

&&-split :
    (a b c d : Bool) → (a && b && c && d) ≡ true → (a ≡ true) × (b ≡ true) × (c ≡ true) × (d ≡ true)
&&-split a b c d h = ground arith

&&-join : (a b c d : Bool) → a ≡ true → b ≡ true → c ≡ true → d ≡ true → (a && b && c && d) ≡ true
&&-join a b c d h k l m = ground arith

module _ {Zoned : Type 0} where
  -- A snapshot matches a group exactly if the group is the one that the group's own criterion makes
  -- from the snapshot.
  pub group_matches_iff :
      (g : SnapshotGroup) (sn : SnapshotFile Zoned)
      → (group_matches g sn ≡ true) ↔ (g ≡ group_of sn (criterion_of g))
  unfolding group_matches group_of criterion_of
  group_matches_iff g sn =
      let host = field_iff eq_codes eq_codes_iff g.hostname sn.hostname in
      let label = field_iff eq_codes eq_codes_iff g.label sn.label in
      let paths = field_iff eq_lists eq_lists_iff g.paths sn.paths in
      let tags = field_iff eq_lists eq_lists_iff g.tags sn.tags in
      (
        (λ h.
            let p = &&-split _ _ _ _ h in
            λ i. record {
              hostname = host.0 p.0 i;
              label = label.0 p.1 i;
              paths = paths.0 p.2 i;
              tags = tags.0 p.3 i;
            }),
        (λ h.
            &&-join _ _ _ _ (host.1 (ap (λ x. x.hostname) h)) (label.1 (ap (λ x. x.label) h))
              (paths.1 (ap (λ x. x.paths) h)) (tags.1 (ap (λ x. x.tags) h))),
      )
