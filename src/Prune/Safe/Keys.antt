-- ===== src/Prune/Safe/Keys.antt =====
-- The passes of `decide_packs` keep the ids of the used blobs.
use rustic_core.Base.{ℕ, suc, ◌≡◌, Bool, true, false, List, [], ◌∷◌, refl, ◌∙◌, ap}
use rustic_core.Snapshot.{Jiff}
use rustic_core.Prune.{PrunePack, PruneIndex}
use rustic_core.Prune.Used.Domain.{is_key, from_pack-is_key}
use rustic_core.Prune.Decide.{Deciding, DecideOptions}
use rustic_core.Prune.Plan.{is_case, decide_pack_list, decide_indexes, decide_packs}
use rustic_core.Prune.Safe.Pass.{decide_pack-Decided}
use rustic_core.Prune.Safe.Passes.{visit, visit_if}

module _ {Zoned Span : Type 0} (j : Jiff Zoned Span) (integer_sqrt : ℕ → ℕ) (now : Zoned)
    (o : DecideOptions Span) (id : ℕ) where
  visit-is_key :
      (b : Bool) (p : PrunePack) (i k : ℕ) (st : Deciding)
      → is_key id (visit j integer_sqrt now o b p i k st).1.used_ids ≡ is_key id st.used_ids
  visit-is_key b p i k st = go (is_case b p)
    where
      go :
          (c : Bool)
          → is_key id (visit_if j integer_sqrt now o b c p i k st).1.used_ids
            ≡ is_key id st.used_ids
      go true =
          ap (is_key id) (decide_pack-Decided j integer_sqrt now o p i k st).used_ids
          ∙ from_pack-is_key p st.used_ids id
      go false = refl

  pack_list-is_key :
      (b : Bool) (packs : List PrunePack) (i k : ℕ) (st : Deciding)
      → is_key id (decide_pack_list j integer_sqrt now o b packs i k st).1.used_ids
        ≡ is_key id st.used_ids
  unfolding decide_pack_list
  pack_list-is_key b [] i k st = refl
  pack_list-is_key b (p ∷ packs) i k st =
      pack_list-is_key b packs i (suc k) (visit j integer_sqrt now o b p i k st).1
      ∙ visit-is_key b p i k st

  indexes-is_key :
      (b : Bool) (indexes : List PruneIndex) (i : ℕ) (st : Deciding)
      → is_key id (decide_indexes j integer_sqrt now o b indexes i st).1.used_ids
        ≡ is_key id st.used_ids
  unfolding decide_indexes
  indexes-is_key b [] i st = refl
  indexes-is_key b (index ∷ indexes) i st =
      indexes-is_key b indexes (suc i)
        (decide_pack_list j integer_sqrt now o b index.packs i 0 st).1
      ∙ pack_list-is_key b index.packs i 0 st

  pub decide_packs-is_key :
      (indexes : List PruneIndex) (st : Deciding)
      → is_key id (decide_packs j integer_sqrt now o indexes st).1.used_ids ≡ is_key id st.used_ids
  unfolding decide_packs
  decide_packs-is_key indexes st =
      let d = decide_indexes j integer_sqrt now o true indexes 0 st in
      indexes-is_key false d.0 0 d.1 ∙ indexes-is_key true indexes 0 st
