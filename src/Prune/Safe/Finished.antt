-- ===== src/Prune/Safe/Finished.antt =====
-- What the plan of `from_prune_options` saves, once its decisions are made.
use rustic_core.Prune.Safe.Ids.{ids_of}
use rustic_core.Base.{
  ◌||◌, ℕ, ◌≡◌, ◌⊎◌, true, false, List, any, Bool-cases, inl, inr, arith, ok, >>=-eq-ok,
  ok-injective, subst, ap, is_some, ◌∙◌, sym,
}
use rustic_core.Base.AssocMap.{Map, get}
use rustic_core.Blob.{BlobTypeMap}
use rustic_core.Config.{ConfigFile}
use rustic_core.Snapshot.{Jiff}
use rustic_core.Packer.Sizer.{PackSizer}
use rustic_core.Prune.{PruneIndex, PackToDo, PruneOptions, same_todo}
use rustic_core.Prune.Stats.{PruneStats}
use rustic_core.Prune.Plan.{all_packs}
use rustic_core.Prune.Repack.{Planned}
use rustic_core.Prune.Check.{Checked, check_packs, check_existing_packs, filter_index_files}
use rustic_core.Prune.Run.{Work, run_packs}
use rustic_core.Prune.Whole.{Contents, PrunePlan, finish_plan, first_work}
use rustic_core.Prune.Safe.{keeps}
use rustic_core.Prune.Safe.Checks.{records, repacks, check_packs-Secured, check_packs-decided}
use rustic_core.Prune.Safe.Carried.{is_added, is_repacked, run_packs-saves}
use rustic_core.Prune.Safe.Filtered.{
  AreDistinct, untouched, filter_index_files-records, filter_index_files-repacks,
}
use rustic_core.Prune.Safe.Parts.{filter_index_files-none, run_packs-ok}

module _ {Zoned Span : Type 0} (j : Jiff Zoned Span) (integer_sqrt : ℕ → ℕ) (now : Zoned)
    (config : ConfigFile) (pack_sizer : BlobTypeMap PackSizer) (o : PruneOptions Span) where
  -- A blob is in a pack of the new index, or in a pack to repack, or in a pack of an index file
  -- that stays, as it is not among the files that are processed.
  abbrev pub Saved : ℕ → List PruneIndex → List PruneIndex → Work → Type 0
  Saved id processed indexes w =
      (is_added id w ≡ true) ⊎ (is_repacked id w ≡ true) ⊎ (untouched id processed indexes ≡ true)

  -- A run of what the check and the filter leave.
  checked_run :
      (planned : List PruneIndex) (st r : Checked) (s : PruneStats) (plan : PrunePlan) (time id : ℕ)
      → AreDistinct (ids_of planned)
      → any (keeps id) (all_packs planned) ≡ true
      → is_some (get st.0 id) ≡ true
      → check_packs (all_packs planned) st ≡ ok r
      → plan.used_ids ≡ r.0
      → plan.index_files ≡ (filter_index_files o.instant_delete planned s).0
      → (w : Work) × (run_packs o.instant_delete time
            (all_packs plan.index_files)
            (first_work o.instant_delete time plan)
          ≡ ok w)
        × Saved id plan.index_files planned w
  unfolding first_work
  checked_run planned st r s plan time id distinct kept key checked same_ids same_files =
      let i = o.instant_delete in
      let files = (filter_index_files i planned s).0 in
      let none_left =
        filter_index_files-none (λ p. same_todo p.to_do PackToDo.undecided) i planned s
          (check_packs-decided (all_packs planned) st r checked) in
      let all_decided =
        subst (λ f. any (λ p. same_todo p.to_do PackToDo.undecided) (all_packs f) ≡ false)
          (sym same_files) none_left in
      let (w, ran) =
        run_packs-ok i time (all_packs plan.index_files) (first_work i time plan) all_decided in
      let (a, b) =
        run_packs-saves id i time (all_packs plan.index_files) (first_work i time plan) w ran in
      (
        w,
        ran,
        elim (check_packs-Secured id (all_packs planned) st r checked) [
          | inl h ↦
              let f =
                subst
                  (λ files.
                    (any (records id) (all_packs files) || untouched id files planned) ≡ true)
                  (sym same_files) (filter_index_files-records i id planned s distinct h) in
              elim (Bool-cases (untouched id plan.index_files planned)) [
                | inl u ↦ inr (inr u)
                | inr u ↦ inl (a (ground arith))
              ]
          | inr (h, k) ↦
              let f = filter_index_files-repacks i id planned s (h ∙ kept) in
              let g = ap (λ f. any (repacks id) (all_packs f)) same_files in
              let l : is_some (get plan.used_ids id) ≡ true =
                ap (λ m. is_some (get m id)) same_ids ∙ (ap is_some k ∙ key) in
              inr (inl (b l (g ∙ f)))
        ],
      )

  -- What a plan saves, given that the decisions keep the blob.
  pub finish_plan-Saved :
      (c : Contents) (planned : Planned) (used_ids : Map ℕ) (plan : PrunePlan) (time id : ℕ)
      → AreDistinct (ids_of planned.0)
      → any (keeps id) (all_packs planned.0) ≡ true
      → is_some (get used_ids id) ≡ true
      → finish_plan j integer_sqrt now config pack_sizer o c planned used_ids ≡ ok plan
      → (w : Work) × (run_packs o.instant_delete time
            (all_packs plan.index_files)
            (first_work o.instant_delete time plan)
          ≡ ok w)
        × Saved id plan.index_files planned.0 w
  unfolding finish_plan check_existing_packs
  finish_plan-Saved c planned used_ids plan time id distinct kept key e =
      let st : Checked = (used_ids, c.existing_packs) in
      let (q, first, last) = >>=-eq-ok (check_existing_packs planned.0 st planned.1) _ e in
      let (r, checked, same) = >>=-eq-ok (check_packs (all_packs planned.0) st) _ first in
      let is_plan = ok-injective last in
      let is_q = ok-injective same in
      checked_run planned.0 st r q.1 plan time id distinct kept key checked
        (ap (λ (p : PrunePlan). p.used_ids) (sym is_plan)
          ∙ ap (λ (x : Checked × PruneStats). x.0.0) (sym is_q))
        (ap (λ (p : PrunePlan). p.index_files) (sym is_plan))
