-- ===== src/Prune/Execute/Stored.antt =====
-- From the plan to the index files: what `prune_repository` of crates/core/src/commands/prune.rs keeps.
use rustic_core.Prune.{PruneOptions, PrunePack, IndexPack}
use rustic_core.Prune.Run.{Work, run_packs}
use rustic_core.Prune.New.{new_indexes}
use rustic_core.Prune.Repack.{Planned}
use rustic_core.Prune.Whole.{PrunePlan, Contents, from_prune_options, decided, first_work}
use rustic_core.Prune.Safe.{has_blob}
use rustic_core.Prune.Safe.Parts.{first_decisions}
use rustic_core.Prune.Safe.Carried.{is_added, is_repacked}
use rustic_core.Prune.Safe.Filtered.{AreDistinct, untouched}
use rustic_core.Prune.Safe.Lost.{AreShort, no_blob_lost}
use rustic_core.Prune.Execute.{Event, delete_indexes, Copy, prune_repository, IndexFile}
use rustic_core.Prune.Execute.Events.{saved, saved-append, packs_copied}
use rustic_core.Prune.Execute.Order.{unnamed_deleted, prune_repository-Ordered}
use rustic_core.Index.Indexer.Saved.{all_packs, all_packs-append}
use rustic_core.Prune.Plan
use rustic_core.Snapshot.{Jiff, is_empty}
use rustic_core.Config.{ConfigFile}
use rustic_core.Packer.Sizer.{PackSizer}
use rustic_core.Base.AssocMap.{get}
use rustic_core.Base.{
  sym, ℕ, List, ◌≡◌, Option, Bool, true, ErrorKind, ◌++◌, any, ◌||◌, ap, Result, arith, false, map,
  ◌∙◌, some, any-append, ok, ◌&&◌, ◌⊎◌, ok-injective, sym, inl, ◌∷◌, inr,
}
use rustic_core.Blob.{BlobTypeMap}

-- A pack in the index files has the blob, and is not to be deleted.
abbrev pub is_indexed : ℕ → List IndexFile → Bool
is_indexed id files = any (λ (p : IndexPack). has_blob id p.blobs) (all_packs false files)

is_indexed-append :
    (id : ℕ) (fs gs : List IndexFile)
    → is_indexed id (fs ++ gs) ≡ (is_indexed id fs || is_indexed id gs)
is_indexed-append id fs gs =
    ap (any (λ (p : IndexPack). has_blob id p.blobs)) (all_packs-append false fs gs)
    ∙ any-append (λ (p : IndexPack). has_blob id p.blobs) (all_packs false fs) (all_packs false gs)

-- What is indexed between other events is indexed.
is_indexed-between :
    (id : ℕ) (before more after : List Event)
    → is_indexed id (saved more) ≡ true
    → is_indexed id (saved ((before ++ more) ++ after)) ≡ true
is_indexed-between id before more after h =
    let a = ap (is_indexed id) (saved-append (before ++ more) after) in
    let b = ap (is_indexed id) (saved-append before more) in
    let c = is_indexed-append id (saved (before ++ more)) (saved after) in
    let d = is_indexed-append id (saved before) (saved more) in ground arith

module _ (refuse : List Event → Event → Option ErrorKind) (clock : ℕ → ℕ × ℕ)
    (copies : List PrunePack → Result (List Copy)) {Zoned Span : Type 0} (j : Jiff Zoned Span)
    (integer_sqrt : ℕ → ℕ) (now : Zoned) (config : ConfigFile) (pack_sizer : BlobTypeMap PackSizer)
    (o : PruneOptions Span) where
  -- A plan is made and carried out, the index not being deleted early, and no error occurs. The used blobs
  -- are counted from 0, no pack has 2^16 blobs or more, the index files have different ids, and some are
  -- processed. Then every used blob is in a pack of an index file that the prune saves, not to be deleted,
  -- or in a pack that the repackers were given, or in a pack of an index file that is not deleted.
  pub prune_repository-is_indexed :
      (c : Contents) (plan : PrunePlan) (time start id : ℕ) (events : List Event)
      → AreShort (Plan.all_packs (new_indexes c.index_files))
      → AreDistinct (map (λ f. f.0) c.index_files)
      → get c.used_ids id ≡ some 0
      → from_prune_options j integer_sqrt now config pack_sizer o c ≡ some (ok plan)
      → (o.early_delete_index && o.instant_delete) ≡ false
      → is_empty plan.index_files ≡ false
      → prune_repository refuse clock copies config o time start plan ≡ ok events
      → (planned : Planned) × (decided j integer_sqrt now config pack_sizer o
            (first_decisions j integer_sqrt now config pack_sizer o c)
          ≡ some planned)
        × (w : Work) × (run_packs o.instant_delete time
              (Plan.all_packs plan.index_files)
              (first_work o.instant_delete time plan)
            ≡ ok w)
        × ((is_indexed id (saved events) ≡ true)
            ⊎ (is_repacked id w ≡ true)
            ⊎ (untouched id plan.index_files planned.0 ≡ true))
  prune_repository-is_indexed c plan time start id events short distinct zero_count made off
        some_files done =
      let (planned, is_planned, w, ran, safe) =
        no_blob_lost j integer_sqrt now config pack_sizer o c plan time id short distinct zero_count
          made in
      let (v, run_again, cs, is_copied, ordered) =
        prune_repository-Ordered refuse clock copies config o time start plan events off some_files
          done in
      let (more, deletes, same, writes, new_packs, old_packs, only, deleted) = ordered in
      let same_work : w ≡ v = ok-injective (sym ran ∙ run_again) in
      (
        planned,
        is_planned,
        w,
        ran,
        elim safe [
          | inl added ↦
              let a : is_added id v ≡ true = ap (is_added id) (sym same_work) ∙ added in
              let b =
                any-append (λ (p : IndexPack). has_blob id p.blobs) v.added
                  (packs_copied false cs) in
              let d = ap (any (λ (p : IndexPack). has_blob id p.blobs)) new_packs in
              inl (
                ap (λ es. is_indexed id (saved es)) same
                ∙ is_indexed-between id (unnamed_deleted o.instant_delete plan) more
                    (delete_indexes (map (λ index. index.id) plan.index_files) ∷ deletes)
                    (ground arith))
          | inr other ↦ inr other
        ],
      )
