-- ===== src/Prune/Execute.antt =====
-- `prune_repository` of crates/core/src/commands/prune.rs, as the events that it causes in the
-- repository, in their order. After any events a backend may refuse the next one, which ends the prune.
-- Parameters are the times that the clock gives to the calls of the indexer, and what the repackers do with
-- the packs, in the order that their threads give it. The loop over the packs is run first and the calls
-- that it makes on the indexer after it, so that an undecided pack, of which no plan has one, is found
-- before anything is saved. Waiting for packs to be warmed up is not modelled.
pub mod Events
pub mod Logged
pub mod Deletions
pub mod Order
pub mod Stored
mod Tests
use rustic_core.Prune.{PruneOptions, PrunePack, IndexPack}
use rustic_core.Prune.Plan.{all_packs}
use rustic_core.Prune.Run.{Work, run_packs}
use rustic_core.Prune.Whole.{PrunePlan, first_work}
use rustic_core.Index.Indexer.{Indexer, Call, new_unindexed, run, finalize}
use rustic_core.Base.{
  List, ℕ, Bool, Option, ◌∷◌, ErrorKind, true, Result, ok, not, suc, if◌then◌else◌, ◌>>=◌, [], none,
  ◌++◌, false, ◌+◌, ◌&&◌, unwrap_or, some, length, map, err, append_only,
}
use rustic_core.PackFile.{IndexFile}
use rustic_core.Config.{ConfigFile}
use rustic_core.Snapshot.{is_empty}

-- What a prune does to the repository.
pub data Event : Type 0 where
  delete_packs delete_indexes : List ℕ → Event
  write_pack : IndexPack → Event
  save_index : IndexFile → Event

-- What a repacker does: it writes a pack file, or gives the pack to the indexer.
pub data Copy : Type 0 where
  written indexed : IndexPack → Copy

-- The calls of `add_remove` for packs.
unfoldable pub removals : List IndexPack → List (Bool × IndexPack)
removals [] = []
removals (p ∷ packs) = (true, p) ∷ removals packs

module _ (refuse : List Event → Event → Option ErrorKind) where
  unfoldable pub perform : Event → List Event → Result (List Event)
  perform e events = elim (refuse events e) [ none ↦ ok (events ++ e ∷ []) | some kind ↦ err kind ]

  unfoldable pub perform_if : Bool → Event → List Event → Result (List Event)
  perform_if true e events = perform e events
  perform_if false e events = ok events

  -- `save_file` of the backend of the indexer.
  unfoldable pub save_file : IndexFile → List Event → Result (List Event)
  save_file file events = perform (save_index file) events

  -- What stands behind the new index.
  unfoldable pub delete_old : Bool → List ℕ → Work → List Event → Result (List Event)
  unfolding perform_if
  delete_old early indexes_remove w events =
      perform_if (not (is_empty indexes_remove) && not early) (delete_indexes indexes_remove) events
      >>= λ es.
          perform_if (not (is_empty w.data_packs_remove)) (delete_packs w.data_packs_remove) es
          >>= λ es.
              perform_if (not (is_empty w.tree_packs_remove)) (delete_packs w.tree_packs_remove) es

  module _ (clock : ℕ → ℕ × ℕ) (copies : List PrunePack → Result (List Copy)) where
    -- The calls, of which the first is the call with the number `k` of the prune.
    unfoldable pub timed : ℕ → List (Bool × IndexPack) → List Call
    timed k [] = []
    timed k (c ∷ calls) =
        record { pack = c.1; delete = c.0; now = (clock k).0; later = (clock k).1 }
        ∷ timed (suc k) calls

    unfoldable pub run_copies : ℕ → List Copy → Indexer → List Event → Result (Indexer × List Event)
    unfolding perform save_file timed
    run_copies k [] ix events = ok (ix, events)
    run_copies k (written p ∷ rest) ix events =
        perform (write_pack p) events >>= λ es. run_copies k rest ix es
    run_copies k (indexed p ∷ rest) ix events =
        run save_file (timed k ((false, p) ∷ [])) ix events >>= λ s. run_copies (suc k) rest s.0 s.1

    -- Nothing is repacked where no pack is to be.
    unfoldable pub copied : Work → Result (List Copy)
    copied w = if is_empty w.repack_packs then ok [] else copies w.repack_packs

    -- The calls of the loop, the repacking and the end of the new index.
    unfoldable pub write_index : ℕ → Work → Indexer → List Event → Result (List Event)
    unfolding timed save_file run_copies copied
    write_index k w ix events = run save_file (timed k w.calls) ix events >>= λ s.
        copied w >>= λ cs.
        run_copies (k + length w.calls) cs s.0 s.1 >>= λ t. finalize save_file t.0 t.1

    module _ {Span : Type 0} (config : ConfigFile) (o : PruneOptions Span)
        (prune_time start : ℕ) where
      -- What follows the marking of packs.
      unfoldable pub process_packs : PrunePlan → Indexer → List Event → Result (List Event)
      unfolding perform_if delete_old write_index first_work
      process_packs plan ix events =
          let early = o.early_delete_index && o.instant_delete in
          let indexes_remove = map (λ index. index.id) plan.index_files in
          let first = first_work o.instant_delete prune_time plan in
          perform_if (not (is_empty indexes_remove) && early) (delete_indexes indexes_remove) events
          >>= λ es.
              run_packs o.instant_delete prune_time (all_packs plan.index_files) first >>= λ w.
              write_index (length first.removed) w ix es >>= λ fs.
              delete_old early indexes_remove w fs

      -- The packs that no index file names are deleted, or marked for deletion.
      unfoldable pub remove_unnamed : PrunePlan → Result (Indexer × List Event)
      unfolding perform_if timed save_file first_work removals
      remove_unnamed plan =
          perform_if (o.instant_delete && not (is_empty plan.existing_packs))
            (delete_packs (map (λ e. e.0) plan.existing_packs)) []
          >>= λ es.
              run save_file
                (timed 0 (removals (first_work o.instant_delete prune_time plan).removed))
                (new_unindexed start) es

      unfoldable pub prune_repository : PrunePlan → Result (List Event)
      unfolding remove_unnamed process_packs
      prune_repository plan =
          if unwrap_or config.append_only false
          then err append_only
          else (remove_unnamed plan >>= λ s.
              if is_empty plan.index_files then ok s.1 else process_packs plan s.0 s.1)
