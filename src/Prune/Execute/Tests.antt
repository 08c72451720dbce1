-- ===== src/Prune/Execute/Tests.antt =====
-- Examples for `prune_repository`: a plan with all kinds of packs, and one that is made before.
use rustic_core.Prune.Tests.{
  blob, contents, root, sizers, options, plan, planned, AreShort-contents, counted_zero, pack,
  index, no_work,
}
use rustic_core.Base.{
  ℕ, ◌≡◌, false, none, some, [], ◌∷◌, refl, Option, ok, Result, Bool, ◌+◌, true, List, err,
  ErrorKind, ◌>>=◌, if◌then◌else◌, ltb, map, ◌⊎◌,
}
use rustic_core.Base.AssocMap.{get, update, remove}
use rustic_core.Base.Sorting.{sort_by, insert_by}
use rustic_core.Config.Tests.{sample}
use rustic_core.Snapshot.Tests.{clock}
use rustic_core.PackFile.{blob_type, IndexPack, index_pack_size}
use rustic_core.Prune.{
  into_index_pack, from_index_pack, index_length, PrunePack, PackToDo, into_index_pack_with_time,
}
use rustic_core.Prune.Used.{
  from_pack, find_needed, found_after, remark_before, mark_after, remark, add_used, add_unused,
  count_used_blobs, check,
}
use rustic_core.Prune.New.{
  new_indexes, read_indexes, unprocessed, drop_recorded, retain, is_recorded,
}
use rustic_core.Prune.Plan.{all_packs, all_blobs, decide_packs, decide_indexes, decide_pack_list}
use rustic_core.Prune.Decide.{decide_pack, choose, choose_used, carry_out}
use rustic_core.Prune.Stats.{no_stats}
use rustic_core.Prune.Todo.{set_todo, count_todo}
use rustic_core.Prune.Repack.{
  Planned, decide_repack, repack_candidates, first_state, repack_loop, repack_step, set_at,
  set_at_pack, set_all, resize_todo, stays, unused_limit, repack_limit,
}
use rustic_core.Prune.Check.{
  check_packs, check_pack, check_todo, size_matches, remove_blobs, check_existing_packs,
  filter_index_files, retain_indexes, needs_processing, must_modify,
}
use rustic_core.Index.Indexer
use rustic_core.Prune.Run.{
  add, repack, dispose, add_remove, delete_pack, delete_of, retain_used, before, Work, run_packs,
  run_pack, run_todo,
}
use rustic_core.Prune.Whole.{
  PrunePlan, from_prune_options, decide_plan, decided, decided_packs, decide_options, finish_plan,
  after_check, first_work, unreferenced,
}
use rustic_core.Prune.Execute.{
  Event, Copy, written, indexed, copied, prune_repository, save_index, remove_unnamed,
  process_packs, delete_old, write_index, run_copies, timed, save_file, perform_if, perform,
  removals,
}
use rustic_core.Prune.Execute.Order.{Ordered, prune_repository-Ordered}
use rustic_core.Prune.Execute.Events.{saved}
use rustic_core.Prune.Execute.Stored.{is_indexed, prune_repository-is_indexed}
use rustic_core.Prune.Safe.Carried.{is_repacked}
use rustic_core.Prune.Safe.Parts.{first_decisions}
use rustic_core.Prune.Safe.Carried.{is_repacked}
use rustic_core.Prune.Safe.Filtered.{untouched}
use rustic_core.Snapshot.{is_empty}

-- A pack to keep, one to delete and one to repack, and a pack that no index file names.
abbrev three_packs : PrunePlan
three_packs = record {
  used_ids = (4, 0) ∷ [];
  existing_packs = (300, 5) ∷ [];
  index_files =
      record index {
        packs =
            pack
            ∷ record pack { id = 101; to_do = PackToDo.delete }
            ∷ record pack { id = 102; to_do = PackToDo.repack; blobs = blob 4 0 ∷ [] }
            ∷ [];
      }
      ∷ [];
  stats = no_stats;
}

abbrev accepts_all : List Event → Event → Option ErrorKind
accepts_all events e = none

-- Between the first and the second call of the indexer six minutes go by.
abbrev slow : ℕ → ℕ × ℕ
slow k = if ltb 0 k then (360, 360) else (0, 0)

-- The packs are copied one by one.
abbrev copies : List PrunePack → Result (List Copy)
copies [] = ok []
copies (p ∷ packs) =
    let new : IndexPack = record { id = p.id + 1000; blobs = p.blobs; time = none; size = none } in
    copies packs >>= λ rest. ok (written new ∷ indexed new ∷ rest)

abbrev events_of : Result (List Event) → List Event
events_of (ok events) = events
events_of (err e) = []

abbrev done : List Event
done = events_of (prune_repository accepts_all slow copies sample options 9 0 three_packs)

abbrev work_of : Result Work → Work
work_of (ok w) = w
work_of (err e) = no_work

abbrev is_save : Event → Bool
is_save (save_index f) = true
is_save _ = false

pruned : prune_repository accepts_all slow copies sample options 9 0 three_packs ≡ ok done
unfolding is_empty prune_repository remove_unnamed process_packs delete_old write_index copied
    run_copies timed save_file perform_if perform removals first_work unreferenced all_packs
    run_packs run_pack run_todo add into_index_pack into_index_pack_with_time retain_used before
    sort_by insert_by get remove repack dispose add_remove delete_pack delete_of Indexer.run
    Indexer.note Indexer.is_due Indexer.save Indexer.reset Indexer.new_unindexed Indexer.finalize
pruned = refl

-- An index file is saved before the blobs are repacked, and another one after that.
are_saved : map is_save done ≡ true ∷ false ∷ true ∷ false ∷ false ∷ []
unfolding is_empty prune_repository remove_unnamed process_packs delete_old write_index copied
    run_copies timed save_file perform_if perform removals first_work unreferenced all_packs
    run_packs run_pack run_todo add into_index_pack into_index_pack_with_time retain_used before
    sort_by insert_by get remove repack dispose add_remove delete_pack delete_of Indexer.run
    Indexer.note Indexer.is_due Indexer.save Indexer.reset Indexer.new_unindexed Indexer.finalize
are_saved = refl

is_empty_index_files : is_empty three_packs.index_files ≡ false
unfolding is_empty
is_empty_index_files = refl

prune_repository-Ordered_example :
    (w : Work) × (run_packs false 9
        (all_packs three_packs.index_files)
        (first_work false 9 three_packs)
      ≡ ok w)
    × (cs : List Copy) × (copied accepts_all slow copies w ≡ ok cs)
    × Ordered accepts_all slow copies sample options 9 0 three_packs done w cs
prune_repository-Ordered_example =
    prune_repository-Ordered accepts_all slow copies sample options 9 0 three_packs done refl
      is_empty_index_files pruned

-- The plan of the example, carried out.
abbrev outcome : Result (List Event)
outcome = prune_repository accepts_all slow copies sample options 100 0 plan

carried_out : outcome ≡ ok (events_of outcome)
unfolding from_prune_options after_check check count_used_blobs all_blobs all_packs new_indexes
    read_indexes unprocessed drop_recorded retain is_recorded from_index_pack decide_plan decided
    decided_packs decide_options decide_packs decide_indexes decide_pack_list decide_pack choose
    choose_used carry_out from_pack find_needed found_after remark_before mark_after remark add_used
    add_unused set_todo count_todo decide_repack repack_candidates first_state repack_loop
    repack_step set_at set_at_pack set_all resize_todo stays unused_limit repack_limit finish_plan
    check_existing_packs check_packs check_pack check_todo size_matches remove_blobs
    filter_index_files retain_indexes needs_processing must_modify get update remove index_pack_size
    sort_by insert_by index_length blob_type no_stats is_empty prune_repository remove_unnamed
    process_packs delete_old write_index copied run_copies timed save_file perform_if perform
    removals first_work unreferenced run_packs run_pack run_todo add into_index_pack
    into_index_pack_with_time retain_used before repack dispose add_remove delete_pack delete_of
    Indexer.run Indexer.note Indexer.is_due Indexer.save Indexer.reset Indexer.new_unindexed
    Indexer.finalize
carried_out = refl

has_index_files : is_empty plan.index_files ≡ false
unfolding from_prune_options after_check check count_used_blobs all_blobs all_packs new_indexes
    read_indexes unprocessed drop_recorded retain is_recorded from_index_pack decide_plan decided
    decided_packs decide_options decide_packs decide_indexes decide_pack_list decide_pack choose
    choose_used carry_out from_pack find_needed found_after remark_before mark_after remark add_used
    add_unused set_todo count_todo decide_repack repack_candidates first_state repack_loop
    repack_step set_at set_at_pack set_all resize_todo stays unused_limit repack_limit finish_plan
    check_existing_packs check_packs check_pack check_todo size_matches remove_blobs
    filter_index_files retain_indexes needs_processing must_modify get update remove index_pack_size
    sort_by insert_by index_length blob_type no_stats is_empty prune_repository remove_unnamed
    process_packs delete_old write_index copied run_copies timed save_file perform_if perform
    removals first_work unreferenced run_packs run_pack run_todo add into_index_pack
    into_index_pack_with_time retain_used before repack dispose add_remove delete_pack delete_of
    Indexer.run Indexer.note Indexer.is_due Indexer.save Indexer.reset Indexer.new_unindexed
    Indexer.finalize
has_index_files = refl

prune_repository-is_indexed_example :
    (planned : Planned) × (decided clock root 100 sample sizers options
        (first_decisions clock root 100 sample sizers options contents)
      ≡ some planned)
    × (w : Work) × (run_packs false 100 (all_packs plan.index_files) (first_work false 100 plan)
        ≡ ok w)
    × ((is_indexed 1 (saved (events_of outcome)) ≡ true)
        ⊎ (is_repacked 1 w ≡ true)
        ⊎ (untouched 1 plan.index_files planned.0 ≡ true))
prune_repository-is_indexed_example =
    prune_repository-is_indexed accepts_all slow copies clock root 100 sample sizers options
      contents plan 100 0 1 (events_of outcome) AreShort-contents (refl, tt) counted_zero planned
      refl has_index_files carried_out
