-- ===== src/Prune/Tests.antt =====
-- Examples for `prune`: a pack with a used and an unused blob, and a pack without a used blob.
use rustic_core.Base.{
  all, ◌||◌, not, ◌==◌, ℕ, ◌≡◌, false, none, some, [], ◌∷◌, refl, arith, Option, ok, Result, ◌≤◌,
  Bool, any, ◌+◌, All, true, List,
}
use rustic_core.Base.AssocMap.{get, update, remove, Map}
use rustic_core.Base.Sorting.{sort_by, insert_by}
use rustic_core.Blob.{BlobTypeMap, init, data_blob}
use rustic_core.Config.Tests.{sample}
use rustic_core.Snapshot.Tests.{clock}
use rustic_core.Packer.Sizer.{PackSizer, fixed}
use rustic_core.PackFile.{IndexFile, blob_type, IndexBlob, IndexPack, index_pack_size}
use rustic_core.Prune.{
  into_index_pack, PruneOptions, LimitOption, from_index_pack, index_length, PrunePack, PruneIndex,
  PackToDo,
}
use rustic_core.Prune.Used.{
  from_pack, find_needed, found_after, remark_before, mark_after, remark, add_used, add_unused,
  count_used_blobs, check,
}
use rustic_core.Prune.Used.Marks.{used, Marked}
use rustic_core.Prune.Used.Needed.{from_pack-Marked}
use rustic_core.Prune.New.{
  new_indexes, read_indexes, unprocessed, drop_recorded, retain, is_recorded,
}
use rustic_core.Prune.Plan.{all_packs, all_blobs, decide_packs, decide_indexes, decide_pack_list}
use rustic_core.Prune.Decide.{decide_pack, choose, choose_used, carry_out, Deciding, DecideOptions}
use rustic_core.Prune.Stats.{no_stats}
use rustic_core.Prune.Todo.{set_todo, count_todo}
use rustic_core.Prune.Repack.{
  Planned, decide_repack, repack_candidates, first_state, repack_loop, repack_step, set_at,
  set_at_pack, set_all, resize_todo, stays, unused_limit, repack_limit,
}
use rustic_core.Prune.Check.{
  check_packs, check_pack, check_todo, size_matches, remove_blobs, check_existing_packs,
  filter_index_files, retain_indexes, needs_processing, must_modify,
}
use rustic_core.Prune.Run.{add, Work, run_packs, run_pack, run_todo}
use rustic_core.Prune.Whole.{
  Contents, PrunePlan, from_prune_options, decide_plan, decided, decided_packs, decide_options,
  finish_plan, after_check, first_work,
}
use rustic_core.Prune.Safe.Carried.{is_repacked}
use rustic_core.Prune.Retained.{is_retained}
use rustic_core.Prune.Complete.{is_undecided}
use rustic_core.Prune.Complete.Whole.{decided-decides}
use rustic_core.Prune.Retained.Whole.{decided-retained}
use rustic_core.Prune.Safe.Parts.{first_decisions}
use rustic_core.Prune.Safe.Finished.{Saved}
use rustic_core.Prune.Safe.Lost.{AreShort, no_blob_lost}
use rustic_core.Prune.Safe.{IsFresh, held, keeps}
use rustic_core.Prune.Safe.Planned.{decide_packs-keeps}
use rustic_core.Prune.Safe.Checks.{records, repacks, Secured, check_packs-Secured}
use rustic_core.Prune.Safe.Carried.{is_added, is_repacked, is_due, run_packs-saves}
use rustic_core.Prune.Safe.Filtered.{untouched, filter_index_files-records}

abbrev pub blob : ℕ → ℕ → IndexBlob
blob id offset = record {
  id = id;
  tpe = data_blob;
  location = record { offset = offset; length = 10; uncompressed_length = some 20 };
}

abbrev partly_used : IndexPack
partly_used = record {
  id = 100;
  blobs = blob 1 0 ∷ blob 2 10 ∷ [];
  time = some 5;
  size = some 1000;
}

abbrev unused : IndexPack
unused = record { id = 200; blobs = blob 3 0 ∷ []; time = some 5; size = some 1000 }

abbrev index_file : IndexFile
index_file = record { supersedes = none; packs = partly_used ∷ unused ∷ []; packs_to_delete = [] }

abbrev pub contents : Contents
contents = record {
  used_ids = (1, 0) ∷ [];
  existing_packs = (100, 1000) ∷ (200, 1000) ∷ [];
  index_files = (7, index_file) ∷ [];
}

abbrev pub root : ℕ → ℕ
root n = 0

abbrev pub sizers : BlobTypeMap PackSizer
sizers = init (λ t. fixed 1000)

abbrev pub options : PruneOptions ℕ
options = record {
  max_repack = LimitOption.unlimited;
  max_unused = LimitOption.size 0;
  keep_pack = 0;
  keep_delete = 0;
  instant_delete = false;
  early_delete_index = false;
  fast_repack = false;
  repack_uncompressed = false;
  repack_all = false;
  repack_cacheable_only = none;
  no_resize = false;
  ignore_snaps = [];
}

abbrev no_plan : PrunePlan
no_plan = record { used_ids = []; existing_packs = []; index_files = []; stats = no_stats }

abbrev plan_of : Option (Result PrunePlan) → PrunePlan
plan_of (some (ok plan)) = plan
plan_of _ = no_plan

abbrev pub plan : PrunePlan
plan = plan_of (from_prune_options clock root 100 sample sizers options contents)

pub planned : from_prune_options clock root 100 sample sizers options contents ≡ some (ok plan)
unfolding from_prune_options after_check check count_used_blobs all_blobs all_packs new_indexes
    read_indexes unprocessed drop_recorded retain is_recorded from_index_pack decide_plan decided
    decided_packs decide_options decide_packs decide_indexes decide_pack_list decide_pack choose
    choose_used carry_out from_pack find_needed found_after remark_before mark_after remark add_used
    add_unused set_todo count_todo decide_repack repack_candidates first_state repack_loop
    repack_step set_at set_at_pack set_all resize_todo stays unused_limit repack_limit finish_plan
    check_existing_packs check_packs check_pack check_todo size_matches remove_blobs
    filter_index_files retain_indexes needs_processing must_modify get update remove index_pack_size
    sort_by insert_by index_length blob_type no_stats
planned = refl

pub AreShort-contents : AreShort (all_packs (new_indexes contents.index_files))
unfolding all_packs new_indexes read_indexes unprocessed drop_recorded retain is_recorded
    from_index_pack
AreShort-contents = (omega arith, (omega arith, tt))

pub counted_zero : get contents.used_ids 1 ≡ some 0
unfolding get
counted_zero = refl

no_blob_lost_example :
    (planned : Planned) × (decided clock root 100 sample sizers options
        (first_decisions clock root 100 sample sizers options contents)
      ≡ some planned)
    × (w : Work) × (run_packs false 100 (all_packs plan.index_files) (first_work false 100 plan)
        ≡ ok w)
    × Saved clock root 100 sample sizers options 1 plan.index_files planned.0 w
no_blob_lost_example =
    no_blob_lost clock root 100 sample sizers options contents plan 100 1 AreShort-contents
      (refl, tt) counted_zero planned

-- The pack has a used blob twice in the repository, and one that is not used.
abbrev pub pack : PrunePack
pack = record {
  id = 100;
  blob_type = data_blob;
  size = 1000;
  delete_mark = false;
  to_do = PackToDo.keep;
  time = some 5;
  blobs = blob 1 0 ∷ blob 2 10 ∷ [];
}

abbrev counts : Map ℕ
counts = (1, 1) ∷ []

from_pack-Marked_example :
    Marked 1
      (used counts 1)
      pack.blobs
      (not ((from_pack pack counts).0.used_blobs == 0))
      (used (from_pack pack counts).1 1)
from_pack-Marked_example = from_pack-Marked pack counts 1 (omega arith)

abbrev pub index : PruneIndex
index = record { id = 7; modified = false; packs = pack ∷ [] }

abbrev start : Deciding
start = record { used_ids = counts; stats = no_stats; candidates = [] }

index-IsFresh : (b : Bool) → All (IsFresh b) (all_packs (index ∷ []))
unfolding all_packs
index-IsFresh b = ((omega arith, λ h. refl), tt)

count_one : 1 ≤ used start.used_ids 1
unfolding get
count_one = omega arith

count_held :
    used start.used_ids 1
    ≤ held true 1 (all_packs (index ∷ [])) + held false 1 (all_packs (index ∷ []))
unfolding get all_packs
count_held = omega arith

abbrev decide_all : DecideOptions ℕ
decide_all = record {
  keep_pack = 0;
  keep_delete = 0;
  repack_cacheable_only = false;
  repack_uncompressed = false;
  repack_all = false;
  pack_sizer = sizers;
}

decide_packs-keeps_example :
    any (keeps 1) (all_packs (decide_packs clock root 100 decide_all (index ∷ []) start).0) ≡ true
decide_packs-keeps_example =
    decide_packs-keeps clock root 100 decide_all (index ∷ []) start 1 (index-IsFresh true)
      (index-IsFresh false) count_one count_held

check_one : check_packs (pack ∷ []) (counts, (100, 1000) ∷ []) ≡ ok ([], [])
unfolding check_packs check_pack check_todo size_matches remove_blobs get remove
check_one = refl

check_packs-Secured_example : Secured 1 (pack ∷ []) counts []
check_packs-Secured_example =
    check_packs-Secured 1 (pack ∷ []) (counts, (100, 1000) ∷ []) ([], []) check_one

abbrev pub no_work : Work
no_work = record {
  added = [];
  removed = [];
  calls = [];
  tree_packs_remove = [];
  data_packs_remove = [];
  repack_packs = [];
  used_ids = [];
}

abbrev added_pack : IndexPack
added_pack = record { id = 100; blobs = pack.blobs; time = some 5; size = none }

abbrev added_work : Work
added_work = record no_work { added = added_pack ∷ []; calls = (false, added_pack) ∷ [] }

run_one : run_packs false 9 (pack ∷ []) no_work ≡ ok added_work
unfolding run_packs run_pack run_todo add into_index_pack
run_one = refl

run_packs-saves_example :
    ((is_added 1 no_work || any (records 1) (pack ∷ [])) ≡ true → is_added 1 added_work ≡ true)
    × (is_due 1 no_work ≡ true
        → (is_repacked 1 no_work || any (repacks 1) (pack ∷ [])) ≡ true
        → is_repacked 1 added_work ≡ true)
run_packs-saves_example = run_packs-saves 1 false 9 (pack ∷ []) no_work added_work run_one

-- The file that is rebuilt does not have the blob, the one that stays has it.
abbrev two_files : List PruneIndex
two_files =
    record { id = 8; modified = true; packs = record pack { id = 101; blobs = [] } ∷ [] }
    ∷ index
    ∷ []

kept_blob : any (records 1) (all_packs two_files) ≡ true
unfolding all_packs
kept_blob = refl

filter_index_files-records_example :
    (any (records 1) (all_packs (filter_index_files false two_files no_stats).0)
      || untouched 1 (filter_index_files false two_files no_stats).0 two_files)
    ≡ true
filter_index_files-records_example =
    filter_index_files-records false 1 two_files no_stats (refl, (refl, tt)) kept_blob

abbrev planned_of : Option Planned → Planned
planned_of (some q) = q
planned_of none = ([], no_stats)

abbrev decisions : Option Planned
decisions =
    decided clock root 100 sample sizers options
      (decided_packs clock root 100 sample sizers options (new_indexes contents.index_files) counts)

made : decisions ≡ some (planned_of decisions)
unfolding from_prune_options after_check check count_used_blobs all_blobs all_packs new_indexes
    read_indexes unprocessed drop_recorded retain is_recorded from_index_pack decide_plan decided
    decided_packs decide_options decide_packs decide_indexes decide_pack_list decide_pack choose
    choose_used carry_out from_pack find_needed found_after remark_before mark_after remark add_used
    add_unused set_todo count_todo decide_repack repack_candidates first_state repack_loop
    repack_step set_at set_at_pack set_all resize_todo stays unused_limit repack_limit finish_plan
    check_existing_packs check_packs check_pack check_todo size_matches remove_blobs
    filter_index_files retain_indexes needs_processing must_modify get update remove index_pack_size
    sort_by insert_by index_length blob_type no_stats
made = refl

decided-retained_example :
    all
      (is_retained clock root 100 (decide_options clock root 100 sample sizers options))
      (all_packs (planned_of decisions).0)
    ≡ true
decided-retained_example =
    decided-retained clock root 100 sample sizers options contents.index_files counts
      (planned_of decisions) made

decided-decides_example : any is_undecided (all_packs (planned_of decisions).0) ≡ false
decided-decides_example =
    decided-decides clock root 100 sample sizers options contents.index_files counts
      (planned_of decisions) made
