-- ===== src/Prune/Whole.antt =====
-- `PrunePlan::from_prune_options` of crates/core/src/commands/prune.rs. What is read from the
-- repository is an argument: the used blobs, the pack files with their sizes and the index files.
use rustic_core.Base.{
  ℕ, Bool, false, ◌&&◌, ◌||◌, Option, none, some, List, [], ◌∷◌, ltb, if◌then◌else◌, Result, ok,
  err, unsupported, ◌>>=◌, unwrap_or,
}
use rustic_core.Base.AssocMap.{Map}
use rustic_core.Blob.{BlobTypeMap}
use rustic_core.Config.{ConfigFile}
use rustic_core.Snapshot.{Jiff}
use rustic_core.Packer.Sizer.{PackSizer}
use rustic_core.PackFile.{IndexFile, IndexPack}
use rustic_core.Prune.{PruneOptions, PruneIndex}
use rustic_core.Prune.Stats.{PruneStats, no_stats}
use rustic_core.Prune.Used.{count_used_blobs, check}
use rustic_core.Prune.Decide.{DecideOptions, Deciding}
use rustic_core.Prune.New.{new_indexes}
use rustic_core.Prune.Plan.{all_packs, all_blobs, decide_packs}
use rustic_core.Prune.Repack.{Planned, decide_repack}
use rustic_core.Prune.Check.{check_existing_packs, filter_index_files}
use rustic_core.Prune.Run.{Work}

pub record PrunePlan : Type 0 where
  pub used_ids : Map ℕ
  pub existing_packs : Map ℕ
  pub index_files : List PruneIndex
  pub stats : PruneStats

-- What `from_prune_options` reads.
pub record Contents : Type 0 where
  pub used_ids : Map ℕ
  pub existing_packs : Map ℕ
  pub index_files : List (ℕ × IndexFile)

module _ {Zoned Span : Type 0} (j : Jiff Zoned Span) (integer_sqrt : ℕ → ℕ) (now : Zoned)
    (config : ConfigFile) (pack_sizer : BlobTypeMap PackSizer) (o : PruneOptions Span) where
  unfoldable pub decide_options : DecideOptions Span
  decide_options = record {
    keep_pack = o.keep_pack;
    keep_delete = o.keep_delete;
    repack_cacheable_only = unwrap_or o.repack_cacheable_only (unwrap_or config.is_hot false);
    repack_uncompressed = o.repack_uncompressed;
    repack_all = o.repack_all;
    pack_sizer = pack_sizer;
  }

  unfoldable pub finish_plan : Contents → List PruneIndex × PruneStats → Map ℕ → Result PrunePlan
  finish_plan c planned used_ids =
      check_existing_packs planned.0 (used_ids, c.existing_packs) planned.1 >>= λ r.
      let kept = filter_index_files o.instant_delete planned.0 r.1 in
      ok (record { used_ids = r.0.0; existing_packs = r.0.1; index_files = kept.0; stats = kept.1 })

  -- `decide_packs`, on the packs and the counted blobs.
  unfoldable pub decided_packs : List PruneIndex → Map ℕ → List PruneIndex × Deciding
  decided_packs indexes used_ids =
      decide_packs j integer_sqrt now decide_options indexes
        (record { used_ids = used_ids; stats = no_stats; candidates = [] })

  -- The packs after `decide_packs` and `decide_repack`.
  unfoldable pub decided : List PruneIndex × Deciding → Option Planned
  decided d =
      decide_repack integer_sqrt pack_sizer o.max_repack o.max_unused
        (o.repack_uncompressed || o.repack_all) o.no_resize d.1.candidates (d.0, d.1.stats)

  unfoldable pub decide_plan : Contents → List PruneIndex × Deciding → Option (Result PrunePlan)
  decide_plan c d = elim (decided d) [
    | none ↦ none
    | some planned ↦ some (finish_plan c planned d.1.used_ids)
  ]

  unfoldable pub after_check :
      Result (Unit {0}) → Option (Result PrunePlan) → Option (Result PrunePlan)
  after_check (ok u) plan = plan
  after_check (err e) plan = some (err e)

  -- `none` stands for the division by zero of `decide_repack`.
  unfoldable pub from_prune_options : Contents → Option (Result PrunePlan)
  unfolding after_check decide_plan decided_packs
  from_prune_options c =
      let indexes = new_indexes c.index_files in
      let used_ids = count_used_blobs (all_blobs (all_packs indexes)) c.used_ids in
      if ltb config.version 2 && o.repack_uncompressed
      then some (err unsupported)
      else after_check (check used_ids) (decide_plan c (decided_packs indexes used_ids))

-- The packs that no index file names, to be marked for deletion.
unfoldable pub unreferenced : ℕ → Map ℕ → List IndexPack
unreferenced prune_time [] = []
unreferenced prune_time ((id, size) ∷ rest) =
    record { id = id; size = some size; time = some prune_time; blobs = [] }
    ∷ unreferenced prune_time rest

-- What stands there before the loop over the packs.
unfoldable pub first_work : Bool → ℕ → PrunePlan → Work
unfolding unreferenced
first_work instant_delete prune_time plan = record {
  added = [];
  removed = if instant_delete then [] else unreferenced prune_time plan.existing_packs;
  tree_packs_remove = [];
  data_packs_remove = [];
  repack_packs = [];
  calls = [];
  used_ids = plan.used_ids;
}
