-- ===== src/Prune/Stats.antt =====
-- The statistics of crates/core/src/commands/prune.rs and `PrunePack::set_todo`. The detailed
-- statistics are an association list; the source keeps them sorted by their keys.
use rustic_core.Base.{ℕ, Bool, true, false, ◌&&◌, ◌||◌, List, [], ◌∷◌, all, ◌==◌, if◌then◌else◌}
use rustic_core.Base.Word.{add_u64, sub_u64}
use rustic_core.Blob.{BlobType, BlobTypeMap, tree_blob, data_blob, init}
use rustic_core.Prune.{PackStatus, PackToDo, same_todo}
use rustic_core.Prune.Used.{PackInfo}

abbrev status_number : PackStatus → ℕ
status_number PackStatus.not_compressed = 0
status_number PackStatus.too_young = 1
status_number PackStatus.time_not_set = 2
status_number PackStatus.too_large = 3
status_number PackStatus.too_small = 4
status_number PackStatus.has_unused_blobs = 5
status_number PackStatus.has_used_blobs = 6
status_number PackStatus.marked = 7

abbrev all_status : List PackStatus
all_status =
    PackStatus.not_compressed ∷ PackStatus.too_young ∷ PackStatus.time_not_set
    ∷ PackStatus.too_large ∷ PackStatus.too_small ∷ PackStatus.has_unused_blobs
    ∷ PackStatus.has_used_blobs ∷ PackStatus.marked ∷ []

-- `EnumSet<PackStatus>`
abbrev pub StatusSet : Type 0
StatusSet = PackStatus → Bool

abbrev pub no_status : StatusSet
no_status s = false

abbrev pub insert_status : PackStatus → StatusSet → StatusSet
insert_status s set t = (status_number s == status_number t) || set t

abbrev same_bool : Bool → Bool → Bool
same_bool true b = b
same_bool false true = false
same_bool false false = true

abbrev same_set : StatusSet → StatusSet → Bool
same_set a b = all (λ s. same_bool (a s) (b s)) all_status

abbrev same_type : BlobType → BlobType → Bool
same_type tree_blob tree_blob = true
same_type data_blob data_blob = true
same_type _ _ = false

pub record DebugDetailedStats : Type 0 where
  pub packs : ℕ
  pub unused_blobs : ℕ
  pub unused_size : ℕ
  pub used_blobs : ℕ
  pub used_size : ℕ

pub record DebugStatsKey : Type 0 where
  pub todo : PackToDo
  pub blob_type : BlobType
  pub status : StatusSet

same_key : DebugStatsKey → DebugStatsKey → Bool
same_key a b =
    same_todo a.todo b.todo && same_type a.blob_type b.blob_type && same_set a.status b.status

abbrev pub DebugStats : Type 0
DebugStats = List (DebugStatsKey × DebugDetailedStats)

no_details : DebugDetailedStats
no_details = record { packs = 0; unused_blobs = 0; unused_size = 0; used_blobs = 0; used_size = 0 }

add_details : PackInfo → DebugDetailedStats → DebugDetailedStats
add_details pi d = record {
  packs = add_u64 d.packs 1;
  unused_blobs = add_u64 d.unused_blobs pi.unused_blobs;
  unused_size = add_u64 d.unused_size pi.unused_size;
  used_blobs = add_u64 d.used_blobs pi.used_blobs;
  used_size = add_u64 d.used_size pi.used_size;
}

add_at : DebugStatsKey → PackInfo → DebugStats → DebugStats
unfolding same_key no_details add_details
add_at key pi [] = (key, add_details pi no_details) ∷ []
add_at key pi ((k, d) ∷ ds) =
    let rest = add_at key pi ds in
    if same_key k key then (k, add_details pi d) ∷ ds else (k, d) ∷ rest

-- `DebugStats::add`
unfoldable pub add_debug : DebugStats → PackInfo → PackToDo → StatusSet → DebugStats
unfolding add_at
add_debug debug pi todo status =
    add_at (record { todo = todo; blob_type = pi.blob_type; status = status }) pi debug

pub record DeleteStats : Type 0 where
  pub remove : ℕ
  pub recover : ℕ
  pub keep : ℕ

-- `DeleteStats::total`
unfoldable pub delete_total : DeleteStats → ℕ
delete_total s = add_u64 (add_u64 s.remove s.recover) s.keep

pub record PackStats : Type 0 where
  pub used : ℕ
  pub partly_used : ℕ
  pub unused : ℕ
  pub repack : ℕ
  pub keep : ℕ

pub record SizeStats : Type 0 where
  pub used : ℕ
  pub unused : ℕ
  pub remove : ℕ
  pub repack : ℕ
  pub repackrm : ℕ

unfoldable pub total : SizeStats → ℕ
total s = add_u64 s.used s.unused

unfoldable pub unused_after_prune : SizeStats → ℕ
unused_after_prune s = sub_u64 (sub_u64 s.unused s.remove) s.repackrm

unfoldable pub total_after_prune : SizeStats → ℕ
unfolding unused_after_prune
total_after_prune s = add_u64 s.used (unused_after_prune s)

pub record PruneStats : Type 0 where
  pub packs_to_delete : DeleteStats
  pub size_to_delete : DeleteStats
  pub packs : PackStats
  pub blobs : BlobTypeMap SizeStats
  pub size : BlobTypeMap SizeStats
  pub packs_unref : ℕ
  pub size_unref : ℕ
  pub index_files : ℕ
  pub index_files_rebuild : ℕ
  pub debug : DebugStats

abbrev no_delete : DeleteStats
no_delete = record { remove = 0; recover = 0; keep = 0 }

abbrev no_sizes : SizeStats
no_sizes = record { used = 0; unused = 0; remove = 0; repack = 0; repackrm = 0 }

-- `PruneStats::default()`
unfoldable pub no_stats : PruneStats
no_stats = record {
  packs_to_delete = no_delete;
  size_to_delete = no_delete;
  packs = record { used = 0; partly_used = 0; unused = 0; repack = 0; keep = 0 };
  blobs = init (λ t. no_sizes);
  size = init (λ t. no_sizes);
  packs_unref = 0;
  size_unref = 0;
  index_files = 0;
  index_files_rebuild = 0;
  debug = [];
}

-- The derived `Add`.
add_sizes : SizeStats → SizeStats → SizeStats
add_sizes a b = record {
  used = add_u64 a.used b.used;
  unused = add_u64 a.unused b.unused;
  remove = add_u64 a.remove b.remove;
  repack = add_u64 a.repack b.repack;
  repackrm = add_u64 a.repackrm b.repackrm;
}

unfoldable pub blobs_sum : PruneStats → SizeStats
unfolding add_sizes
blobs_sum s = add_sizes (add_sizes no_sizes s.blobs.tree) s.blobs.content

unfoldable pub size_sum : PruneStats → SizeStats
unfolding add_sizes
size_sum s = add_sizes (add_sizes no_sizes s.size.tree) s.size.content
