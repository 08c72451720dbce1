-- ===== src/Prune/Decide.antt =====
-- `PrunePlan::new` and `PrunePlan::decide_packs` of crates/core/src/commands/prune.rs. A candidate
-- for repacking is named by the number of its index file and its number there.
use rustic_core.Base.{
  ℕ, zero, suc, Bool, true, false, not, ◌&&◌, ◌||◌, Option, none, some, List, [], ◌∷◌, ◌++◌, ltb,
  leb, if◌then◌else◌,
}
use rustic_core.Base.Word.{add_u64}
use rustic_core.Base.AssocMap.{Map}
use rustic_core.Blob.{BlobTypeMap, at, put, is_cacheable}
use rustic_core.Snapshot.{Jiff}
use rustic_core.Packer.Sizer.{PackSizer, size_ok, is_too_small, is_too_large}
use rustic_core.Prune.{PackStatus, PackToDo, RepackReason, PrunePack, is_compressed}
use rustic_core.Prune.Used.{PackInfo, from_pack}
use rustic_core.Prune.Stats.{PruneStats, StatusSet, no_status, insert_status}
use rustic_core.Prune.Todo.{set_todo}

pub record Candidate : Type 0 where
  pub pi : PackInfo
  pub status : StatusSet
  pub reason : RepackReason
  pub index_num : ℕ
  pub pack_num : ℕ

-- The part of the plan that the decisions on packs change, besides the packs themselves.
pub record Deciding : Type 0 where
  pub used_ids : Map ℕ
  pub stats : PruneStats
  pub candidates : List Candidate

-- What is chosen for a pack: a task, or to make it a candidate for repacking.
pub data Choice : Type 0 where
  task : PackToDo → Choice
  candidate : RepackReason → Choice

pub record DecideOptions (Span : Type 0) : Type 0 where
  pub keep_pack : Span
  pub keep_delete : Span
  pub repack_cacheable_only : Bool
  pub repack_uncompressed : Bool
  pub repack_all : Bool
  pub pack_sizer : BlobTypeMap PackSizer

add_used_stats : PackInfo → PruneStats → PruneStats
add_used_stats pi s = record s {
  blobs = put s.blobs pi.blob_type (record (at s.blobs pi.blob_type) {
    used = add_u64 (at s.blobs pi.blob_type).used pi.used_blobs;
    unused = add_u64 (at s.blobs pi.blob_type).unused pi.unused_blobs;
  });
  size = put s.size pi.blob_type (record (at s.size pi.blob_type) {
    used = add_u64 (at s.size pi.blob_type).used pi.used_size;
    unused = add_u64 (at s.size pi.blob_type).unused pi.unused_size;
  });
}

insert_if : Bool → PackStatus → StatusSet → StatusSet
insert_if true s set = insert_status s set
insert_if false s set = set

module _ {Zoned Span : Type 0} (j : Jiff Zoned Span) (integer_sqrt : ℕ → ℕ) (now : Zoned)
    (o : DecideOptions Span) where
  -- `pack.time > Some(self.time.saturating_sub(keep_pack))`; no time is before any time.
  unfoldable pub is_too_young : Option ℕ → Bool
  is_too_young none = false
  is_too_young (some t) = ltb (j.timestamp (j.saturating_sub now o.keep_pack)) t

  -- The packs that are marked for deletion and not needed.
  unfoldable pub choose_marked : Option ℕ → PackToDo
  choose_marked none = PackToDo.keep_marked_and_correct
  choose_marked (some t) =
      if leb t (j.timestamp (j.saturating_sub now o.keep_delete))
      then PackToDo.delete
      else PackToDo.keep_marked

  marked_status : Option ℕ → StatusSet → StatusSet
  marked_status none set = insert_status PackStatus.time_not_set set
  marked_status (some t) set =
      if leb t (j.timestamp (j.saturating_sub now o.keep_delete))
      then insert_status PackStatus.too_young set
      else set

  to_compress : PrunePack → Bool
  to_compress pack = o.repack_uncompressed && not (is_compressed pack)

  unfoldable pub kept_as_is : PrunePack → Bool
  unfolding is_too_young
  kept_as_is pack =
      is_too_young pack.time || (o.repack_cacheable_only && not (is_cacheable pack.blob_type))

  unfoldable pub choose_used : PrunePack → Choice
  unfolding kept_as_is to_compress
  choose_used pack =
      if kept_as_is pack
      then task PackToDo.keep
      else if to_compress pack || o.repack_all
      then candidate RepackReason.to_compress
      else if not (size_ok integer_sqrt (at o.pack_sizer pack.blob_type) pack.size)
      then candidate RepackReason.size_mismatch
      else task PackToDo.keep

  -- The arms of the match on the mark and on the numbers of used and unused blobs.
  unfoldable pub choose : PrunePack → Bool → ℕ → ℕ → Choice
  unfolding choose_used choose_marked is_too_young kept_as_is
  choose pack false zero unused =
      if is_too_young pack.time then task PackToDo.keep else task PackToDo.mark_delete
  choose pack false (suc n) zero = choose_used pack
  choose pack false (suc n) (suc k) =
      if kept_as_is pack then task PackToDo.keep else candidate RepackReason.partly_used
  choose pack true zero unused = task (choose_marked pack.time)
  choose pack true (suc n) unused = task PackToDo.recover

  arm_status : PrunePack → Bool → ℕ → ℕ → StatusSet → StatusSet
  unfolding marked_status
  arm_status pack false zero unused set = insert_status PackStatus.has_unused_blobs set
  arm_status pack false (suc n) zero set = insert_status PackStatus.has_used_blobs set
  arm_status pack false (suc n) (suc k) set =
      insert_status PackStatus.has_used_blobs (insert_status PackStatus.has_unused_blobs set)
  arm_status pack true zero unused set =
      marked_status pack.time (insert_status PackStatus.marked set)
  arm_status pack true (suc n) unused set =
      insert_status PackStatus.marked (insert_status PackStatus.has_used_blobs set)

  arm_stats : Bool → ℕ → ℕ → PruneStats → PruneStats
  arm_stats false zero unused s = record s {
    packs = record s.packs { unused = add_u64 s.packs.unused 1 };
  }
  arm_stats false (suc n) zero s = record s {
    packs = record s.packs { used = add_u64 s.packs.used 1 };
  }
  arm_stats false (suc n) (suc k) s = record s {
    packs = record s.packs { partly_used = add_u64 s.packs.partly_used 1 };
  }
  arm_stats true used unused s = s

  check_status : PrunePack → StatusSet
  unfolding insert_if to_compress is_too_young
  check_status pack =
      let sizer = at o.pack_sizer pack.blob_type in
      insert_if (is_too_large integer_sqrt sizer pack.size) PackStatus.too_large (
        insert_if (is_too_small integer_sqrt sizer pack.size) PackStatus.too_small (
          insert_if (to_compress pack) PackStatus.not_compressed (
            insert_if (is_too_young pack.time && not pack.delete_mark) PackStatus.too_young
              no_status)))

  unfoldable pub carry_out :
      Choice → PackInfo → StatusSet → PrunePack → ℕ → ℕ → Deciding → PrunePack × Deciding
  carry_out (task todo) pi status pack index_num pack_num st =
      let r = set_todo pack todo pi status st.stats in (r.0, record st { stats = r.1 })
  carry_out (candidate reason) pi status pack index_num pack_num st = (
    pack,
    record st {
      candidates =
          st.candidates
          ++ record {
            pi = pi;
            status = status;
            reason = reason;
            index_num = index_num;
            pack_num = pack_num;
          }
            ∷ [];
    },
  )

  -- The body of the loop over the packs.
  unfoldable pub decide_pack : PrunePack → ℕ → ℕ → Deciding → PrunePack × Deciding
  unfolding add_used_stats choose arm_status arm_stats check_status carry_out
  decide_pack pack index_num pack_num st =
      let (pi, used_ids) = from_pack pack st.used_ids in
      let status =
        arm_status pack pack.delete_mark pi.used_blobs pi.unused_blobs (check_status pack) in
      carry_out (choose pack pack.delete_mark pi.used_blobs pi.unused_blobs) pi status pack
        index_num pack_num
        (record st {
          used_ids = used_ids;
          stats =
              arm_stats pack.delete_mark pi.used_blobs pi.unused_blobs (add_used_stats pi st.stats);
        })
