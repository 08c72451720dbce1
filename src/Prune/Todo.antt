-- ===== src/Prune/Todo.antt =====
-- `PrunePack::set_todo` of crates/core/src/commands/prune.rs.
use rustic_core.Base.Word.{add_u64, add_u16, add_u32}
use rustic_core.Blob.{at, put}
use rustic_core.Prune.{PackToDo, PrunePack}
use rustic_core.Prune.Used.{PackInfo}
use rustic_core.Prune.Stats.{SizeStats, PruneStats, StatusSet, add_debug}
use rustic_core.Base.{ℕ}

repack_sizes : SizeStats → ℕ → ℕ → SizeStats
repack_sizes s all_of unused = record s {
  repack = add_u64 s.repack all_of;
  repackrm = add_u64 s.repackrm unused;
}

-- The statistics after `set_todo`. It is not called with `Undecided`, which panics in the source.
unfoldable pub count_todo : PrunePack → PackToDo → PackInfo → PruneStats → PruneStats
unfolding repack_sizes
count_todo p PackToDo.undecided pi s = s
count_todo p PackToDo.keep pi s = record s {
  packs = record s.packs { keep = add_u64 s.packs.keep 1 };
}
count_todo p PackToDo.repack pi s = record s {
  packs = record s.packs { repack = add_u64 s.packs.repack 1 };
  blobs = put s.blobs p.blob_type (
      repack_sizes (at s.blobs p.blob_type) (add_u16 pi.unused_blobs pi.used_blobs)
        pi.unused_blobs);
  size =
      put s.size p.blob_type
        (repack_sizes (at s.size p.blob_type) (add_u32 pi.unused_size pi.used_size) pi.unused_size);
}
count_todo p PackToDo.mark_delete pi s = record s {
  blobs = put s.blobs p.blob_type (record (at s.blobs p.blob_type) {
    remove = add_u64 (at s.blobs p.blob_type).remove pi.unused_blobs;
  });
  size = put s.size p.blob_type (record (at s.size p.blob_type) {
    remove = add_u64 (at s.size p.blob_type).remove pi.unused_size;
  });
}
count_todo p PackToDo.recover pi s = record s {
  packs_to_delete = record s.packs_to_delete { recover = add_u64 s.packs_to_delete.recover 1 };
  size_to_delete = record s.size_to_delete { recover = add_u64 s.size_to_delete.recover p.size };
}
count_todo p PackToDo.delete pi s = record s {
  packs_to_delete = record s.packs_to_delete { remove = add_u64 s.packs_to_delete.remove 1 };
  size_to_delete = record s.size_to_delete { remove = add_u64 s.size_to_delete.remove p.size };
}
count_todo p PackToDo.keep_marked pi s = record s {
  packs_to_delete = record s.packs_to_delete { keep = add_u64 s.packs_to_delete.keep 1 };
  size_to_delete = record s.size_to_delete { keep = add_u64 s.size_to_delete.keep p.size };
}
count_todo p PackToDo.keep_marked_and_correct pi s = record s {
  packs_to_delete = record s.packs_to_delete { keep = add_u64 s.packs_to_delete.keep 1 };
  size_to_delete = record s.size_to_delete { keep = add_u64 s.size_to_delete.keep p.size };
}

-- `PrunePack::set_todo`
unfoldable pub set_todo :
    PrunePack → PackToDo → PackInfo → StatusSet → PruneStats → PrunePack × PruneStats
set_todo p todo pi status s = (
  record p { to_do = todo },
  count_todo p todo pi (record s { debug = add_debug s.debug pi todo status }),
)
