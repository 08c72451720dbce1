-- ===== src/Prune.antt =====
-- crates/core/src/commands/prune.rs: which packs are kept, repacked, marked or deleted. Here stand
-- the types and the conversions of packs.
pub mod Stats
pub mod Todo
pub mod Used
pub mod Decide
pub mod New
pub mod Plan
pub mod Repack
pub mod Check
pub mod Run
pub mod Whole
pub mod Safe
pub mod Retained
pub mod Complete
pub mod Execute
mod Tests
use rustic_core.Base.{
  ℕ, Bool, true, false, Option, none, some, List, [], ◌∷◌, all, sum_by, length, is_some, ◌==◌,
}
use rustic_core.Base.AssocMap.{Map}
use rustic_core.Blob.{BlobType, BlobLocation}
use rustic_core.PackFile.{IndexBlob, IndexPack, blob_type, index_pack_size}

pub data LimitOption : Type 0 where
  size percentage : ℕ → LimitOption
  unlimited : LimitOption

pub record PruneOptions (Span : Type 0) : Type 0 where
  pub max_repack : LimitOption
  pub max_unused : LimitOption
  pub keep_pack : Span
  pub keep_delete : Span
  pub instant_delete : Bool
  pub early_delete_index : Bool
  pub fast_repack : Bool
  pub repack_uncompressed : Bool
  pub repack_all : Bool
  pub repack_cacheable_only : Option Bool
  pub no_resize : Bool
  pub ignore_snaps : List ℕ

pub data PackStatus : Type 0 where
  not_compressed too_young time_not_set too_large too_small : PackStatus
  has_unused_blobs has_used_blobs marked : PackStatus

pub data PackToDo : Type 0 where
  undecided keep repack mark_delete keep_marked keep_marked_and_correct recover delete : PackToDo

pub data RepackReason : Type 0 where
  partly_used to_compress size_mismatch : RepackReason

abbrev todo_number : PackToDo → ℕ
todo_number PackToDo.undecided = 0
todo_number PackToDo.keep = 1
todo_number PackToDo.repack = 2
todo_number PackToDo.mark_delete = 3
todo_number PackToDo.keep_marked = 4
todo_number PackToDo.keep_marked_and_correct = 5
todo_number PackToDo.recover = 6
todo_number PackToDo.delete = 7

-- The derived equality.
abbrev pub same_todo : PackToDo → PackToDo → Bool
same_todo a b = todo_number a == todo_number b

pub record PrunePack : Type 0 where
  pub id : ℕ
  pub blob_type : BlobType
  pub size : ℕ
  pub delete_mark : Bool
  pub to_do : PackToDo
  pub time : Option ℕ
  pub blobs : List IndexBlob

unfoldable pub from_index_pack : IndexPack → Bool → PrunePack
from_index_pack p delete_mark = record {
  id = p.id;
  blob_type = blob_type p;
  size = index_pack_size p;
  delete_mark = delete_mark;
  to_do = PackToDo.undecided;
  time = p.time;
  blobs = p.blobs;
}

-- `self.time.or(Some(time))`
time_or : Option ℕ → ℕ → Option ℕ
time_or none t = some t
time_or (some s) t = some s

unfoldable pub into_index_pack : PrunePack → ℕ → IndexPack
unfolding time_or
into_index_pack p t = record { id = p.id; time = time_or p.time t; size = none; blobs = p.blobs }

unfoldable pub into_index_pack_with_time : PrunePack → ℕ → IndexPack
into_index_pack_with_time p t = record { id = p.id; time = some t; size = none; blobs = p.blobs }

unfoldable pub is_compressed : PrunePack → Bool
is_compressed p = all (λ b. is_some b.location.uncompressed_length) p.blobs

pub record PruneIndex : Type 0 where
  pub id : ℕ
  pub modified : Bool
  pub packs : List PrunePack

-- `PruneIndex::len`
unfoldable pub index_length : PruneIndex → ℕ
index_length index = sum_by (λ p. length p.blobs) index.packs
