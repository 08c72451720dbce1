-- ===== src/Prune/Used.antt =====
-- `PackInfo` of crates/core/src/commands/prune.rs, and the counters of the used blobs.
pub mod Marks
pub mod Needed
pub mod Domain
use rustic_core.Base.{
  ℕ, zero, suc, ◌-◌, Bool, true, false, Option, none, some, List, [], ◌∷◌, ◌++◌, ltb, ◌==◌,
  if◌then◌else◌, Result, ok, err, internal,
}
use rustic_core.Base.Word.{add_u16, sub_u16, add_u32, sub_u32, saturating_inc_u8}
use rustic_core.Base.AssocMap.{Map, get, update}
use rustic_core.Blob.{BlobType, tree_blob, data_blob}
use rustic_core.PackFile.{IndexBlob}
use rustic_core.Prune.{PrunePack}

pub record PackInfo : Type 0 where
  pub blob_type : BlobType
  pub used_blobs : ℕ
  pub unused_blobs : ℕ
  pub used_size : ℕ
  pub unused_size : ℕ

unfoldable pub add_unused : PackInfo → ℕ → PackInfo
add_unused pi len = record pi {
  unused_size = add_u32 pi.unused_size len;
  unused_blobs = add_u16 pi.unused_blobs 1;
}

unfoldable pub add_used : PackInfo → ℕ → PackInfo
add_used pi len = record pi {
  used_size = add_u32 pi.used_size len;
  used_blobs = add_u16 pi.used_blobs 1;
}

-- A blob that was counted as unused is counted as used.
unfoldable pub remark : PackInfo → ℕ → PackInfo
remark pi len = record pi {
  unused_size = sub_u32 pi.unused_size len;
  unused_blobs = sub_u16 pi.unused_blobs 1;
  used_size = add_u32 pi.used_size len;
  used_blobs = add_u16 pi.used_blobs 1;
}

-- The state of `from_pack`: the information so far and the counters.
abbrev pub Marking : Type 0
Marking = PackInfo × Map ℕ

-- `position`: the blobs before the first needed one with those after it, if there is one.
abbrev pub Search : Type 0
Search = Option (List IndexBlob × List IndexBlob) × Marking

unfoldable pub found_after : IndexBlob → Search → Search
found_after blob (none, st) = (none, st)
found_after blob (some (before, after), st) = (some (blob ∷ before, after), st)

unfoldable pub find_needed : List IndexBlob → Marking → Search
unfolding found_after add_unused add_used
find_needed [] st = (none, st)
find_needed (blob ∷ blobs) (pi, used_ids) =
    let len = blob.location.length in
    let unused = found_after blob (find_needed blobs (add_unused pi len, used_ids)) in
    elim (get used_ids blob.id) [
      | none ↦ unused
      | some zero ↦ unused
      | some (suc zero) ↦ (some ([], blobs), (add_used pi len, update used_ids blob.id 0))
      | some (suc (suc c)) ↦
          found_after blob (find_needed blobs (add_unused pi len, update used_ids blob.id (suc c)))
    ]

-- The blobs up to the first needed one are processed again.
unfoldable pub remark_before : List IndexBlob → Marking → Marking
unfolding remark
remark_before [] st = st
remark_before (blob ∷ blobs) (pi, used_ids) = elim (get used_ids blob.id) [
  | none ↦ remark_before blobs (pi, used_ids)
  | some zero ↦ remark_before blobs (pi, used_ids)
  | some (suc c) ↦ remark_before blobs (remark pi blob.location.length, update used_ids blob.id 0)
]

unfoldable pub mark_after : List IndexBlob → Marking → Marking
unfolding add_unused add_used
mark_after [] st = st
mark_after (blob ∷ blobs) (pi, used_ids) = elim (get used_ids blob.id) [
  | none ↦ mark_after blobs (add_unused pi blob.location.length, used_ids)
  | some zero ↦ mark_after blobs (add_unused pi blob.location.length, used_ids)
  | some (suc c) ↦ mark_after blobs (add_used pi blob.location.length, update used_ids blob.id 0)
]

abbrev pub no_info : BlobType → PackInfo
no_info t = record {
  blob_type = t;
  used_blobs = 0;
  unused_blobs = 0;
  used_size = 0;
  unused_size = 0;
}

abbrev pub reprocess : Search → Marking
reprocess (none, st) = st
reprocess (some (before, after), st) = mark_after after (remark_before before st)

-- `PackInfo::from_pack`
unfoldable pub from_pack : PrunePack → Map ℕ → Marking
from_pack pack used_ids = reprocess (find_needed pack.blobs (no_info pack.blob_type, used_ids))

-- `PrunePlan::count_used_blobs`, over the blobs of all packs in order.
unfoldable pub count_used_blobs : List IndexBlob → Map ℕ → Map ℕ
count_used_blobs [] used_ids = used_ids
count_used_blobs (blob ∷ blobs) used_ids = elim (get used_ids blob.id) [
  | none ↦ count_used_blobs blobs used_ids
  | some c ↦ count_used_blobs blobs (update used_ids blob.id (saturating_inc_u8 c))
]

-- `PrunePlan::check`
unfoldable pub check : Map ℕ → Result (Unit {0})
check [] = ok tt
check ((id, c) ∷ used_ids) = if c == 0 then err internal else check used_ids
