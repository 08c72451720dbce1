-- ===== src/Prune/Repack.antt =====
-- `PrunePlan::decide_repack` of crates/core/src/commands/prune.rs. The candidates are sorted by an
-- order in which equal ones keep their order. A division by zero is the result `none`.
pub mod Invariant
use rustic_core.Base.{
  ℕ, zero, suc, ◌/◌, Bool, true, false, ◌&&◌, ◌||◌, Option, none, some, List, [], ◌∷◌, ◌++◌, ltb,
  leb, ◌==◌, if◌then◌else◌, ◌*◌,
}
use rustic_core.Base.Word.{add_u64, mul_u64, sub_u64, u64_max}
use rustic_core.Base.Sorting.{sort_by}
use rustic_core.Blob.{BlobType, BlobTypeMap, tree_blob, data_blob, at, put, init}
use rustic_core.Packer.Sizer.{PackSizer, pack_size}
use rustic_core.Prune.{LimitOption, PackToDo, RepackReason, PrunePack, PruneIndex}
use rustic_core.Prune.Used.{PackInfo}
use rustic_core.Prune.Stats.{PruneStats, size_sum, total, unused_after_prune}
use rustic_core.Prune.Todo.{set_todo}
use rustic_core.Prune.Decide.{Candidate}

-- `PackInfo::cmp` is `Less`: first the trees, then the highest ratio of unused to used sizes.
unfoldable pub info_less : PackInfo → PackInfo → Bool
info_less a b = less a.blob_type b.blob_type
  where
    ratio : Bool
    ratio = ltb (b.unused_size * a.used_size) (a.unused_size * b.used_size)

    less : BlobType → BlobType → Bool
    less tree_blob data_blob = true
    less data_blob tree_blob = false
    less _ _ = ratio

-- The size of unused blobs that is tolerated.
unfoldable pub unused_limit : Bool → LimitOption → PruneStats → Option ℕ
unfolding size_sum
unused_limit true limit s = some 0
unused_limit false LimitOption.unlimited s = some u64_max
unused_limit false (LimitOption.size n) s = some n
unused_limit false (LimitOption.percentage p) s =
    if sub_u64 100 p == 0 then none else some (mul_u64 p (size_sum s).used / sub_u64 100 p)

-- The size that is repacked at most.
unfoldable pub repack_limit : LimitOption → PruneStats → ℕ
unfolding size_sum total
repack_limit LimitOption.unlimited s = u64_max
repack_limit (LimitOption.size n) s = n
repack_limit (LimitOption.percentage p) s = mul_u64 p (total (size_sum s)) / 100

-- The packs and the statistics of a plan.
abbrev pub Planned : Type 0
Planned = List PruneIndex × PruneStats

unfoldable pub set_at_pack :
    PackToDo → Candidate → ℕ → List PrunePack → PruneStats → List PrunePack × PruneStats
unfolding set_todo
set_at_pack todo c n [] s = ([], s)
set_at_pack todo c zero (p ∷ packs) s =
    let r = set_todo p todo c.pi c.status s in (r.0 ∷ packs, r.1)
set_at_pack todo c (suc n) (p ∷ packs) s = let r = set_at_pack todo c n packs s in (p ∷ r.0, r.1)

-- `self.index_files[index_num].packs[pack_num].set_todo(..)`
unfoldable pub set_at : PackToDo → Candidate → ℕ → Planned → Planned
unfolding set_at_pack
set_at todo c n ([], s) = ([], s)
set_at todo c zero (index ∷ indexes, s) =
    let r = set_at_pack todo c c.pack_num index.packs s in
    (record index { packs = r.0 } ∷ indexes, r.1)
set_at todo c (suc n) (index ∷ indexes, s) =
    let r = set_at todo c n (indexes, s) in (index ∷ r.0, r.1)

-- The state of the loop over the candidates.
pub record Repacking : Type 0 where
  pub planned : Planned
  pub resize_packs : BlobTypeMap (List Candidate)
  pub do_repack : BlobTypeMap Bool
  pub repack_size : BlobTypeMap ℕ

is_partly_used : RepackReason → Bool
is_partly_used RepackReason.partly_used = true
is_partly_used _ = false

unfoldable pub is_size_mismatch : RepackReason → Bool
is_size_mismatch RepackReason.size_mismatch = true
is_size_mismatch _ = false

is_data : BlobType → Bool
is_data tree_blob = false
is_data data_blob = true

-- Whether a candidate is kept as it is.
unfoldable pub stays : ℕ → ℕ → Bool → Repacking → Candidate → Bool
unfolding size_sum unused_after_prune is_partly_used is_size_mismatch is_data
stays max_repack max_unused no_resize st c =
    leb max_repack (add_u64 (add_u64 st.repack_size.tree st.repack_size.content) c.pi.used_size)
    || (ltb (unused_after_prune (size_sum st.planned.1)) max_unused
        && is_partly_used c.reason
        && is_data c.pi.blob_type)
    || (is_size_mismatch c.reason && no_resize)

unfoldable pub grow_repack : Candidate → Repacking → Repacking
grow_repack c st = record st {
  repack_size =
      put st.repack_size c.pi.blob_type (add_u64 (at st.repack_size c.pi.blob_type) c.pi.used_size);
}

-- The body of the loop over the candidates.
unfoldable pub repack_step : ℕ → ℕ → Bool → Candidate → Repacking → Repacking
unfolding grow_repack is_size_mismatch
repack_step max_repack max_unused no_resize c st =
    if stays max_repack max_unused no_resize st c
    then record st { planned = set_at PackToDo.keep c c.index_num st.planned }
    else if is_size_mismatch c.reason
    then grow_repack c (record st {
      resize_packs =
          put st.resize_packs c.pi.blob_type (at st.resize_packs c.pi.blob_type ++ c ∷ []);
    })
    else grow_repack c (record st {
      planned = set_at PackToDo.repack c c.index_num st.planned;
      do_repack = put st.do_repack c.pi.blob_type true;
    })

unfoldable pub repack_loop : ℕ → ℕ → Bool → List Candidate → Repacking → Repacking
repack_loop max_repack max_unused no_resize [] st = st
repack_loop max_repack max_unused no_resize (c ∷ cs) st =
    repack_loop max_repack max_unused no_resize cs
      (repack_step max_repack max_unused no_resize c st)

unfoldable pub set_all : PackToDo → List Candidate → Planned → Planned
set_all todo [] planned = planned
set_all todo (c ∷ cs) planned = set_all todo cs (set_at todo c c.index_num planned)

module _ (integer_sqrt : ℕ → ℕ) (pack_sizer : BlobTypeMap PackSizer) where
  -- What is done with the packs that only need another size.
  unfoldable pub resize_todo : Repacking → BlobType → PackToDo
  resize_todo st t =
      if at st.do_repack t || ltb (pack_size integer_sqrt (at pack_sizer t)) (at st.repack_size t)
      then PackToDo.repack
      else PackToDo.keep

  unfoldable pub first_state : Planned → Repacking
  first_state planned = record {
    planned = planned;
    resize_packs = init (λ t. []);
    do_repack = init (λ t. false);
    repack_size = init (λ t. 0);
  }

  -- The loops, with the limits.
  unfoldable pub repack_candidates : ℕ → ℕ → Bool → List Candidate → Planned → Planned
  unfolding first_state
  repack_candidates max_repack max_unused no_resize candidates planned =
      let st =
        repack_loop max_repack max_unused no_resize
          (sort_by (λ a b. info_less a.pi b.pi) candidates) (first_state planned) in
      set_all (resize_todo st data_blob) st.resize_packs.content
        (set_all (resize_todo st tree_blob) st.resize_packs.tree st.planned)

  unfoldable pub decide_repack :
      LimitOption → LimitOption → Bool → Bool → List Candidate → Planned → Option Planned
  decide_repack max_repack max_unused repack_uncompressed no_resize candidates planned =
      elim (unused_limit repack_uncompressed max_unused planned.1) [
        | none ↦ none
        | some unused ↦ some (
            repack_candidates (repack_limit max_repack planned.1) unused no_resize candidates
              planned)
      ]
