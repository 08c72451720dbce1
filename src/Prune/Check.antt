-- ===== src/Prune/Check.antt =====
-- `PrunePlan::check_existing_packs`, `filter_index_files` and `repack_packs` of
-- crates/core/src/commands/prune.rs, and the plan that they are steps of.
use rustic_core.Base.{
  ℕ, Bool, false, not, ◌&&◌, ◌||◌, Option, none, some, List, [], ◌∷◌, map, length, any, ltb, ◌==◌,
  if◌then◌else◌, Result, ok, err, internal, ◌>>=◌, true,
}
use rustic_core.Base.Word.{add_u64}
use rustic_core.Base.AssocMap.{Map, get, remove}
use rustic_core.PackFile.{IndexBlob}
use rustic_core.Prune.{PackToDo, PrunePack, PruneIndex, same_todo, index_length}
use rustic_core.Prune.Stats.{PruneStats}
use rustic_core.Prune.Plan.{all_packs}

-- The index files with less blobs are rebuilt.
abbrev pub min_index_len : ℕ
min_index_len = 10_000

-- The used ids and the existing packs.
abbrev pub Checked : Type 0
Checked = Map ℕ × Map ℕ

unfoldable pub remove_blobs : List IndexBlob → Map ℕ → Map ℕ
remove_blobs [] used_ids = used_ids
remove_blobs (b ∷ blobs) used_ids = remove_blobs blobs (remove used_ids b.id)

unfoldable pub size_matches : Option ℕ → ℕ → Bool
size_matches none size = false
size_matches (some n) size = n == size

-- The arms of the match on the task; the second argument is whether `check_size` succeeds.
unfoldable pub check_todo : PackToDo → Bool → List IndexBlob → Checked → Result Checked
check_todo PackToDo.undecided sized blobs st = err internal
check_todo PackToDo.keep true blobs st = ok (remove_blobs blobs st.0, st.1)
check_todo PackToDo.keep false blobs st = err internal
check_todo PackToDo.recover true blobs st = ok (remove_blobs blobs st.0, st.1)
check_todo PackToDo.recover false blobs st = err internal
check_todo PackToDo.repack true blobs st = ok st
check_todo PackToDo.repack false blobs st = err internal
check_todo PackToDo.mark_delete sized blobs st = ok st
check_todo PackToDo.delete sized blobs st = ok st
check_todo PackToDo.keep_marked sized blobs st = ok st
check_todo PackToDo.keep_marked_and_correct sized blobs st = ok st

-- The decision on a pack is checked.
unfoldable pub check_pack : PrunePack → Checked → Result Checked
unfolding size_matches
check_pack p (used_ids, existing) =
    check_todo p.to_do (size_matches (get existing p.id) p.size) p.blobs
      (used_ids, remove existing p.id)

unfoldable pub check_packs : List PrunePack → Checked → Result Checked
check_packs [] st = ok st
check_packs (p ∷ packs) st = check_pack p st >>= check_packs packs

add_sizes_of : Map ℕ → ℕ → ℕ
add_sizes_of [] n = n
add_sizes_of ((id, size) ∷ rest) n = add_sizes_of rest (add_u64 n size)

unfoldable pub check_existing_packs :
    List PruneIndex → Checked → PruneStats → Result (Checked × PruneStats)
unfolding add_sizes_of
check_existing_packs indexes st s = check_packs (all_packs indexes) st >>= λ r.
    ok (r, record s { size_unref = add_sizes_of r.1 s.size_unref; packs_unref = length r.1 })

-- The index file is changed by the plan.
unfoldable pub must_modify : Bool → PruneIndex → Bool
must_modify instant_delete index =
    index.modified
    || any
        (λ p.
          not (same_todo p.to_do PackToDo.keep)
          && (instant_delete || not (same_todo p.to_do PackToDo.keep_marked)))
        index.packs

unfoldable pub needs_processing : Bool → PruneIndex → Bool
unfolding must_modify
needs_processing instant_delete index =
    must_modify instant_delete index || ltb (index_length index) min_index_len

unfoldable pub retain_indexes : Bool → List PruneIndex → List PruneIndex
unfolding needs_processing
retain_indexes instant_delete [] = []
retain_indexes instant_delete (index ∷ indexes) =
    let rest = retain_indexes instant_delete indexes in
    if needs_processing instant_delete index then index ∷ rest else rest

unfoldable pub filter_index_files :
    Bool → List PruneIndex → PruneStats → List PruneIndex × PruneStats
unfolding retain_indexes
filter_index_files instant_delete indexes s =
    let kept = retain_indexes instant_delete indexes in
    let result =
      if not (any (must_modify instant_delete) indexes) && length kept == 1 then [] else kept in
    (result, record s { index_files = length indexes; index_files_rebuild = length result })

retain_repack : List PrunePack → List PrunePack
retain_repack [] = []
retain_repack (p ∷ packs) =
    let rest = retain_repack packs in if same_todo p.to_do PackToDo.repack then p ∷ rest else rest

-- `PrunePlan::repack_packs`
unfoldable pub repack_packs : List PruneIndex → List ℕ
unfolding retain_repack
repack_packs indexes = map (λ p. p.id) (retain_repack (all_packs indexes))
