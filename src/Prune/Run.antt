-- ===== src/Prune/Run.antt =====
-- The loop of `prune_repository` in crates/core/src/commands/prune.rs that carries out the decisions.
use rustic_core.Base.{
  ℕ, Bool, true, false, List, [], ◌∷◌, ◌++◌, ltb, if◌then◌else◌, Result, ok, err, internal, ◌>>=◌,
  is_some,
}
use rustic_core.Base.AssocMap.{Map, get, remove}
use rustic_core.Base.Sorting.{sort_by}
use rustic_core.Blob.{tree_blob, data_blob, BlobType}
use rustic_core.PackFile.{IndexBlob, IndexPack}
use rustic_core.Prune.{PackToDo, PrunePack, into_index_pack, into_index_pack_with_time}

-- The packs for the new index, those for its list of packs to delete, the packs to delete at once
-- and the packs to repack. The calls of `add` and `add_remove` on the indexer, which saves an index
-- file now and then, stand in `calls` in their order, with `true` for `add_remove`.
pub record Work : Type 0 where
  pub added : List IndexPack
  pub removed : List IndexPack
  pub tree_packs_remove : List ℕ
  pub data_packs_remove : List ℕ
  pub repack_packs : List PrunePack
  pub used_ids : Map ℕ
  pub calls : List (Bool × IndexPack)

-- `pack.blobs.retain(|blob| used_ids.remove(&blob.id).is_some())`
unfoldable pub retain_used : List IndexBlob → Map ℕ → List IndexBlob × Map ℕ
retain_used [] used_ids = ([], used_ids)
retain_used (b ∷ blobs) used_ids =
    let rest = retain_used blobs (remove used_ids b.id) in
    if is_some (get used_ids b.id) then (b ∷ rest.0, rest.1) else (rest.0, rest.1)

unfoldable pub before : IndexBlob → IndexBlob → Bool
before a b = ltb a.location.offset b.location.offset

unfoldable pub delete_of : BlobType → ℕ → Work → Work
delete_of data_blob id w = record w { data_packs_remove = w.data_packs_remove ++ id ∷ [] }
delete_of tree_blob id w = record w { tree_packs_remove = w.tree_packs_remove ++ id ∷ [] }

unfoldable pub delete_pack : PrunePack → Work → Work
unfolding delete_of
delete_pack p w = delete_of p.blob_type p.id w

unfoldable pub add : IndexPack → Work → Work
add p w = record w { added = w.added ++ p ∷ []; calls = w.calls ++ (false, p) ∷ [] }

unfoldable pub add_remove : IndexPack → Work → Work
add_remove p w = record w { removed = w.removed ++ p ∷ []; calls = w.calls ++ (true, p) ∷ [] }

-- The pack is deleted at once, or it stands in the new index among those to delete.
unfoldable pub dispose : Bool → PrunePack → IndexPack → Work → Work
unfolding delete_pack add_remove
dispose instant_delete p entry w = if instant_delete then delete_pack p w else add_remove entry w

unfoldable pub repack : PrunePack → Work → Work
unfolding before
repack p w =
    let r = retain_used p.blobs w.used_ids in
    record w {
      used_ids = r.1;
      repack_packs = w.repack_packs ++ record p { blobs = sort_by before r.0 } ∷ [];
    }

-- The arms of the match on the task.
unfoldable pub run_todo : PackToDo → Bool → ℕ → PrunePack → Work → Result Work
unfolding delete_pack add dispose repack
run_todo PackToDo.undecided instant_delete prune_time p w = err internal
run_todo PackToDo.keep instant_delete prune_time p w = ok (add (into_index_pack p prune_time) w)
run_todo PackToDo.repack instant_delete prune_time p w =
    ok (repack p (dispose instant_delete p (into_index_pack_with_time p prune_time) w))
run_todo PackToDo.mark_delete instant_delete prune_time p w =
    ok (dispose instant_delete p (into_index_pack_with_time p prune_time) w)
run_todo PackToDo.keep_marked instant_delete prune_time p w =
    ok (dispose instant_delete p (into_index_pack p prune_time) w)
run_todo PackToDo.keep_marked_and_correct instant_delete prune_time p w =
    ok (dispose instant_delete p (into_index_pack p prune_time) w)
run_todo PackToDo.recover instant_delete prune_time p w =
    ok (add (into_index_pack_with_time p prune_time) w)
run_todo PackToDo.delete instant_delete prune_time p w = ok (delete_pack p w)

-- The body of the loop over the packs.
unfoldable pub run_pack : Bool → ℕ → PrunePack → Work → Result Work
run_pack instant_delete prune_time p w = run_todo p.to_do instant_delete prune_time p w

unfoldable pub run_packs : Bool → ℕ → List PrunePack → Work → Result Work
run_packs instant_delete prune_time [] w = ok w
run_packs instant_delete prune_time (p ∷ packs) w =
    run_pack instant_delete prune_time p w >>= run_packs instant_delete prune_time packs
