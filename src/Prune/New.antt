-- ===== src/Prune/New.antt =====
-- `PrunePlan::new` of crates/core/src/commands/prune.rs: the packs of the index files, every pack
-- once. The sets of processed packs are lists of ids.
use rustic_core.Base.{
  ℕ, Bool, true, false, not, ◌&&◌, ◌||◌, List, [], ◌∷◌, ◌++◌, any, map, ◌==◌, if◌then◌else◌,
}
use rustic_core.PackFile.{IndexPack, IndexFile}
use rustic_core.Prune.{PrunePack, PruneIndex, from_index_pack}

abbrev pub has_id : List ℕ → ℕ → Bool
has_id ids id = any (λ i. i == id) ids

-- What a filter keeps, the ids that are processed afterwards and whether it dropped a pack.
abbrev pub Filtered : Type 0
Filtered = List PrunePack × List ℕ × Bool

-- `filter` with `insert` into the processed ids, and the conversion of what remains.
unfoldable pub unprocessed : Bool → List IndexPack → List ℕ → Filtered
unprocessed mark [] ids = ([], ids, false)
unprocessed mark (p ∷ packs) ids =
    let dropped = unprocessed mark packs ids in
    let kept = unprocessed mark packs (p.id ∷ ids) in
    if has_id ids p.id
    then (dropped.0, dropped.1, true)
    else (from_index_pack p mark ∷ kept.0, kept.1, kept.2)

-- The processed packs and those that are processed as marked.
abbrev pub Processed : Type 0
Processed = List ℕ × List ℕ

unfoldable pub read_indexes : List (ℕ × IndexFile) → Processed → List PruneIndex × Processed
unfolding unprocessed
read_indexes [] ids = ([], ids)
read_indexes ((id, index) ∷ files) (ids, marked_ids) =
    let (packs, ids', m) = unprocessed false index.packs ids in
    let (marked_packs, marked_ids', m') = unprocessed true index.packs_to_delete marked_ids in
    let (rest, processed) = read_indexes files (ids', marked_ids') in
    (record { id = id; modified = m || m'; packs = packs ++ marked_packs } ∷ rest, processed)

-- A marked pack that is also indexed normally.
unfoldable pub is_recorded : List ℕ → PrunePack → Bool
is_recorded ids p = p.delete_mark && has_id ids p.id

unfoldable pub retain : (PrunePack → Bool) → List PrunePack → List PrunePack
retain f [] = []
retain f (p ∷ packs) = let rest = retain f packs in if f p then p ∷ rest else rest

unfoldable pub drop_recorded : List ℕ → PruneIndex → PruneIndex
unfolding is_recorded retain
drop_recorded ids index = record index {
  packs = retain (λ p. not (is_recorded ids p)) index.packs;
  modified = index.modified || any (is_recorded ids) index.packs;
}

-- The index files of `PrunePlan::new`.
unfoldable pub new_indexes : List (ℕ × IndexFile) → List PruneIndex
unfolding drop_recorded
new_indexes files =
    let (indexes, processed) = read_indexes files ([], []) in
    map (drop_recorded processed.0) indexes
