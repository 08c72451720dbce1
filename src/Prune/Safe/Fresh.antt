-- ===== src/Prune/Safe/Fresh.antt =====
-- No task is set for a pack of a new plan.
use rustic_core.Base.{
  ℕ, ◌<◌, ◌≡◌, Bool, true, false, not, List, [], ◌∷◌, ◌++◌, refl, All, All-append, All-left,
  All-right, length, map, Bool-cases, inl, inr,
}
use rustic_core.Base.Word.{u16_mod}
use rustic_core.PackFile.{IndexFile, IndexPack}
use rustic_core.Prune.{PrunePack, PruneIndex, from_index_pack}
use rustic_core.Prune.New.{
  unprocessed, read_indexes, retain, drop_recorded, new_indexes, has_id, Processed, is_recorded,
}
use rustic_core.Prune.Plan.{all_packs}
use rustic_core.Prune.Safe.{spares, IsFresh}

abbrev IsUnset : PrunePack → Type 0
IsUnset p = spares p.to_do ≡ true

unprocessed-IsUnset :
    (mark : Bool) (packs : List IndexPack) (ids : List ℕ)
    → All IsUnset (unprocessed mark packs ids).0
unfolding unprocessed from_index_pack
unprocessed-IsUnset mark [] ids = tt
unprocessed-IsUnset mark (p ∷ packs) ids =
    let a = unprocessed-IsUnset mark packs ids in
    let b = unprocessed-IsUnset mark packs (p.id ∷ ids) in
    elim (Bool-cases (has_id ids p.id)) [ inl h ↦ rw h a | inr h ↦ rw h (refl, b) ]

read_indexes-IsUnset :
    (files : List (ℕ × IndexFile)) (ids : Processed)
    → All IsUnset (all_packs (read_indexes files ids).0)
unfolding read_indexes all_packs
read_indexes-IsUnset [] ids = tt
read_indexes-IsUnset ((id, index) ∷ files) (ids, marked_ids) =
    let a = unprocessed false index.packs ids in
    let b = unprocessed true index.packs_to_delete marked_ids in
    All-append IsUnset (a.0 ++ b.0) _
      (All-append IsUnset a.0 b.0 (unprocessed-IsUnset false index.packs ids)
        (unprocessed-IsUnset true index.packs_to_delete marked_ids))
      (read_indexes-IsUnset files (a.1, b.1))

retain-All :
    (f : PrunePack → Bool) (packs : List PrunePack)
    → All IsUnset packs
    → All IsUnset (retain f packs)
unfolding retain
retain-All f [] h = tt
retain-All f (p ∷ packs) h =
    let a = retain-All f packs h.1 in
    elim (Bool-cases (f p)) [ inl e ↦ rw e (h.0, a) | inr e ↦ rw e a ]

drop_recorded-IsUnset :
    (ids : List ℕ) (indexes : List PruneIndex)
    → All IsUnset (all_packs indexes)
    → All IsUnset (all_packs (map (drop_recorded ids) indexes))
unfolding drop_recorded all_packs
drop_recorded-IsUnset ids [] h = tt
drop_recorded-IsUnset ids (index ∷ indexes) h =
    All-append IsUnset (retain (λ p. not (is_recorded ids p)) index.packs) _
      (retain-All _ index.packs (All-left IsUnset index.packs (all_packs indexes) h))
      (drop_recorded-IsUnset ids indexes (All-right IsUnset index.packs (all_packs indexes) h))

both :
    (b : Bool) (packs : List PrunePack)
    → All (λ (p : PrunePack). length p.blobs < u16_mod) packs
    → All IsUnset packs
    → All (IsFresh b) packs
both b [] h k = tt
both b (p ∷ packs) h k = ((h.0, λ e. k.0), both b packs h.1 k.1)

pub new_indexes-IsFresh :
    (b : Bool) (files : List (ℕ × IndexFile))
    → All (λ (p : PrunePack). length p.blobs < u16_mod) (all_packs (new_indexes files))
    → All (IsFresh b) (all_packs (new_indexes files))
unfolding new_indexes
new_indexes-IsFresh b files h =
    let r = read_indexes files ([], []) in
    both b (all_packs (map (drop_recorded r.1.0) r.0)) h
      (drop_recorded-IsUnset r.1.0 r.0 (read_indexes-IsUnset files ([], [])))
