-- ===== src/Prune/Safe/Ids.antt =====
-- The ids of the index files in a plan of crates/core/src/commands/prune.rs.
use rustic_core.Base.{ℕ, zero, suc, ◌≡◌, Bool, true, false, some, List, [], ◌∷◌, ◌∙◌, map, refl, ap}
use rustic_core.Blob.{BlobTypeMap}
use rustic_core.Snapshot.{Jiff}
use rustic_core.PackFile.{IndexFile}
use rustic_core.Packer.Sizer.{PackSizer}
use rustic_core.Prune.{PruneIndex, PackToDo, LimitOption}
use rustic_core.Prune.New.{Processed, read_indexes, drop_recorded, new_indexes}
use rustic_core.Prune.Decide.{DecideOptions, Deciding, Candidate}
use rustic_core.Prune.Plan.{decide_indexes, decide_packs}
use rustic_core.Prune.Repack.{Planned, set_at, decide_repack}
use rustic_core.Prune.Repack.Invariant.{decide_repack-kept}

abbrev pub ids_of : List PruneIndex → List ℕ
ids_of indexes = map (λ index. index.id) indexes

read_indexes-ids_of :
    (files : List (ℕ × IndexFile)) (ids : Processed)
    → ids_of (read_indexes files ids).0 ≡ map (λ f. f.0) files
unfolding read_indexes
read_indexes-ids_of [] ids = refl
read_indexes-ids_of ((id, index) ∷ files) (ids, marked_ids) =
    ap (λ l. id ∷ l) (read_indexes-ids_of files _)

map-drop_recorded :
    (ids : List ℕ) (indexes : List PruneIndex)
    → ids_of (map (drop_recorded ids) indexes) ≡ ids_of indexes
unfolding drop_recorded
map-drop_recorded ids [] = refl
map-drop_recorded ids (index ∷ indexes) = ap (λ l. index.id ∷ l) (map-drop_recorded ids indexes)

pub new_indexes-ids_of :
    (files : List (ℕ × IndexFile)) → ids_of (new_indexes files) ≡ map (λ f. f.0) files
unfolding new_indexes
new_indexes-ids_of files = map-drop_recorded _ _ ∙ read_indexes-ids_of files ([], [])

module _ {Zoned Span : Type 0} (j : Jiff Zoned Span) (integer_sqrt : ℕ → ℕ) (now : Zoned)
    (o : DecideOptions Span) where
  decide_indexes-ids_of :
      (mark_case : Bool) (indexes : List PruneIndex) (n : ℕ) (st : Deciding)
      → ids_of (decide_indexes j integer_sqrt now o mark_case indexes n st).0 ≡ ids_of indexes
  unfolding decide_indexes
  decide_indexes-ids_of mark_case [] n st = refl
  decide_indexes-ids_of mark_case (index ∷ indexes) n st =
      ap (λ l. index.id ∷ l) (decide_indexes-ids_of mark_case indexes (suc n) _)

  pub decide_packs-ids_of :
      (indexes : List PruneIndex) (st : Deciding)
      → ids_of (decide_packs j integer_sqrt now o indexes st).0 ≡ ids_of indexes
  unfolding decide_packs
  decide_packs-ids_of indexes st =
      decide_indexes-ids_of false _ 0 _ ∙ decide_indexes-ids_of true indexes 0 st

set_at-ids_of :
    (todo : PackToDo) (c : Candidate) (n : ℕ) (planned : Planned)
    → ids_of (set_at todo c n planned).0 ≡ ids_of planned.0
unfolding set_at
set_at-ids_of todo c n ([], s) = refl
set_at-ids_of todo c zero (index ∷ indexes, s) = refl
set_at-ids_of todo c (suc n) (index ∷ indexes, s) =
    ap (λ l. index.id ∷ l) (set_at-ids_of todo c n (indexes, s))

pub decide_repack-ids_of :
    (integer_sqrt : ℕ → ℕ) (pack_sizer : BlobTypeMap PackSizer)
    (max_repack max_unused : LimitOption) (uncompressed no_resize : Bool) (cs : List Candidate)
    (planned r : Planned)
    → decide_repack integer_sqrt pack_sizer max_repack max_unused uncompressed no_resize cs planned
      ≡ some r
    → ids_of r.0 ≡ ids_of planned.0
decide_repack-ids_of integer_sqrt pack_sizer max_repack max_unused uncompressed no_resize cs planned
      r e =
    decide_repack-kept (λ q. ids_of q.0 ≡ ids_of planned.0)
      (λ todo c q h k. set_at-ids_of todo c c.index_num q ∙ k) integer_sqrt pack_sizer max_repack
      max_unused uncompressed no_resize cs planned r e refl
