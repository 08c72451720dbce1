-- ===== src/Prune/Safe/Repacked.antt =====
-- `decide_repack` gives up no pack.
use rustic_core.Base.{
  ℕ, zero, suc, ◌≡◌, Bool, true, some, List, [], ◌∷◌, any, any-append, arith, refl,
}
use rustic_core.Blob.{BlobTypeMap}
use rustic_core.Packer.Sizer.{PackSizer}
use rustic_core.Prune.{PrunePack, PruneIndex, PackToDo, LimitOption}
use rustic_core.Prune.Stats.{PruneStats}
use rustic_core.Prune.Todo.{set_todo}
use rustic_core.Prune.Decide.{Candidate}
use rustic_core.Prune.Plan.{all_packs}
use rustic_core.Prune.Repack.{Planned, set_at_pack, set_at, decide_repack}
use rustic_core.Prune.Repack.Invariant.{decide_repack-kept, is_repack_todo}
use rustic_core.Prune.Safe.{keeps, spares}

-- Some pack of the plan keeps the blob.
abbrev pub planned_keeps : ℕ → Planned → Bool
planned_keeps id planned = any (keeps id) (all_packs planned.0)

set_at_pack-keeps :
    (todo : PackToDo) (c : Candidate) (n id : ℕ) (packs : List PrunePack) (s : PruneStats)
    → spares todo ≡ true
    → any (keeps id) packs ≡ true
    → any (keeps id) (set_at_pack todo c n packs s).0 ≡ true
unfolding set_at_pack set_todo
set_at_pack-keeps todo c n id [] s h k = k
set_at_pack-keeps todo c zero id (p ∷ packs) s h k = ground arith
set_at_pack-keeps todo c (suc n) id (p ∷ packs) s h k =
    ground (arith, set_at_pack-keeps todo c n id packs s h)

set_at-keeps :
    (todo : PackToDo) (c : Candidate) (n id : ℕ) (indexes : List PruneIndex) (s : PruneStats)
    → spares todo ≡ true
    → planned_keeps id (indexes, s) ≡ true
    → planned_keeps id (set_at todo c n (indexes, s)) ≡ true
unfolding set_at all_packs
set_at-keeps todo c n id [] s h k = k
set_at-keeps todo c zero id (index ∷ indexes) s h k =
    let r = (set_at_pack todo c c.pack_num index.packs s).0 in
    let a = any-append (keeps id) index.packs (all_packs indexes) in
    let b = any-append (keeps id) r (all_packs indexes) in
    let e = set_at_pack-keeps todo c c.pack_num id index.packs s h in ground arith
set_at-keeps todo c (suc n) id (index ∷ indexes) s h k =
    let r = (set_at todo c n (indexes, s)).0 in
    let a = any-append (keeps id) index.packs (all_packs indexes) in
    let b = any-append (keeps id) index.packs (all_packs r) in
    let e = set_at-keeps todo c n id indexes s h in ground arith

module _ (integer_sqrt : ℕ → ℕ) (pack_sizer : BlobTypeMap PackSizer) where
  set_at-planned_keeps :
      (id : ℕ) (todo : PackToDo) (c : Candidate) (planned : Planned)
      → is_repack_todo todo ≡ true
      → planned_keeps id planned ≡ true
      → planned_keeps id (set_at todo c c.index_num planned) ≡ true
  set_at-planned_keeps id PackToDo.keep c (indexes, s) h k =
      set_at-keeps PackToDo.keep c c.index_num id indexes s refl k
  set_at-planned_keeps id PackToDo.repack c (indexes, s) h k =
      set_at-keeps PackToDo.repack c c.index_num id indexes s refl k
  set_at-planned_keeps id _ c (indexes, s) h k = absurd (ground arith)

  -- A blob that a pack keeps before `decide_repack` is kept by one afterwards.
  pub decide_repack-keeps :
      (max_repack max_unused : LimitOption) (uncompressed no_resize : Bool) (cs : List Candidate)
      (planned r : Planned) (id : ℕ)
      → decide_repack integer_sqrt pack_sizer max_repack max_unused uncompressed no_resize cs
          planned
        ≡ some r
      → planned_keeps id planned ≡ true
      → planned_keeps id r ≡ true
  decide_repack-keeps max_repack max_unused uncompressed no_resize cs planned r id =
      decide_repack-kept (λ q. planned_keeps id q ≡ true) (set_at-planned_keeps id) integer_sqrt
        pack_sizer max_repack max_unused uncompressed no_resize cs planned r
