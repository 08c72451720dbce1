-- ===== src/Prune/Plan.antt =====
-- `PrunePlan::decide_packs` of crates/core/src/commands/prune.rs: the loops over the packs.
use rustic_core.Base.{ℕ, suc, Bool, true, false, not, List, [], ◌∷◌, ◌++◌, if◌then◌else◌}
use rustic_core.Snapshot.{Jiff}
use rustic_core.PackFile.{IndexBlob}
use rustic_core.Prune.{PrunePack, PruneIndex}
use rustic_core.Prune.Decide.{Deciding, DecideOptions, decide_pack}

-- `self.index_files.iter().flat_map(|index| &index.packs)`
unfoldable pub all_packs : List PruneIndex → List PrunePack
all_packs [] = []
all_packs (index ∷ indexes) = index.packs ++ all_packs indexes

-- `.flat_map(|pack| &pack.blobs)`
unfoldable pub all_blobs : List PrunePack → List IndexBlob
all_blobs [] = []
all_blobs (p ∷ packs) = p.blobs ++ all_blobs packs

-- `p.delete_mark == mark_case`
abbrev pub is_case : Bool → PrunePack → Bool
is_case true p = p.delete_mark
is_case false p = not p.delete_mark

module _ {Zoned Span : Type 0} (j : Jiff Zoned Span) (integer_sqrt : ℕ → ℕ) (now : Zoned)
    (o : DecideOptions Span) where
  unfoldable pub decide_pack_list :
      Bool → List PrunePack → ℕ → ℕ → Deciding → List PrunePack × Deciding
  decide_pack_list mark_case [] index_num pack_num st = ([], st)
  decide_pack_list mark_case (p ∷ packs) index_num pack_num st =
      let d =
        if is_case mark_case p
        then decide_pack j integer_sqrt now o p index_num pack_num st
        else (p, st) in
      let rest = decide_pack_list mark_case packs index_num (suc pack_num) d.1 in
      (d.0 ∷ rest.0, rest.1)

  unfoldable pub decide_indexes : Bool → List PruneIndex → ℕ → Deciding → List PruneIndex × Deciding
  decide_indexes mark_case [] index_num st = ([], st)
  decide_indexes mark_case (index ∷ indexes) index_num st =
      let d = decide_pack_list mark_case index.packs index_num 0 st in
      let rest = decide_indexes mark_case indexes (suc index_num) d.1 in
      (record index { packs = d.0 } ∷ rest.0, rest.1)

  -- `PrunePlan::decide_packs`: first the marked packs, then the others.
  unfoldable pub decide_packs : List PruneIndex → Deciding → List PruneIndex × Deciding
  decide_packs indexes st =
      let d = decide_indexes true indexes 0 st in decide_indexes false d.0 0 d.1
