-- ===== src/Prune/Safe/Lost.antt =====
-- The blobs in use and the packs of a plan of crates/core/src/commands/prune.rs.
use rustic_core.Prune.Safe.Ids.{
  ids_of, new_indexes-ids_of, decide_packs-ids_of, decide_repack-ids_of,
}
use rustic_core.Prune.Safe.Filtered.{AreDistinct}
use rustic_core.Base.{
  map, sym, subst, ℕ, ◌<◌, ◌≡◌, true, false, ◌||◌, some, List, [], refl, any, length, arith, All,
  ok, is_some, ◌∙◌,
}
use rustic_core.Base.Word.{u16_mod}
use rustic_core.Base.AssocMap.{get}
use rustic_core.Blob.{BlobTypeMap}
use rustic_core.Config.{ConfigFile}
use rustic_core.Snapshot.{Jiff}
use rustic_core.Packer.Sizer.{PackSizer}
use rustic_core.Prune.{PrunePack, PruneOptions}
use rustic_core.Prune.Stats.{no_stats}
use rustic_core.Prune.Used.Marks.{used}
use rustic_core.Prune.Used.{check}
use rustic_core.Prune.New.{new_indexes}
use rustic_core.Prune.Plan.{all_packs, all_blobs}
use rustic_core.Prune.Decide.{Deciding}
use rustic_core.Prune.Repack.{Planned}
use rustic_core.Prune.Run.{Work, run_packs}
use rustic_core.Prune.Whole.{
  Contents, PrunePlan, from_prune_options, decided, decided_packs, decide_options, first_work,
}
use rustic_core.Prune.Safe.{keeps}
use rustic_core.Prune.Safe.Counted.{
  count_used_blobs-le, count_used_blobs-some, check-used, held-all_blobs,
}
use rustic_core.Prune.Safe.Planned.{decide_packs-keeps}
use rustic_core.Prune.Safe.Repacked.{decide_repack-keeps}
use rustic_core.Prune.Safe.Keys.{decide_packs-is_key}
use rustic_core.Prune.Safe.Fresh.{new_indexes-IsFresh}
use rustic_core.Prune.Safe.Finished.{Saved, finish_plan-Saved}
use rustic_core.Prune.Safe.Parts.{counted, first_decisions, plan-Parts}

-- No pack has so many blobs that their number overflows.
abbrev pub AreShort : List PrunePack → Type 0
AreShort packs = All (λ (p : PrunePack). length p.blobs < u16_mod) packs

module _ {Zoned Span : Type 0} (j : Jiff Zoned Span) (integer_sqrt : ℕ → ℕ) (now : Zoned)
    (config : ConfigFile) (pack_sizer : BlobTypeMap PackSizer) (o : PruneOptions Span) where
  first_keeps :
      (c : Contents) (id : ℕ)
      → AreShort (all_packs (new_indexes c.index_files))
      → get c.used_ids id ≡ some 0
      → check (counted j integer_sqrt now config pack_sizer o c) ≡ ok tt
      → any (keeps id) (all_packs (first_decisions j integer_sqrt now config pack_sizer o c).0)
        ≡ true
  unfolding decided_packs
  first_keeps c id short zero_count checked =
      let indexes = new_indexes c.index_files in
      let start : Deciding = record {
        used_ids = counted j integer_sqrt now config pack_sizer o c;
        stats = no_stats;
        candidates = [];
      } in
      let some_count : is_some (get c.used_ids id) ≡ true = rw zero_count refl in
      let none_used : used c.used_ids id ≡ 0 = rw zero_count refl in
      let le = count_used_blobs-le (all_blobs (all_packs indexes)) c.used_ids id in
      let total = held-all_blobs (all_packs indexes) id in
      decide_packs-keeps j integer_sqrt now (decide_options j integer_sqrt now config pack_sizer o)
        indexes start id (new_indexes-IsFresh true c.index_files short)
        (new_indexes-IsFresh false c.index_files short)
        (check-used start.used_ids id checked
          (count_used_blobs-some (all_blobs (all_packs indexes)) c.used_ids id some_count))
        (omega arith)

  first_is_key :
      (c : Contents) (id : ℕ)
      → get c.used_ids id ≡ some 0
      → is_some (get (first_decisions j integer_sqrt now config pack_sizer o c).1.used_ids id)
        ≡ true
  unfolding decided_packs
  first_is_key c id zero_count =
      let indexes = new_indexes c.index_files in
      let start : Deciding = record {
        used_ids = counted j integer_sqrt now config pack_sizer o c;
        stats = no_stats;
        candidates = [];
      } in
      let some_count : is_some (get c.used_ids id) ≡ true = rw zero_count refl in
      decide_packs-is_key j integer_sqrt now (decide_options j integer_sqrt now config pack_sizer o)
        id indexes start
      ∙ count_used_blobs-some (all_blobs (all_packs indexes)) c.used_ids id some_count

  decided-ids_of :
      (c : Contents) (planned : Planned)
      → decided j integer_sqrt now config pack_sizer o
          (first_decisions j integer_sqrt now config pack_sizer o c)
        ≡ some planned
      → ids_of planned.0 ≡ map (λ f. f.0) c.index_files
  unfolding decided decided_packs
  decided-ids_of c planned e =
      decide_repack-ids_of integer_sqrt pack_sizer o.max_repack o.max_unused
        (o.repack_uncompressed || o.repack_all) o.no_resize _ _ planned e
      ∙ decide_packs-ids_of j integer_sqrt now
          (decide_options j integer_sqrt now config pack_sizer o) (new_indexes c.index_files) _
      ∙ new_indexes-ids_of c.index_files

  -- If a plan is made, the used blobs being counted from 0, no pack having 2^16 blobs or more, and the
  -- index files having different ids, then its packs can all be processed, and every used blob is saved:
  -- after that it is in a pack of the new index, or among the blobs to repack, or in a pack of an index
  -- file that stays, as it is not among those of the plan, which are deleted.
  pub no_blob_lost :
      (c : Contents) (plan : PrunePlan) (time id : ℕ)
      → AreShort (all_packs (new_indexes c.index_files))
      → AreDistinct (map (λ f. f.0) c.index_files)
      → get c.used_ids id ≡ some 0
      → from_prune_options j integer_sqrt now config pack_sizer o c ≡ some (ok plan)
      → (planned : Planned) × (decided j integer_sqrt now config pack_sizer o
            (first_decisions j integer_sqrt now config pack_sizer o c)
          ≡ some planned)
        × (w : Work) × (run_packs o.instant_delete time
              (all_packs plan.index_files)
              (first_work o.instant_delete time plan)
            ≡ ok w)
        × Saved j integer_sqrt now config pack_sizer o id plan.index_files planned.0 w
  unfolding decided
  no_blob_lost c plan time id short distinct zero_count e =
      let (checked, planned, is_planned, finished) =
        plan-Parts j integer_sqrt now config pack_sizer o c plan e in
      let d = first_decisions j integer_sqrt now config pack_sizer o c in
      let kept =
        decide_repack-keeps integer_sqrt pack_sizer o.max_repack o.max_unused
          (o.repack_uncompressed || o.repack_all) o.no_resize d.1.candidates (d.0, d.1.stats)
          planned id is_planned (first_keeps c id short zero_count checked) in
      let (w, ran, saved) =
        finish_plan-Saved j integer_sqrt now config pack_sizer o c planned d.1.used_ids plan time id
          (subst AreDistinct (sym (decided-ids_of c planned is_planned)) distinct) kept
          (first_is_key c id zero_count) finished in
      (planned, is_planned, w, ran, saved)
