-- ===== src/Prune/Execute/Order.antt =====
-- The order of what `prune_repository` of crates/core/src/commands/prune.rs writes and deletes.
use rustic_core.Prune.{PruneOptions, PrunePack, PruneIndex}
use rustic_core.Prune.Run.{Work, run_packs}
use rustic_core.Prune.Whole.{PrunePlan, first_work}
use rustic_core.Prune.Execute.{
  Event, delete_packs, delete_indexes, Copy, removals, perform_if, save_file, delete_old, timed,
  copied, write_index, process_packs, remove_unnamed, prune_repository, is_empty, ConfigFile,
}
use rustic_core.Prune.Execute.Events.{
  saved, called, called-removals, packs_copied, packs_copied-true, is_write, IsWritten,
  saved-append, save_file-IsWritten, held, run-held, write_index-saved,
}
use rustic_core.Prune.Execute.Logged.{run_packs-IsLogged}
use rustic_core.Index.Indexer.{Indexer, new_unindexed, run}
use rustic_core.Index.Indexer.Saved.{all_packs}
use rustic_core.Index.Indexer.Kept.{run-kept}
use rustic_core.Prune.Plan
use rustic_core.Snapshot.{is_empty}
use rustic_core.Config.{ConfigFile}
use mathlib.Core.List.{append-nil}
use rustic_core.Base.{
  Bool, List, true, ℕ, Option, ◌&&◌, ◌∷◌, [], false, not, ◌≡◌, ErrorKind, ◌++◌, map, ok, Result,
  refl, sym, all, >>=-eq-ok, ap, ◌∙◌, length, ◌>>=◌, arith, subst, Bool-cases, unwrap_or, inl, inr,
  if◌then◌else◌,
}
use rustic_core.Prune.Execute.Deletions.{
  event_if, deletes_packs, packs_deleted, perform_if-appends, delete_old-appends,
}

-- The packs that no index file names are deleted before all else, or not at all.
abbrev pub unnamed_deleted : Bool → PrunePlan → List Event
unnamed_deleted instant_delete plan =
    event_if (instant_delete && not (is_empty plan.existing_packs))
      (delete_packs (map (λ e. e.0) plan.existing_packs))

event_if-saved : (b : Bool) (ids : List ℕ) → saved (event_if b (delete_packs ids)) ≡ []
event_if-saved true ids = refl
event_if-saved false ids = refl

module _ (refuse : List Event → Event → Option ErrorKind) where
  module _ (clock : ℕ → ℕ × ℕ) (copies : List PrunePack → Result (List Copy)) {Span : Type 0}
      (config : ConfigFile) (o : PruneOptions Span) (prune_time start : ℕ) (plan : PrunePlan) where
    first : Work
    first = first_work o.instant_delete prune_time plan

    remove_unnamed-held :
        (s : Indexer × List Event)
        → remove_unnamed refuse clock copies config o prune_time start plan ≡ ok s
        → ((d : Bool) → held refuse d s.0 s.1 ≡ called d (removals first.removed))
          × IsWritten (unnamed_deleted o.instant_delete plan) s.1
    unfolding remove_unnamed new_unindexed first
    remove_unnamed-held s h =
        let b = o.instant_delete && not (is_empty plan.existing_packs) in
        let ids : List ℕ = map (λ e. e.0) plan.existing_packs in
        let calls = timed refuse clock copies 0 (removals first.removed) in
        let (es, a, f) =
          >>=-eq-ok (perform_if refuse b (delete_packs ids) [])
            (λ es. run (save_file refuse) calls (new_unindexed start) es) h in
        let g = perform_if-appends refuse b (delete_packs ids) [] es a in
        let nothing : saved es ≡ [] = ap saved g ∙ event_if-saved b ids in
        (
          λ d.
              run-held refuse clock copies d 0 (removals first.removed) (new_unindexed start) es s f
              ∙ ap (λ l. l ++ called d (removals first.removed)) (empty d es nothing),
          run-kept (save_file refuse) (IsWritten (unnamed_deleted o.instant_delete plan))
              (save_file-IsWritten refuse (unnamed_deleted o.instant_delete plan)) calls
              (new_unindexed start) es s f
              ([], g ∙ sym (append-nil (event_if b (delete_packs ids))), refl),
        )
      where
        empty :
            (d : Bool) (es : List Event)
            → saved es ≡ []
            → held refuse d (new_unindexed start) es ≡ []
        empty true es n = ap (λ l. all_packs true l ++ []) n
        empty false es n = ap (λ l. all_packs false l ++ []) n

    abbrev ids : List ℕ
    ids = map (λ index. index.id) plan.index_files

    -- What a prune has done before and after the deletion of the index files.
    abbrev pub Ordered : List Event → Work → List Copy → Type 0
    Ordered events w copied_packs =
        (more deletes : List Event) × (events
          ≡ (unnamed_deleted o.instant_delete plan ++ more) ++ delete_indexes ids ∷ deletes)
        × (all is_write more ≡ true)
        × (all_packs false (saved more) ≡ w.added ++ packs_copied false copied_packs)
        × (all_packs true (saved more) ≡ w.removed)
        × (all deletes_packs deletes ≡ true)
        × (packs_deleted deletes ≡ w.data_packs_remove ++ w.tree_packs_remove)

    saved-more :
        (w : Work) (cs : List Copy) (ix : Indexer) (es fs more : List Event)
        → run_packs o.instant_delete prune_time (Plan.all_packs plan.index_files) first ≡ ok w
        → ((d : Bool) → held refuse d ix es ≡ called d (removals first.removed))
        → ((d : Bool)
            → all_packs d (saved fs)
              ≡ (held refuse d ix es ++ called d w.calls) ++ packs_copied d cs)
        → fs ≡ unnamed_deleted o.instant_delete plan ++ more
        → (all_packs false (saved more) ≡ w.added ++ packs_copied false cs)
          × (all_packs true (saved more) ≡ w.removed)
    unfolding first first_work
    saved-more w cs ix es fs more ran kept all_saved split =
        let (x, y) =
          run_packs-IsLogged [] first.removed o.instant_delete prune_time
            (Plan.all_packs plan.index_files) first w ran (refl, sym (append-nil first.removed)) in
        let same : saved fs ≡ saved more =
          ap saved split
          ∙ (saved-append (unnamed_deleted o.instant_delete plan) more
              ∙ ap (λ l. l ++ saved more)
                  (event_if-saved (o.instant_delete && not (is_empty plan.existing_packs))
                    (map (λ e. e.0) plan.existing_packs))) in
        let r = called-removals first.removed in
        (
          sym (ap (all_packs false) same)
              ∙ all_saved false
              ∙ ap (λ l. (l ++ called false w.calls) ++ packs_copied false cs) (kept false ∙ r.1)
              ∙ ap (λ l. l ++ packs_copied false cs) (sym x),
          sym (ap (all_packs true) same)
              ∙ all_saved true
              ∙ ap (λ l. (l ++ called true w.calls) ++ packs_copied true cs) (kept true ∙ r.0)
              ∙ ap (λ l. l ++ packs_copied true cs) (sym y)
              ∙ ap (λ l. w.removed ++ l) (packs_copied-true cs)
              ∙ append-nil w.removed,
        )

    process_packs-Ordered :
        (ix : Indexer) (es events : List Event)
        → (o.early_delete_index && o.instant_delete) ≡ false
        → is_empty plan.index_files ≡ false
        → ((d : Bool) → held refuse d ix es ≡ called d (removals first.removed))
        → IsWritten (unnamed_deleted o.instant_delete plan) es
        → process_packs refuse clock copies config o prune_time start plan ix es ≡ ok events
        → (w : Work) × (run_packs o.instant_delete prune_time
              (Plan.all_packs plan.index_files)
              (first_work o.instant_delete prune_time plan)
            ≡ ok w)
          × (cs : List Copy) × (copied refuse clock copies w ≡ ok cs)
          × Ordered events w cs
    unfolding process_packs first is_empty
    process_packs-Ordered ix es events off some_files kept q h =
        let early = o.early_delete_index && o.instant_delete in
        let packs = Plan.all_packs plan.index_files in
        let z = not (is_empty ids) && early in
        let k = length first.removed in
        let (fs, a, f) =
          >>=-eq-ok (perform_if refuse z (delete_indexes ids) es)
            (λ fs. run_packs o.instant_delete prune_time packs first >>= λ w.
              write_index refuse clock copies k w ix fs >>= λ gs. delete_old refuse early ids w gs)
            h in
        let (w, b, g) =
          >>=-eq-ok (run_packs o.instant_delete prune_time packs first)
            (λ w.
              write_index refuse clock copies k w ix fs >>= λ gs. delete_old refuse early ids w gs)
            f in
        let (gs, c, e) =
          >>=-eq-ok (write_index refuse clock copies k w ix fs)
            (λ gs. delete_old refuse early ids w gs) g in
        let is_z : z ≡ false = ground arith in
        let same : fs ≡ es =
          perform_if-appends refuse z (delete_indexes ids) es fs a
          ∙ (ap (λ v. es ++ event_if v (delete_indexes ids)) is_z ∙ append-nil es) in
        let (cs, is_copied, all_saved, (more, split, writes)) =
          write_index-saved refuse clock copies (unnamed_deleted o.instant_delete plan) k w ix es gs
            (subst (λ l. write_index refuse clock copies k w ix l ≡ ok gs) same c) q in
        let (x, y) = saved-more w cs ix es gs more b kept all_saved split in
        let (deletes, all_events, only, deleted) =
          delete_old-appends refuse ids w gs events (is_empty-map plan.index_files ∙ some_files)
            (subst (λ v. delete_old refuse v ids w gs ≡ ok events) off e) in
        (
          w,
          b,
          cs,
          is_copied,
          (
            more,
            deletes,
            all_events ∙ ap (λ l. l ++ delete_indexes ids ∷ deletes) split,
            writes,
            x,
            y,
            only,
            deleted,
          ),
        )
      where
        is_empty-map :
            (indexes : List PruneIndex)
            → is_empty (map (λ index. index.id) indexes) ≡ is_empty indexes
        is_empty-map [] = refl
        is_empty-map (x ∷ xs) = refl

    -- If a prune that does not delete the index early succeeds, and has index files to process, then it
    -- first deletes the packs that no index file names, or none. Then it only writes packs and index files,
    -- until these have the packs that the loop and the repackers added, and as packs to delete those that
    -- were marked. Only after this it deletes the processed index files, and after them the packs that
    -- the loop gave up, and nothing else.
    pub prune_repository-Ordered :
        (events : List Event)
        → (o.early_delete_index && o.instant_delete) ≡ false
        → is_empty plan.index_files ≡ false
        → prune_repository refuse clock copies config o prune_time start plan ≡ ok events
        → (w : Work) × (run_packs o.instant_delete prune_time
              (Plan.all_packs plan.index_files)
              (first_work o.instant_delete prune_time plan)
            ≡ ok w)
          × (cs : List Copy) × (copied refuse clock copies w ≡ ok cs)
          × Ordered events w cs
    unfolding prune_repository first
    prune_repository-Ordered events off some_files h =
        elim (Bool-cases (unwrap_or config.append_only false)) [
          | inl t ↦ let e = rw t at h in absurd (ground arith)
          | inr t ↦
              let (s, a, f) =
                >>=-eq-ok (remove_unnamed refuse clock copies config o prune_time start plan)
                  (λ s.
                    if is_empty plan.index_files
                    then ok s.1
                    else process_packs refuse clock copies config o prune_time start plan s.0 s.1)
                  (rw t at h) in
              let (kept, q) = remove_unnamed-held s a in
              process_packs-Ordered s.0 s.1 events off some_files kept q (
                subst
                  (λ b.
                    (if b
                      then ok s.1
                      else process_packs refuse clock copies config o prune_time start plan s.0 s.1)
                    ≡ ok events)
                  some_files f)
        ]
