-- ===== src/Prune/Retained/Whole.antt =====
-- What a plan removes: the packs after `decide_repack`.
use rustic_core.Base.{
  ℕ, zero, suc, ◌≡◌, Bool, true, false, not, ◌||◌, Option, some, List, [], ◌∷◌, ◌++◌, all, arith,
  refl, map, Bool-cases, inl, inr,
}
use rustic_core.Base.AssocMap.{Map}
use rustic_core.Blob.{BlobTypeMap}
use rustic_core.Config.{ConfigFile}
use rustic_core.Snapshot.{Jiff}
use rustic_core.PackFile.{IndexFile, IndexPack}
use rustic_core.Packer.Sizer.{PackSizer}
use rustic_core.Prune.{PrunePack, PruneIndex, PackToDo, PruneOptions, from_index_pack}
use rustic_core.Prune.Stats.{PruneStats}
use rustic_core.Prune.Todo.{set_todo}
use rustic_core.Prune.Decide.{Candidate, DecideOptions}
use rustic_core.Prune.New.{
  new_indexes, unprocessed, read_indexes, retain, drop_recorded, has_id, Processed, is_recorded,
}
use rustic_core.Prune.Plan.{all_packs}
use rustic_core.Prune.Repack.{Planned, set_at_pack, set_at}
use rustic_core.Prune.Repack.Invariant.{decide_repack-kept, is_repack_todo}
use rustic_core.Prune.Whole.{decided, decided_packs, decide_options}
use rustic_core.Prune.Retained.{all-append, is_retained, is_allowed, decide_packs-retained}

module _ {Zoned Span : Type 0} (j : Jiff Zoned Span) (integer_sqrt : ℕ → ℕ) (now : Zoned)
    (o : DecideOptions Span) where
  abbrev good : PrunePack → Bool
  good = is_retained j integer_sqrt now o

  todo-good :
      (todo : PackToDo) (mark : Bool) (time : Option ℕ)
      → is_repack_todo todo ≡ true
      → is_allowed j integer_sqrt now o todo mark time ≡ true
  todo-good PackToDo.keep mark time h = refl
  todo-good PackToDo.repack mark time h = refl
  todo-good _ mark time h = absurd (ground arith)

  set_at_pack-good :
      (todo : PackToDo) (c : Candidate) (n : ℕ) (packs : List PrunePack) (s : PruneStats)
      → is_repack_todo todo ≡ true
      → all good packs ≡ true
      → all good (set_at_pack todo c n packs s).0 ≡ true
  unfolding set_at_pack set_todo
  set_at_pack-good todo c n [] s h k = k
  set_at_pack-good todo c zero (p ∷ packs) s h k =
      let t = todo-good todo p.delete_mark p.time h in rw t (ground arith)
  set_at_pack-good todo c (suc n) (p ∷ packs) s h k =
      ground (arith, set_at_pack-good todo c n packs s h)

  set_at-good :
      (todo : PackToDo) (c : Candidate) (n : ℕ) (indexes : List PruneIndex) (s : PruneStats)
      → is_repack_todo todo ≡ true
      → all good (all_packs indexes) ≡ true
      → all good (all_packs (set_at todo c n (indexes, s)).0) ≡ true
  unfolding set_at all_packs
  set_at-good todo c n [] s h k = k
  set_at-good todo c zero (index ∷ indexes) s h k =
      let r = (set_at_pack todo c c.pack_num index.packs s).0 in
      let a = all-append good index.packs (all_packs indexes) in
      let b = all-append good r (all_packs indexes) in
      let e = set_at_pack-good todo c c.pack_num index.packs s h in ground arith
  set_at-good todo c (suc n) (index ∷ indexes) s h k =
      let r = (set_at todo c n (indexes, s)).0 in
      let a = all-append good index.packs (all_packs indexes) in
      let b = all-append good index.packs (all_packs r) in
      let e = set_at-good todo c n indexes s h in ground arith

  unprocessed-good :
      (mark : Bool) (packs : List IndexPack) (ids : List ℕ)
      → all good (unprocessed mark packs ids).0 ≡ true
  unfolding unprocessed from_index_pack
  unprocessed-good mark [] ids = refl
  unprocessed-good mark (p ∷ packs) ids =
      let a = unprocessed-good mark packs ids in
      let b = unprocessed-good mark packs (p.id ∷ ids) in
      elim (Bool-cases (has_id ids p.id)) [ inl h ↦ rw h a | inr h ↦ rw h b ]

  read_indexes-good :
      (files : List (ℕ × IndexFile)) (ids : Processed)
      → all good (all_packs (read_indexes files ids).0) ≡ true
  unfolding read_indexes all_packs
  read_indexes-good [] ids = refl
  read_indexes-good ((id, index) ∷ files) (ids, marked_ids) =
      let a = unprocessed false index.packs ids in
      let b = unprocessed true index.packs_to_delete marked_ids in
      let x = unprocessed-good false index.packs ids in
      let y = unprocessed-good true index.packs_to_delete marked_ids in
      let z = read_indexes-good files (a.1, b.1) in
      let l = all-append good a.0 b.0 in
      let m = all-append good (a.0 ++ b.0) (all_packs (read_indexes files (a.1, b.1)).0) in
      ground arith

  retain-good :
      (f : PrunePack → Bool) (packs : List PrunePack)
      → all good packs ≡ true
      → all good (retain f packs) ≡ true
  unfolding retain
  retain-good f [] h = h
  retain-good f (p ∷ packs) h = ground (arith, retain-good f packs)

  drop_recorded-good :
      (ids : List ℕ) (indexes : List PruneIndex)
      → all good (all_packs indexes) ≡ true
      → all good (all_packs (map (drop_recorded ids) indexes)) ≡ true
  unfolding drop_recorded all_packs
  drop_recorded-good ids [] h = h
  drop_recorded-good ids (index ∷ indexes) h =
      let r = retain (λ p. not (is_recorded ids p)) index.packs in
      let a = all-append good index.packs (all_packs indexes) in
      let b = all-append good r (all_packs (map (drop_recorded ids) indexes)) in
      let e = retain-good (λ p. not (is_recorded ids p)) index.packs in
      let f = drop_recorded-good ids indexes in ground arith

  pub new_indexes-retained :
      (files : List (ℕ × IndexFile)) → all good (all_packs (new_indexes files)) ≡ true
  unfolding new_indexes
  new_indexes-retained files =
      let r = read_indexes files ([], []) in
      drop_recorded-good r.1.0 r.0 (read_indexes-good files ([], []))

module _ {Zoned Span : Type 0} (j : Jiff Zoned Span) (integer_sqrt : ℕ → ℕ) (now : Zoned)
    (config : ConfigFile) (pack_sizer : BlobTypeMap PackSizer) (o : PruneOptions Span) where
  -- In the plan for any index files, where the tasks are decided: only packs that were marked long
  -- enough ago are to be deleted, only unmarked packs that are not too young are to be marked, and only
  -- marked packs are to stay marked or to be recovered.
  pub decided-retained :
      (files : List (ℕ × IndexFile)) (used_ids : Map ℕ) (planned : Planned)
      → decided j integer_sqrt now config pack_sizer o
          (decided_packs j integer_sqrt now config pack_sizer o (new_indexes files) used_ids)
        ≡ some planned
      → all
          (is_retained j integer_sqrt now (decide_options j integer_sqrt now config pack_sizer o))
          (all_packs planned.0)
        ≡ true
  unfolding decided decided_packs
  decided-retained files used_ids planned e =
      let opts = decide_options j integer_sqrt now config pack_sizer o in
      decide_repack-kept (λ q. all (good j integer_sqrt now opts) (all_packs q.0) ≡ true)
        (λ todo c q h k. set_at-good j integer_sqrt now opts todo c c.index_num q.0 q.1 h k)
        integer_sqrt pack_sizer o.max_repack o.max_unused (o.repack_uncompressed || o.repack_all)
        o.no_resize _ _ planned e
        (decide_packs-retained j integer_sqrt now opts (new_indexes files) _
          (new_indexes-retained j integer_sqrt now opts files))
