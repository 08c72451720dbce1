-- ===== src/Prune/Complete/Whole.antt =====
-- The plan has a decision for every pack: the loops of `decide_repack`, and the packs after it.
use rustic_core.Base.{
  ℕ, suc, ◌≡◌, Bool, true, false, ◌&&◌, ◌||◌, Option, none, some, List, [], ◌∷◌, ◌++◌, any,
  any-append, ◌==◌, arith, refl, subst, some-injective,
}
use rustic_core.Base.AssocMap.{Map}
use rustic_core.Base.Sorting.{sort_by, any-sort_by}
use rustic_core.Blob.{BlobTypeMap, tree_blob, data_blob}
use rustic_core.Config.{ConfigFile}
use rustic_core.Snapshot.{Jiff}
use rustic_core.Packer.Sizer.{PackSizer}
use rustic_core.Prune.{PrunePack, PruneIndex, LimitOption, PruneOptions}
use rustic_core.Prune.Decide.{Candidate}
use rustic_core.PackFile.{IndexFile}
use rustic_core.Prune.New.{new_indexes}
use rustic_core.Prune.Plan.{all_packs}
use rustic_core.Prune.Repack.{
  Planned, Repacking, info_less, repack_step, repack_loop, first_state, set_all, resize_todo,
  repack_candidates, repack_limit, unused_limit, decide_repack,
}
use rustic_core.Prune.Repack.Invariant.{resize_todo-kept}
use rustic_core.Prune.Whole.{decided, decided_packs, decide_options}
use rustic_core.Prune.Complete.{
  listed-append, is_undecided, accounted, all_accounted, all_accounted-Grows,
  decide_packs-accounted,
}
use rustic_core.Prune.Complete.Repacked.{IsGood, set_all-accounted, repack_step-IsGood}

module _ (b : Bool) where
  repack_loop-IsGood :
      (r u : ℕ) (no_resize : Bool) (cs : List Candidate) (st : Repacking)
      → IsGood b cs st
      → IsGood b [] (repack_loop r u no_resize cs st)
  unfolding repack_loop
  repack_loop-IsGood r u no_resize [] st h = h
  repack_loop-IsGood r u no_resize (c ∷ cs) st h =
      repack_loop-IsGood r u no_resize cs (repack_step r u no_resize c st)
        (repack_step-IsGood b r u no_resize c cs st h)

  module _ (integer_sqrt : ℕ → ℕ) (pack_sizer : BlobTypeMap PackSizer) where
    first_state-IsGood :
        (cs : List Candidate) (planned : Planned)
        → all_accounted b 0 planned.0 cs ≡ true
        → IsGood b
            (sort_by (λ x y. info_less x.pi y.pi) cs)
            (first_state integer_sqrt pack_sizer planned)
    unfolding first_state
    first_state-IsGood cs planned h =
        let sorted = sort_by (λ (x y : Candidate). info_less x.pi y.pi) cs in
        all_accounted-Grows b 0 planned.0 cs (sorted ++ [])
          (λ i k e.
            let a = listed-append i k sorted [] in
            let s =
              any-sort_by (λ (x y : Candidate). info_less x.pi y.pi)
                (λ c. c.index_num == i && c.pack_num == k) cs in
            ground arith)
          h

    repack_candidates_complete :
        (m u : ℕ) (no_resize : Bool) (cs : List Candidate) (planned : Planned)
        → all_accounted b 0 planned.0 cs ≡ true
        → all_accounted b 0
            (repack_candidates integer_sqrt pack_sizer m u no_resize cs planned).0
            []
          ≡ true
    unfolding repack_candidates
    repack_candidates_complete m u no_resize cs planned h =
        let sorted = sort_by (λ (x y : Candidate). info_less x.pi y.pi) cs in
        let st = repack_loop m u no_resize sorted (first_state integer_sqrt pack_sizer planned) in
        let g =
          repack_loop-IsGood m u no_resize sorted (first_state integer_sqrt pack_sizer planned)
            (first_state-IsGood cs planned h) in
        let t = resize_todo integer_sqrt pack_sizer st tree_blob in
        let d = resize_todo integer_sqrt pack_sizer st data_blob in
        let trees = set_all t st.resize_packs.tree st.planned in
        let first =
          set_all-accounted b t st.resize_packs.tree st.resize_packs.content st.planned
            (resize_todo-kept integer_sqrt pack_sizer st tree_blob) g in
        set_all-accounted b d st.resize_packs.content [] trees
          (resize_todo-kept integer_sqrt pack_sizer st data_blob)
          (all_accounted-Grows b 0 trees.0 st.resize_packs.content (st.resize_packs.content ++ [])
            (λ i k e. let a = listed-append i k st.resize_packs.content [] in ground arith) first)

    decide_repack_complete :
        (max_repack max_unused : LimitOption) (uncompressed no_resize : Bool) (cs : List Candidate)
        (planned r : Planned)
        → decide_repack integer_sqrt pack_sizer max_repack max_unused uncompressed no_resize cs
            planned
          ≡ some r
        → all_accounted b 0 planned.0 cs ≡ true
        → all_accounted b 0 r.0 [] ≡ true
    unfolding decide_repack
    decide_repack_complete max_repack max_unused uncompressed no_resize cs planned r e q =
        go (unused_limit uncompressed max_unused planned.1) e
      where
        go :
            (limit : Option ℕ)
            → elim limit [
              | none ↦ none
              | some u ↦ some (
                  repack_candidates integer_sqrt pack_sizer
                    (repack_limit max_repack planned.1)
                    u
                    no_resize
                    cs
                    planned)
            ]
              ≡ some r
            → all_accounted b 0 r.0 [] ≡ true
        go none f = absurd (ground arith)
        go (some u) f =
            subst (λ (x : Planned). all_accounted b 0 x.0 [] ≡ true) (some-injective f)
              (repack_candidates_complete (repack_limit max_repack planned.1) u no_resize cs planned
                q)

pack_list-decided :
    (i k : ℕ) (packs : List PrunePack)
    → accounted true i k packs [] ≡ true
    → accounted false i k packs [] ≡ true
    → any is_undecided packs ≡ false
pack_list-decided i k [] h e = refl
pack_list-decided i k (p ∷ packs) h e = let r = pack_list-decided i (suc k) packs in ground arith

packs-decided :
    (i : ℕ) (indexes : List PruneIndex)
    → all_accounted true i indexes [] ≡ true
    → all_accounted false i indexes [] ≡ true
    → any is_undecided (all_packs indexes) ≡ false
unfolding all_packs
packs-decided i [] h e = refl
packs-decided i (index ∷ indexes) h e =
    let a = any-append is_undecided index.packs (all_packs indexes) in
    let r = pack_list-decided i 0 index.packs in
    let s = packs-decided (suc i) indexes in ground arith

module _ {Zoned Span : Type 0} (j : Jiff Zoned Span) (integer_sqrt : ℕ → ℕ) (now : Zoned)
    (config : ConfigFile) (pack_sizer : BlobTypeMap PackSizer) (o : PruneOptions Span) where
  -- In the plan for any index files, where the tasks are decided, no pack stays undecided.
  pub decided-decides :
      (files : List (ℕ × IndexFile)) (used_ids : Map ℕ) (planned : Planned)
      → decided j integer_sqrt now config pack_sizer o
          (decided_packs j integer_sqrt now config pack_sizer o (new_indexes files) used_ids)
        ≡ some planned
      → any is_undecided (all_packs planned.0) ≡ false
  unfolding decided decided_packs
  decided-decides files used_ids planned e =
      let opts = decide_options j integer_sqrt now config pack_sizer o in
      packs-decided 0 planned.0
        (complete true (decide_packs-accounted j integer_sqrt now opts (new_indexes files) _ true))
        (complete false
          (decide_packs-accounted j integer_sqrt now opts (new_indexes files) _ false))
    where
      complete :
          (b : Bool)
          → (let d =
                decided_packs j integer_sqrt now config pack_sizer o (new_indexes files) used_ids in
              all_accounted b 0 d.0 d.1.candidates ≡ true)
          → all_accounted b 0 planned.0 [] ≡ true
      complete b h =
          decide_repack_complete b integer_sqrt pack_sizer o.max_repack o.max_unused
            (o.repack_uncompressed || o.repack_all) o.no_resize _ _ planned e h
