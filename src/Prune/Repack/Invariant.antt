-- ===== src/Prune/Repack/Invariant.antt =====
-- What holds of a plan before `decide_repack` and is kept by setting `Keep` and `Repack` holds after it.
use rustic_core.Base.{
  some-injective, ℕ, ◌≡◌, Bool, true, Option, none, some, List, [], ◌∷◌, arith, refl, inl, inr,
  Bool-cases, subst, false,
}
use rustic_core.Base.Sorting.{sort_by}
use rustic_core.Blob.{BlobTypeMap, BlobType, tree_blob, data_blob}
use rustic_core.Packer.Sizer.{PackSizer}
use rustic_core.Prune.{PackToDo, LimitOption}
use rustic_core.Prune.Decide.{Candidate}
use rustic_core.Prune.Repack.{
  repack_limit, unused_limit, info_less, first_state, repack_candidates, Planned, set_at, Repacking,
  repack_step, repack_loop, set_all, resize_todo, decide_repack, stays, is_size_mismatch,
}

-- The tasks that `decide_repack` sets.
abbrev pub is_repack_todo : PackToDo → Bool
is_repack_todo PackToDo.keep = true
is_repack_todo PackToDo.repack = true
is_repack_todo _ = false

module _ (integer_sqrt : ℕ → ℕ) (pack_sizer : BlobTypeMap PackSizer) where
  pub resize_todo-kept :
      (st : Repacking) (t : BlobType)
      → is_repack_todo (resize_todo integer_sqrt pack_sizer st t) ≡ true
  unfolding resize_todo
  resize_todo-kept st t = ground arith

module _ (Q : Planned → Type 0)
    (kept : (todo : PackToDo) (c : Candidate) (planned : Planned)
      → is_repack_todo todo ≡ true
      → Q planned
      → Q (set_at todo c c.index_num planned)) where
  set_all-kept :
      (todo : PackToDo) (cs : List Candidate) (planned : Planned)
      → is_repack_todo todo ≡ true
      → Q planned
      → Q (set_all todo cs planned)
  unfolding set_all
  set_all-kept todo [] planned h q = q
  set_all-kept todo (c ∷ cs) planned h q =
      set_all-kept todo cs (set_at todo c c.index_num planned) h (kept todo c planned h q)

  repack_step-kept :
      (r u : ℕ) (no_resize : Bool) (c : Candidate) (st : Repacking)
      → Q st.planned
      → Q (repack_step r u no_resize c st).planned
  unfolding repack_step
  repack_step-kept r u no_resize c st q =
      let a = kept PackToDo.keep c st.planned refl q in
      let b = kept PackToDo.repack c st.planned refl q in
      elim (Bool-cases (stays r u no_resize st c)) [
        | inl e ↦ rw e a
        | inr e ↦ elim (Bool-cases (is_size_mismatch c.reason)) [
          | inl f ↦ rw (e, f) q
          | inr f ↦ rw (e, f) b
        ]
      ]

  repack_loop-kept :
      (r u : ℕ) (no_resize : Bool) (cs : List Candidate) (st : Repacking)
      → Q st.planned
      → Q (repack_loop r u no_resize cs st).planned
  unfolding repack_loop
  repack_loop-kept r u no_resize [] st q = q
  repack_loop-kept r u no_resize (c ∷ cs) st q =
      repack_loop-kept r u no_resize cs (repack_step r u no_resize c st)
        (repack_step-kept r u no_resize c st q)

  module _ (integer_sqrt : ℕ → ℕ) (pack_sizer : BlobTypeMap PackSizer) where
    repack_candidates-kept :
        (m u : ℕ) (no_resize : Bool) (cs : List Candidate) (planned : Planned)
        → Q planned
        → Q (repack_candidates integer_sqrt pack_sizer m u no_resize cs planned)
    unfolding repack_candidates first_state
    repack_candidates-kept m u no_resize cs planned q =
        let sorted = sort_by (λ a b. info_less a.pi b.pi) cs in
        let st = repack_loop m u no_resize sorted (first_state integer_sqrt pack_sizer planned) in
        set_all-kept (resize_todo integer_sqrt pack_sizer st data_blob) st.resize_packs.content _
          (resize_todo-kept integer_sqrt pack_sizer st data_blob)
          (set_all-kept (resize_todo integer_sqrt pack_sizer st tree_blob) st.resize_packs.tree _
            (resize_todo-kept integer_sqrt pack_sizer st tree_blob)
            (repack_loop-kept m u no_resize sorted (first_state integer_sqrt pack_sizer planned) q))

    pub decide_repack-kept :
        (max_repack max_unused : LimitOption) (uncompressed no_resize : Bool) (cs : List Candidate)
        (planned r : Planned)
        → decide_repack integer_sqrt pack_sizer max_repack max_unused uncompressed no_resize cs
            planned
          ≡ some r
        → Q planned
        → Q r
    unfolding decide_repack
    decide_repack-kept max_repack max_unused uncompressed no_resize cs planned r e q =
        go (unused_limit uncompressed max_unused planned.1) e
      where
        go :
            (limit : Option ℕ)
            → elim limit [
              | none ↦ none
              | some u ↦ some (
                  repack_candidates integer_sqrt pack_sizer
                    (repack_limit max_repack planned.1)
                    u
                    no_resize
                    cs
                    planned)
            ]
              ≡ some r
            → Q r
        go none f = absurd (ground arith)
        go (some u) f =
            subst Q (some-injective f)
              (repack_candidates-kept (repack_limit max_repack planned.1) u no_resize cs planned q)
