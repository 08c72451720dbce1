-- ===== src/Prune/Safe/Parts.antt =====
-- What a plan consists of, and that it can be carried out.
use rustic_core.Base.{
  ℕ, ◌≡◌, Bool, false, not, ◌&&◌, Option, none, some, List, [], ◌∷◌, refl, any, any-append, length,
  ◌==◌, Bool-cases, inl, inr, arith, Result, ok, err, ltb, some-injective,
}
use rustic_core.Base.AssocMap.{Map}
use rustic_core.Blob.{BlobTypeMap}
use rustic_core.Config.{ConfigFile}
use rustic_core.Snapshot.{Jiff}
use rustic_core.Packer.Sizer.{PackSizer}
use rustic_core.Prune.{PrunePack, PruneIndex, PackToDo, PruneOptions, same_todo}
use rustic_core.Prune.Stats.{PruneStats}
use rustic_core.Prune.Used.{count_used_blobs, check}
use rustic_core.Prune.New.{new_indexes}
use rustic_core.Prune.Plan.{all_packs, all_blobs}
use rustic_core.Prune.Repack.{Planned}
use rustic_core.Prune.Decide.{Deciding}
use rustic_core.Prune.Check.{retain_indexes, filter_index_files, must_modify}
use rustic_core.Prune.Run.{Work, run_pack, run_todo, run_packs}
use rustic_core.Prune.Whole.{
  Contents, PrunePlan, from_prune_options, after_check, decide_plan, decided, decided_packs,
  finish_plan,
}

is_undecided : PrunePack → Bool
is_undecided p = same_todo p.to_do PackToDo.undecided

retain_indexes-none :
    (f : PrunePack → Bool) (i : Bool) (indexes : List PruneIndex)
    → any f (all_packs indexes) ≡ false
    → any f (all_packs (retain_indexes i indexes)) ≡ false
unfolding retain_indexes all_packs
retain_indexes-none f i [] h = h
retain_indexes-none f i (index ∷ indexes) h =
    let a = any-append f index.packs (all_packs indexes) in
    let b = any-append f index.packs (all_packs (retain_indexes i indexes)) in
    let ih = retain_indexes-none f i indexes in ground arith

-- The packs that `filter_index_files` leaves are among those that there were.
pub filter_index_files-none :
    (f : PrunePack → Bool) (i : Bool) (indexes : List PruneIndex) (s : PruneStats)
    → any f (all_packs indexes) ≡ false
    → any f (all_packs (filter_index_files i indexes s).0) ≡ false
unfolding filter_index_files all_packs
filter_index_files-none f i indexes s h =
    let a = retain_indexes-none f i indexes h in
    elim (Bool-cases
      (not (any (must_modify i) indexes) && length (retain_indexes i indexes) == 1)) [
        | inl e ↦ rw e refl
        | inr e ↦ rw e a
      ]

run_todo-ok :
    (t : PackToDo) (i : Bool) (time : ℕ) (p : PrunePack) (w : Work)
    → same_todo t PackToDo.undecided ≡ false
    → (v : Work) × (run_todo t i time p w ≡ ok v)
unfolding run_todo
run_todo-ok PackToDo.undecided i time p w h = absurd (ground arith)
run_todo-ok _ i time p w h = (_, refl)

-- Packs with decisions are all processed.
pub run_packs-ok :
    (i : Bool) (time : ℕ) (packs : List PrunePack) (w : Work)
    → any (λ p. same_todo p.to_do PackToDo.undecided) packs ≡ false
    → (v : Work) × (run_packs i time packs w ≡ ok v)
unfolding run_packs run_pack
run_packs-ok i time [] w h = (w, refl)
run_packs-ok i time (p ∷ packs) w h =
    let (q, e) = run_todo-ok p.to_do i time p w (ground arith) in
    let (v, f) = run_packs-ok i time packs q (ground arith) in (v, rw e f)

module _ {Zoned Span : Type 0} (j : Jiff Zoned Span) (integer_sqrt : ℕ → ℕ) (now : Zoned)
    (config : ConfigFile) (pack_sizer : BlobTypeMap PackSizer) (o : PruneOptions Span) where
  abbrev pub counted : Contents → Map ℕ
  counted c = count_used_blobs (all_blobs (all_packs (new_indexes c.index_files))) c.used_ids

  abbrev pub first_decisions : Contents → List PruneIndex × Deciding
  first_decisions c =
      decided_packs j integer_sqrt now config pack_sizer o (new_indexes c.index_files) (counted c)

  abbrev pub Parts : Contents → PrunePlan → Type 0
  Parts c plan =
      (check (counted c) ≡ ok tt)
      × (planned : Planned) × (decided j integer_sqrt now config pack_sizer o (first_decisions c)
          ≡ some planned)
      × (finish_plan j integer_sqrt now config pack_sizer o c planned (first_decisions c).1.used_ids
          ≡ ok plan)

  Parts-decided :
      (c : Contents) (plan : PrunePlan)
      → check (counted c) ≡ ok tt
      → (d : Option Planned)
      → decided j integer_sqrt now config pack_sizer o (first_decisions c) ≡ d
      → elim d [
        | none ↦ none
        | some q ↦
            some (
              finish_plan j integer_sqrt now config pack_sizer o c q (first_decisions c).1.used_ids)
      ]
        ≡ some (ok plan)
      → Parts c plan
  Parts-decided c plan h none e f = absurd (ground arith)
  Parts-decided c plan h (some q) e f = (h, q, e, some-injective f)

  Parts-checked :
      (c : Contents) (plan : PrunePlan) (r : Result (Unit {0}))
      → check (counted c) ≡ r
      → after_check j integer_sqrt now config pack_sizer o r
          (decide_plan j integer_sqrt now config pack_sizer o c (first_decisions c))
        ≡ some (ok plan)
      → Parts c plan
  unfolding after_check decide_plan
  Parts-checked c plan (ok u) h e = Parts-decided c plan h _ refl e
  Parts-checked c plan (err k) h e = absurd (ground arith)

  pub plan-Parts :
      (c : Contents) (plan : PrunePlan)
      → from_prune_options j integer_sqrt now config pack_sizer o c ≡ some (ok plan)
      → Parts c plan
  unfolding from_prune_options
  plan-Parts c plan e = elim (Bool-cases (ltb config.version 2 && o.repack_uncompressed)) [
    | inl h ↦ absurd (ground arith)
    | inr h ↦ Parts-checked c plan (check (counted c)) refl (ground arith)
  ]
