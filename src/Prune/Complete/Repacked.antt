-- ===== src/Prune/Complete/Repacked.antt =====
-- `decide_repack` decides on every candidate, so that no pack stays undecided.
use rustic_core.Base.{
  ℕ, zero, suc, ◌+◌, ◌≡◌, ◌<◌, Bool, true, false, not, ◌&&◌, ◌||◌, List, [], ◌∷◌, ◌++◌, ◌==◌,
  if◌then◌else◌, arith, refl, sym, subst,
}
use rustic_core.Blob.{at, put, BlobTypeMap, BlobType, tree_blob, data_blob}
use rustic_core.Prune.{PrunePack, PruneIndex, PackToDo, same_todo}
use rustic_core.Prune.Stats.{PruneStats}
use rustic_core.Prune.Todo.{set_todo}
use rustic_core.Prune.Decide.{Candidate}
use rustic_core.Prune.Plan.{is_case}
use rustic_core.Prune.Repack.{
  Planned, set_at_pack, set_at, Repacking, repack_step, set_all, stays, grow_repack,
  is_size_mismatch,
}
use rustic_core.Prune.Repack.Invariant.{is_repack_todo}
use rustic_core.Prune.Complete.{
  listed-append, is_undecided, listed, accounted, all_accounted, Grows, all_accounted-Grows,
}

decides_todo : (t : PackToDo) → is_repack_todo t ≡ true → same_todo t PackToDo.undecided ≡ false
decides_todo PackToDo.keep h = refl
decides_todo PackToDo.repack h = refl
decides_todo _ h = absurd (ground arith)

and_true : (x y : Bool) → x ≡ true → y ≡ true → (x && y) ≡ true
and_true x y h k = ground arith

and_left : (x y : Bool) → (x && y) ≡ true → x ≡ true
and_left x y h = ground arith

and_right : (x y : Bool) → (x && y) ≡ true → y ≡ true
and_right x y h = ground arith

not_undecided : (x y l : Bool) → y ≡ false → (not (x && y) || l) ≡ true
not_undecided x y l h = ground arith

skip_head : (x e f l : Bool) → f ≡ false → (x || ((e && f) || l)) ≡ true → (x || l) ≡ true
skip_head x e f l h k = ground arith

module _ (b : Bool) (c : Candidate) (cs : List Candidate) where
  accounted-other :
      (i k : ℕ) (packs : List PrunePack)
      → (c.index_num == i) ≡ false
      → accounted b i k packs (c ∷ cs) ≡ true
      → accounted b i k packs cs ≡ true
  accounted-other i k [] e h = h
  accounted-other i k (p ∷ packs) e h = let r = accounted-other i (suc k) packs e in ground arith

  accounted-before :
      (i k : ℕ) (packs : List PrunePack)
      → c.pack_num < k
      → accounted b i k packs (c ∷ cs) ≡ true
      → accounted b i k packs cs ≡ true
  accounted-before i k [] e h = h
  accounted-before i k (p ∷ packs) e h =
      let r = accounted-before i (suc k) packs (omega arith) in ground arith

  all_accounted-before :
      (i : ℕ) (indexes : List PruneIndex)
      → c.index_num < i
      → all_accounted b i indexes (c ∷ cs) ≡ true
      → all_accounted b i indexes cs ≡ true
  all_accounted-before i [] e h = h
  all_accounted-before i (index ∷ indexes) e h =
      let r = all_accounted-before (suc i) indexes (omega arith) in
      let q = accounted-other i 0 index.packs (ground arith) in ground arith

  module _ (todo : PackToDo) (decided : same_todo todo PackToDo.undecided ≡ false) where
    set_at_pack-accounted :
        (i k n : ℕ) (packs : List PrunePack) (s : PruneStats)
        → k + n ≡ c.pack_num
        → accounted b i k packs (c ∷ cs) ≡ true
        → accounted b i k (set_at_pack todo c n packs s).0 cs ≡ true
    unfolding set_at_pack set_todo
    set_at_pack-accounted i k n [] s e h = h
    set_at_pack-accounted i k zero (p ∷ packs) s e h =
        let q : PrunePack = record p { to_do = todo } in
        and_true _ _
          (not_undecided (is_case b q) (same_todo todo PackToDo.undecided) (listed i k cs) decided)
          (accounted-before i (suc k) packs (omega arith)
            (and_right (not (is_case b p && is_undecided p) || listed i k (c ∷ cs)) _ h))
    set_at_pack-accounted i k (suc n) (p ∷ packs) s e h =
        let l : (c.pack_num == k) ≡ false = ground arith in
        and_true _ _
          (skip_head (not (is_case b p && is_undecided p)) (c.index_num == i) (c.pack_num == k)
            (listed i k cs) l (and_left _ (accounted b i (suc k) packs (c ∷ cs)) h))
          (set_at_pack-accounted i (suc k) n packs s (omega arith)
            (and_right (not (is_case b p && is_undecided p) || listed i k (c ∷ cs)) _ h))

    set_at-accounted :
        (i n : ℕ) (indexes : List PruneIndex) (s : PruneStats)
        → i + n ≡ c.index_num
        → all_accounted b i indexes (c ∷ cs) ≡ true
        → all_accounted b i (set_at todo c n (indexes, s)).0 cs ≡ true
    unfolding set_at
    set_at-accounted i n [] s e h = h
    set_at-accounted i zero (index ∷ indexes) s e h =
        let r = all_accounted-before (suc i) indexes (omega arith) in
        let q = set_at_pack-accounted i 0 c.pack_num index.packs s (omega arith) in ground arith
    set_at-accounted i (suc n) (index ∷ indexes) s e h =
        let r = set_at-accounted (suc i) n indexes s (omega arith) in
        let q = accounted-other i 0 index.packs (ground arith) in ground arith

module _ (b : Bool) where
  pub set_all-accounted :
      (todo : PackToDo) (cs ds : List Candidate) (planned : Planned)
      → is_repack_todo todo ≡ true
      → all_accounted b 0 planned.0 (cs ++ ds) ≡ true
      → all_accounted b 0 (set_all todo cs planned).0 ds ≡ true
  unfolding set_all
  set_all-accounted todo [] ds planned h k = k
  set_all-accounted todo (c ∷ cs) ds planned h k =
      set_all-accounted todo cs ds (set_at todo c c.index_num planned) h (
        set_at-accounted b c (cs ++ ds) todo (decides_todo todo h) 0 c.index_num planned.0 planned.1
          (omega arith) k)

  -- The candidates that are still to be decided on.
  abbrev pub open_candidates : List Candidate → Repacking → List Candidate
  open_candidates cs st = cs ++ (st.resize_packs.tree ++ st.resize_packs.content)

  abbrev pub IsGood : List Candidate → Repacking → Type 0
  IsGood cs st = all_accounted b 0 st.planned.0 (open_candidates cs st) ≡ true

  -- The candidate is put off.
  grow-Grows :
      (c : Candidate) (cs ts ds : List Candidate)
      → Grows ((c ∷ cs) ++ (ts ++ ds)) (cs ++ ((ts ++ c ∷ []) ++ ds))
        × Grows ((c ∷ cs) ++ (ts ++ ds)) (cs ++ (ts ++ (ds ++ c ∷ [])))
  grow-Grows c cs ts ds = (
    λ i k h.
        let a = listed-append i k cs (ts ++ ds) in
        let a' = listed-append i k ts ds in
        let e = listed-append i k cs ((ts ++ c ∷ []) ++ ds) in
        let e' = listed-append i k (ts ++ c ∷ []) ds in
        let e'' = listed-append i k ts (c ∷ []) in ground arith,
    λ i k h.
        let a = listed-append i k cs (ts ++ ds) in
        let a' = listed-append i k ts ds in
        let e = listed-append i k cs (ts ++ (ds ++ c ∷ [])) in
        let e' = listed-append i k ts (ds ++ c ∷ []) in
        let e'' = listed-append i k ds (c ∷ []) in ground arith,
  )

  put_off-IsGood :
      (t : BlobType) (c : Candidate) (cs : List Candidate) (st next : Repacking)
      → IsGood (c ∷ cs) st
      → next.planned ≡ st.planned
      → next.resize_packs ≡ put st.resize_packs t (at st.resize_packs t ++ c ∷ [])
      → IsGood cs next
  put_off-IsGood tree_blob c cs st next h e f =
      subst (λ p. all_accounted b 0 p.0 (open_candidates cs next) ≡ true) (sym e)
        (subst
          (λ (r : BlobTypeMap (List Candidate)).
            all_accounted b 0 st.planned.0 (cs ++ (r.tree ++ r.content)) ≡ true)
          (sym f)
          (all_accounted-Grows b 0 st.planned.0 _ _
            (grow-Grows c cs st.resize_packs.tree st.resize_packs.content).0 h))
  put_off-IsGood data_blob c cs st next h e f =
      subst (λ p. all_accounted b 0 p.0 (open_candidates cs next) ≡ true) (sym e)
        (subst
          (λ (r : BlobTypeMap (List Candidate)).
            all_accounted b 0 st.planned.0 (cs ++ (r.tree ++ r.content)) ≡ true)
          (sym f)
          (all_accounted-Grows b 0 st.planned.0 _ _
            (grow-Grows c cs st.resize_packs.tree st.resize_packs.content).1 h))

  abbrev put_off : Candidate → Repacking → Repacking
  put_off c st = grow_repack c (record st {
    resize_packs = put st.resize_packs c.pi.blob_type (at st.resize_packs c.pi.blob_type ++ c ∷ []);
  })

  abbrev repacked : Candidate → Repacking → Repacking
  repacked c st = grow_repack c (record st {
    planned = set_at PackToDo.repack c c.index_num st.planned;
    do_repack = put st.do_repack c.pi.blob_type true;
  })

  pub repack_step-IsGood :
      (r u : ℕ) (no_resize : Bool) (c : Candidate) (cs : List Candidate) (st : Repacking)
      → IsGood (c ∷ cs) st
      → IsGood cs (repack_step r u no_resize c st)
  unfolding repack_step grow_repack
  repack_step-IsGood r u no_resize c cs st h =
      go (stays r u no_resize st c) (is_size_mismatch c.reason)
    where
      set :
          (todo : PackToDo)
          → is_repack_todo todo ≡ true
          → all_accounted b 0 (set_at todo c c.index_num st.planned).0 (open_candidates cs st)
            ≡ true
      set todo d =
          set_at-accounted b c (open_candidates cs st) todo (decides_todo todo d) 0 c.index_num
            st.planned.0 st.planned.1 (omega arith) h

      go :
          (x y : Bool)
          → IsGood cs (
              if x
              then record st { planned = set_at PackToDo.keep c c.index_num st.planned }
              else if y
              then put_off c st
              else repacked c st)
      go true y = set PackToDo.keep refl
      go false true = put_off-IsGood c.pi.blob_type c cs st (put_off c st) h refl refl
      go false false = set PackToDo.repack refl
