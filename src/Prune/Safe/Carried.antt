-- ===== src/Prune/Safe/Carried.antt =====
-- The loop of `prune_repository` saves the blobs in use.
use rustic_core.Base.{
  ok-injective, ℕ, ◌≡◌, ◌⊎◌, Bool, true, false, ◌||◌, ◌&&◌, List, [], ◌∷◌, any, any-append, ◌==◌,
  arith, refl, ◌∙◌, inl, inr, Bool-cases, ok, >>=-eq-ok, is_some, ap, subst,
}
use rustic_core.Base.AssocMap.{Map, get, remove, get-remove}
use rustic_core.Base.Sorting.{sort_by, count-sort_by}
use rustic_core.Blob.{BlobType, tree_blob, data_blob}
use rustic_core.PackFile.{IndexBlob, IndexPack}
use rustic_core.Prune.{PrunePack, PackToDo, same_todo, into_index_pack, into_index_pack_with_time}
use rustic_core.Prune.Run.{
  delete_of, run_todo, Work, run_pack, run_packs, retain_used, before, delete_pack, add, add_remove,
  dispose, repack,
}
use rustic_core.Prune.Safe.{has_blob}
use rustic_core.Prune.Safe.Checks.{records, repacks}

-- A pack of the new index has the blob; a pack to repack has it.
abbrev pub is_added : ℕ → Work → Bool
is_added id w = any (λ (p : IndexPack). has_blob id p.blobs) w.added

abbrev pub is_repacked : ℕ → Work → Bool
is_repacked id w = any (λ (p : PrunePack). has_blob id p.blobs) w.repack_packs

-- The blob is repacked already or still will be, where a pack has it.
abbrev pub is_due : ℕ → Work → Bool
is_due id w = is_repacked id w || is_some (get w.used_ids id)

retain_used-has :
    (id : ℕ) (blobs : List IndexBlob) (m : Map ℕ)
    → is_some (get m id) ≡ true
    → (has_blob id (retain_used blobs m).0 ≡ true)
      ⊎ ((has_blob id blobs ≡ false) × (is_some (get (retain_used blobs m).1 id) ≡ true))
unfolding retain_used
retain_used-has id [] m h = inr (refl, h)
retain_used-has id (b ∷ blobs) m h = elim (Bool-cases (b.id == id)) [
  | inl e ↦
      let same : b.id ≡ id = ground arith in
      let k : is_some (get m b.id) ≡ true = ap (λ i. is_some (get m i)) same ∙ h in
      inl (rw k (ground arith))
  | inr e ↦
      let g : is_some (get (remove m b.id) id) ≡ true =
        ap is_some (get-remove m b.id id) ∙ rw e h in
      let ih = retain_used-has id blobs (remove m b.id) g in ground arith
]

-- What a step of the loop does for a blob.
abbrev Step : ℕ → PackToDo → List IndexBlob → Work → Work → Type 0
Step id t blobs w v =
    ((is_added id w
          || ((same_todo t PackToDo.keep || same_todo t PackToDo.recover) && has_blob id blobs))
        ≡ true
      → is_added id v ≡ true)
    × (is_due id w ≡ true → is_due id v ≡ true)
    × (is_due id w ≡ true
        → (is_repacked id w || (same_todo t PackToDo.repack && has_blob id blobs)) ≡ true
        → is_repacked id v ≡ true)

-- A change of the work that leaves the packs of the new index, those to repack and the used ids.
abbrev Same : Work → Work → Type 0
Same w v = (v.added ≡ w.added) × (v.repack_packs ≡ w.repack_packs) × (v.used_ids ≡ w.used_ids)

delete_of-Same : (t : BlobType) (id : ℕ) (w : Work) → Same w (delete_of t id w)
unfolding delete_of
delete_of-Same data_blob id w = (refl, refl, refl)
delete_of-Same tree_blob id w = (refl, refl, refl)

delete_pack-Same : (p : PrunePack) (w : Work) → Same w (delete_pack p w)
unfolding delete_pack
delete_pack-Same p w = delete_of-Same p.blob_type p.id w

dispose-Same :
    (instant_delete : Bool) (p : PrunePack) (entry : IndexPack) (w : Work)
    → Same w (dispose instant_delete p entry w)
unfolding dispose add_remove
dispose-Same true p entry w = delete_pack-Same p w
dispose-Same false p entry w = (refl, refl, refl)

-- The same in the tests.
abbrev SameTests : ℕ → Work → Work → Type 0
SameTests id w v =
    (is_added id v ≡ is_added id w)
    × (is_repacked id v ≡ is_repacked id w)
    × (is_some (get v.used_ids id) ≡ is_some (get w.used_ids id))

same_tests : (id : ℕ) (w v : Work) → Same w v → SameTests id w v
same_tests id w v (a, r, u) = (
  ap (λ (l : List IndexPack). any (λ (p : IndexPack). has_blob id p.blobs) l) a,
  ap (λ (l : List PrunePack). any (λ (p : PrunePack). has_blob id p.blobs) l) r,
  ap (λ (m : Map ℕ). is_some (get m id)) u,
)

Same-Step :
    (id : ℕ) (t : PackToDo) (blobs : List IndexBlob) (w v : Work)
    → (same_todo t PackToDo.keep || same_todo t PackToDo.recover) ≡ false
    → same_todo t PackToDo.repack ≡ false
    → Same w v
    → Step id t blobs w v
Same-Step id t blobs w v k r s =
    let (a, b, c) = same_tests id w v s in
    (λ h. ground arith, λ h. ground arith, λ h d. ground arith)

add-Step :
    (id : ℕ) (t : PackToDo) (p : PrunePack) (entry : IndexPack) (w : Work)
    → same_todo t PackToDo.repack ≡ false
    → entry.blobs ≡ p.blobs
    → Step id t p.blobs w (add entry w)
unfolding add
add-Step id t p entry w r e =
    let a = any-append (λ (q : IndexPack). has_blob id q.blobs) w.added (entry ∷ []) in
    let s : has_blob id entry.blobs ≡ has_blob id p.blobs = ap (has_blob id) e in
    (λ h. ground arith, λ h. ground arith, λ h d. ground arith)

repack-Step :
    (id : ℕ) (p : PrunePack) (w v : Work)
    → Same w v
    → Step id PackToDo.repack p.blobs w (repack p v)
unfolding repack
repack-Step id p w v same =
    let (a, b, c) = same_tests id w v same in
    let r = retain_used p.blobs v.used_ids in
    let sorted = count-sort_by before (λ (x : IndexBlob). x.id == id) r.0 in
    let q : PrunePack = record p { blobs = sort_by before r.0 } in
    let l = any-append (λ (q : PrunePack). has_blob id q.blobs) v.repack_packs (q ∷ []) in
    let k = retain_used-has id p.blobs v.used_ids in
    (λ h. ground arith, λ h. ground arith, λ h d. ground arith)

disposed-Step :
    (id : ℕ) (t : PackToDo) (blobs : List IndexBlob) (w u v : Work)
    → (same_todo t PackToDo.keep || same_todo t PackToDo.recover) ≡ false
    → same_todo t PackToDo.repack ≡ false
    → Same w u
    → u ≡ v
    → Step id t blobs w v
disposed-Step id t blobs w u v k r s e =
    subst (Step id t blobs w) e (Same-Step id t blobs w u k r s)

into_index_pack-blobs : (p : PrunePack) (t : ℕ) → (into_index_pack p t).blobs ≡ p.blobs
unfolding into_index_pack
into_index_pack-blobs p t = refl

with_time-blobs : (p : PrunePack) (t : ℕ) → (into_index_pack_with_time p t).blobs ≡ p.blobs
unfolding into_index_pack_with_time
with_time-blobs p t = refl

run_todo-Step :
    (id : ℕ) (t : PackToDo) (instant_delete : Bool) (time : ℕ) (p : PrunePack) (w v : Work)
    → run_todo t instant_delete time p w ≡ ok v
    → Step id t p.blobs w v
unfolding run_todo
run_todo-Step id PackToDo.undecided i t p w v h = absurd (ground arith)
run_todo-Step id PackToDo.keep i t p w v h =
    subst (Step id PackToDo.keep p.blobs w) (ok-injective h)
      (add-Step id PackToDo.keep p (into_index_pack p t) w refl (into_index_pack-blobs p t))
run_todo-Step id PackToDo.recover i t p w v h =
    subst (Step id PackToDo.recover p.blobs w) (ok-injective h)
      (add-Step id PackToDo.recover p (into_index_pack_with_time p t) w refl (with_time-blobs p t))
run_todo-Step id PackToDo.repack i t p w v h =
    subst (Step id PackToDo.repack p.blobs w) (ok-injective h) (
      repack-Step id p w (dispose i p (into_index_pack_with_time p t) w)
        (dispose-Same i p (into_index_pack_with_time p t) w))
run_todo-Step id PackToDo.delete i t p w v h =
    disposed-Step id PackToDo.delete p.blobs w (delete_pack p w) v refl refl (delete_pack-Same p w)
      (ok-injective h)
run_todo-Step id PackToDo.mark_delete i t p w v h =
    let entry = into_index_pack_with_time p t in
    disposed-Step id PackToDo.mark_delete p.blobs w (dispose i p entry w) v refl refl
      (dispose-Same i p entry w) (ok-injective h)
run_todo-Step id PackToDo.keep_marked i t p w v h =
    let entry = into_index_pack p t in
    disposed-Step id PackToDo.keep_marked p.blobs w (dispose i p entry w) v refl refl
      (dispose-Same i p entry w) (ok-injective h)
run_todo-Step id PackToDo.keep_marked_and_correct i t p w v h =
    let entry = into_index_pack p t in
    disposed-Step id PackToDo.keep_marked_and_correct p.blobs w (dispose i p entry w) v refl refl
      (dispose-Same i p entry w) (ok-injective h)

-- Every pack that is kept or recovered stands in the new index, and a blob of a pack to repack whose
-- id stands among the used ids is repacked.
pub run_packs-saves :
    (id : ℕ) (instant_delete : Bool) (time : ℕ) (packs : List PrunePack) (w v : Work)
    → run_packs instant_delete time packs w ≡ ok v
    → ((is_added id w || any (records id) packs) ≡ true → is_added id v ≡ true)
      × (is_due id w ≡ true
          → (is_repacked id w || any (repacks id) packs) ≡ true
          → is_repacked id v ≡ true)
unfolding run_packs run_pack
run_packs-saves id i t [] w v h =
    let e : w ≡ v = ok-injective h in
    (
      λ k. subst (λ x. is_added id x ≡ true) e (ground arith),
      λ d k. subst (λ x. is_repacked id x ≡ true) e (ground arith),
    )
run_packs-saves id i t (p ∷ packs) w v h =
    let (q, first, rest) = >>=-eq-ok (run_todo p.to_do i t p w) (run_packs i t packs) h in
    let (a, b, c) = run_todo-Step id p.to_do i t p w q first in
    let (a', b') = run_packs-saves id i t packs q v rest in (λ k. ground arith, λ d k. ground arith)
