-- ===== src/Prune/Safe/Checks.antt =====
-- What `check_existing_packs` makes sure of.
use rustic_core.Base.{
  ok-injective, ℕ, ◌≡◌, ◌⊎◌, Bool, true, false, ◌||◌, ◌&&◌, List, [], ◌∷◌, any, ◌==◌, arith, refl,
  ◌∙◌, inl, inr, Bool-cases, ok, >>=-eq-ok, ap, sym,
}
use rustic_core.Base.AssocMap.{Map, get, remove, get-remove}
use rustic_core.PackFile.{IndexBlob}
use rustic_core.Prune.{PrunePack, PackToDo, same_todo}
use rustic_core.Prune.Check.{
  Checked, remove_blobs, check_pack, check_packs, check_todo, size_matches,
}
use rustic_core.Prune.Safe.{keeps, spares, has_blob}

-- The pack goes into the new index, with the blob.
abbrev pub records : ℕ → PrunePack → Bool
records id p =
    (same_todo p.to_do PackToDo.keep || same_todo p.to_do PackToDo.recover) && has_blob id p.blobs

-- The pack is repacked, and has the blob.
abbrev pub repacks : ℕ → PrunePack → Bool
repacks id p = same_todo p.to_do PackToDo.repack && has_blob id p.blobs

remove_blobs-get :
    (id : ℕ) (blobs : List IndexBlob) (m : Map ℕ)
    → has_blob id blobs ≡ false
    → get (remove_blobs blobs m) id ≡ get m id
unfolding remove_blobs
remove_blobs-get id [] m h = refl
remove_blobs-get id (b ∷ blobs) m h =
    let e : (b.id == id) ≡ false = ground arith in
    remove_blobs-get id blobs (remove m b.id) (ground arith) ∙ (get-remove m b.id id ∙ rw e refl)

settle :
    (id : ℕ) (todo : PackToDo) (blobs : List IndexBlob)
    → same_todo todo PackToDo.undecided ≡ false
    → (spares todo && has_blob id blobs) ≡ (
        ((same_todo todo PackToDo.keep || same_todo todo PackToDo.recover) && has_blob id blobs)
        || (same_todo todo PackToDo.repack && has_blob id blobs))
settle id PackToDo.undecided blobs h = absurd (ground arith)
settle id PackToDo.keep blobs h = ground arith
settle id PackToDo.repack blobs h = ground arith
settle id PackToDo.recover blobs h = ground arith
settle id _ blobs h = refl

-- What is known of a pack that passes the check.
abbrev Checks : ℕ → PackToDo → List IndexBlob → Map ℕ → Checked → Type 0
Checks id t blobs used_ids r =
    (same_todo t PackToDo.undecided ≡ false)
    × (((same_todo t PackToDo.keep || same_todo t PackToDo.recover) && has_blob id blobs) ≡ false
        → get r.0 id ≡ get used_ids id)

same_state : (id : ℕ) (st r : Checked) → ok st ≡ ok r → get r.0 id ≡ get st.0 id
same_state id st r h = ap (λ (x : Checked). get x.0 id) (sym (ok-injective h))

removed_state :
    (id : ℕ) (blobs : List IndexBlob) (st r : Checked)
    → ok (remove_blobs blobs st.0, st.1) ≡ ok r
    → has_blob id blobs ≡ false
    → get r.0 id ≡ get st.0 id
removed_state id blobs st r h e =
    same_state id (remove_blobs blobs st.0, st.1) r h ∙ remove_blobs-get id blobs st.0 e

check_todo-Checks :
    (id : ℕ) (t : PackToDo) (sized : Bool) (blobs : List IndexBlob) (st r : Checked)
    → check_todo t sized blobs st ≡ ok r
    → Checks id t blobs st.0 r
unfolding check_todo
check_todo-Checks id PackToDo.undecided sized blobs st r h = absurd (ground arith)
check_todo-Checks id PackToDo.keep true blobs st r h = (refl, λ e. removed_state id blobs st r h e)
check_todo-Checks id PackToDo.keep false blobs st r h = absurd (ground arith)
check_todo-Checks id PackToDo.recover true blobs st r h =
    (refl, λ e. removed_state id blobs st r h e)
check_todo-Checks id PackToDo.recover false blobs st r h = absurd (ground arith)
check_todo-Checks id PackToDo.repack true blobs st r h = (refl, λ e. same_state id st r h)
check_todo-Checks id PackToDo.repack false blobs st r h = absurd (ground arith)
check_todo-Checks id PackToDo.mark_delete sized blobs st r h = (refl, λ e. same_state id st r h)
check_todo-Checks id PackToDo.delete sized blobs st r h = (refl, λ e. same_state id st r h)
check_todo-Checks id PackToDo.keep_marked sized blobs st r h = (refl, λ e. same_state id st r h)
check_todo-Checks id PackToDo.keep_marked_and_correct sized blobs st r h =
    (refl, λ e. same_state id st r h)

check_pack-Checks :
    (id : ℕ) (p : PrunePack) (st r : Checked)
    → check_pack p st ≡ ok r
    → Checks id p.to_do p.blobs st.0 r
unfolding check_pack
check_pack-Checks id p (used_ids, existing) r h =
    check_todo-Checks id p.to_do (size_matches (get existing p.id) p.size) p.blobs
      (used_ids, remove existing p.id) r h

-- The blob is in a pack for the new index; or the packs that keep it are those to repack, and its
-- counter is as before.
abbrev pub Secured : ℕ → List PrunePack → Map ℕ → Map ℕ → Type 0
Secured id packs before after =
    (any (records id) packs ≡ true)
    ⊎ ((any (repacks id) packs ≡ any (keeps id) packs) × (get after id ≡ get before id))

-- After a check that succeeds, a blob is in a pack for the new index, or else a pack keeps the blob
-- exactly if a pack to repack has it, and the entry of its id among the used ids is as before.
pub check_packs-Secured :
    (id : ℕ) (packs : List PrunePack) (st r : Checked)
    → check_packs packs st ≡ ok r
    → Secured id packs st.0 r.0
unfolding check_packs
check_packs-Secured id [] st r h = inr (refl, same_state id st r h)
check_packs-Secured id (p ∷ packs) st r h =
    let (q, first, rest) = >>=-eq-ok (check_pack p st) (check_packs packs) h in
    let (decided, same) = check_pack-Checks id p st q first in
    let s = settle id p.to_do p.blobs decided in
    let ih = check_packs-Secured id packs q r rest in
    elim (Bool-cases (records id p)) [
      | inl e ↦ inl (ground arith)
      | inr e ↦ elim ih [ inl a ↦ inl (ground arith) | inr (a, b) ↦ inr (ground arith, b ∙ same e) ]
    ]

-- No pack is undecided.
pub check_packs-decided :
    (packs : List PrunePack) (st r : Checked)
    → check_packs packs st ≡ ok r
    → any (λ p. same_todo p.to_do PackToDo.undecided) packs ≡ false
unfolding check_packs
check_packs-decided [] st r h = refl
check_packs-decided (p ∷ packs) st r h =
    let (q, first, rest) = >>=-eq-ok (check_pack p st) (check_packs packs) h in
    let (decided, same) = check_pack-Checks 0 p st q first in
    let ih = check_packs-decided packs q r rest in ground arith
