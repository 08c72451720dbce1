-- ===== src/Prune/Used/Domain.antt =====
-- `from_pack` and the passes of `decide_packs` keep the ids of the used blobs.
use rustic_core.Base.{
  ℕ, zero, suc, ◌≡◌, Bool, true, Option, none, some, List, [], ◌∷◌, is_some, arith, refl, ◌∙◌, ap,
  ◌==◌,
}
use rustic_core.Base.AssocMap.{Map, get, update, get-update}
use rustic_core.PackFile.{IndexBlob}
use rustic_core.Prune.{PrunePack}
use rustic_core.Prune.Used.{
  Search, find_needed, remark_before, mark_after, from_pack, PackInfo, found_after, add_used,
  add_unused, remark, reprocess, no_info,
}
use rustic_core.Prune.Used.Marks.{step}

abbrev pub is_key : ℕ → Map ℕ → Bool
is_key id m = is_some (get m id)

update-is_key : (m : Map ℕ) (k w id : ℕ) → is_key id (update m k w) ≡ is_key id m
update-is_key m k w id =
    let s : (k == id) ≡ true → get m id ≡ get m k =
      λ t. let same : id ≡ k = ground arith in ap (get m) same in
    let g = get-update m k id w in ground arith

remark_before-is_key :
    (id : ℕ) (blobs : List IndexBlob) (pi : PackInfo) (m : Map ℕ)
    → is_key id (remark_before blobs (pi, m)).1 ≡ is_key id m
unfolding remark_before remark
remark_before-is_key id [] pi m = refl
remark_before-is_key id (blob ∷ blobs) pi m = ground (
  arith,
  remark_before-is_key id blobs pi m,
  remark_before-is_key id blobs (remark pi blob.location.length) (update m blob.id 0),
  update-is_key m blob.id 0 id,
)

mark_after-is_key :
    (id : ℕ) (blobs : List IndexBlob) (pi : PackInfo) (m : Map ℕ)
    → is_key id (mark_after blobs (pi, m)).1 ≡ is_key id m
unfolding mark_after add_used add_unused
mark_after-is_key id [] pi m = refl
mark_after-is_key id (blob ∷ blobs) pi m = ground (
  arith,
  mark_after-is_key id blobs (add_unused pi blob.location.length) m,
  mark_after-is_key id blobs (add_used pi blob.location.length) (update m blob.id 0),
  update-is_key m blob.id 0 id,
)

found_after-ids : (blob : IndexBlob) (r : Search) → (found_after blob r).1.1 ≡ r.1.1
unfolding found_after
found_after-ids blob (none, st) = refl
found_after-ids blob (some l, st) = refl

step-is_key :
    (id : ℕ) (blob : IndexBlob) (blobs : List IndexBlob) (pi : PackInfo) (m : Map ℕ)
    → ((q : PackInfo) (n : Map ℕ) → is_key id (find_needed blobs (q, n)).1.1 ≡ is_key id n)
    → (v : Option ℕ) → is_key id (step blob blobs pi m v).1.1 ≡ is_key id m
step-is_key id blob blobs pi m ih none =
    ap (is_key id)
      (found_after-ids blob (find_needed blobs (add_unused pi blob.location.length, m)))
    ∙ ih (add_unused pi blob.location.length) m
step-is_key id blob blobs pi m ih (some zero) =
    ap (is_key id)
      (found_after-ids blob (find_needed blobs (add_unused pi blob.location.length, m)))
    ∙ ih (add_unused pi blob.location.length) m
step-is_key id blob blobs pi m ih (some (suc zero)) = update-is_key m blob.id 0 id
step-is_key id blob blobs pi m ih (some (suc (suc c))) =
    ap (is_key id) (
      found_after-ids blob
        (find_needed blobs (add_unused pi blob.location.length, update m blob.id (suc c))))
    ∙ (ih (add_unused pi blob.location.length) (update m blob.id (suc c))
        ∙ update-is_key m blob.id (suc c) id)

find_needed-is_key :
    (id : ℕ) (blobs : List IndexBlob) (pi : PackInfo) (m : Map ℕ)
    → is_key id (find_needed blobs (pi, m)).1.1 ≡ is_key id m
unfolding find_needed
find_needed-is_key id [] pi m = refl
find_needed-is_key id (blob ∷ blobs) pi m =
    step-is_key id blob blobs pi m (find_needed-is_key id blobs) (get m blob.id)

reprocess-is_key : (id : ℕ) (r : Search) → is_key id (reprocess r).1 ≡ is_key id r.1.1
reprocess-is_key id (none, st) = refl
reprocess-is_key id (some (before, after), (pi, m)) =
    let st = remark_before before (pi, m) in
    mark_after-is_key id after st.0 st.1 ∙ remark_before-is_key id before pi m

pub from_pack-is_key :
    (pack : PrunePack) (m : Map ℕ) (id : ℕ) → is_key id (from_pack pack m).1 ≡ is_key id m
unfolding from_pack
from_pack-is_key pack m id =
    reprocess-is_key id (find_needed pack.blobs (no_info pack.blob_type, m))
    ∙ find_needed-is_key id pack.blobs (no_info pack.blob_type) m
