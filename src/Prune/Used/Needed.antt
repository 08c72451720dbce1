-- ===== src/Prune/Used/Needed.antt =====
-- When `from_pack` counts a used blob.
use rustic_core.Base.{
  ℕ, zero, suc, ◌+◌, ◌≤◌, ◌<◌, ◌≡◌, Option, none, some, List, [], ◌∷◌, ◌==◌, length, arith, not,
  refl, subst,
}
use rustic_core.Base.Word.{add_u16, u16_mod}
use rustic_core.Base.AssocMap.{Map, get, update}
use rustic_core.PackFile.{IndexBlob}
use rustic_core.Prune.{PrunePack}
use rustic_core.Prune.Used.{
  no_info, reprocess, Search, find_needed, remark_before, mark_after, from_pack, PackInfo,
  found_after, add_used, add_unused, remark,
}
use rustic_core.Prune.Used.Marks.{
  step, is_found, used, Marked, reprocess-Marked, find_needed-Effect,
}

-- A number that stays above 0 and grows by one a blob at most.
abbrev Grows : ℕ → List IndexBlob → ℕ → Type 0
Grows a blobs b = a + length blobs < u16_mod → (a ≤ b) × (b ≤ a + length blobs)

remark_before-Grows :
    (blobs : List IndexBlob) (pi : PackInfo) (m : Map ℕ)
    → Grows pi.used_blobs blobs (remark_before blobs (pi, m)).0.used_blobs
unfolding remark_before remark
remark_before-Grows [] pi m h = ground arith
remark_before-Grows (blob ∷ blobs) pi m h = ground (
  arith,
  remark_before-Grows blobs pi m,
  remark_before-Grows blobs (remark pi blob.location.length) (update m blob.id 0),
)

mark_after-Grows :
    (blobs : List IndexBlob) (pi : PackInfo) (m : Map ℕ)
    → Grows pi.used_blobs blobs (mark_after blobs (pi, m)).0.used_blobs
unfolding mark_after add_used add_unused
mark_after-Grows [] pi m h = ground arith
mark_after-Grows (blob ∷ blobs) pi m h = ground (
  arith,
  mark_after-Grows blobs (add_unused pi blob.location.length) m,
  mark_after-Grows blobs (add_used pi blob.location.length) (update m blob.id 0),
)

abbrev Split : ℕ → List IndexBlob → Search → Type 0
Split a blobs (none, (pi, m)) = pi.used_blobs ≡ a
Split a blobs (some (before, after), (pi, m)) =
    (length blobs ≡ length before + suc (length after)) × (pi.used_blobs ≡ add_u16 a 1)

found_after-Split :
    (a : ℕ) (blob : IndexBlob) (blobs : List IndexBlob) (r : Search)
    → Split a blobs r
    → Split a (blob ∷ blobs) (found_after blob r)
unfolding found_after
found_after-Split a blob blobs (none, (pi, m)) h = h
found_after-Split a blob blobs (some (before, after), (pi, m)) (h, k) = (omega arith, k)

step-Split :
    (blob : IndexBlob) (blobs : List IndexBlob) (pi : PackInfo) (m : Map ℕ)
    → ((q : PackInfo) (n : Map ℕ) → Split q.used_blobs blobs (find_needed blobs (q, n)))
    → (v : Option ℕ) → Split pi.used_blobs (blob ∷ blobs) (step blob blobs pi m v)
unfolding add_used add_unused
step-Split blob blobs pi m ih none =
    found_after-Split pi.used_blobs blob blobs
      (find_needed blobs (add_unused pi blob.location.length, m))
      (ih (add_unused pi blob.location.length) m)
step-Split blob blobs pi m ih (some zero) =
    found_after-Split pi.used_blobs blob blobs
      (find_needed blobs (add_unused pi blob.location.length, m))
      (ih (add_unused pi blob.location.length) m)
step-Split blob blobs pi m ih (some (suc zero)) = (omega arith, refl)
step-Split blob blobs pi m ih (some (suc (suc c))) =
    found_after-Split pi.used_blobs blob blobs
      (find_needed blobs (add_unused pi blob.location.length, update m blob.id (suc c)))
      (ih (add_unused pi blob.location.length) (update m blob.id (suc c)))

find_needed-Split :
    (blobs : List IndexBlob) (pi : PackInfo) (m : Map ℕ)
    → Split pi.used_blobs blobs (find_needed blobs (pi, m))
unfolding find_needed
find_needed-Split [] pi m = refl
find_needed-Split (blob ∷ blobs) pi m =
    step-Split blob blobs pi m (find_needed-Split blobs) (get m blob.id)

reprocess-used_blobs :
    (blobs : List IndexBlob) (r : Search)
    → length blobs < u16_mod
    → Split 0 blobs r
    → is_found r ≡ not ((reprocess r).0.used_blobs == 0)
reprocess-used_blobs blobs (none, (pi, m)) h k = ground arith
reprocess-used_blobs blobs (some (before, after), (pi, m)) h (k, l) =
    let st = remark_before before (pi, m) in
    let a = mark_after-Grows after st.0 st.1 in
    let b = remark_before-Grows before pi m in ground arith

-- `from_pack` of a pack with less than 2^16 blobs: if it counts a used blob, the counter of every
-- blob of the pack becomes 0, and that of any other blob stays. Otherwise the pack takes from a
-- counter the number of times that it has the blob, and a counter that was above 0 stays so.
pub from_pack-Marked :
    (pack : PrunePack) (m : Map ℕ) (id : ℕ)
    → length pack.blobs < u16_mod
    → Marked id
        (used m id)
        pack.blobs
        (not ((from_pack pack m).0.used_blobs == 0))
        (used (from_pack pack m).1 id)
unfolding from_pack
from_pack-Marked pack m id h =
    let r = find_needed pack.blobs (no_info pack.blob_type, m) in
    subst (λ b. Marked id (used m id) pack.blobs b (used (reprocess r).1 id))
      (reprocess-used_blobs pack.blobs r h
        (find_needed-Split pack.blobs (no_info pack.blob_type) m))
      (reprocess-Marked id (used m id) pack.blobs r
        (find_needed-Effect id pack.blobs (no_info pack.blob_type) m))
