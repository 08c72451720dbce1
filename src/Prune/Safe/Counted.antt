-- ===== src/Prune/Safe/Counted.antt =====
-- `PrunePlan::count_used_blobs` and `check`: the counter of a used blob.
use rustic_core.Base.{
  ℕ, ◌+◌, ◌≤◌, ◌≡◌, true, false, Option, none, some, List, [], ◌∷◌, ◌==◌, arith, refl, ok, is_some,
  count-append, ap,
}
use rustic_core.Base.Word.{saturating_inc_u8}
use rustic_core.Base.AssocMap.{Map, get, update, get-update}
use rustic_core.PackFile.{IndexBlob}
use rustic_core.Prune.{PrunePack}
use rustic_core.Prune.Used.{count_used_blobs, check}
use rustic_core.Prune.Used.Marks.{occurrences, used}
use rustic_core.Prune.Plan.{all_blobs}
use rustic_core.Prune.Safe.{held}

abbrev count_step : List IndexBlob → Map ℕ → ℕ → Option ℕ → Map ℕ
count_step blobs m k none = count_used_blobs blobs m
count_step blobs m k (some c) = count_used_blobs blobs (update m k (saturating_inc_u8 c))

count_step-le :
    (b : IndexBlob) (blobs : List IndexBlob) (m : Map ℕ) (id : ℕ)
    → ((n : Map ℕ) → used (count_used_blobs blobs n) id ≤ used n id + occurrences id blobs)
    → (v : Option ℕ) → get m b.id ≡ v
    → used (count_step blobs m b.id v) id ≤ used m id + occurrences id (b ∷ blobs)
count_step-le b blobs m id ih none e = let h = ih m in ground arith
count_step-le b blobs m id ih (some c) e =
    let h = ih (update m b.id (saturating_inc_u8 c)) in
    let g = get-update m b.id id (saturating_inc_u8 c) in
    let s : (b.id == id) ≡ true → get m id ≡ get m b.id =
      λ t. let same : id ≡ b.id = ground arith in ap (get m) same in
    ground arith

-- A counter does not exceed the number of times that the packs have the blob.
pub count_used_blobs-le :
    (blobs : List IndexBlob) (m : Map ℕ) (id : ℕ)
    → used (count_used_blobs blobs m) id ≤ used m id + occurrences id blobs
unfolding count_used_blobs
count_used_blobs-le [] m id = ground arith
count_used_blobs-le (b ∷ blobs) m id =
    count_step-le b blobs m id (λ n. count_used_blobs-le blobs n id) (get m b.id) refl

count_step-some :
    (blobs : List IndexBlob) (m : Map ℕ) (k id : ℕ)
    → ((n : Map ℕ) → is_some (get n id) ≡ true → is_some (get (count_used_blobs blobs n) id) ≡ true)
    → is_some (get m id) ≡ true
    → (v : Option ℕ) → get m k ≡ v
    → is_some (get (count_step blobs m k v) id) ≡ true
count_step-some blobs m k id ih h none e = ih m h
count_step-some blobs m k id ih h (some c) e =
    let g = get-update m k id (saturating_inc_u8 c) in
    ih (update m k (saturating_inc_u8 c)) (ground arith)

-- No id is lost by the count.
pub count_used_blobs-some :
    (blobs : List IndexBlob) (m : Map ℕ) (id : ℕ)
    → is_some (get m id) ≡ true
    → is_some (get (count_used_blobs blobs m) id) ≡ true
unfolding count_used_blobs
count_used_blobs-some [] m id h = h
count_used_blobs-some (b ∷ blobs) m id h =
    count_step-some blobs m b.id id (λ n k. count_used_blobs-some blobs n id k) h (get m b.id) refl

pub check-used : (m : Map ℕ) (id : ℕ) → check m ≡ ok tt → is_some (get m id) ≡ true → 1 ≤ used m id
unfolding check get
check-used [] id h e = ground arith
check-used ((i, c) ∷ m) id h e = ground (arith, check-used m id)

-- Every pack is marked or not.
pub held-all_blobs :
    (packs : List PrunePack) (id : ℕ)
    → held true id packs + held false id packs ≡ occurrences id (all_blobs packs)
unfolding all_blobs
held-all_blobs [] id = omega arith
held-all_blobs (p ∷ packs) id =
    ground
      (arith, held-all_blobs packs id, count-append (λ b. b.id == id) p.blobs (all_blobs packs))
