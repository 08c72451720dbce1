-- ===== src/Prune/Used/Marks.antt =====
-- What `from_pack` does to the counter of a blob.
use rustic_core.Base.{
  ℕ, ◌≡◌, Bool, true, false, none, some, List, [], ◌∷◌, ◌==◌, if◌then◌else◌, count, unwrap_or,
  arith, ◌-◌, ◌⊎◌, Option, ◌<◌, ◌≤◌, suc, ◌+◌, Bool-cases, inl, zero, inr, refl, ◌∙◌, ap,
}
use rustic_core.Base.AssocMap.{Map, get, update, get-update}
use rustic_core.PackFile.{IndexBlob}
use rustic_core.Prune.Used.{
  reprocess, add_used, add_unused, remark, Search, remark_before, mark_after, PackInfo, found_after,
  find_needed,
}

-- The counter of a blob that is used, 0 for any other.
abbrev pub used : Map ℕ → ℕ → ℕ
used m id = unwrap_or (get m id) 0

abbrev pub occurrences : ℕ → List IndexBlob → ℕ
occurrences id blobs = count (λ b. b.id == id) blobs

abbrev pub is_found : Search → Bool
is_found (none, st) = false
is_found (some l, st) = true

used-update :
    (m : Map ℕ) (k j w : ℕ) (c : ℕ)
    → get m k ≡ some c
    → used (update m k w) j ≡ (if k == j then w else used m j)
used-update m k j w c h = ground (arith, get-update m k j w)

remark_before-used :
    (id : ℕ) (blobs : List IndexBlob) (pi : PackInfo) (m : Map ℕ)
    → used (remark_before blobs (pi, m)).1 id ≡ (if occurrences id blobs == 0 then used m id else 0)
unfolding remark_before remark
remark_before-used id [] pi m = ground arith
remark_before-used id (blob ∷ blobs) pi m = ground (
  arith,
  remark_before-used id blobs pi m,
  remark_before-used id blobs (remark pi blob.location.length) (update m blob.id 0),
  get-update m blob.id id 0,
)

mark_after-used :
    (id : ℕ) (blobs : List IndexBlob) (pi : PackInfo) (m : Map ℕ)
    → used (mark_after blobs (pi, m)).1 id ≡ (if occurrences id blobs == 0 then used m id else 0)
unfolding mark_after add_used add_unused
mark_after-used id [] pi m = ground arith
mark_after-used id (blob ∷ blobs) pi m = ground (
  arith,
  mark_after-used id blobs (add_unused pi blob.location.length) m,
  mark_after-used id blobs (add_used pi blob.location.length) (update m blob.id 0),
  get-update m blob.id id 0,
)

used-same : (m : Map ℕ) (k j : ℕ) → (k == j) ≡ true → used m j ≡ used m k
used-same m k j h = let e : j ≡ k = ground arith in ap (used m) e

abbrev Effect : ℕ → ℕ → List IndexBlob → Search → Type 0
Effect id u blobs (none, (pi, m)) =
    (used m id ≡ u - occurrences id blobs) × ((u ≡ 0) ⊎ (occurrences id blobs < u))
Effect id u blobs (some (before, after), (pi, m)) =
    (h : ℕ) × (occurrences id blobs ≡ occurrences id before + h + occurrences id after)
    × ((h ≡ 0) ⊎ (used m id ≡ 0))
    × (occurrences id before ≡ 0 → h ≡ 0 → used m id ≡ u)

found_after-Effect :
    (id u v : ℕ) (blob : IndexBlob) (blobs : List IndexBlob) (r : Search)
    → Effect id v blobs r
    → v ≡ (if blob.id == id then u - 1 else u)
    → ((blob.id == id) ≡ true → (u ≡ 0) ⊎ (2 ≤ u))
    → Effect id u (blob ∷ blobs) (found_after blob r)
unfolding found_after
found_after-Effect id u v blob blobs (none, (pi, m)) e h k = ground arith
found_after-Effect id u v blob blobs (some (before, after), (pi, m)) (n, o, z, f) h k =
    elim (Bool-cases (blob.id == id)) [
      | inl c ↦ (n, ground arith, z, λ b i. absurd (ground arith))
      | inr c ↦ (n, ground arith, z, λ b i. f (ground arith) i ∙ ground arith)
    ]

-- A step of the search, by the counter of the blob.
abbrev pub step : IndexBlob → List IndexBlob → PackInfo → Map ℕ → Option ℕ → Search
step blob blobs pi m none =
    found_after blob (find_needed blobs (add_unused pi blob.location.length, m))
step blob blobs pi m (some zero) =
    found_after blob (find_needed blobs (add_unused pi blob.location.length, m))
step blob blobs pi m (some (suc zero)) =
    (some ([], blobs), (add_used pi blob.location.length, update m blob.id 0))
step blob blobs pi m (some (suc (suc c))) =
    found_after blob
      (find_needed blobs (add_unused pi blob.location.length, update m blob.id (suc c)))

step-Effect :
    (id : ℕ) (blob : IndexBlob) (blobs : List IndexBlob) (pi : PackInfo) (m : Map ℕ)
    → ((q : PackInfo) (n : Map ℕ) → Effect id (used n id) blobs (find_needed blobs (q, n)))
    → (v : Option ℕ) → get m blob.id ≡ v
    → Effect id (used m id) (blob ∷ blobs) (step blob blobs pi m v)
step-Effect id blob blobs pi m ih none e =
    found_after-Effect id (used m id) (used m id) blob blobs
      (find_needed blobs (add_unused pi blob.location.length, m))
      (ih (add_unused pi blob.location.length) m) (ground (arith, used-same m blob.id id))
      (λ h. inl (used-same m blob.id id h ∙ rw e refl))
step-Effect id blob blobs pi m ih (some zero) e =
    found_after-Effect id (used m id) (used m id) blob blobs
      (find_needed blobs (add_unused pi blob.location.length, m))
      (ih (add_unused pi blob.location.length) m) (ground (arith, used-same m blob.id id))
      (λ h. inl (used-same m blob.id id h ∙ rw e refl))
step-Effect id blob blobs pi m ih (some (suc zero)) e =
    let u = used-update m blob.id id 0 1 e in
    let v = used-same m blob.id id in
    elim (Bool-cases (blob.id == id)) [
      | inl c ↦ (1, ground arith, inr (ground arith), λ b i. absurd (ground arith))
      | inr c ↦ (0, ground arith, inl refl, λ b i. ground arith)
    ]
step-Effect id blob blobs pi m ih (some (suc (suc c))) e =
    let u = used-update m blob.id id (suc c) (suc (suc c)) e in
    let v = used-same m blob.id id in
    found_after-Effect id (used m id) (used (update m blob.id (suc c)) id) blob blobs
      (find_needed blobs (add_unused pi blob.location.length, update m blob.id (suc c)))
      (ih (add_unused pi blob.location.length) (update m blob.id (suc c))) (ground arith)
      (λ h. inr (ground arith))

pub find_needed-Effect :
    (id : ℕ) (blobs : List IndexBlob) (pi : PackInfo) (m : Map ℕ)
    → Effect id (used m id) blobs (find_needed blobs (pi, m))
unfolding find_needed
find_needed-Effect id [] pi m = ground arith
find_needed-Effect id (blob ∷ blobs) pi m =
    step-Effect id blob blobs pi m (find_needed-Effect id blobs) (get m blob.id) refl

-- The counter of a blob after `from_pack`: 0 if it is in a pack that is needed; otherwise the pack
-- takes from it the number of times that it has the blob, and the counter stays above 0.
abbrev pub Marked : ℕ → ℕ → List IndexBlob → Bool → ℕ → Type 0
Marked id u blobs false v = (v ≡ u - occurrences id blobs) × ((u ≡ 0) ⊎ (occurrences id blobs < u))
Marked id u blobs true v = v ≡ (if occurrences id blobs == 0 then u else 0)

pub reprocess-Marked :
    (id u : ℕ) (blobs : List IndexBlob) (r : Search)
    → Effect id u blobs r
    → Marked id u blobs (is_found r) (used (reprocess r).1 id)
reprocess-Marked id u blobs (none, (pi, m)) e = e
reprocess-Marked id u blobs (some (before, after), (pi, m)) (h, o, z, f) =
    let st = remark_before before (pi, m) in
    let a = mark_after-used id after st.0 st.1 in
    let b = remark_before-used id before pi m in ground arith
