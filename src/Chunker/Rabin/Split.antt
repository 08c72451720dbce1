-- ===== src/Chunker/Rabin/Split.antt =====
-- The first chunk of a list of bytes: where it ends, and how large it is.
use mathlib.Core.List.{append_assoc, append-nil}
use rustic_core.Base.{
  take-drop-id, ℕ, ◌≡◌, ◌≤◌, ◌<◌, inl, inr, false, List, [], ◌∷◌, ◌++◌, length, length-append, take,
  drop, length-drop, ltb, if◌then◌else◌, arith, refl, ◌∙◌, Bool-cases, length-take,
}
use rustic_core.Chunker.Reader.{}
use rustic_core.Chunker.Pieces.{IsSplit}
use rustic_core.Chunker.Rabin.{Rabin, stops, last_64}
use rustic_core.Chunker.Rabin.Cut.{cut_list}

module _ {W : Type 0} (rabin : Rabin W) (split_mask max_size : ℕ) where
  abbrev cuts : List ℕ → W → List ℕ → List ℕ × List ℕ
  cuts = cut_list rabin split_mask max_size

  cut_list_whole :
      (vec : List ℕ) (w : W) (l : List ℕ) → (cuts vec w l).0 ++ (cuts vec w l).1 ≡ vec ++ l
  cut_list_whole vec w [] = refl
  cut_list_whole vec w (b ∷ bs) = elim (Bool-cases (stops rabin split_mask max_size vec w)) [
    | inl h ↦ rw h refl
    | inr h ↦
        rw h (cut_list_whole (vec ++ b ∷ []) (rabin.slide w b) bs ∙ append_assoc vec (b ∷ []) bs)
  ]

  cut_list_rest : (vec : List ℕ) (w : W) (l : List ℕ) → length (cuts vec w l).1 ≤ length l
  cut_list_rest vec w [] = omega arith
  cut_list_rest vec w (b ∷ bs) = ground (arith, cut_list_rest (vec ++ b ∷ []) (rabin.slide w b) bs)

  goes-lt :
      (vec : List ℕ) (w : W)
      → length vec ≤ max_size
      → stops rabin split_mask max_size vec w ≡ false
      → length vec < max_size
  unfolding stops
  goes-lt vec w h e = ground arith

  cut_list_bounds :
      (vec : List ℕ) (w : W) (l : List ℕ)
      → length vec ≤ max_size
      → (length vec ≤ length (cuts vec w l).0) × (length (cuts vec w l).0 ≤ max_size)
  cut_list_bounds vec w [] h = (omega arith, h)
  cut_list_bounds vec w (b ∷ bs) h = elim (Bool-cases (stops rabin split_mask max_size vec w)) [
    | inl e ↦ rw e (omega arith, h)
    | inr e ↦
        let g = goes-lt vec w h e in
        let n = length-append vec (b ∷ []) in
        let r = cut_list_bounds (vec ++ b ∷ []) (rabin.slide w b) bs (omega arith) in
        rw e (omega arith, omega arith)
  ]

  -- The first chunk of the bytes, and the rest.
  abbrev pub split_first : ℕ → List ℕ → List ℕ × List ℕ
  split_first min_size l =
      if ltb (length l) min_size
      then (l, [])
      else cuts (take min_size l) (rabin.prefill (last_64 rabin (take min_size l)))
          (drop min_size l)

  pub split_first-IsSplit : (min_size : ℕ) → 0 < min_size → IsSplit (split_first min_size)
  split_first-IsSplit min_size pos = record { whole = whole; progress = progress }
    where
      whole : (l : List ℕ) → (split_first min_size l).0 ++ (split_first min_size l).1 ≡ l
      whole l = elim (Bool-cases (ltb (length l) min_size)) [
        | inl h ↦ rw h (append-nil l)
        | inr h ↦
            rw h (cut_list_whole (take min_size l) _ (drop min_size l) ∙ take-drop-id min_size l)
      ]

      progress : (l : List ℕ) → 1 ≤ length l → length (split_first min_size l).1 < length l
      progress l k = elim (Bool-cases (ltb (length l) min_size)) [
        | inl h ↦ rw h (omega arith)
        | inr h ↦
            let r =
              cut_list_rest (take min_size l) (rabin.prefill (last_64 rabin (take min_size l)))
                (drop min_size l) in
            rw h (omega (arith, length-drop min_size l))
      ]

  pub split_first_bounds :
      (min_size : ℕ) (l : List ℕ)
      → min_size ≤ max_size
      → 0 < min_size
      → 1 ≤ length l
      → (1 ≤ length (split_first min_size l).0) × (length (split_first min_size l).0 ≤ max_size)
  split_first_bounds min_size l m p k = elim (Bool-cases (ltb (length l) min_size)) [
    | inl h ↦ rw h (k, ground arith)
    | inr h ↦
        let n = length-take min_size l in
        let (a, b) =
          cut_list_bounds (take min_size l) (rabin.prefill (last_64 rabin (take min_size l)))
            (drop min_size l) (omega arith) in
        rw h (ground arith, b)
  ]
