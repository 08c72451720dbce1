-- ===== src/Base/Search.antt =====
-- `slice::binary_search_by_key` of the standard library, on sorted lists.
use rustic_core.Base.Tests.{ltb, ◌==◌, if◌then◌else◌, Bool-cases, ltb→lt, ==_iff}
use rustic_core.Base.Lists.{length, get_elem?, All, any}
use rustic_core.Base.Sorting.{insert_by, sort_by}
use Prim.Native.Nat.{ℕ, zero, suc, ◌+◌, ◌-◌, ◌/◌, ◌≤◌, ◌<◌}
use mathlib.Core.Path.{◌≡◌, refl, ◌∙◌}
use mathlib.Core.Logic.{◌⊎◌, inl, inr}
use mathlib.Core.Bool.{Bool, false}
use mathlib.Core.List.{List, [], ◌∷◌}
use mathlib.Core.Option.{Option, none, some}
use native.Mathlib.Omega.{arith}
use native.Mathlib.Decide.{dec_lt}

-- The last position whose key is not above `k`, or the first position. The fuel is the size.
search_loop : ℕ → (ℕ → ℕ) → ℕ → ℕ → ℕ → ℕ
search_loop zero keys k size base = base
search_loop (suc fuel) keys k size base =
    let half = size / 2 in
    let next = if ltb k (keys (base + half)) then base else base + half in
    let rest = search_loop fuel keys k (size - half) next in if ltb 1 size then rest else base

abbrev IsMonotone : (ℕ → ℕ) → ℕ → Type 0
IsMonotone keys n = (i j : ℕ) → i ≤ j → j < n → keys i ≤ keys j

-- The keys up to the position are not above `k`, unless it is the first; those behind it are.
abbrev Splits : (ℕ → ℕ) → ℕ → ℕ → ℕ → ℕ → Type 0
Splits keys k n base end' =
    (base < n) × ((base ≡ 0) ⊎ (keys base ≤ k)) × ((j : ℕ) → end' ≤ j → j < n → k < keys j)

search_loop-Splits :
    (fuel : ℕ) (keys : ℕ → ℕ) (k n size base : ℕ)
    → size ≤ suc fuel
    → 1 ≤ size
    → base + size ≤ n
    → Splits keys k n base (base + size)
    → IsMonotone keys n
    → Splits keys k n (search_loop fuel keys k size base) (suc (search_loop fuel keys k size base))
unfolding search_loop
search_loop-Splits zero keys k n size base f p e (b, lo, hi) m =
    (b, lo, λ j x y. hi j (omega arith) y)
search_loop-Splits (suc fuel) keys k n size base f p e (b, lo, hi) m =
    elim (Bool-cases (ltb 1 size)) [
      | inr done ↦ rw done (b, lo, λ j x y. hi j (ground arith) y)
      | inl more ↦ elim (Bool-cases (ltb k (keys (base + size / 2)))) [
        | inl above ↦
            rw (more, above)
              (search_loop-Splits fuel keys k n (size - size / 2) base (ground arith) (ground arith)
                (ground arith)
                (
                  b,
                  lo,
                  λ j x y.
                      let s = m (base + size / 2) j (ground arith) y in
                      let t = ltb→lt k (keys (base + size / 2)) above in omega arith,
                )
                m)
        | inr below ↦
            rw (more, below)
              (search_loop-Splits fuel keys k n (size - size / 2) (base + size / 2) (ground arith)
                (ground arith) (ground arith)
                (ground arith, inr (ground arith), λ j x y. hi j (ground arith) y) m)
      ]
    ]

module _ {ℓ} {A : Type ℓ} (key : A → ℕ) where
  -- The keys by position, 0 behind the end.
  abbrev key_at : List A → ℕ → ℕ
  key_at [] i = 0
  key_at (x ∷ xs) zero = key x
  key_at (x ∷ xs) (suc i) = key_at xs i

  unfoldable pub binary_search_by_key : ℕ → List A → Option ℕ
  unfolding search_loop
  binary_search_by_key k xs =
      let i = search_loop (length xs) (key_at xs) k (length xs) 0 in
      if length xs == 0 then none else if key_at xs i == k then some i else none

  abbrev pub IsSorted : List A → Type 0
  IsSorted [] = Unit
  IsSorted (x ∷ xs) = All (λ y. key x ≤ key y) xs × IsSorted xs

  All-key_at :
      (k : ℕ) (xs : List A) (j : ℕ) → All (λ y. k ≤ key y) xs → j < length xs → k ≤ key_at xs j
  All-key_at k [] j h e = absurd (omega arith)
  All-key_at k (x ∷ xs) zero h e = h.0
  All-key_at k (x ∷ xs) (suc j) h e = All-key_at k xs j h.1 (omega arith)

  IsSorted-IsMonotone : (xs : List A) → IsSorted xs → IsMonotone (key_at xs) (length xs)
  IsSorted-IsMonotone [] s i j e f = absurd (omega arith)
  IsSorted-IsMonotone (x ∷ xs) s zero zero e f = omega arith
  IsSorted-IsMonotone (x ∷ xs) s zero (suc j) e f = All-key_at (key x) xs j s.0 (omega arith)
  IsSorted-IsMonotone (x ∷ xs) s (suc i) zero e f = absurd (omega arith)
  IsSorted-IsMonotone (x ∷ xs) s (suc i) (suc j) e f =
      IsSorted-IsMonotone xs s.1 i j (omega arith) (omega arith)

  -- The insertion keeps order and elements.
  All-insert_by {κ} :
      (P : A → Type κ) (lt : A → A → Bool) (a : A) (bs : List A)
      → P a
      → All P bs
      → All P (insert_by lt a bs)
  unfolding insert_by
  All-insert_by P lt a [] h hs = (h, tt)
  All-insert_by P lt a (b ∷ bs) h hs = elim (Bool-cases (lt b a)) [
    | inl e ↦ rw e (hs.0, All-insert_by P lt a bs h hs.1)
    | inr e ↦ rw e (h, hs)
  ]

  pub All-sort_by {κ} :
      (P : A → Type κ) (lt : A → A → Bool) (as' : List A) → All P as' → All P (sort_by lt as')
  unfolding sort_by
  All-sort_by P lt [] h = tt
  All-sort_by P lt (a ∷ rest) h =
      All-insert_by P lt a (sort_by lt rest) h.0 (All-sort_by P lt rest h.1)

  -- The order of the keys.
  abbrev pub key_less : A → A → Bool
  key_less a b = ltb (key a) (key b)

  All_le : (k l : ℕ) (xs : List A) → k ≤ l → All (λ y. l ≤ key y) xs → All (λ y. k ≤ key y) xs
  All_le k l [] e h = tt
  All_le k l (x ∷ xs) e h = (omega arith, All_le k l xs e h.1)

  insert_by-IsSorted : (a : A) (bs : List A) → IsSorted bs → IsSorted (insert_by key_less a bs)
  unfolding insert_by
  insert_by-IsSorted a [] s = (tt, tt)
  insert_by-IsSorted a (b ∷ bs) s = elim (Bool-cases (key_less b a)) [
    | inl e ↦ rw e (
      All-insert_by (λ y. key b ≤ key y) key_less a bs (ground arith) s.0,
      insert_by-IsSorted a bs s.1,
    )
    | inr e ↦ rw e ((ground arith, All_le (key a) (key b) bs (ground arith) s.0), s)
  ]

  pub sort_by-IsSorted : (as' : List A) → IsSorted (sort_by key_less as')
  unfolding sort_by
  sort_by-IsSorted [] = tt
  sort_by-IsSorted (a ∷ rest) = insert_by-IsSorted a (sort_by key_less rest) (sort_by-IsSorted rest)

  -- A position that a search may answer with.
  abbrev pub Found : ℕ → List A → Option ℕ → Type ℓ
  Found k xs r =
      ((r ≡ none) × (any (λ x. key x == k) xs ≡ false))
      ⊎ ((i : ℕ) × (a : A) × (r ≡ some i) × (get_elem? xs i ≡ some a) × (key a ≡ k))

  get_elem?-key_at :
      (xs : List A) (i : ℕ)
      → i < length xs
      → (a : A) × (get_elem? xs i ≡ some a) × (key a ≡ key_at xs i)
  get_elem?-key_at [] i h = absurd (omega arith)
  get_elem?-key_at (x ∷ xs) zero h = (x, refl, refl)
  get_elem?-key_at (x ∷ xs) (suc i) h = get_elem?-key_at xs i (omega arith)

  not_any :
      (k : ℕ) (xs : List A)
      → ((j : ℕ) → j < length xs → (key_at xs j == k) ≡ false)
      → any (λ x. key x == k) xs ≡ false
  not_any k [] h = refl
  not_any k (x ∷ xs) h =
      let r = not_any k xs (λ j e. h (suc j) (omega arith)) in
      let z = h 0 (omega arith) in ground arith

  no_match :
      (n k i j : ℕ) (keys : ℕ → ℕ)
      → IsMonotone keys n
      → Splits keys k n i (suc i)
      → (keys i == k) ≡ false
      → j < n
      → (keys j == k) ≡ false
  no_match n k i j keys m (b, inl z, hi) e f = elim (dec_lt i j) [
    | yes p ↦ let t = hi j (omega arith) f in ground arith
    | no p ↦ let q : j ≡ i = omega arith in rw q e
  ]
  no_match n k i j keys m (b, inr lo, hi) e f = elim (dec_lt i j) [
    | yes p ↦ let t = hi j (omega arith) f in ground arith
    | no p ↦ let t = m j i (omega arith) b in ground arith
  ]

  -- In a sorted list the search finds an element with the key exactly if there is one.
  pub binary_search_by_key-Found :
      (k : ℕ) (xs : List A) → IsSorted xs → Found k xs (binary_search_by_key k xs)
  unfolding binary_search_by_key
  binary_search_by_key-Found k [] s = inl (refl, refl)
  binary_search_by_key-Found k (x ∷ xs) s =
      let l = x ∷ xs in
      let n = length l in
      let m = IsSorted-IsMonotone l s in
      let i = search_loop n (key_at l) k n 0 in
      let p =
        search_loop-Splits n (key_at l) k n n 0 (omega arith) (omega arith) (omega arith)
          (omega arith, inl refl, λ j a b. absurd (omega arith)) m in
      elim (Bool-cases (key_at l i == k)) [
        | inl e ↦
            let (a, g, q) = get_elem?-key_at l i p.0 in
            inr (i, a, ground arith, g, q ∙ (==_iff (key_at l i) k).0 e)
        | inr e ↦ inl (ground arith, not_any k l (λ j h. no_match n k i j (key_at l) m p e h))
      ]
