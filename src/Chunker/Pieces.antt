-- ===== src/Chunker/Pieces.antt =====
-- A file that is read to its end through an iterator of chunks, and what that is to give: the pieces
-- of the data that a splitting function cuts off, one after another.
use rustic_core.Base.{
  ℕ, zero, suc, ◌≡◌, ◌≤◌, ◌<◌, ◌⊎◌, inl, inr, Option, none, some, List, [], ◌∷◌, ◌++◌, length, All,
  arith, refl, ap, sym, ◌∙◌, Result, ok, err, ◌>>=◌,
}

abbrev pub joined : List (List ℕ) → List ℕ
joined [] = []
joined (c ∷ cs) = c ++ joined cs

abbrev pub put_chunk : List ℕ → Option (Result (List (List ℕ))) → Option (Result (List (List ℕ)))
put_chunk c none = none
put_chunk c (some r) = some (r >>= λ cs. ok (c ∷ cs))

-- What is done with an answer of the iterator.
abbrev pub follow :
    {S : Type 0}
    → (S → Option (Result (List (List ℕ))))
    → Option (S × Option (Result (List ℕ)))
    → Option (Result (List (List ℕ)))
follow rest none = none
follow rest (some (st, none)) = some (ok [])
follow rest (some (st, some (err e))) = some (err e)
follow rest (some (st, some (ok c))) = put_chunk c (rest st)

module _ {S : Type 0} (next : S → Option (S × Option (Result (List ℕ)))) where
  -- The chunks of a file, or the first error. `none` is a panic, or a lack of fuel.
  unfoldable pub collect : ℕ → S → Option (Result (List (List ℕ)))
  collect zero st = none
  collect (suc fuel) st = follow (collect fuel) (next st)

-- The pieces that `split` cuts off, at most as many as the number.
unfoldable pub pieces : ℕ → (List ℕ → List ℕ × List ℕ) → List ℕ → List (List ℕ)
pieces zero split rest = []
pieces (suc n) split [] = []
pieces (suc n) split (b ∷ bs) = (split (b ∷ bs)).0 ∷ pieces n split (split (b ∷ bs)).1

-- A piece is cut off, and the rest is left.
pub record IsSplit (split : List ℕ → List ℕ × List ℕ) : Type 0 where
  pub whole : (l : List ℕ) → (split l).0 ++ (split l).1 ≡ l
  pub progress : (l : List ℕ) → 1 ≤ length l → length (split l).1 < length l

pub joined-pieces :
    (n : ℕ) (split : List ℕ → List ℕ × List ℕ) (l : List ℕ)
    → IsSplit split
    → length l ≤ n
    → joined (pieces n split l) ≡ l
unfolding pieces
joined-pieces zero split [] s h = refl
joined-pieces zero split (b ∷ bs) s h = absurd (omega arith)
joined-pieces (suc n) split [] s h = refl
joined-pieces (suc n) split (b ∷ bs) s h =
    let p = s.progress (b ∷ bs) (omega arith) in
    ap (λ l. (split (b ∷ bs)).0 ++ l) (joined-pieces n split (split (b ∷ bs)).1 s (omega arith))
    ∙ s.whole (b ∷ bs)

pub All-pieces {κ} :
    (P : List ℕ → Type κ) (split : List ℕ → List ℕ × List ℕ)
    → ((l : List ℕ) → 1 ≤ length l → P (split l).0)
    → (n : ℕ) (l : List ℕ) → All P (pieces n split l)
unfolding pieces
All-pieces P split f zero l = tt
All-pieces P split f (suc n) [] = tt
All-pieces P split f (suc n) (b ∷ bs) =
    (f (b ∷ bs) (omega arith), All-pieces P split f n (split (b ∷ bs)).1)

pieces_step :
    (n : ℕ) (split : List ℕ → List ℕ × List ℕ) (l : List ℕ)
    → 1 ≤ length l
    → pieces (suc n) split l ≡ (split l).0 ∷ pieces n split (split l).1
unfolding pieces
pieces_step n split [] h = absurd (omega arith)
pieces_step n split (b ∷ bs) h = refl

pieces_nil : (n : ℕ) (split : List ℕ → List ℕ × List ℕ) → pieces n split [] ≡ []
unfolding pieces
pieces_nil zero split = refl
pieces_nil (suc n) split = refl

module _ {S : Type 0} (next : S → Option (S × Option (Result (List ℕ))))
    (split : List ℕ → List ℕ × List ℕ) (remaining : S → List ℕ) (IsGood : S → Type 0) where
  -- One step of the iterator: the end, or the piece that `split` cuts off.
  abbrev pub Steps : S → Type 0
  Steps st =
      ((remaining st ≡ []) × (st' : S) × (next st ≡ some (st', none)))
      ⊎ ((1 ≤ length (remaining st))
          × (st' : S) × (next st ≡ some (st', some (ok (split (remaining st)).0)))
          × IsGood st'
          × (remaining st' ≡ (split (remaining st)).1))

  ended :
      (n : ℕ) (st st' : S)
      → remaining st ≡ []
      → next st ≡ some (st', none)
      → collect next (suc n) st ≡ some (ok (pieces n split (remaining st)))
  unfolding collect
  ended n st st' e k =
      ap (follow (collect next n)) k
      ∙ ap (λ l. some (ok l)) (sym (ap (pieces n split) e ∙ pieces_nil n split))

  stepped :
      (n : ℕ) (st : S)
      → IsSplit split
      → Steps st
      → length (remaining st) ≤ suc n
      → ((st' : S)
          → IsGood st'
          → length (remaining st') ≤ n
          → collect next (suc n) st' ≡ some (ok (pieces n split (remaining st'))))
      → collect next (suc (suc n)) st ≡ some (ok (pieces (suc n) split (remaining st)))
  unfolding collect
  stepped n st s (inl (e, st', k)) h rec = ended (suc n) st st' e k
  stepped n st s (inr (l, st', k, g, r)) h rec =
      let p = s.progress (remaining st) l in
      let i : length (remaining st') ≤ n = omega (arith, ap length r) in
      ap (follow (collect next (suc n))) k
      ∙ ap (put_chunk (split (remaining st)).0) (rec st' g i)
      ∙ ap (λ t. some (ok ((split (remaining st)).0 ∷ pieces n split t))) r
      ∙ ap (λ t. some (ok t)) (sym (pieces_step n split (remaining st) l))

  -- If every step is right, the chunks are the pieces, and fuel for one step more than the bytes is
  -- enough.
  pub collect-pieces :
      (n : ℕ) (st : S)
      → IsSplit split
      → ((st : S) → IsGood st → Steps st)
      → IsGood st
      → length (remaining st) ≤ n
      → collect next (suc n) st ≡ some (ok (pieces n split (remaining st)))
  collect-pieces zero st s f g h = at_end (f st g)
    where
      at_end : Steps st → collect next 1 st ≡ some (ok (pieces 0 split (remaining st)))
      at_end (inl (e, st', k)) = ended 0 st st' e k
      at_end (inr (l, st', k, g', r)) = absurd (omega arith)
  collect-pieces (suc n) st s f g h =
      stepped n st s (f st g) h (λ st' g' i. collect-pieces n st' s f g' i)
