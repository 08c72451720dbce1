-- ===== src/Chunker/Fixed.antt =====
-- crates/core/src/chunker/fixed_size.rs: chunks of a fixed size.
use rustic_core.Base.{
  take-drop-id, ℕ, suc, ◌-◌, ◌≡◌, ◌≤◌, ◌<◌, ◌⊎◌, inl, inr, Bool, true, false, Option, none, some,
  List, [], ◌∷◌, length, length-take, length-drop, take, drop, take_all, drop_all, take-append,
  drop-append, ltb, if◌then◌else◌, All, arith, refl, ap, sym, ◌∙◌, Result, ok, err, input_output,
  subst,
}
use rustic_core.Chunker.Reader.{
  Event, bytes_of, is_fine, ReadAll, all_of, failure, read_to_end, IsRead, read_to_end-IsRead,
}
use rustic_core.Chunker.Pieces.{
  joined, collect, pieces, IsSplit, joined-pieces, All-pieces, Steps, collect-pieces,
}

-- `ChunkIter`
pub record ChunkIter : Type 0 where
  pub reader : List Event
  pub size_hint : ℕ
  pub size : ℕ
  pub finished : Bool

-- `ChunkIter::new`
unfoldable pub new : ℕ → List Event → ℕ → ChunkIter
new size reader size_hint = record {
  reader = reader;
  size_hint = size_hint;
  size = size;
  finished = false;
}

-- `vec.is_empty()` gives no chunk.
chunk_of : List ℕ → Option (Result (List ℕ))
chunk_of [] = none
chunk_of (b ∷ bs) = some (ok (b ∷ bs))

after_read : ChunkIter → ReadAll → ChunkIter × Option (Result (List ℕ))
unfolding chunk_of
after_read it (failure rest) = (record it { reader = rest }, some (err input_output))
after_read it (all_of bs rest) = (
  record it {
    reader = rest;
    finished = ltb (length bs) it.size;
    size_hint = it.size_hint - length bs;
  },
  chunk_of bs,
)

-- `ChunkIter::next`
unfoldable pub next : ChunkIter → ChunkIter × Option (Result (List ℕ))
unfolding after_read
next it = if it.finished then (it, none) else after_read it (read_to_end it.size it.reader)

-- The first bytes, as many as a chunk has.
abbrev pub split_at_size : ℕ → List ℕ → List ℕ × List ℕ
split_at_size size l = (take size l, drop size l)

split_at_size-IsSplit : (size : ℕ) → 0 < size → IsSplit (split_at_size size)
split_at_size-IsSplit size h = record {
  whole = λ l. take-drop-id size l;
  progress = λ l k. omega (arith, length-drop size l);
}

module _ (size : ℕ) (pos : 0 < size) where
  -- What is still to be read.
  abbrev remaining : ChunkIter → List ℕ
  remaining it = if it.finished then [] else bytes_of it.reader

  abbrev IsGood : ChunkIter → Type 0
  IsGood it =
      (it.size ≡ size)
      × ((it.finished ≡ true) ⊎ ((it.finished ≡ false) × (is_fine it.reader ≡ true)))

  abbrev pub step : ChunkIter → Option (ChunkIter × Option (Result (List ℕ)))
  step it = some (next it)

  -- What the bytes of a read make of the iterator.
  abbrev StepsAt : List Event → ℕ → ReadAll → Type 0
  StepsAt reader size_hint r =
      let it : ChunkIter = record {
        reader = reader;
        size_hint = size_hint;
        size = size;
        finished = false;
      } in
      ((bytes_of reader ≡ []) × (st' : ChunkIter) × (some (after_read it r) ≡ some (st', none)))
      ⊎ ((1 ≤ length (bytes_of reader))
          × (st' : ChunkIter) × (some (after_read it r)
              ≡ some (st', some (ok (take size (bytes_of reader)))))
          × IsGood st'
          × (remaining st' ≡ drop size (bytes_of reader)))

  abbrev moved : ℕ → List ℕ → List Event → ChunkIter
  moved size_hint bs rest = record {
    reader = rest;
    size_hint = size_hint - length bs;
    size = size;
    finished = ltb (length bs) size;
  }

  all_of-StepsAt :
      (reader : List Event) (size_hint : ℕ) (bs : List ℕ) (rest : List Event)
      → IsRead size reader bs rest
      → StepsAt reader size_hint (all_of bs rest)
  unfolding after_read chunk_of
  all_of-StepsAt reader size_hint [] rest (inl (l, s, g)) = absurd (omega arith)
  all_of-StepsAt reader size_hint (b ∷ bs) rest (inl (l, s, g)) =
      let t : ltb (length (b ∷ bs)) size ≡ false = ground arith in
      inr (
        omega (arith, ap length s),
        moved size_hint (b ∷ bs) rest,
        ap (λ x. some (moved size_hint (b ∷ bs) rest, some (ok x)))
            (sym
              (ap (take size) (sym s) ∙ take-append size (b ∷ bs) (bytes_of rest) (omega arith))),
        (refl, inr (t, g)),
        ap (λ x. if x then [] else bytes_of rest) t
            ∙ sym
                (ap (drop size) (sym s) ∙ drop-append size (b ∷ bs) (bytes_of rest) (omega arith)),
      )
  all_of-StepsAt reader size_hint [] rest (inr (l, s)) = inl (sym s, moved size_hint [] rest, refl)
  all_of-StepsAt reader size_hint (b ∷ bs) rest (inr (l, s)) =
      let t : ltb (length (b ∷ bs)) size ≡ true = ground arith in
      inr (
        omega (arith, ap length s),
        moved size_hint (b ∷ bs) rest,
        ap (λ x. some (moved size_hint (b ∷ bs) rest, some (ok x)))
            (sym (ap (take size) (sym s) ∙ take_all size (b ∷ bs) (omega arith))),
        (refl, inl t),
        ap (λ x. if x then [] else bytes_of rest) t
            ∙ sym (ap (drop size) (sym s) ∙ drop_all size (b ∷ bs) (omega arith)),
      )

  IsGood-Steps : (it : ChunkIter) → IsGood it → Steps step (split_at_size size) remaining IsGood it
  unfolding next
  IsGood-Steps it (e, inl f) =
      subst (λ z. Steps step (split_at_size size) remaining IsGood (record it { finished = z }))
        (sym f) (inl (refl, record it { finished = true }, refl))
  IsGood-Steps it (e, inr (f, g)) =
      let (bs, rest, r, q, w) = read_to_end-IsRead size it.reader g in
      subst (λ z. Steps step (split_at_size size) remaining IsGood (record it { finished = z }))
        (sym f)
        (subst
          (λ z.
            Steps step (split_at_size size) remaining IsGood
              (record it { size = z; finished = false }))
          (sym e)
          (subst (StepsAt it.reader it.size_hint) (sym r)
            (all_of-StepsAt it.reader it.size_hint bs rest q)))

  -- If no read fails, the chunks of a file are its pieces of the size, of which the last may be shorter;
  -- together they are the file.
  pub collect-pieces_of_size :
      (reader : List Event) (size_hint n : ℕ)
      → is_fine reader ≡ true
      → length (bytes_of reader) ≤ n
      → (cs : List (List ℕ)) × (collect step (suc n) (new size reader size_hint) ≡ some (ok cs))
        × (cs ≡ pieces n (split_at_size size) (bytes_of reader))
        × (joined cs ≡ bytes_of reader)
        × All (λ c. (1 ≤ length c) × (length c ≤ size)) cs
  unfolding new
  collect-pieces_of_size reader size_hint n f h = (
    pieces n (split_at_size size) (bytes_of reader),
    collect-pieces step (split_at_size size) remaining IsGood n (new size reader size_hint)
        (split_at_size-IsSplit size pos) IsGood-Steps (refl, inr (refl, f)) h,
    refl,
    joined-pieces n (split_at_size size) (bytes_of reader) (split_at_size-IsSplit size pos) h,
    All-pieces (λ c. (1 ≤ length c) × (length c ≤ size)) (split_at_size size)
        (λ l k. omega (arith, length-take size l)) n (bytes_of reader),
  )
