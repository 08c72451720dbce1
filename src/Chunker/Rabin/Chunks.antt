-- ===== src/Chunker/Rabin/Chunks.antt =====
-- The chunks that crates/core/src/chunker/rabin.rs gives for a whole file.
use mathlib.Core.List.{append_assoc}
use rustic_core.Base.{
  ℕ, ◌≡◌, ◌≤◌, ◌<◌, inl, inr, false, List, [], ◌∷◌, ◌++◌, length, length-append, ltb, if◌then◌else◌,
  arith, refl, ◌∙◌, Option, true, Result, ◌⊎◌, some, none, ok, sym, ◌-◌, ap, take-append,
  drop-append, subst, suc, All,
}
use rustic_core.Config.Options.{check_rabin_params}
use rustic_core.Chunker.Reader.{IsRead, bytes_of, is_fine, read_to_end-IsRead}
use rustic_core.Chunker.Pieces.{
  Steps, collect, pieces, collect-pieces, joined-pieces, All-pieces, joined,
}
use rustic_core.Chunker.Rabin.{
  Rabin, last_64, buf_size, ChunkIter, chunk_of, give, CutResult, after_read, Event, all_of, Source,
  next, cut, rounds, read_to_end, new, check_rabin_params,
}
use rustic_core.Chunker.Rabin.Cut.{cut_list, bytes_left, Cuts, IsSource, Leaves, cut-Cuts}
use rustic_core.Base.Word.{u64_mod, sub_u64}
use rustic_core.Chunker.Rabin.Split.{split_first, split_first-IsSplit, split_first_bounds}

module _ {W : Type 0} (rabin : Rabin W) (split_mask max_size : ℕ) where
  abbrev cuts : List ℕ → W → List ℕ → List ℕ × List ℕ
  cuts = cut_list rabin split_mask max_size

  module _ (min_size : ℕ) (large : buf_size ≤ min_size) (fits : min_size < u64_mod) where
    -- The bytes of the minimal size, and the others.
    split_first_at :
        (vec l : List ℕ)
        → length vec ≡ min_size
        → split_first rabin split_mask max_size min_size (vec ++ l)
          ≡ cuts vec (rabin.prefill (last_64 rabin vec)) l
    split_first_at vec l k =
        let n = length-append vec l in
        let t : ltb (length (vec ++ l)) min_size ≡ false = ground arith in
        rw (t, take-append min_size vec l (sym k), drop-append min_size vec l (sym k)) refl

    -- What is still to be read.
    abbrev remaining : ChunkIter → List ℕ
    remaining it = if it.source.finished then [] else bytes_left it.source

    abbrev HasParams : ChunkIter → Type 0
    HasParams it =
        (it.split_mask ≡ split_mask) × (it.min_size ≡ min_size) × (it.max_size ≡ max_size)

    abbrev IsGood : ChunkIter → Type 0
    IsGood it = HasParams it × ((it.source.finished ≡ true) ⊎ IsSource it.source)

    abbrev StepsTo : List ℕ → Option (ChunkIter × Option (Result (List ℕ))) → Type 0
    StepsTo l r =
        ((l ≡ []) × (it : ChunkIter) × (r ≡ some (it, none)))
        ⊎ ((1 ≤ length l)
            × (it : ChunkIter) × (r
                ≡ some (it, some (ok (split_first rabin split_mask max_size min_size l).0)))
            × IsGood it
            × (remaining it ≡ (split_first rabin split_mask max_size min_size l).1))

    -- The end of the file comes before the minimal size.
    last-StepsTo :
        (it : ChunkIter) (l : List ℕ)
        → HasParams it
        → it.source.finished ≡ true
        → length l < min_size
        → StepsTo l (some (it, chunk_of rabin l))
    unfolding chunk_of
    last-StepsTo it [] p f h = inl (refl, it, refl)
    last-StepsTo it (b ∷ bs) p f h =
        let t : ltb (length (b ∷ bs)) min_size ≡ true = ground arith in
        inr (omega arith, it, rw t refl, (p, inl f), rw (f, t) refl)

    cut-StepsTo :
        (it : ChunkIter) (l : List ℕ) (r : CutResult)
        → HasParams it
        → min_size ≤ length l
        → Cuts rabin split_mask max_size r (split_first rabin split_mask max_size min_size l)
        → StepsTo l (give rabin it r)
    unfolding give
    cut-StepsTo it l r p h (src, e, v) =
        let it' = record it {
          source = src;
          size_hint = it.size_hint - length (split_first rabin split_mask max_size min_size l).0;
        } in
        let (g, q) =
          left (it.size_hint - length (split_first rabin split_mask max_size min_size l).0) v in
        inr (omega arith, it', ap (give rabin it) e, g, q)
      where
        left :
            (hint : ℕ)
            → Leaves src (split_first rabin split_mask max_size min_size l).1
            → IsGood (record it { source = src; size_hint = hint })
              × (remaining (record it { source = src; size_hint = hint })
                  ≡ (split_first rabin split_mask max_size min_size l).1)
        left hint (inl (f, n)) = ((p, inl f), rw f (sym n))
        left hint (inr (s, n)) = ((p, inr s), rw s.open_end n)

    -- The loop of an iterator with these parameters.
    cut_of : ChunkIter → List ℕ → Source → CutResult
    cut_of it vec src =
        cut rabin it.split_mask it.max_size (rounds src) vec (rabin.prefill (last_64 rabin vec)) src

    cut_of-Cuts :
        (it : ChunkIter) (vec : List ℕ) (src : Source)
        → HasParams it
        → IsSource src
        → length vec ≡ min_size
        → Cuts rabin split_mask max_size
            (cut_of it vec src)
            (split_first rabin split_mask max_size min_size (vec ++ bytes_left src))
    unfolding cut_of
    cut_of-Cuts it vec src (a, b, c) s k =
        let w = rabin.prefill (last_64 rabin vec) in
        subst (Cuts rabin split_mask max_size (cut_of it vec src))
          (sym (split_first_at vec (bytes_left src) k))
          (subst
            (λ m.
              Cuts rabin split_mask max_size (cut rabin m it.max_size (rounds src) vec w src)
                (cuts vec w (bytes_left src)))
            (sym a)
            (subst
              (λ m.
                Cuts rabin split_mask max_size (cut rabin split_mask m (rounds src) vec w src)
                  (cuts vec w (bytes_left src)))
              (sym c) (cut-Cuts rabin split_mask max_size (rounds src) vec w src s (omega arith))))

    abbrev read_source : ChunkIter → List Event → Source
    read_source it rest = record it.source { unread = []; reader = rest }

    read_source-IsSource :
        (it : ChunkIter) (rest : List Event)
        → IsSource it.source
        → is_fine rest ≡ true
        → IsSource (read_source it rest)
    read_source-IsSource it rest s f = record {
      open_end = s.open_end;
      fine = f;
      room = s.room;
      small = s.small;
      unread = omega arith;
    }

    all_of-StepsTo :
        (it : ChunkIter) (bs : List ℕ) (rest : List Event)
        → HasParams it
        → IsSource it.source
        → IsRead (min_size - length it.source.unread) it.source.reader bs rest
        → StepsTo
            (bytes_left it.source)
            (after_read rabin it (min_size - length it.source.unread) (all_of bs rest))
    unfolding after_read cut_of
    all_of-StepsTo it bs rest p s (inr (l, e)) =
        let t : ltb (length bs) (min_size - length it.source.unread) ≡ true = ground arith in
        let n = length-append it.source.unread bs in
        let it' = record it { source = record (read_source it rest) { finished = true } } in
        rw t (
          subst (λ x. StepsTo x (some (it', chunk_of rabin (it.source.unread ++ bs))))
            (ap (λ x. it.source.unread ++ x) e)
            (last-StepsTo it' (it.source.unread ++ bs) p refl (omega arith)))
    all_of-StepsTo it bs rest p s (inl (l, e, f)) =
        let u = s.unread in
        let v = s.small in
        let vec = it.source.unread ++ bs in
        let src = read_source it rest in
        let n = length-append it.source.unread bs in
        let t : ltb (length bs) (min_size - length it.source.unread) ≡ false = ground arith in
        let k : length vec ≡ min_size = omega arith in
        let q : ltb (length vec) 64 ≡ false = ground arith in
        let d : vec ++ bytes_of rest ≡ bytes_left it.source =
          append_assoc it.source.unread bs (bytes_of rest) ∙ ap (λ x. it.source.unread ++ x) e in
        let m = length-append vec (bytes_of rest) in
        rw (t, q)
          (subst (λ x. StepsTo x (give rabin it (cut_of it vec src))) d
            (cut-StepsTo it (vec ++ bytes_of rest) (cut_of it vec src) p (omega arith)
              (cut_of-Cuts it vec src p (read_source-IsSource it rest s f) k)))

    IsGood-Steps :
        (it : ChunkIter)
        → IsGood it
        → Steps (next rabin) (split_first rabin split_mask max_size min_size) remaining IsGood it
    unfolding next
    IsGood-Steps it (p, inl f) = inl (rw f refl, it, rw f refl)
    IsGood-Steps it (p, inr s) =
        let u = s.unread in
        let v = s.small in
        let m = p.1 in
        let (bs, rest, r, q, w) =
          read_to_end-IsRead (min_size - length it.source.unread) it.source.reader s.fine in
        let k : sub_u64 it.min_size (length it.source.unread) ≡ min_size - length it.source.unread =
          omega arith in
        let here : next rabin it
            ≡ after_read rabin it (min_size - length it.source.unread) (all_of bs rest) =
          ap
            (λ b.
              if b
              then some (it, none)
              else after_read rabin it (sub_u64 it.min_size (length it.source.unread))
                  (read_to_end (sub_u64 it.min_size (length it.source.unread)) it.source.reader))
            s.open_end
          ∙ ap (λ n. after_read rabin it n (read_to_end n it.source.reader)) k
          ∙ ap (after_read rabin it (min_size - length it.source.unread)) r in
        subst (λ l. StepsTo l (next rabin it))
          (ap (λ b. if b then [] else bytes_left it.source) (sym s.open_end))
          (subst (StepsTo (bytes_left it.source)) (sym here) (all_of-StepsTo it bs rest p s q))

module _ {W : Type 0} (rabin : Rabin W) where
  new-sizes :
      (chunk_size min_size max_size : ℕ) (reader : List Event) (size_hint : ℕ) (it : ChunkIter)
      → new chunk_size min_size max_size reader size_hint ≡ ok it
      → (min_size ≤ max_size)
        × (it ≡ record {
          source = record { unread = []; buf_len = buf_size; reader = reader; finished = false };
          split_mask = sub_u64 chunk_size 1;
          size_hint = size_hint;
          min_size = min_size;
          max_size = max_size;
        })
  unfolding new check_rabin_params
  new-sizes chunk_size min_size max_size reader size_hint it e = ground arith

  -- If the parameters are accepted, the minimal size is at least that of the buffer and no read fails, then
  -- the chunks of a file depend on its bytes alone: they are what is cut off the list of the bytes, piece
  -- by piece. Together they are the file, none is empty and none is larger than the maximal size.
  pub collect-pieces_by_hash :
      (chunk_size min_size max_size : ℕ) (reader : List Event) (size_hint n : ℕ) (it : ChunkIter)
      → new chunk_size min_size max_size reader size_hint ≡ ok it
      → buf_size ≤ min_size
      → min_size < u64_mod
      → is_fine reader ≡ true
      → length (bytes_of reader) ≤ n
      → (cs : List (List ℕ)) × (collect (next rabin) (suc n) it ≡ some (ok cs))
        × (cs
            ≡ pieces n
                (split_first rabin (sub_u64 chunk_size 1) max_size min_size)
                (bytes_of reader))
        × (joined cs ≡ bytes_of reader)
        × All (λ c. (1 ≤ length c) × (length c ≤ max_size)) cs
  collect-pieces_by_hash chunk_size min_size max_size reader size_hint n it e large fits f h =
      let (le, q) = new-sizes chunk_size min_size max_size reader size_hint it e in
      let mask = sub_u64 chunk_size 1 in
      let split = split_first rabin mask max_size min_size in
      let s = split_first-IsSplit rabin mask max_size min_size (omega arith) in
      let start : ChunkIter = record {
        source = record { unread = []; buf_len = buf_size; reader = reader; finished = false };
        split_mask = mask;
        size_hint = size_hint;
        min_size = min_size;
        max_size = max_size;
      } in
      (
        pieces n split (bytes_of reader),
        ap (collect (next rabin) (suc n)) q
            ∙ collect-pieces (next rabin) split (remaining rabin mask max_size min_size large fits)
                (IsGood rabin mask max_size min_size large fits) n start s
                (IsGood-Steps rabin mask max_size min_size large fits)
                (
                  (refl, refl, refl),
                  inr (record {
                    open_end = refl;
                    fine = f;
                    room = omega arith;
                    small = omega arith;
                    unread = omega arith;
                  }),
                )
                h,
        refl,
        joined-pieces n split (bytes_of reader) s h,
        All-pieces (λ c. (1 ≤ length c) × (length c ≤ max_size)) split
            (λ l k. split_first_bounds rabin mask max_size min_size l le (omega arith) k) n
            (bytes_of reader),
      )

  -- If the parameters are accepted and the minimal size is below 64, then the first call panics, for every
  -- file that has at least as many bytes and that can be read.
  pub next_panics :
      (chunk_size min_size max_size : ℕ) (reader : List Event) (size_hint : ℕ) (it : ChunkIter)
      → new chunk_size min_size max_size reader size_hint ≡ ok it
      → min_size < 64
      → is_fine reader ≡ true
      → min_size ≤ length (bytes_of reader)
      → next rabin it ≡ none
  unfolding next after_read
  next_panics chunk_size min_size max_size reader size_hint it e h f k =
      let (le, q) = new-sizes chunk_size min_size max_size reader size_hint it e in
      let (bs, rest, r, w, x) = read_to_end-IsRead min_size reader f in
      let u : sub_u64 min_size 0 ≡ min_size = omega arith in
      let n = read_enough bs rest w in
      let t : ltb (length bs) min_size ≡ false = ground arith in
      let v : ltb (length bs) 64 ≡ true = ground arith in ap (next rabin) q ∙ rw (u, r, t, v) refl
    where
      read_enough :
          (bs : List ℕ) (rest : List Event) → IsRead min_size reader bs rest → length bs ≡ min_size
      read_enough bs rest (inl (l, s, g)) = l
      read_enough bs rest (inr (l, s)) = absurd (omega (arith, ap length s))
