-- ===== src/Chunker/Rabin/Cut.antt =====
-- The loop over the bytes of crates/core/src/chunker/rabin.rs, for any deliveries of the reader.
use rustic_core.Base.{
  ℕ, zero, suc, ◌+◌, ◌≡◌, ◌≤◌, ◌<◌, ◌⊎◌, inl, inr, true, false, List, [], ◌∷◌, ◌++◌, length, take,
  drop, length-take, length-drop, leb, if◌then◌else◌, arith, refl, ap, sym, subst, Bool-cases,
}
use rustic_core.Chunker.Reader.{
  Event, bytes, interrupted, failed, bytes_of, is_fine, weight, got, read, split_at,
}
use rustic_core.Chunker.Rabin.{
  Rabin, Source, CutResult, cut_at, stops, cut_byte, cut_next, cut, buf_size,
}

-- A source whose reader does not fail.
pub record IsSource (src : Source) : Type 0 where
  pub open_end : src.finished ≡ false
  pub fine : is_fine src.reader ≡ true
  pub room : 1 ≤ src.buf_len
  pub small : src.buf_len ≤ buf_size
  pub unread : length src.unread ≤ src.buf_len

-- The bytes that a source still gives.
abbrev pub bytes_left : Source → List ℕ
bytes_left src = src.unread ++ bytes_of src.reader

-- The source after a cut: finished with nothing left, or with the rest.
abbrev pub Leaves : Source → List ℕ → Type 0
Leaves src rest = ((src.finished ≡ true) × (rest ≡ [])) ⊎ (IsSource src × (bytes_left src ≡ rest))

module _ {W : Type 0} (rabin : Rabin W) (split_mask max_size : ℕ) where
  -- The cut on the list of all bytes: the chunk, and the rest.
  abbrev pub cut_list : List ℕ → W → List ℕ → List ℕ × List ℕ
  cut_list vec w [] = (vec, [])
  cut_list vec w (b ∷ bs) =
      let rest = cut_list (vec ++ b ∷ []) (rabin.slide w b) bs in
      if stops rabin split_mask max_size vec w then (vec, b ∷ bs) else rest

  cut_list-stops :
      (vec : List ℕ) (w : W) (l : List ℕ)
      → stops rabin split_mask max_size vec w ≡ true
      → cut_list vec w l ≡ (vec, l)
  cut_list-stops vec w [] h = refl
  cut_list-stops vec w (b ∷ bs) h = rw h refl

  cut_list-goes :
      (vec : List ℕ) (w : W) (b : ℕ) (l m : List ℕ)
      → stops rabin split_mask max_size vec w ≡ false
      → b ∷ l ≡ m
      → cut_list (vec ++ b ∷ []) (rabin.slide w b) l ≡ cut_list vec w m
  cut_list-goes vec w b l m h e =
      subst (λ x. cut_list (vec ++ b ∷ []) (rabin.slide w b) l ≡ cut_list vec w x) e (rw h refl)

  -- What the loop gives, for the bytes that are left.
  abbrev pub Cuts : (CutResult) → (List ℕ × List ℕ) → Type 0
  Cuts r c = (src : Source) × (r ≡ cut_at c.0 src) × Leaves src c.1

  abbrev Rest : ℕ → Type 0
  Rest fuel =
      (vec : List ℕ) (w : W) (src : Source)
      → IsSource src
      → length src.unread + weight src.reader < fuel
      → Cuts (cut rabin split_mask max_size fuel vec w src) (cut_list vec w (bytes_left src))

  module _ (fuel : ℕ) (rest : Rest fuel) (vec : List ℕ) (w : W)
      (h : stops rabin split_mask max_size vec w ≡ false) where
    abbrev loop : List ℕ → W → Source → CutResult
    loop = cut rabin split_mask max_size fuel

    -- One byte is taken over.
    byte-Cuts :
        (b : ℕ) (src : Source) (l : List ℕ)
        → IsSource src
        → length src.unread + weight src.reader < fuel
        → b ∷ bytes_left src ≡ l
        → Cuts (loop (vec ++ b ∷ []) (rabin.slide w b) src) (cut_list vec w l)
    byte-Cuts b src l s m e =
        subst (Cuts (loop (vec ++ b ∷ []) (rabin.slide w b) src))
          (cut_list-goes vec w b (bytes_left src) l h e)
          (rest (vec ++ b ∷ []) (rabin.slide w b) src s m)

    -- The buffer was filled.
    got-Cuts :
        (src : Source) (bs : List ℕ) (events : List Event) (l : List ℕ)
        → IsSource src
        → 1 ≤ length bs
        → length bs ≤ src.buf_len
        → is_fine events ≡ true
        → length bs + weight events < suc fuel
        → bs ++ bytes_of events ≡ l
        → Cuts
            (cut_byte rabin split_mask max_size loop vec w src (got bs events))
            (cut_list vec w l)
    unfolding cut_byte
    got-Cuts src [] events l s n k f m e = absurd (omega arith)
    got-Cuts src (b ∷ bs) events l s n k f m e =
        byte-Cuts b (record src { unread = bs; buf_len = length (b ∷ bs); reader = events }) l
          (record {
            open_end = s.open_end;
            fine = f;
            room = omega arith;
            small = let t = s.small in omega arith;
            unread = omega arith;
          })
          (omega arith) e

    read-Cuts :
        (src : Source) (reader : List Event)
        → IsSource src
        → src.unread ≡ []
        → is_fine reader ≡ true
        → weight reader < suc fuel
        → Cuts
            (cut_byte rabin split_mask max_size loop vec w src (read src.buf_len reader))
            (cut_list vec w (bytes_of reader))
    unfolding cut_byte read
    read-Cuts src [] s u f m = (record src { reader = []; finished = true }, refl, inl (refl, refl))
    read-Cuts src (bytes [] ∷ events) s u f m =
        let r = s.room in
        let t : leb 0 src.buf_len ≡ true = ground arith in
        (record src { reader = events; finished = true }, rw t refl, inl (refl, refl))
    read-Cuts src (bytes (c ∷ cs) ∷ events) s u f m =
        elim (Bool-cases (leb (length (c ∷ cs)) src.buf_len)) [
          | inl t ↦
              rw t
                (got-Cuts src (c ∷ cs) events _ s (omega arith) (ground arith) f (omega arith) refl)
          | inr t ↦
              let r = s.room in
              let n = src.buf_len in
              let (e, g) = split_at n (c ∷ cs) events (ground arith) f in
              rw t (
                got-Cuts src (take n (c ∷ cs)) (bytes (drop n (c ∷ cs)) ∷ events) _ s
                  (ground (arith, length-take n (c ∷ cs))) (ground (arith, length-take n (c ∷ cs)))
                  g (ground (arith, length-take n (c ∷ cs), length-drop n (c ∷ cs))) e)
        ]
    read-Cuts src (interrupted ∷ events) s u f m =
        subst
          (λ l.
            Cuts (loop vec w (record src { reader = events }))
              (cut_list vec w (l ++ bytes_of events)))
          u
          (rest vec w (record src { reader = events })
            (record {
              open_end = s.open_end;
              fine = f;
              room = s.room;
              small = s.small;
              unread = s.unread;
            })
            (omega (arith, ap length u)))
    read-Cuts src (failed ∷ events) s u f m = absurd (ground arith)

    next-Cuts :
        (src : Source) (unread : List ℕ)
        → IsSource src
        → src.unread ≡ unread
        → length unread + weight src.reader < suc fuel
        → Cuts
            (cut_next rabin split_mask max_size loop vec w src unread)
            (cut_list vec w (unread ++ bytes_of src.reader))
    unfolding cut_next
    next-Cuts src [] s u m = read-Cuts src src.reader s u s.fine (omega arith)
    next-Cuts src (b ∷ bs) s u m =
        byte-Cuts b (record src { unread = bs }) _
          (record {
            open_end = s.open_end;
            fine = s.fine;
            room = s.room;
            small = s.small;
            unread = let t = s.unread in omega (arith, ap length u);
          })
          (omega arith) refl

  -- With fuel for every byte and every call of the reader, the loop cuts as the list is cut.
  pub cut-Cuts :
      (fuel : ℕ) (vec : List ℕ) (w : W) (src : Source)
      → IsSource src
      → length src.unread + weight src.reader < fuel
      → Cuts (cut rabin split_mask max_size fuel vec w src) (cut_list vec w (bytes_left src))
  unfolding cut
  cut-Cuts zero vec w src s m = absurd (omega arith)
  cut-Cuts (suc fuel) vec w src s m = elim (Bool-cases (stops rabin split_mask max_size vec w)) [
    | inl h ↦
        subst (Cuts _) (sym (cut_list-stops vec w (bytes_left src) h))
          (src, rw h refl, inr (s, refl))
    | inr h ↦ rw h (
        next-Cuts fuel (λ v x r t k. cut-Cuts fuel v x r t k) vec w h src src.unread s refl
          (omega arith))
  ]
