-- ===== src/Chunker/Reader.antt =====
-- `std::io::Read` as the chunkers use it. A call of `read` gives at most the bytes of the next part, is
-- interrupted or fails. No bytes are the end of the file.
use mathlib.Core.List.{append_assoc}
use rustic_core.Base.{
  length-drop, length-take, ℕ, zero, suc, ◌-◌, ◌≡◌, ◌≤◌, Bool, true, false, List, [], ◌∷◌, ◌++◌,
  length, take, drop, leb, if◌then◌else◌, refl, ap, ◌+◌, ◌⊎◌, arith, ◌<◌, inl, ◌∙◌, inr, sym,
  length-append, Bool-cases, take-drop-id,
}

pub data Event : Type 0 where
  bytes : List ℕ → Event
  interrupted failed : Event

-- The bytes up to the end of the file.
abbrev pub bytes_of : List Event → List ℕ
bytes_of [] = []
bytes_of (bytes [] ∷ events) = []
bytes_of (bytes (b ∷ bs) ∷ events) = (b ∷ bs) ++ bytes_of events
bytes_of (interrupted ∷ events) = bytes_of events
bytes_of (failed ∷ events) = bytes_of events

-- No call fails before the end of the file.
abbrev pub is_fine : List Event → Bool
is_fine [] = true
is_fine (bytes [] ∷ events) = true
is_fine (bytes (b ∷ bs) ∷ events) = is_fine events
is_fine (interrupted ∷ events) = is_fine events
is_fine (failed ∷ events) = false

-- What a call gives: bytes, an interruption or an error; none at the end of the file.
pub data ReadResult : Type 0 where
  got : List ℕ → List Event → ReadResult
  interruption : List Event → ReadResult
  error : List Event → ReadResult

-- The part is read as far as there is room.
split_part : ℕ → List ℕ → List Event → ReadResult
split_part n bs events =
    if leb (length bs) n then got bs events else got (take n bs) (bytes (drop n bs) ∷ events)

-- `read` into a buffer of `n` bytes.
unfoldable pub read : ℕ → List Event → ReadResult
unfolding split_part
read n [] = got [] []
read n (bytes bs ∷ events) = split_part n bs events
read n (interrupted ∷ events) = interruption events
read n (failed ∷ events) = error events

-- What `take(n).read_to_end(..)` gives: the bytes and what is left, or an error.
pub data ReadAll : Type 0 where
  all_of : List ℕ → List Event → ReadAll
  failure : List Event → ReadAll

put_first : List ℕ → ReadAll → ReadAll
put_first bs (all_of cs events) = all_of (bs ++ cs) events
put_first bs (failure events) = failure events

unfoldable pub read_to_end : ℕ → List Event → ReadAll
unfolding put_first
read_to_end n [] = all_of [] []
read_to_end n (bytes [] ∷ events) =
    if leb n 0 then all_of [] (bytes [] ∷ events) else all_of [] events
read_to_end n (bytes (b ∷ bs) ∷ events) =
    let rest = read_to_end (n - length (b ∷ bs)) events in
    if leb n 0
    then all_of [] (bytes (b ∷ bs) ∷ events)
    else if leb (length (b ∷ bs)) n
    then put_first (b ∷ bs) rest
    else all_of (take n (b ∷ bs)) (bytes (drop n (b ∷ bs)) ∷ events)
read_to_end n (interrupted ∷ events) =
    let rest = read_to_end n events in if leb n 0 then all_of [] (interrupted ∷ events) else rest
read_to_end n (failed ∷ events) = if leb n 0 then all_of [] (failed ∷ events) else failure events

-- The calls and the bytes that they give.
abbrev pub weight : List Event → ℕ
weight [] = 0
weight (bytes bs ∷ events) = suc (length bs) + weight events
weight (interrupted ∷ events) = suc (weight events)
weight (failed ∷ events) = suc (weight events)

-- As many bytes as were asked for, and the rest of the file is left; or all bytes up to its end.
abbrev pub IsRead : ℕ → List Event → List ℕ → List Event → Type 0
IsRead n events bs rest =
    ((length bs ≡ n) × (bs ++ bytes_of rest ≡ bytes_of events) × (is_fine rest ≡ true))
    ⊎ ((length bs < n) × (bs ≡ bytes_of events))

bytes_of-part :
    (xs : List ℕ) (events : List Event)
    → 1 ≤ length xs
    → (bytes_of (bytes xs ∷ events) ≡ xs ++ bytes_of events)
      × (is_fine (bytes xs ∷ events) ≡ is_fine events)
bytes_of-part [] events h = absurd (omega arith)
bytes_of-part (x ∷ xs) events h = (refl, refl)

-- A part that is read up to its `n`-th byte.
pub split_at :
    (n : ℕ) (bs : List ℕ) (events : List Event)
    → n < length bs
    → is_fine (bytes bs ∷ events) ≡ true
    → (take n bs ++ bytes_of (bytes (drop n bs) ∷ events) ≡ bytes_of (bytes bs ∷ events))
      × (is_fine (bytes (drop n bs) ∷ events) ≡ true)
split_at n bs events h f =
    let (a, b) = bytes_of-part (drop n bs) events (omega (arith, length-drop n bs)) in
    let (c, d) = bytes_of-part bs events (omega arith) in
    (
      ap (λ l. take n bs ++ l) a
          ∙ sym (append_assoc (take n bs) (drop n bs) (bytes_of events))
          ∙ ap (λ l. l ++ bytes_of events) (take-drop-id n bs)
          ∙ sym c,
      b ∙ (sym d ∙ f),
    )

pub read_to_end-IsRead :
    (n : ℕ) (events : List Event)
    → is_fine events ≡ true
    → (bs : List ℕ) × (rest : List Event) × (read_to_end n events ≡ all_of bs rest)
      × IsRead n events bs rest
      × (weight rest ≤ weight events)
unfolding read_to_end
read_to_end-IsRead zero events f = ([], events, at_once events, inl (refl, refl, f), omega arith)
  where
    at_once : (events : List Event) → read_to_end 0 events ≡ all_of [] events
    at_once [] = refl
    at_once (bytes [] ∷ events) = refl
    at_once (bytes (b ∷ bs) ∷ events) = refl
    at_once (interrupted ∷ events) = refl
    at_once (failed ∷ events) = refl
read_to_end-IsRead (suc n) [] f = ([], [], refl, inr (omega arith, refl), omega arith)
read_to_end-IsRead (suc n) (bytes [] ∷ events) f =
    ([], events, ground arith, inr (omega arith, refl), omega arith)
read_to_end-IsRead (suc n) (interrupted ∷ events) f =
    let (bs, rest, e, r, w) = read_to_end-IsRead (suc n) events f in
    (bs, rest, ground (arith, e), r, omega arith)
read_to_end-IsRead (suc n) (failed ∷ events) f = absurd (ground arith)
read_to_end-IsRead (suc n) (bytes (b ∷ bs) ∷ events) f =
    elim (Bool-cases (leb (length (b ∷ bs)) (suc n))) [
      | inl h ↦
          let (cs, rest, e, r, w) = read_to_end-IsRead (suc n - length (b ∷ bs)) events f in
          (
            (b ∷ bs) ++ cs,
            rest,
            rw h (ground (arith, e)),
            joined cs rest (ground arith) r,
            omega arith,
          )
      | inr h ↦
          let (x, y) = split_at (suc n) (b ∷ bs) events (ground arith) f in
          (
            take (suc n) (b ∷ bs),
            bytes (drop (suc n) (b ∷ bs)) ∷ events,
            rw h (ground arith),
            inl (omega (arith, length-take (suc n) (b ∷ bs), lt_of h), x, y),
            omega (arith, length-drop (suc n) (b ∷ bs)),
          )
    ]
  where
    lt_of : leb (length (b ∷ bs)) (suc n) ≡ false → suc n < length (b ∷ bs)
    lt_of h = ground arith

    joined :
        (cs : List ℕ) (rest : List Event)
        → length (b ∷ bs) ≤ suc n
        → IsRead (suc n - length (b ∷ bs)) events cs rest
        → IsRead (suc n) (bytes (b ∷ bs) ∷ events) ((b ∷ bs) ++ cs) rest
    joined cs rest h (inl (l, e, g)) = inl (
      omega (arith, length-append (b ∷ bs) cs),
      append_assoc (b ∷ bs) cs (bytes_of rest) ∙ ap (λ l. (b ∷ bs) ++ l) e,
      g,
    )
    joined cs rest h (inr (l, e)) =
        inr (omega (arith, length-append (b ∷ bs) cs), ap (λ l. (b ∷ bs) ++ l) e)
