-- ===== src/Tree/Streamer.antt =====
-- The invariant of `TreeStreamerOnce` of crates/core/src/blob/tree.rs, and `add_pending`.
use rustic_core.Base.{
  ℕ, ◌+◌, ◌≡◌, ◌≤◌, ◌<◌, false, ◌==◌, any, In, some, List, [], ◌∷◌, ◌++◌, count, count-append,
  length, if◌then◌else◌, arith, Result, ok, Bool-cases, inl, suc, inr,
}
use rustic_core.Node.{Node}
use rustic_core.Tree.{Pending, TreeStreamerOnce, count_at, sent, add_pending, note_root}
use rustic_core.Tree.Counts.{
  occ, at_zero, count_at-add_one, at_zero-add_one, occ-any, count_at-lt, any-occ,
}

module _ (from_backend : ℕ → Result (List Node)) where
  -- While `left` roots are not looked at yet, the trees of `extra` are received and not counted down, and
  -- those of `given` are done.
  pub record IsWalk (left : ℕ) (extra : List Pending) (given roots : List ℕ) (s : TreeStreamerOnce)
      : Type 0 where
    pub counted : (c : ℕ) → count_at c s.counter ≡ count (λ q. q.count == c) (extra ++ s.queue)
    pub finished : s.finished_ids + left ≡ at_zero s.counter
    pub once :
        (id : ℕ) → occ id s.visited ≡ occ id given + count (λ q. q.id == id) (extra ++ s.queue)
    pub unique : (id : ℕ) → occ id s.visited ≤ 1
    pub closed :
        (id sub : ℕ) (tree : List Node) (n : Node)
        → 1 ≤ occ id given
        → from_backend id ≡ ok tree
        → In n tree
        → n.subtree ≡ some sub
        → 1 ≤ occ sub s.visited
    pub rooted : (id : ℕ) → In id roots → 1 ≤ occ id s.visited

  -- Nothing that was visited is forgotten.
  abbrev pub Keeps : TreeStreamerOnce → TreeStreamerOnce → Type 0
  Keeps s s' = (id : ℕ) → 1 ≤ occ id s.visited → 1 ≤ occ id s'.visited

  module _ (extra : List Pending) (given roots : List ℕ) (path : List (List ℕ)) (id c : ℕ)
      (s : TreeStreamerOnce) where
    sent-Keeps : Keeps s (sent path id c s)
    unfolding sent
    sent-Keeps i h = ground arith

    sent-IsWalk :
        (left more : ℕ)
        → any (λ i. i == id) s.visited ≡ false
        → c < length s.counter
        → more ≡ left + (if count_at c s.counter == 0 then 1 else 0)
        → IsWalk more extra given roots s
        → IsWalk left extra given roots (sent path id c s)
    unfolding sent
    sent-IsWalk left more v h e w =
        let p : Pending = record { path = path; id = id; count = c } in
        record {
          counted = λ d. ground (
            arith,
            count_at-add_one c d s.counter h,
            w.counted d,
            count-append (λ (q : Pending). q.count == d) extra (s.queue ++ p ∷ []),
            count-append (λ (q : Pending). q.count == d) extra s.queue,
            count-append (λ (q : Pending). q.count == d) s.queue (p ∷ []),
          );
          finished = let z = at_zero-add_one c s.counter h in let f = w.finished in ground arith;
          once = λ d. ground (
            arith,
            w.once d,
            count-append (λ (q : Pending). q.id == d) extra (s.queue ++ p ∷ []),
            count-append (λ (q : Pending). q.id == d) extra s.queue,
            count-append (λ (q : Pending). q.id == d) s.queue (p ∷ []),
          );
          unique = λ d. ground (arith, w.unique d, occ-any id s.visited v);
          closed = λ i sub tree n g r m t. sent-Keeps sub (w.closed i sub tree n g r m t);
          rooted = λ i m. sent-Keeps i (w.rooted i m);
        }

    sent-visits : 1 ≤ occ id (sent path id c s).visited
    unfolding sent
    sent-visits = ground arith

    -- What holds after a call of `add_pending` in `next`.
    abbrev pub IsAdded : TreeStreamerOnce → Type 0
    IsAdded s' =
        IsWalk 0 extra given roots s'
        × Keeps s s'
        × (1 ≤ occ id s'.visited)
        × (1 ≤ count_at c s'.counter)

    sent-counts : 1 ≤ count_at c s.counter → 1 ≤ count_at c (sent path id c s).counter
    unfolding sent
    sent-counts h = ground (arith, count_at-add_one c c s.counter (count_at-lt c s.counter h))

    pub add_pending-IsAdded :
        1 ≤ count_at c s.counter
        → IsWalk 0 extra given roots s
        → IsAdded (add_pending path id c s).0
    unfolding add_pending
    add_pending-IsAdded h w = elim (Bool-cases (any (λ i. i == id) s.visited)) [
      | inl v ↦ rw v (w, (λ i k. k), any-occ id s.visited v, h)
      | inr v ↦ rw v (
        sent-IsWalk 0 0 v (count_at-lt c s.counter h) (ground arith) w,
        sent-Keeps,
        sent-visits,
        sent-counts h,
      )
    ]

    -- A root is looked at.
    pub note_root-IsWalk :
        (left : ℕ)
        → count_at c s.counter ≡ 0
        → c < length s.counter
        → IsWalk (suc left) extra given roots s
        → IsWalk left extra given roots (note_root (add_pending path id c s))
          × Keeps s (note_root (add_pending path id c s))
          × (1 ≤ occ id (note_root (add_pending path id c s)).visited)
    unfolding add_pending note_root
    note_root-IsWalk left z h w = elim (Bool-cases (any (λ i. i == id) s.visited)) [
      | inl v ↦ rw v (
        record {
          counted = w.counted;
          finished = let f = w.finished in omega arith;
          once = w.once;
          unique = w.unique;
          closed = w.closed;
          rooted = w.rooted;
        },
        (λ i k. k),
        any-occ id s.visited v,
      )
      | inr v ↦ rw v (sent-IsWalk left (suc left) v h (ground arith) w, sent-Keeps, sent-visits)
    ]
