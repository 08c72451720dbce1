-- ===== src/Tree/Roots.antt =====
-- `TreeStreamerOnce::new` of crates/core/src/blob/tree.rs.
use rustic_core.Base.{
  ℕ, suc, ◌+◌, ◌≡◌, ◌≤◌, ◌==◌, In, List, [], ◌∷◌, length, refl, sym, arith, subst, inl, inr,
  Bool-cases, any, ◌⊎◌, Result,
}
use rustic_core.Node.{Node}
use rustic_core.Tree.{
  TreeStreamerOnce, count_at, zeros, add_pending, note_root, add_one, sent, add_roots, new,
}
use rustic_core.Tree.Counts.{
  occ, count_at-zeros, count_at-add_one, length-add_one, at_zero-zeros, length-zeros,
}
use rustic_core.Tree.Streamer.{IsWalk, Keeps, note_root-IsWalk}

module _ (from_backend : ℕ → Result (List Node)) where
  note_root_counter :
      (path : List (List ℕ)) (id c : ℕ) (s : TreeStreamerOnce)
      → ((note_root (add_pending path id c s)).counter ≡ s.counter)
        ⊎ ((note_root (add_pending path id c s)).counter ≡ add_one c s.counter)
  unfolding note_root add_pending sent
  note_root_counter path id c s = elim (Bool-cases (any (λ i. i == id) s.visited)) [
    | inl v ↦ rw v (inl refl)
    | inr v ↦ rw v (inr refl)
  ]

  -- The roots that follow have no tree yet.
  abbrev IsFresh : ℕ → ℕ → List ℕ → Type 0
  IsFresh c n l = (c + n ≡ length l) × ((d : ℕ) → c ≤ d → count_at d l ≡ 0)

  next-IsFresh :
      (c n : ℕ) (l l' : List ℕ)
      → (l' ≡ l) ⊎ (l' ≡ add_one c l)
      → IsFresh c (suc n) l
      → IsFresh (suc c) n l'
  next-IsFresh c n l l' (inl e) (h, z) =
      subst (IsFresh (suc c) n) (sym e) (omega arith, λ d k. z d (omega arith))
  next-IsFresh c n l l' (inr e) (h, z) = subst (IsFresh (suc c) n) (sym e) (
    omega (arith, length-add_one c l),
    λ d k. ground (arith, count_at-add_one c d l (omega arith), z d (omega arith)),
  )

  add_roots-IsWalk :
      (ids : List ℕ) (c : ℕ) (s : TreeStreamerOnce)
      → IsFresh c (length ids) s.counter
      → IsWalk from_backend (length ids) [] [] [] s
      → IsWalk from_backend 0 [] [] [] (add_roots c ids s)
        × Keeps from_backend s (add_roots c ids s)
        × ((id : ℕ) → In id ids → 1 ≤ occ id (add_roots c ids s).visited)
  unfolding add_roots
  add_roots-IsWalk [] c s e w = (w, (λ i k. k), (λ id m. absurd m))
  add_roots-IsWalk (id ∷ ids) c s e w =
      let s' = note_root (add_pending [] id c s) in
      let (x, k, v) =
        note_root-IsWalk from_backend [] [] [] [] id c s (length ids) (e.1 c (omega arith))
          (let h = e.0 in omega arith) w in
      let (x', k', v') =
        add_roots-IsWalk ids (suc c) s'
          (next-IsFresh c (length ids) s.counter s'.counter (note_root_counter [] id c s) e) x in
      (
        x',
        (λ i h. k' i (k i h)),
        (λ i m. elim m [
          | inl h ↦ subst (λ y. 1 ≤ occ y (add_roots (suc c) ids s').visited) h (k' id v)
          | inr h ↦ v' i h
        ]),
      )

  pub new-IsWalk : (roots : List ℕ) → IsWalk from_backend 0 [] [] roots (new roots)
  unfolding new
  new-IsWalk roots =
      let first : TreeStreamerOnce = record {
        visited = [];
        queue = [];
        counter = zeros (length roots);
        finished_ids = 0;
      } in
      let (w, k, v) =
        add_roots-IsWalk roots 0 first
          (omega (arith, length-zeros (length roots)), λ d h. count_at-zeros d (length roots))
          (record {
            counted = λ c. count_at-zeros c (length roots);
            finished = omega (arith, at_zero-zeros (length roots));
            once = λ id. refl;
            unique = λ id. omega arith;
            closed = λ id sub tree n h. absurd (omega arith);
            rooted = λ id m. absurd m;
          }) in
      record {
        counted = w.counted;
        finished = w.finished;
        once = w.once;
        unique = w.unique;
        closed = w.closed;
        rooted = v;
      }
