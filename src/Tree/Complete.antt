-- ===== src/Tree/Complete.antt =====
-- Whole walks of `TreeStreamerOnce` of crates/core/src/blob/tree.rs.
use rustic_core.Base.{
  All, ◌↔◌, ℕ, ◌+◌, ◌≡◌, ◌≤◌, false, ◌==◌, ==_iff, In, none, some, List, [], ◌∷◌, length, refl, sym,
  arith, subst, inl, inr, Bool-cases, Option-cases, Result, ok, err, count, ◌∙◌, ==_refl, ap,
}
use rustic_core.Node.{Node}
use rustic_core.Tree.{
  Pending, TreeStreamerOnce, take_out, new, received, Next, end, waits, item, fails, next,
}
use rustic_core.Tree.Counts.{occ, count_at-at_zero, at_zero-lt, at_zero-le}
use rustic_core.Tree.Streamer.{IsWalk}
use rustic_core.Tree.Walk.{received-IsWalk}
use rustic_core.Tree.Roots.{new-IsWalk}
use rustic_core.Tree.Below.{Waiting, new-Waiting, take_out-All, received-Waiting}

module _ (from_backend : ℕ → Result (List Node)) where
  -- A walk: what `next` gave so far, the last first, and the state.
  pub data Walk (roots : List ℕ) : List ℕ → TreeStreamerOnce → Type 0 where
    start : Walk roots [] (new roots)
    step :
        {given : List ℕ} {s s' : TreeStreamerOnce} {p : Pending} {tree : List Node} (place : ℕ)
        → Walk roots given s
        → next from_backend place s ≡ item p tree s'
        → Walk roots (p.id ∷ given) s'

  -- The trees below the roots.
  pub data IsBelow (roots : List ℕ) : ℕ → Type 0 where
    root : {id : ℕ} → In id roots → IsBelow roots id
    child :
        {id sub : ℕ} (tree : List Node) (node : Node)
        → IsBelow roots id
        → from_backend id ≡ ok tree
        → In node tree
        → node.subtree ≡ some sub
        → IsBelow roots sub

  -- What `next` did.
  abbrev Did : ℕ → TreeStreamerOnce → Next → Type 0
  Did place s end = length s.counter ≡ s.finished_ids
  Did place s waits =
      ((length s.counter == s.finished_ids) ≡ false) × (take_out place s.queue ≡ none)
  Did place s (fails s') = Unit
  Did place s (item p tree s') =
      (rest : List Pending) × (take_out place s.queue ≡ some (p, rest))
      × (from_backend p.id ≡ ok tree)
      × (received p tree (record s { queue = rest }) ≡ s')

  next-Did : (place : ℕ) (s : TreeStreamerOnce) → Did place s (next from_backend place s)
  unfolding next
  next-Did place s = elim (Bool-cases (length s.counter == s.finished_ids)) [
    | inl h ↦ rw h ((==_iff (length s.counter) s.finished_ids).0 h)
    | inr h ↦ rw h (elim (Option-cases (take_out place s.queue)) [
      | inl e ↦ rw e (h, e)
      | inr ((p, rest), e) ↦ rw e (read p rest e (from_backend p.id) refl)
    ])
  ]
    where
      read :
          (p : Pending) (rest : List Pending)
          → take_out place s.queue ≡ some (p, rest)
          → (r : Result (List Node)) → from_backend p.id ≡ r
          → Did place s (elim r [
            | err e ↦ fails (record s { queue = rest })
            | ok tree ↦ item p tree (received p tree (record s { queue = rest }))
          ])
      read p rest e (err x) f = tt
      read p rest e (ok tree) f = (rest, e, f, refl)

  Did-IsWalk :
      (roots given : List ℕ) (place : ℕ) (s : TreeStreamerOnce) (p : Pending) (tree : List Node)
      (s' : TreeStreamerOnce)
      → Did place s (item p tree s')
      → IsWalk from_backend 0 [] given roots s
      → IsWalk from_backend 0 [] (p.id ∷ given) roots s'
  Did-IsWalk roots given place s p tree s' (rest, e, r, f) w =
      subst (IsWalk from_backend 0 [] (p.id ∷ given) roots) f
        (received-IsWalk from_backend given roots place p rest tree s e r w)

  Walk-IsWalk :
      (roots given : List ℕ) (s : TreeStreamerOnce)
      → Walk roots given s
      → IsWalk from_backend 0 [] given roots s
  Walk-IsWalk roots _ _ start = new-IsWalk from_backend roots
  Walk-IsWalk roots _ _ (step {given = before} {s = old} {s'} {p} {tree} place walk e) =
      Did-IsWalk roots before place old p tree s' (subst (Did place old) e (next-Did place old))
        (Walk-IsWalk roots before old walk)

  -- What was given is below the roots.
  Walk-IsBelow :
      (roots given : List ℕ) (s : TreeStreamerOnce)
      → Walk roots given s
      → Waiting (IsBelow roots) s × All (IsBelow roots) given
  Walk-IsBelow roots _ _ start =
      (new-Waiting (IsBelow roots) roots (all_roots roots (λ i m. m)), tt)
    where
      all_roots : (l : List ℕ) → ((i : ℕ) → In i l → In i roots) → All (IsBelow roots) l
      all_roots [] h = tt
      all_roots (i ∷ l) h = (root (h i (inl refl)), all_roots l (λ j m. h j (inr m)))
  Walk-IsBelow roots _ _ (step {given = before} {s = old} {s'} {p} {tree} place walk e) =
      let (w, g) = Walk-IsBelow roots before old walk in
      let (rest, t, r, f) = subst (Did place old) e (next-Did place old) in
      let (b, more) = take_out-All (IsBelow roots) place old.queue p rest t w in
      (
        subst (Waiting (IsBelow roots)) f (
            received-Waiting (IsBelow roots) p tree (record old { queue = rest })
              (λ n sub m x. child tree n b r m x) more),
        (b, g),
      )

  given-IsBelow :
      (roots given : List ℕ) (id : ℕ)
      → All (IsBelow roots) given
      → 1 ≤ occ id given
      → IsBelow roots id
  given-IsBelow roots [] id a h = absurd (omega arith)
  given-IsBelow roots (i ∷ given) id a h = elim (Bool-cases (i == id)) [
    | inl e ↦ subst (IsBelow roots) ((==_iff i id).0 e) a.0
    | inr e ↦ given-IsBelow roots given id a.1 (ground arith)
  ]

  -- All that is below the roots is done when nothing waits.
  below-given :
      (roots given : List ℕ) (s : TreeStreamerOnce) (id : ℕ)
      → IsWalk from_backend 0 [] given roots s
      → ((i : ℕ) → occ i s.visited ≡ occ i given)
      → IsBelow roots id
      → 1 ≤ occ id given
  below-given roots given s _ w all (root {id} m) = subst (λ n. 1 ≤ n) (all id) (w.rooted id m)
  below-given roots given s _ w all (child {id} {sub} tree node b r m t) =
      subst (λ n. 1 ≤ n) (all sub)
        (w.closed id sub tree node (below-given roots given s id w all b) r m t)

  empty_queue : (q : List Pending) → ((c : ℕ) → count (λ p. p.count == c) q ≡ 0) → q ≡ []
  empty_queue [] h = refl
  empty_queue (p ∷ q) h = absurd (let e = h p.count in ground (arith, ==_refl p.count))

  -- If `next` says after some calls that the walk is at its end, then a tree is below the roots exactly if
  -- it was given by exactly one of the calls, and none was given by two. None of these calls may have failed;
  -- the trees may have been loaded in any order.
  pub next-IsBelow :
      (roots given : List ℕ) (s : TreeStreamerOnce) (place id : ℕ)
      → Walk roots given s
      → next from_backend place s ≡ end
      → (IsBelow roots id ↔ (occ id given ≡ 1)) × (occ id given ≤ 1)
  next-IsBelow roots given s place id walk e =
      let w = Walk-IsWalk roots given s walk in
      let all_done : length s.counter ≡ s.finished_ids = subst (Did place s) e (next-Did place s) in
      let f = w.finished in
      let nothing : s.queue ≡ [] =
        empty_queue s.queue (λ c. sym (w.counted c) ∙ count_at-at_zero c s.counter (omega arith)) in
      let same : (i : ℕ) → occ i s.visited ≡ occ i given =
        λ i. w.once i ∙ ap (λ q. occ i given + count (λ p. p.id == i) q) nothing ∙ omega arith in
      let once : occ id given ≤ 1 = omega (arith, same id, w.unique id) in
      (
        (
          (λ b. omega (arith, below-given roots given s id w same b, once)),
          (λ h. given-IsBelow roots given id (Walk-IsBelow roots given s walk).1 (omega arith)),
        ),
        once,
      )

  -- After any calls that did not fail, no tree was given twice. Where `next` still waits for a tree, there is
  -- one in the queue, so that the walk does not stop before its end.
  pub next_waits :
      (roots given : List ℕ) (s : TreeStreamerOnce) (place : ℕ)
      → Walk roots given s
      → next from_backend place s ≡ waits
      → ((id : ℕ) → occ id given ≤ 1) × (1 ≤ length s.queue)
  next_waits roots given s place walk e =
      let w = Walk-IsWalk roots given s walk in
      let (h, k) = subst (Did place s) e (next-Did place s) in
      let f = w.finished in
      let (c, j) = at_zero-lt s.counter (ground (arith, at_zero-le s.counter)) in
      ((λ id. omega (arith, w.once id, w.unique id)), filled s.queue c (omega (arith, w.counted c)))
    where
      filled : (q : List Pending) (c : ℕ) → 1 ≤ count (λ p. p.count == c) q → 1 ≤ length q
      filled [] c h = absurd (omega arith)
      filled (p ∷ q) c h = omega arith
