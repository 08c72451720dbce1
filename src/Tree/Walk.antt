-- ===== src/Tree/Walk.antt =====
-- A call of `TreeStreamerOnce::next` of crates/core/src/blob/tree.rs.
use rustic_core.Base.{
  ℕ, ◌+◌, ◌≡◌, ◌≤◌, ◌==◌, ==_iff, ==_refl, In, Option, none, some, List, [], ◌∷◌, ◌++◌, refl, ap,
  ◌∙◌, sym, arith, subst, inl, inr, Bool-cases, Result, ok, ok-injective, some-injective,
}
use rustic_core.Node.{Node, name_of}
use rustic_core.Tree.{
  Pending, TreeStreamerOnce, count_at, take_out, add_pending, add_subtrees, count_down, received,
}
use rustic_core.Tree.Counts.{occ, count_at-take_one, at_zero-take_one, count-take_out, none-some}
use rustic_core.Tree.Streamer.{IsWalk, Keeps, add_pending-IsAdded}

module _ (from_backend : ℕ → Result (List Node)) where
  -- The subtrees of the nodes are visited.
  abbrev Visits : List Node → TreeStreamerOnce → Type 0
  Visits nodes s = (n : Node) (sub : ℕ) → In n nodes → n.subtree ≡ some sub → 1 ≤ occ sub s.visited

  module _ (extra : List Pending) (given roots : List ℕ) (path : List (List ℕ)) (c : ℕ) where
    add_subtrees-IsWalk :
        (nodes : List Node) (s : TreeStreamerOnce)
        → 1 ≤ count_at c s.counter
        → IsWalk from_backend 0 extra given roots s
        → IsWalk from_backend 0 extra given roots (add_subtrees path c nodes s)
          × Keeps from_backend s (add_subtrees path c nodes s)
          × Visits nodes (add_subtrees path c nodes s)
          × (1 ≤ count_at c (add_subtrees path c nodes s).counter)
    unfolding add_subtrees
    add_subtrees-IsWalk [] s h w = (w, (λ i k. k), (λ n sub m e. absurd m), h)
    add_subtrees-IsWalk (node ∷ nodes) s h w =
        go (λ s' h' w'. add_subtrees-IsWalk nodes s' h' w') node.subtree refl
      where
        go :
            ((s' : TreeStreamerOnce)
              → 1 ≤ count_at c s'.counter
              → IsWalk from_backend 0 extra given roots s'
              → IsWalk from_backend 0 extra given roots (add_subtrees path c nodes s')
                × Keeps from_backend s' (add_subtrees path c nodes s')
                × Visits nodes (add_subtrees path c nodes s')
                × (1 ≤ count_at c (add_subtrees path c nodes s').counter))
            → (o : Option ℕ) → node.subtree ≡ o
            → (let r = add_subtrees path c nodes (elim o [
              | none ↦ s
              | some id ↦ (add_pending (path ++ name_of node ∷ []) id c s).0
            ]) in
                IsWalk from_backend 0 extra given roots r
                × Keeps from_backend s r
                × Visits (node ∷ nodes) r
                × (1 ≤ count_at c r.counter))
        go ih none o =
            let (x, k, v, y) = ih s h w in
            (
              x,
              k,
              (λ n sub m e. elim m [
                | inl i ↦ absurd (none-some sub (sym o ∙ ap (λ (x : Node). x.subtree) i ∙ e))
                | inr i ↦ v n sub i e
              ]),
              y,
            )
        go ih (some id) o =
            let (x, k, v, y) =
              add_pending-IsAdded from_backend extra given roots (path ++ name_of node ∷ []) id c s
                h w in
            let (x', k', v', y') = ih (add_pending (path ++ name_of node ∷ []) id c s).0 y x in
            (
              x',
              (λ i z. k' i (k i z)),
              (λ n sub m e. elim m [
                | inl i ↦
                    subst
                      (λ z.
                        1
                        ≤ occ z
                            (add_subtrees path c nodes
                              (add_pending (path ++ name_of node ∷ []) id c s).0).visited)
                      (some-injective (sym o ∙ ap (λ (x : Node). x.subtree) i ∙ e)) (k' id v)
                | inr i ↦ v' n sub i e
              ]),
              y',
            )

  -- A tree that waits is received.
  take_out-IsWalk :
      (given roots : List ℕ) (place : ℕ) (p : Pending) (rest : List Pending) (s : TreeStreamerOnce)
      → take_out place s.queue ≡ some (p, rest)
      → IsWalk from_backend 0 [] given roots s
      → IsWalk from_backend 0 (p ∷ []) given roots (record s { queue = rest })
  take_out-IsWalk given roots place p rest s e w = record {
    counted = λ c. w.counted c ∙ count-take_out place s.queue p rest (λ q. q.count == c) e;
    finished = w.finished;
    once = λ id.
        w.once id
        ∙ ap (λ n. occ id given + n) (count-take_out place s.queue p rest (λ q. q.id == id) e);
    unique = w.unique;
    closed = w.closed;
    rooted = w.rooted;
  }

  -- A tree whose subtrees are visited is done.
  count_down-IsWalk :
      (given roots : List ℕ) (p : Pending) (tree : List Node) (s : TreeStreamerOnce)
      → from_backend p.id ≡ ok tree
      → Visits tree s
      → 1 ≤ count_at p.count s.counter
      → IsWalk from_backend 0 (p ∷ []) given roots s
      → IsWalk from_backend 0 [] (p.id ∷ given) roots (count_down p.count s)
  unfolding count_down
  count_down-IsWalk given roots p tree s e v h w = record {
    counted = λ c. let x = w.counted c in ground (arith, count_at-take_one p.count c s.counter);
    finished = let x = w.finished in let y = at_zero-take_one p.count s.counter h in ground arith;
    once = λ id. let x = w.once id in ground arith;
    unique = w.unique;
    closed = λ id sub tree' n g r m t. elim (Bool-cases (p.id == id)) [
      | inl i ↦
          let same : tree ≡ tree' =
            ok-injective (sym e ∙ ap from_backend ((==_iff p.id id).0 i) ∙ r) in
          v n sub (subst (In n) (sym same) m) t
      | inr i ↦ w.closed id sub tree' n (ground arith) r m t
    ];
    rooted = w.rooted;
  }

  pub received-IsWalk :
      (given roots : List ℕ) (place : ℕ) (p : Pending) (rest : List Pending) (tree : List Node)
      (s : TreeStreamerOnce)
      → take_out place s.queue ≡ some (p, rest)
      → from_backend p.id ≡ ok tree
      → IsWalk from_backend 0 [] given roots s
      → IsWalk from_backend 0 [] (p.id ∷ given) roots (received p tree (record s { queue = rest }))
  unfolding received
  received-IsWalk given roots place p rest tree s e r w =
      let s' : TreeStreamerOnce = record s { queue = rest } in
      let w' = take_out-IsWalk given roots place p rest s e w in
      let (x, k, v, y) =
        add_subtrees-IsWalk (p ∷ []) given roots p.path p.count tree s'
          (let z = w'.counted p.count in ground (arith, ==_refl p.count)) w' in
      count_down-IsWalk given roots p tree (add_subtrees p.path p.count tree s') r v y x
