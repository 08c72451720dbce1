-- ===== src/Tree/Below.antt =====
-- The trees that wait in `TreeStreamerOnce` of crates/core/src/blob/tree.rs, and the roots.
use rustic_core.Base.{
  ℕ, zero, suc, ◌≡◌, true, false, ◌==◌, any, All, All-append, In, Option, none, some, List, [], ◌∷◌,
  ◌++◌, refl, subst, inl, inr, Bool-cases, Option-cases, some-injective, Bool,
}
use rustic_core.Node.{Node, name_of}
use rustic_core.Tree.{
  Pending, TreeStreamerOnce, take_out, sent, add_pending, note_root, add_roots, new, add_subtrees,
  count_down, received,
}
use rustic_core.Tree.Counts.{none-some}

module _ (P : ℕ → Type 0) where
  -- All that waits has the property.
  abbrev pub Waiting : TreeStreamerOnce → Type 0
  Waiting s = All (λ (q : Pending). P q.id) s.queue

  add_pending-Waiting :
      (path : List (List ℕ)) (id c : ℕ) (s : TreeStreamerOnce)
      → P id
      → Waiting s
      → Waiting (add_pending path id c s).0
  unfolding add_pending sent
  add_pending-Waiting path id c s h w = elim (Bool-cases (any (λ i. i == id) s.visited)) [
    | inl v ↦ rw v w
    | inr v ↦ rw v (All-append (λ (q : Pending). P q.id) s.queue _ w (h, tt))
  ]

  note_root-Waiting : (r : TreeStreamerOnce × Bool) → Waiting r.0 → Waiting (note_root r)
  unfolding note_root
  note_root-Waiting (s, true) w = w
  note_root-Waiting (s, false) w = w

  add_roots-Waiting :
      (c : ℕ) (ids : List ℕ) (s : TreeStreamerOnce)
      → All P ids
      → Waiting s
      → Waiting (add_roots c ids s)
  unfolding add_roots
  add_roots-Waiting c [] s h w = w
  add_roots-Waiting c (id ∷ ids) s h w =
      add_roots-Waiting (suc c) ids (note_root (add_pending [] id c s)) h.1
        (note_root-Waiting (add_pending [] id c s) (add_pending-Waiting [] id c s h.0 w))

  pub new-Waiting : (roots : List ℕ) → All P roots → Waiting (new roots)
  unfolding new
  new-Waiting roots h = add_roots-Waiting 0 roots _ h tt

  add_subtrees-Waiting :
      (path : List (List ℕ)) (c : ℕ) (nodes : List Node) (s : TreeStreamerOnce)
      → ((n : Node) (sub : ℕ) → In n nodes → n.subtree ≡ some sub → P sub)
      → Waiting s
      → Waiting (add_subtrees path c nodes s)
  unfolding add_subtrees
  add_subtrees-Waiting path c [] s h w = w
  add_subtrees-Waiting path c (node ∷ nodes) s h w =
      add_subtrees-Waiting path c nodes _ (λ n sub m e. h n sub (inr m) e) (go node.subtree refl)
    where
      go :
          (o : Option ℕ)
          → node.subtree ≡ o
          → Waiting
              (elim o [ none ↦ s | some id ↦ (add_pending (path ++ name_of node ∷ []) id c s).0 ])
      go none e = w
      go (some id) e =
          add_pending-Waiting (path ++ name_of node ∷ []) id c s (h node id (inl refl) e) w

  -- The tree that is taken out has the property, and the others too.
  pub take_out-All :
      (i : ℕ) (ps : List Pending) (p : Pending) (rest : List Pending)
      → take_out i ps ≡ some (p, rest)
      → All (λ (q : Pending). P q.id) ps
      → P p.id × All (λ (q : Pending). P q.id) rest
  unfolding take_out
  take_out-All i [] p rest e h = absurd (none-some (p, rest) e)
  take_out-All zero (q ∷ ps) p rest e h =
      subst (λ (r : Pending × List Pending). P r.0.id × All (λ (x : Pending). P x.id) r.1)
        (some-injective e) h
  take_out-All (suc i) (q ∷ ps) p rest e h = elim (Option-cases (take_out i ps)) [
    | inl n ↦ absurd (none-some (p, rest) (rw n at e))
    | inr ((r, more), n) ↦
        let e' : some (r, q ∷ more) ≡ some (p, rest) = rw n at e in
        let (x, y) = take_out-All i ps r more n h.1 in
        subst (λ (z : Pending × List Pending). P z.0.id × All (λ (x : Pending). P x.id) z.1)
          (some-injective e') (x, (h.0, y))
  ]

  pub received-Waiting :
      (p : Pending) (tree : List Node) (s : TreeStreamerOnce)
      → ((n : Node) (sub : ℕ) → In n tree → n.subtree ≡ some sub → P sub)
      → Waiting s
      → Waiting (received p tree s)
  unfolding received count_down
  received-Waiting p tree s h w = add_subtrees-Waiting p.path p.count tree s h w
