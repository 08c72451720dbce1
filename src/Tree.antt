-- ===== src/Tree.antt =====
-- `TreeStreamerOnce` of crates/core/src/blob/tree.rs: the walk over all trees, each once. Threads load the
-- trees that wait in the queue, in any order: which one is ready next is an argument of `next`. A path is
-- the list of its names. The threads live as long as the walk, so that sending to them does not fail.
pub mod Counts
pub mod Streamer
pub mod Roots
pub mod Walk
pub mod Below
pub mod Complete
mod Tests
use rustic_core.Base.{
  ℕ, zero, suc, ◌-◌, Bool, true, false, ◌==◌, any, Option, none, some, List, [], ◌∷◌, ◌++◌,
  get_elem?, length, if◌then◌else◌, Result, ok, err,
}
use rustic_core.Node.{Node, name_of}

-- What is sent through the queue: a path, the id of a tree, and the number of its root.
pub record Pending : Type 0 where
  pub path : List (List ℕ)
  pub id : ℕ
  pub count : ℕ

-- `TreeStreamerOnce`; the queue has what is sent and not yet received.
pub record TreeStreamerOnce : Type 0 where
  pub visited : List ℕ
  pub queue : List Pending
  pub counter : List ℕ
  pub finished_ids : ℕ

unfoldable pub count_at : ℕ → List ℕ → ℕ
count_at c [] = 0
count_at zero (n ∷ ns) = n
count_at (suc c) (n ∷ ns) = count_at c ns

unfoldable pub add_one : ℕ → List ℕ → List ℕ
add_one c [] = []
add_one zero (n ∷ ns) = suc n ∷ ns
add_one (suc c) (n ∷ ns) = n ∷ add_one c ns

unfoldable pub take_one : ℕ → List ℕ → List ℕ
take_one c [] = []
take_one zero (n ∷ ns) = (n - 1) ∷ ns
take_one (suc c) (n ∷ ns) = n ∷ take_one c ns

unfoldable pub zeros : ℕ → List ℕ
zeros zero = []
zeros (suc n) = 0 ∷ zeros n

-- The queue with one more.
unfoldable pub sent : List (List ℕ) → ℕ → ℕ → TreeStreamerOnce → TreeStreamerOnce
sent path id count s = record {
  visited = id ∷ s.visited;
  queue = s.queue ++ record { path = path; id = id; count = count } ∷ [];
  counter = add_one count s.counter;
  finished_ids = s.finished_ids;
}

-- `TreeStreamerOnce::add_pending`
unfoldable pub add_pending : List (List ℕ) → ℕ → ℕ → TreeStreamerOnce → TreeStreamerOnce × Bool
add_pending path id count s =
    if any (λ i. i == id) s.visited then (s, false) else (sent path id count s, true)

-- A root that is not added is finished.
unfoldable pub note_root : TreeStreamerOnce × Bool → TreeStreamerOnce
note_root (s, true) = s
note_root (s, false) = record s { finished_ids = suc s.finished_ids }

unfoldable pub add_roots : ℕ → List ℕ → TreeStreamerOnce → TreeStreamerOnce
unfolding note_root
add_roots count [] s = s
add_roots count (id ∷ ids) s = add_roots (suc count) ids (note_root (add_pending [] id count s))

-- `TreeStreamerOnce::new`
unfoldable pub new : List ℕ → TreeStreamerOnce
new ids =
    add_roots 0 ids
      (record { visited = []; queue = []; counter = zeros (length ids); finished_ids = 0 })

-- The loop of `next` over the nodes of a tree.
unfoldable pub add_subtrees : List (List ℕ) → ℕ → List Node → TreeStreamerOnce → TreeStreamerOnce
add_subtrees path count [] s = s
add_subtrees path count (node ∷ nodes) s = add_subtrees path count nodes (elim node.subtree [
  | none ↦ s
  | some id ↦ (add_pending (path ++ name_of node ∷ []) id count s).0
])

-- The end of `next`.
unfoldable pub count_down : ℕ → TreeStreamerOnce → TreeStreamerOnce
count_down count s =
    let counter = take_one count s.counter in
    record s {
      counter = counter;
      finished_ids = if count_at count counter == 0 then suc s.finished_ids else s.finished_ids;
    }

-- The element at a place, and the others.
unfoldable pub take_out : ℕ → List Pending → Option (Pending × List Pending)
take_out i [] = none
take_out zero (p ∷ ps) = some (p, ps)
take_out (suc i) (p ∷ ps) = elim (take_out i ps) [
  | none ↦ none
  | some (q, rest) ↦ some (q, p ∷ rest)
]

-- What `next` gives: the end, a tree with its path, an error, or nothing while no such tree is ready.
pub data Next : Type 0 where
  end waits : Next
  item : Pending → List Node → TreeStreamerOnce → Next
  fails : TreeStreamerOnce → Next

-- The state after the tree of `p` was received.
unfoldable pub received : Pending → List Node → TreeStreamerOnce → TreeStreamerOnce
received p tree s = count_down p.count (add_subtrees p.path p.count tree s)

module _ (from_backend : ℕ → Result (List Node)) where
  -- `TreeStreamerOnce::next`, where the tree at the place is received.
  unfoldable pub next : ℕ → TreeStreamerOnce → Next
  next place s = if length s.counter == s.finished_ids then end else elim (take_out place s.queue) [
    | none ↦ waits
    | some (p, rest) ↦ elim (from_backend p.id) [
      | err e ↦ fails (record s { queue = rest })
      | ok tree ↦ item p tree (received p tree (record s { queue = rest }))
    ]
  ]
