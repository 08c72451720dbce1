-- ===== src/Tree/Tests.antt =====
-- A walk over three trees from two roots, where one tree has two parents.
use rustic_core.Base.{
  ℕ, ◌≡◌, ◌↔◌, ◌≤◌, none, some, List, [], ◌∷◌, Result, ok, err, internal, refl, ◌==◌, if◌then◌else◌,
  length,
}
use rustic_core.Node.{Node, dir}
use rustic_core.Tree.{
  TreeStreamerOnce, new, next, zeros, add_roots, add_pending, sent, add_one, count_at, take_one,
  take_out, add_subtrees, count_down, received, end,
}
use rustic_core.Tree.Counts.{occ}
use rustic_core.Tree.Complete.{Walk, start, step, next-IsBelow, next_waits, IsBelow}

abbrev folder : ℕ → Node
folder id = record {
  name = [];
  node_type = dir;
  meta = record {
    mode = none;
    mtime = none;
    atime = none;
    ctime = none;
    uid = none;
    gid = none;
    user = none;
    group = none;
    inode = 0;
    device_id = 0;
    size = 0;
    links = 0;
    extended_attributes = [];
  };
  content = none;
  subtree = some id;
}

-- Tree 1 has the trees 2 and 3, and tree 2 has tree 3.
abbrev from_backend : ℕ → Result (List Node)
from_backend id =
    if id == 1
    then ok (folder 2 ∷ folder 3 ∷ [])
    else if id == 2
    then ok (folder 3 ∷ [])
    else if id == 3
    then ok []
    else err internal

abbrev roots : List ℕ
roots = 1 ∷ 2 ∷ 1 ∷ []

-- Tree 2 is loaded before tree 1.
three_trees :
    (s : TreeStreamerOnce) × Walk from_backend roots (3 ∷ 1 ∷ 2 ∷ []) s
    × (next from_backend 0 s ≡ end)
unfolding new next zeros add_roots add_pending sent add_one count_at take_one take_out add_subtrees
    count_down received
three_trees = (_, step 0 (step 0 (step 1 start refl) refl) refl, refl)

next-IsBelow_example :
    (IsBelow from_backend roots 3 ↔ (occ 3 (3 ∷ 1 ∷ 2 ∷ []) ≡ 1)) × (occ 3 (3 ∷ 1 ∷ 2 ∷ []) ≤ 1)
next-IsBelow_example =
    next-IsBelow from_backend roots (3 ∷ 1 ∷ 2 ∷ []) three_trees.0 0 3 three_trees.1 three_trees.2

next_waits_example : ((id : ℕ) → occ id [] ≤ 1) × (1 ≤ length (new roots).queue)
unfolding new next zeros add_roots add_pending sent add_one take_out
next_waits_example = next_waits from_backend roots [] (new roots) 7 start refl
