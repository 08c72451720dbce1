-- ===== src/Snapshot/Tests.antt =====
-- Examples for snapshots and groups. A point in time is a number of seconds, in years of 360 days.
use rustic_core.Base.{ℕ, ◌+◌, ◌-◌, ◌/◌, ◌%◌, ◌≡◌, ◌↔◌, true, none, some, [], ◌∷◌}
use rustic_core.Snapshot.{
  Jiff, SnapshotFile, DeleteOption, after, SnapshotGroup, group_matches, group_of, criterion_of,
}
use rustic_core.Snapshot.Groups.{group_matches_iff}

abbrev pub clock : Jiff ℕ ℕ
clock = record {
  timestamp = λ t. t;
  year = λ t. t / 31104000;
  month = λ t. t / 2592000 % 12 + 1;
  week = λ t. t / 604800 % 52;
  day_of_year = λ t. t / 86400 % 360;
  hour = λ t. t / 3600 % 24;
  minute = λ t. t / 60 % 60;
  saturating_add = λ t s. t + s;
  saturating_sub = λ t s. t - s;
}

-- A snapshot of a time and a tree.
abbrev pub snapshot : ℕ → ℕ → DeleteOption ℕ → SnapshotFile ℕ
snapshot time tree delete = record {
  time = time;
  program_version = [];
  parent = none;
  parents = [];
  tree = tree;
  label = [];
  paths = (47 ∷ []) ∷ [];
  hostname = 97 ∷ [];
  username = [];
  uid = 0;
  gid = 0;
  tags = [];
  original = none;
  delete = delete;
  description = none;
  id = time;
}

abbrev kept_until : SnapshotFile ℕ
kept_until = snapshot 10 1 (after 50)

abbrev group : SnapshotGroup
group = record {
  hostname = some (97 ∷ []);
  label = none;
  paths = some ((47 ∷ []) ∷ []);
  tags = none;
}

group_matches_iff_example :
    (group_matches group kept_until ≡ true) ↔ (group ≡ group_of kept_until (criterion_of group))
group_matches_iff_example = group_matches_iff group kept_until
