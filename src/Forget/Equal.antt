-- ===== src/Forget/Equal.antt =====
-- The tests whether two snapshots fall into the same minute, hour, and so on.
use rustic_core.Base.{◌-◌, ◌/◌, ◌≡◌, Bool, true, false, ◌&&◌, ◌==◌, arith}
use rustic_core.Snapshot.{Jiff, SnapshotFile}

module _ {Zoned Span : Type 0} (j : Jiff Zoned Span) where
  unfoldable pub always_false : SnapshotFile Zoned → SnapshotFile Zoned → Bool
  always_false sn1 sn2 = false

  unfoldable pub equal_year : SnapshotFile Zoned → SnapshotFile Zoned → Bool
  equal_year sn1 sn2 = j.year sn1.time == j.year sn2.time

  -- The months of jiff are at least 1.
  unfoldable pub equal_half_year : SnapshotFile Zoned → SnapshotFile Zoned → Bool
  unfolding equal_year
  equal_half_year sn1 sn2 =
      equal_year sn1 sn2 && (j.month sn1.time - 1) / 6 == (j.month sn2.time - 1) / 6

  unfoldable pub equal_quarter_year : SnapshotFile Zoned → SnapshotFile Zoned → Bool
  unfolding equal_year
  equal_quarter_year sn1 sn2 =
      equal_year sn1 sn2 && (j.month sn1.time - 1) / 3 == (j.month sn2.time - 1) / 3

  unfoldable pub equal_month : SnapshotFile Zoned → SnapshotFile Zoned → Bool
  unfolding equal_year
  equal_month sn1 sn2 = equal_year sn1 sn2 && j.month sn1.time == j.month sn2.time

  unfoldable pub equal_week : SnapshotFile Zoned → SnapshotFile Zoned → Bool
  unfolding equal_year
  equal_week sn1 sn2 = equal_year sn1 sn2 && j.week sn1.time == j.week sn2.time

  unfoldable pub equal_day : SnapshotFile Zoned → SnapshotFile Zoned → Bool
  unfolding equal_year
  equal_day sn1 sn2 = equal_year sn1 sn2 && j.day_of_year sn1.time == j.day_of_year sn2.time

  unfoldable pub equal_hour : SnapshotFile Zoned → SnapshotFile Zoned → Bool
  unfolding equal_day
  equal_hour sn1 sn2 = equal_day sn1 sn2 && j.hour sn1.time == j.hour sn2.time

  -- The source tests the half year here, and not the hour.
  unfoldable pub equal_minute : SnapshotFile Zoned → SnapshotFile Zoned → Bool
  unfolding equal_half_year
  equal_minute sn1 sn2 = equal_half_year sn1 sn2 && j.minute sn1.time == j.minute sn2.time

  module _ (a b : SnapshotFile Zoned) where
    -- A finer period lies within the coarser ones: the same hour is the same day and year, and the
    -- same month is the same quarter and half year.
    pub periods_nest :
        (equal_hour a b ≡ true → (equal_day a b ≡ true) × (equal_year a b ≡ true))
        × (equal_month a b ≡ true → (equal_quarter_year a b ≡ true) × (equal_half_year a b ≡ true))
        × (equal_quarter_year a b ≡ true → equal_half_year a b ≡ true)
    unfolding equal_hour equal_month equal_quarter_year equal_half_year
    periods_nest = ((λ h. ground arith), (λ h. ground arith), (λ h. ground arith))
