-- ===== src/Clock.antt =====
-- Instants and wall clocks, as scheduler.py uses Python's `datetime`.
--
-- An aware UTC datetime is the number of microseconds since 0001-01-01, and so is the wall clock
-- of a local one, which carries Python's `fold` beside it. The time zone database is not part of
-- the repository: a `TimeZone` stands for `astimezone` in both directions.
use bioseasy.Prelude.{ℕ, ◌%◌, Bool, false}

abbrev pub second : ℕ
second = 1000000

abbrev pub minute : ℕ
minute = 60000000

abbrev pub hour : ℕ
hour = 3600000000

abbrev pub day : ℕ
day = 86400000000

-- A local datetime. Two of one time zone are compared by their wall clocks alone.
pub record Local : Type 0 where
  pub wall : ℕ
  pub fold : Bool

-- `astimezone(tz)` of an instant, and `astimezone(UTC)` of a local datetime.
pub record TimeZone : Type 0 where
  pub to_local : ℕ → Local
  pub to_utc : Local → ℕ

-- `datetime.time()`: the microseconds since the wall clock's midnight.
abbrev pub time_of_day : ℕ → ℕ
time_of_day wall = wall % day

-- The sum of a local datetime and a `timedelta` has fold 0.
abbrev pub at_fold_0 : ℕ → Local
at_fold_0 wall = record { wall = wall; fold = false }
