-- ===== src/Schedule/Samples.antt =====
-- A witness for controllers/schedule: a Tuesday morning, with months of 31 days and years of 372 in
-- place of the calendar.
use picchu.Base.{ℕ, ◌+◌, ◌*◌, ◌≤◌, ◌<◌, true, false, ◌≡◌, arith, refl}
use picchu.Schedule.{
  Weekday, Moment, is_weekend, holidays, day_of, humane_loop, humane_permits_release,
  inhumane_permits_release,
}
use picchu.Schedule.Permits.{NoneIs, IsAscending, humane_permits_release_lem}

abbrev even_date : ℕ → ℕ → ℕ → ℕ
even_date year month day = (year * 372 + month * 31 + day) * 86400

abbrev tuesday_morning : Moment
tuesday_morning = record {
  year = 2021;
  month = 3;
  day_of_month = 9;
  weekday = Weekday.tuesday;
  hour = 10;
}

even_holidays : IsAscending (holidays even_date)
unfolding holidays
even_holidays = ground arith

tuesday_permits : humane_permits_release even_date tuesday_morning ≡ true
unfolding humane_permits_release humane_loop holidays
tuesday_permits = refl

humane_permits_release_lem_example :
    NoneIs (day_of even_date tuesday_morning) (holidays even_date)
    × (is_weekend Weekday.tuesday ≡ false)
    × (7 ≤ 10)
    × (10 < 16)
    × (inhumane_permits_release even_date tuesday_morning ≡ true)
humane_permits_release_lem_example =
    humane_permits_release_lem even_date even_holidays tuesday_morning tuesday_permits
