-- ===== src/Schedule.antt =====
-- controllers/schedule: when a release may begin. The calendar of the standard library is a
-- parameter: `date y m d` is the instant of midnight in the schedule's location, and a `Moment` is
-- what the code reads of a time.
pub mod Permits
mod Samples
use Prim.Native.String.{String}
use text.Mathlib.Text.{◌==◌ as str_eq}
use picchu.Base.{
  ℕ, ◌+◌, Bool, true, false, ◌&&◌, ◌||◌, not, List, [], ◌∷◌, if◌then◌else◌, ltb, leb, ◌==◌,
}

pub data Weekday : Type 0 where
  sunday monday tuesday wednesday thursday friday saturday : Weekday

-- The date and the weekday in the time's own zone, and the hour in the schedule's location.
pub record Moment : Type 0 where
  pub year : ℕ
  pub month : ℕ
  pub day_of_month : ℕ
  pub weekday : Weekday
  pub hour : ℕ

abbrev pub default_start_hour : ℕ
default_start_hour = 7

abbrev pub default_end_hour : ℕ
default_end_hour = 16

abbrev pub early_end_hour : ℕ
early_end_hour = 14

abbrev pub is_weekend : Weekday → Bool
is_weekend Weekday.saturday = true
is_weekend Weekday.sunday = true
is_weekend _ = false

abbrev pub is_friday : Weekday → Bool
is_friday Weekday.friday = true
is_friday _ = false

-- `hour >= defaultStartHour && hour < end`
abbrev pub within_hours : ℕ → ℕ → Bool
within_hours end hour = leb default_start_hour hour && ltb hour end

module _ (date : ℕ → ℕ → ℕ → ℕ) where
  pub holidays : List ℕ
  holidays =
      date 2020 6 19
      ∷ date 2020 7 3
      ∷ date 2020 7 4
      ∷ date 2020 7 5
      ∷ date 2020 9 7
      ∷ date 2020 11 26
      ∷ date 2020 11 27
      ∷ date 2020 12 17
      ∷ date 2020 12 18
      ∷ date 2020 12 21
      ∷ date 2020 12 22
      ∷ date 2020 12 23
      ∷ date 2020 12 24
      ∷ date 2020 12 25
      ∷ date 2020 12 26
      ∷ date 2020 12 27
      ∷ date 2020 12 28
      ∷ date 2020 12 29
      ∷ date 2020 12 30
      ∷ date 2020 12 31
      ∷ date 2021 1 1
      ∷ date 2021 1 18
      ∷ date 2021 5 31
      ∷ date 2021 6 19
      ∷ date 2021 7 4
      ∷ date 2021 7 5
      ∷ date 2021 9 6
      ∷ date 2021 11 25
      ∷ date 2021 11 26
      ∷ date 2021 12 24
      ∷ date 2021 12 25
      ∷ date 2021 12 26
      ∷ date 2021 12 31
      ∷ date 2023 1 1
      ∷ date 2023 12 20
      ∷ date 2023 12 21
      ∷ date 2023 12 22
      ∷ date 2023 12 23
      ∷ date 2023 12 24
      ∷ date 2023 12 25
      ∷ date 2023 12 26
      ∷ date 2023 12 27
      ∷ date 2023 12 28
      ∷ date 2023 12 29
      ∷ date 2023 12 30
      ∷ date 2023 12 31
      ∷ date 2024 1 1
      ∷ []

  abbrev pub day_of : Moment → ℕ
  day_of t = date t.year t.month t.day_of_month

-- What follows the loop over the holidays.
abbrev pub humane_weekday : Moment → Bool
humane_weekday t =
    if is_weekend t.weekday
    then false
    else if is_friday t.weekday
    then within_hours early_end_hour t.hour
    else within_hours default_end_hour t.hour

-- The loop of `humanePermitsRelease`; `tomorrow` is 24 hours, in seconds, after `day`.
pub humane_loop : ℕ → Moment → List ℕ → Bool
humane_loop day t [] = humane_weekday t
humane_loop day t (holiday ∷ rest) =
    let later = humane_loop day t rest in
    if holiday == day
    then false
    else if holiday == day + 86400 && not (is_weekend t.weekday)
    then within_hours early_end_hour t.hour
    else later

pub inhumane_loop : ℕ → Moment → List ℕ → Bool
inhumane_loop day t [] = not (is_weekend t.weekday)
inhumane_loop day t (holiday ∷ rest) =
    let later = inhumane_loop day t rest in if holiday == day then false else later

pub always_permits_release : Moment → Bool
always_permits_release t = true

module _ (date : ℕ → ℕ → ℕ → ℕ) where
  pub humane_permits_release : Moment → Bool
  unfolding humane_loop
  humane_permits_release t = humane_loop (day_of date t) t (holidays date)

  pub inhumane_permits_release : Moment → Bool
  unfolding inhumane_loop
  inhumane_permits_release t = inhumane_loop (day_of date t) t (holidays date)

  pub permits_release : Moment → String → Bool
  unfolding humane_permits_release inhumane_permits_release always_permits_release
  permits_release t schedule =
      if str_eq schedule "humane" || str_eq schedule "Humane"
      then humane_permits_release t
      else if str_eq schedule "inhumane" || str_eq schedule "Inhumane"
      then inhumane_permits_release t
      else always_permits_release t
