-- ===== src/Usage/Period.antt =====
-- The keys of the usage buckets, packages/core/src/identity/budget.ts, for times from 1970 on. The
-- calendar is the proleptic Gregorian one of the runtime's UTC dates.
use molenkopf.Base.{two_digits, decimal}
use molenkopf.Base.{ℕ, ◌+◌, ◌-◌, ◌*◌, ◌/◌, String, ◌≡◌, refl, ltb, leb, nat_eq, if◌then◌else◌}
use Prim.Native.String
use molenkopf.Identity.{BudgetPeriod, day, week, month, total}

pub record CivilDate : Type 0 where
  pub year : ℕ
  pub month_number : ℕ
  pub day_number : ℕ

-- The UTC date of a day counted from 1970, by 400-year cycles of years that begin in March.
unfoldable pub civil_date : ℕ → CivilDate
civil_date days =
    let z = days + 719468 in
    let era = z / 146097 in
    let day_of_era = z - era * 146097 in
    let year_of_era =
      (day_of_era + day_of_era / 36524 - day_of_era / 1460 - day_of_era / 146096) / 365 in
    let day_of_year = day_of_era + year_of_era / 100 - (365 * year_of_era + year_of_era / 4) in
    let month_from_march = (5 * day_of_year + 2) / 153 in
    let month_number =
      (if ltb month_from_march 10 then month_from_march + 3 else month_from_march - 9) in
    record {
      year = era * 400 + year_of_era + (if leb month_number 2 then 1 else 0);
      month_number = month_number;
      day_number = day_of_year - (153 * month_from_march + 2) / 5 + 1;
    }

-- The day of the first of January of a year, `Date.UTC(year, 0, 1)`.
unfoldable pub first_of_january : ℕ → ℕ
first_of_january year = let y = year - 1 in 365 * y + y / 4 + y / 400 - y / 100 - 719162

-- Sunday is 0.
abbrev week_day : ℕ → ℕ
week_day days = (days + 4) - ((days + 4) / 7) * 7

pub record IsoWeek : Type 0 where
  pub week_year : ℕ
  pub week_number : ℕ

-- The week of the Thursday that falls in the same week.
unfoldable pub iso_week : ℕ → IsoWeek
unfolding civil_date first_of_january
iso_week days =
    let weekday = (if nat_eq (week_day days) 0 then 7 else week_day days) in
    let thursday = days + 4 - weekday in
    let year = (civil_date thursday).year in
    record { week_year = year; week_number = (thursday - first_of_january year + 1 + 6) / 7 }

abbrev pub day_of_time : ℕ → ℕ
day_of_time at = at / 86400000

abbrev join : String → String → String
join a b = String.◌++◌ a b

unfoldable pub budget_period_key : BudgetPeriod → ℕ → String
unfolding civil_date iso_week two_digits decimal
budget_period_key total at = "total"
budget_period_key day at =
    let date = civil_date (day_of_time at) in
    join "day:" (
      join (decimal date.year)
        (join "-" (join (two_digits date.month_number) (join "-" (two_digits date.day_number)))))
budget_period_key month at =
    let date = civil_date (day_of_time at) in
    join "month:" (join (decimal date.year) (join "-" (two_digits date.month_number)))
budget_period_key week at =
    let w = iso_week (day_of_time at) in
    join "week:" (join (decimal w.week_year) (join "-W" (two_digits w.week_number)))

key_tests :
    (budget_period_key day 1782000000000 ≡ "day:2026-06-21")
    × (budget_period_key week 1782000000000 ≡ "week:2026-W25")
    × (budget_period_key month 951782400000 ≡ "month:2000-02")
    × (budget_period_key week 1609459200000 ≡ "week:2020-W53")
unfolding budget_period_key
key_tests = (refl, refl, refl, refl)
