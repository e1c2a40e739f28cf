-- ===== src/Dates/Tests.antt =====
-- Dates of the calendar of 2026, and the theorems on it at one date each.
use sports_erp.Prelude.{ℕ, ◌≤◌, ◌<◌, ◌≡◌, ◌↔◌, some, ltb, arith}
use sports_erp.Dates.Civil.{
  full_year, day_of_ymd, days_in_month, days_before_year, days_before_month, Ymd, ymd, ymd_of_day,
  ymd_lt,
}
use sports_erp.Dates.Civil.Bijection.{IsDate, ymd_lt-ymd_of_day}
use sports_erp.Dates.Kst.{
  kst_day_range, to_kst_date_string, add_years_to_date_string, add_months_to_date_string,
}
use sports_erp.Dates.Kst.DayRange.{kst_day_range_lem}
use sports_erp.Dates.Kst.Shifts.{
  full_date, years_later, months_later, add_years_to_date_string_lem, add_months_to_date_string_lem,
}

abbrev hangul_day : Ymd
hangul_day = ymd 2026 10 9

hangul_day-IsDate : IsDate hangul_day
unfolding days_in_month
hangul_day-IsDate = record {
  year_from = omega arith;
  month_from = omega arith;
  month_to = omega arith;
  day_from = omega arith;
  day_to = omega arith;
}

hangul_day_pos : 0 < day_of_ymd hangul_day
unfolding day_of_ymd days_before_year days_before_month
hangul_day_pos = omega arith

-- Fifteen hours of universal time into the day before.
kst_day_range_lem_example :
    (r : ℕ × ℕ) × (kst_day_range hangul_day ≡ some r)
    × (((r.0 ≤ 63927180000000) × (63927180000000 < r.1))
        ↔ (to_kst_date_string 63927180000000 ≡ hangul_day))
kst_day_range_lem_example =
    kst_day_range_lem hangul_day 63927180000000 hangul_day-IsDate hangul_day_pos

add_years_to_date_string_lem_example :
    add_years_to_date_string hangul_day 3 ≡ years_later (full_date hangul_day) 3
unfolding full_year
add_years_to_date_string_lem_example =
    add_years_to_date_string_lem hangul_day 3 hangul_day-IsDate (omega arith)

add_months_to_date_string_lem_example :
    add_months_to_date_string hangul_day 6 ≡ months_later (full_date hangul_day) 6
unfolding full_year
add_months_to_date_string_lem_example =
    add_months_to_date_string_lem hangul_day 6 hangul_day-IsDate (omega arith)

ymd_lt-ymd_of_day_example : ymd_lt (ymd_of_day 100) (ymd_of_day 739000) ≡ ltb 100 739000
ymd_lt-ymd_of_day_example = ymd_lt-ymd_of_day 100 739000
