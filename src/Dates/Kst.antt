-- ===== src/Dates/Kst.antt =====
-- The functions of common/date/kst-date.ts, and `addMonthsToDateString` of
-- modules/branches/contract-retention.ts, which uses the same calendar.
pub mod DayRange
pub mod Shifts
use sports_erp.Prelude.{
  ℕ, ◌+◌, ◌-◌, ◌*◌, ◌/◌, ◌%◌, min, Bool, ◌&&◌, Option, none, some, leb, if◌then◌else◌,
}
use sports_erp.Dates.Civil.{Ymd, ymd_of_day, utc_day, make_day}

abbrev pub day_ms : ℕ
day_ms = 86400000

-- KST_OFFSET_MS
abbrev pub kst_offset_ms : ℕ
kst_offset_ms = 32400000

unfoldable pub kst_shifted : ℕ → ℕ
kst_shifted t = t + kst_offset_ms

-- The number of the Korean calendar day at an instant.
unfoldable pub kst_day : ℕ → ℕ
unfolding kst_shifted
kst_day t = kst_shifted t / day_ms

unfoldable pub to_kst_date_string : ℕ → Ymd
unfolding kst_day
to_kst_date_string t = ymd_of_day (kst_day t)

-- `kstHoursMinutes`: hours and minutes.
unfoldable pub kst_hours_minutes : ℕ → ℕ × ℕ
unfolding kst_shifted
kst_hours_minutes t = (kst_shifted t % day_ms / 3600000, kst_shifted t % 3600000 / 60000)

-- `setUTCFullYear` keeps month and day, and runs over into March on a missing 29th of February.
unfoldable pub add_years_to_date_string : Ymd → ℕ → Ymd
add_years_to_date_string c years =
    let dt = ymd_of_day (utc_day c.year (c.month - 1) c.day) in
    ymd_of_day (make_day (dt.year + years) (dt.month - 1) dt.day)

-- A month or a day that no calendar has makes the parsed `Date` invalid.
abbrev is_parsed : Ymd → Bool
is_parsed c = leb 1 c.month && leb c.month 12 && leb 1 c.day && leb c.day 31

-- `kstDayRange` of a text that has the form `YYYY-MM-DD`.
unfoldable pub kst_day_range : Ymd → Option (ℕ × ℕ)
kst_day_range c =
    let start = make_day c.year (c.month - 1) c.day * day_ms - kst_offset_ms in
    if is_parsed c then some (start, start + day_ms) else none

-- The last day of a month, and the day cut down to it.
unfoldable pub add_months_to_date_string : Ymd → ℕ → Ymd
add_months_to_date_string c months =
    let first = ymd_of_day (utc_day c.year (c.month - 1 + months) 1) in
    let last_day = (ymd_of_day (utc_day first.year first.month 0)).day in
    ymd_of_day (make_day first.year (first.month - 1) (min c.day last_day))
