-- ===== src/Dates/Kst/DayRange.antt =====
-- The Korean day of an instant.
use sports_erp.Prelude.{ℕ, ◌+◌, ◌-◌, ◌*◌, ◌/◌, ◌%◌, ◌≤◌, ◌<◌, ◌≡◌, ap, ◌∙◌, sym, ◌↔◌, some, arith}
use sports_erp.Dates.Civil.Blocks.{days_in_month-bounds}
use sports_erp.Dates.Civil.{Ymd, day_of_ymd, make_day}
use sports_erp.Dates.Civil.Bijection.{IsDate, day_of_ymd-ymd_of_day, ymd_of_day-day_of_ymd}
use sports_erp.Dates.Kst.{
  day_ms, kst_offset_ms, kst_day, to_kst_date_string, kst_hours_minutes, kst_day_range,
}

-- `MakeDay` of the fields of a date.
pub make_day-IsDate : (c : Ymd) → IsDate c → make_day c.year (c.month - 1) c.day ≡ day_of_ymd c
unfolding make_day day_of_ymd
make_day-IsDate c d =
    let y : c.year + (c.month - 1) / 12 ≡ c.year = omega arith in
    let m : (c.month - 1) % 12 + 1 ≡ c.month = omega arith in rw (y, m) (omega arith)

-- A date column holds midnight UTC, which lies in the Korean day of the same date.
pub kst_day-midnight : (n : ℕ) → kst_day (n * day_ms) ≡ n
unfolding kst_day
kst_day-midnight n = omega arith

-- For every calendar date but the first, `kstDayRange` gives a range, and it holds exactly the
-- instants whose Korean date is that one.
pub kst_day_range_lem :
    (c : Ymd) (t : ℕ)
    → IsDate c
    → 0 < day_of_ymd c
    → (r : ℕ × ℕ) × (kst_day_range c ≡ some r)
      × (((r.0 ≤ t) × (t < r.1)) ↔ (to_kst_date_string t ≡ c))
unfolding kst_day_range to_kst_date_string
kst_day_range_lem c t d pos = (
  (start, start + day_ms),
  rw (make_day-IsDate c d) (ground (arith, d, days_in_month-bounds c.year c.month)),
  (
    λ h. let e : kst_day t ≡ day_of_ymd c = omega arith in rw e (ymd_of_day-day_of_ymd c d),
    λ e.
        let day : kst_day t ≡ day_of_ymd c =
          sym (day_of_ymd-ymd_of_day (kst_day t)) ∙ ap day_of_ymd e in
        (omega arith, omega arith),
  ),
)
  where
    start : ℕ
    start = day_of_ymd c * day_ms - kst_offset_ms

-- Hours and minutes are those of a clock, and with the day they give the instant back to the minute.
pub kst_hours_minutes_bounds :
    (t : ℕ)
    → let (h, m) = kst_hours_minutes t in
      (h < 24) × (m < 60) × (kst_day t * 1440 + h * 60 + m ≡ (t + kst_offset_ms) / 60000)
unfolding kst_hours_minutes kst_day
kst_hours_minutes_bounds t = omega arith
