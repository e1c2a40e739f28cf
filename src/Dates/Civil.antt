-- ===== src/Dates/Civil.antt =====
-- The calendar behind `Date.UTC`, `toISOString().slice(0, 10)` and the UTC getters: the language's
-- Gregorian calendar, from 0001-01-01 (day 0) on.
pub mod Blocks
pub mod Bijection
use sports_erp.Prelude.{
  ℕ, zero, suc, ◌+◌, ◌-◌, ◌*◌, ◌/◌, ◌%◌, Bool, true, false, not, ◌&&◌, ◌||◌, ltb, ◌==◌,
  if◌then◌else◌,
}

-- `YYYY-MM-DD`: a year has four digits. Past 9999 `toISOString` writes a sign and six digits, which
-- are not modelled.
pub record Ymd : Type 0 where
  pub year : ℕ
  pub month : ℕ
  pub day : ℕ

abbrev pub ymd : ℕ → ℕ → ℕ → Ymd
ymd y m d = record { year = y; month = m; day = d }

unfoldable pub is_leap : ℕ → Bool
is_leap y = (y % 4 == 0) && (not (y % 100 == 0) || (y % 400 == 0))

unfoldable pub days_in_year : ℕ → ℕ
unfolding is_leap
days_in_year y = if is_leap y then 366 else 365

unfoldable pub days_in_month : ℕ → ℕ → ℕ
unfolding is_leap
days_in_month y m =
    if m == 2
    then (if is_leap y then 29 else 28)
    else if (m == 4) || (m == 6) || (m == 9) || (m == 11)
    then 30
    else 31

unfoldable pub days_before_year : ℕ → ℕ
days_before_year y = let p = y - 1 in p * 365 + p / 4 - p / 100 + p / 400

-- The days of a year before its month `m`, for `m` from 1 on.
unfoldable pub days_before_month : ℕ → ℕ → ℕ
days_before_month y zero = 0
days_before_month y (suc zero) = 0
days_before_month y (suc (suc m)) = days_before_month y (suc m) + days_in_month y (suc m)

-- The number of a day: `MakeDay(y, m - 1, d)`. A day past the end of its month runs over
-- into the next one, as there.
unfoldable pub day_of_ymd : Ymd → ℕ
day_of_ymd c = days_before_year c.year + days_before_month c.year c.month + c.day - 1

-- `MakeDay(y, m, d)` of the language, which the setters of `Date` and its texts use: the month counts
-- from 0 and runs over into the years; day 0 is the day before the first.
unfoldable pub make_day : ℕ → ℕ → ℕ → ℕ
make_day y m d = day_of_ymd (ymd (y + m / 12) (m % 12 + 1) 1) + d - 1

-- `MakeFullYear` of the language: a year below 100 is one of the 20th century.
unfoldable pub full_year : ℕ → ℕ
full_year y = if ltb y 100 then 1900 + y else y

-- `Date.UTC(y, m, d)`.
unfoldable pub utc_day : ℕ → ℕ → ℕ → ℕ
unfolding make_day full_year
utc_day y m d = make_day (full_year y) m d

-- The month that holds the day `n` of the year, from month `m` on, with the day of that month.
find_month : ℕ → ℕ → ℕ → ℕ → Ymd
find_month zero y m n = ymd y m (n + 1)
find_month (suc fuel) y m n =
    let later = find_month fuel y (m + 1) (n - days_in_month y m) in
    if ltb n (days_in_month y m) then ymd y m (n + 1) else later

find_year : ℕ → ℕ → ℕ → Ymd
find_year zero y n = find_month 12 y 1 n
find_year (suc fuel) y n =
    let later = find_year fuel (y + 1) (n - days_in_year y) in
    if ltb n (days_in_year y) then find_month 12 y 1 n else later

-- The calendar date of a day number. There are fewer years than days.
unfoldable pub ymd_of_day : ℕ → Ymd
unfolding find_year find_month days_in_year days_in_month
ymd_of_day n = find_year n 1 n

-- 0 is Sunday: `getUTCDay()`. Day 0 is a Monday.
unfoldable pub day_of_week : ℕ → ℕ
day_of_week n = (n + 1) % 7

-- `a < b` on two texts `YYYY-MM-DD`, which have four, two and two digits.
unfoldable pub ymd_lt : Ymd → Ymd → Bool
ymd_lt a b =
    ltb a.year b.year
    || (a.year == b.year && (ltb a.month b.month || (a.month == b.month && ltb a.day b.day)))
