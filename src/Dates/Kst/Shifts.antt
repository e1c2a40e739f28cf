-- ===== src/Dates/Kst/Shifts.antt =====
-- Years and months added to a calendar date.
use sports_erp.Prelude.{
  ℕ, ◌+◌, ◌-◌, ◌/◌, ◌%◌, ◌≤◌, ◌<◌, ◌≡◌, ap, ◌∙◌, not, ◌&&◌, ◌==◌, min, Bool-cases, inl, inr,
  if◌then◌else◌, ltb, false, arith,
}
use sports_erp.Dates.Civil.{
  Ymd, ymd, day_of_ymd, ymd_of_day, make_day, utc_day, full_year, is_leap, days_in_month,
  days_before_month,
}
use sports_erp.Dates.Civil.Blocks.{
  days_in_month-bounds, days_before_month-suc, days_before_month-13, days_before_year-suc,
  days_before_month-1,
}
use sports_erp.Dates.Civil.Bijection.{IsDate, ymd_of_day-day_of_ymd}
use sports_erp.Dates.Kst.{add_years_to_date_string, add_months_to_date_string}
use sports_erp.Dates.Kst.DayRange.{make_day-IsDate}

-- The first of a month is a date.
pub first-IsDate : (y m : ℕ) → 1 ≤ y → 1 ≤ m → m ≤ 12 → IsDate (ymd y m 1)
first-IsDate y m h hm hm' = record {
  year_from = h;
  month_from = hm;
  month_to = hm';
  day_from = omega arith;
  day_to = omega (arith, days_in_month-bounds y m);
}

-- `Date.UTC` of the fields of a date, read back.
ymd_of_day-make_day :
    (y m d : ℕ) → IsDate (ymd y m d) → ymd_of_day (make_day y (m - 1) d) ≡ ymd y m d
ymd_of_day-make_day y m d h =
    ap ymd_of_day (make_day-IsDate (ymd y m d) h) ∙ ymd_of_day-day_of_ymd (ymd y m d) h

make_day-leap_day : (y : ℕ) → is_leap y ≡ false → 1 ≤ y → make_day y 1 29 ≡ make_day y 2 1
unfolding make_day day_of_ymd days_before_month days_in_month
make_day-leap_day y h p = ground arith

-- The year, the month and the day of a date, but for a 29th of February that the year lacks.
abbrev pub years_later : Ymd → ℕ → Ymd
years_later c k =
    if c.month == 2 && c.day == 29 && not (is_leap (c.year + k))
    then ymd (c.year + k) 3 1
    else ymd (c.year + k) c.month c.day

kept :
    (c : Ymd) (k : ℕ)
    → IsDate c
    → (c.month == 2 && c.day == 29 && not (is_leap (c.year + k))) ≡ false
    → IsDate (ymd (c.year + k) c.month c.day)
unfolding days_in_month
kept c k d stays = record {
  year_from = omega arith;
  month_from = d.month_from;
  month_to = d.month_to;
  day_from = d.day_from;
  day_to = ground arith;
}

-- A year below 100 is read as one of the 20th century.
abbrev pub full_date : Ymd → Ymd
full_date c = ymd (full_year c.year) c.month c.day

pub full_year_same : (y : ℕ) → 100 ≤ y → full_year y ≡ y
unfolding full_year
full_year_same y h = ground (arith, h)

full_year-length : (y m : ℕ) → 1 ≤ y → days_in_month (full_year y) m ≡ days_in_month y m
unfolding full_year days_in_month
full_year-length y m h = elim (Bool-cases (ltb y 100)) [
  | inr f ↦ ground (arith, f)
  | inl t ↦
      let few : y < 100 = ground (arith, t) in
      let four : (1900 + y) % 4 ≡ y % 4 = omega arith in
      let hundred : (1900 + y) % 100 ≡ y = omega arith in
      let same : y % 100 ≡ y = omega arith in ground (arith, t, h, four, hundred, same)
]

pub full_date-IsDate : (c : Ymd) → IsDate c → IsDate (full_date c)
unfolding full_year
full_date-IsDate c d = record {
  year_from = ground (arith, d.year_from);
  month_from = d.month_from;
  month_to = d.month_to;
  day_from = d.day_from;
  day_to = omega (arith, d.day_to, full_year-length c.year c.month d.year_from);
}

pub full_year_ge : (y : ℕ) → 1 ≤ y → 100 ≤ full_year y
unfolding full_year
full_year_ge y h = ground (arith, h)

full_year_idem : (y : ℕ) → 1 ≤ y → full_year (full_year y) ≡ full_year y
full_year_idem y h = full_year_same (full_year y) (full_year_ge y h)

years_shifted :
    (c : Ymd) (k : ℕ)
    → IsDate c
    → ymd_of_day (make_day (c.year + k) (c.month - 1) c.day) ≡ years_later c k
years_shifted c k d =
    elim (Bool-cases (c.month == 2 && c.day == 29 && not (is_leap (c.year + k)))) [
      | inl rolls ↦
          let m : c.month ≡ 2 = ground arith in
          let e : c.day ≡ 29 = ground arith in
          let roll : make_day (c.year + k) 1 29 ≡ make_day (c.year + k) 2 1 =
            make_day-leap_day (c.year + k) (ground arith) (omega arith) in
          rw (rolls, m, e, roll)
            (ymd_of_day-make_day (c.year + k) 3 1
              (first-IsDate (c.year + k) 3 (omega arith) (omega arith) (omega arith)))
      | inr stays ↦ rw stays (ymd_of_day-make_day (c.year + k) c.month c.day (kept c k d stays))
    ]

-- The date that is reached, however far it is.
pub years_added :
    (c : Ymd) (k : ℕ) → IsDate c → add_years_to_date_string c k ≡ years_later (full_date c) k
unfolding add_years_to_date_string utc_day
years_added c k d =
    let f = full_date-IsDate c d in
    rw (ymd_of_day-make_day (full_year c.year) c.month c.day f) (years_shifted (full_date c) k f)

-- Adding years to a calendar date, up to the year 9999, keeps month and day, and takes February
-- 29th to March 1st if the year that is reached is a common one. A year below 100 counts as one
-- of 1900 to 1999.
pub add_years_to_date_string_lem :
    (c : Ymd) (k : ℕ)
    → IsDate c
    → full_year c.year + k ≤ 9999
    → add_years_to_date_string c k ≡ years_later (full_date c) k
add_years_to_date_string_lem c k d written = years_added c k d

-- The date so many months on, its day cut down to the length of the month.
abbrev pub months_later : Ymd → ℕ → Ymd
months_later c k =
    let y = c.year + (c.month - 1 + k) / 12 in
    let m = (c.month - 1 + k) % 12 + 1 in ymd y m (min c.day (days_in_month y m))

-- The first of a month that is counted from 0 and may run over into later years.
first_of : (y t : ℕ) → 1 ≤ y → ymd_of_day (make_day y t 1) ≡ ymd (y + t / 12) (t % 12 + 1) 1
unfolding make_day
first_of y t h =
    let c = ymd (y + t / 12) (t % 12 + 1) 1 in
    let e : day_of_ymd c + 1 - 1 ≡ day_of_ymd c = omega arith in
    rw e (
      ymd_of_day-day_of_ymd c
        (first-IsDate (y + t / 12) (t % 12 + 1) (omega arith) (omega arith) (omega arith)))

abbrev last_date : ℕ → ℕ → Ymd
last_date y m = ymd y m (days_in_month y m)

pub make_day-last : (y m : ℕ) → 1 ≤ y → 1 ≤ m → m ≤ 12 → make_day y m 0 ≡ day_of_ymd (last_date y m)
unfolding make_day day_of_ymd
make_day-last y m h hm hm' = elim (Bool-cases (m == 12)) [
  | inl december ↦
      let e : m ≡ 12 = ground arith in
      rw e (
        omega (
          arith,
          days_before_month-13 y,
          days_before_month-suc y 12,
          days_before_year-suc y h,
          days_before_month-1 (y + 1),
          days_in_month-bounds y 12,
        ))
  | inr other ↦
      let lt : m < 12 = ground arith in
      let e : y + m / 12 ≡ y = omega arith in
      let e' : m % 12 ≡ m = omega arith in
      rw (e, e') (omega (arith, days_before_month-suc y m, days_in_month-bounds y m))
]

-- Day 0 of the next month is the last day of the month.
pub last_of :
    (y m : ℕ) → 1 ≤ y → 1 ≤ m → m ≤ 12 → (ymd_of_day (make_day y m 0)).day ≡ days_in_month y m
last_of y m h hm hm' = rw (make_day-last y m h hm hm') (
    ap (λ c. c.day)
      (ymd_of_day-day_of_ymd (last_date y m) (record {
        year_from = h;
        month_from = hm;
        month_to = hm';
        day_from = omega (arith, days_in_month-bounds y m);
        day_to = omega arith;
      })))

module _ (c : Ymd) (k : ℕ) (d : IsDate c) where
  abbrev t : ℕ
  t = c.month - 1 + k

  abbrev y : ℕ
  y = full_year c.year + t / 12

  abbrev m : ℕ
  m = t % 12 + 1

  landed :
      ymd_of_day (make_day y (m - 1) (min c.day (days_in_month y m))) ≡ months_later (full_date c) k
  landed = ymd_of_day-make_day y m (min c.day (days_in_month y m)) (record {
    year_from = omega (arith, full_year_ge c.year d.year_from);
    month_from = omega arith;
    month_to = omega arith;
    day_from = omega (arith, d, days_in_month-bounds y m);
    day_to = omega arith;
  })

-- Adding months to a calendar date, up to the year 9999, lands in the month so many on, at the
-- same day of the month or, if that month is shorter, at its last. A year below 100 counts as one
-- of 1900 to 1999.
pub add_months_to_date_string_lem :
    (c : Ymd) (k : ℕ)
    → IsDate c
    → (months_later (full_date c) k).year ≤ 9999
    → add_months_to_date_string c k ≡ months_later (full_date c) k
unfolding add_months_to_date_string utc_day
add_months_to_date_string_lem c k d written =
    let ge = full_year_ge c.year d.year_from in
    let year = y c k d in
    rw (first_of (full_year c.year) (t c k d) (omega (arith, ge))) (
      rw (full_year_same year (omega (arith, ge))) (
        rw (last_of year (m c k d) (omega (arith, ge)) (omega arith) (omega arith)) (landed c k d)))
