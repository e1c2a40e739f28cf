-- ===== src/Dates/Civil/Bijection.antt =====
-- Day numbers and calendar dates are two names of the same days, in the same order.
use sports_erp.Prelude.{
  ℕ, zero, suc, ◌+◌, ◌-◌, ◌≤◌, ◌<◌, ◌≡◌, refl, inl, inr, ◌⊎◌, true, ltb, Bool-cases, arith, tests,
  ltb→lt,
}
use sports_erp.Dates.Civil.{
  Ymd, days_in_year, days_in_month, days_before_year, days_before_month, day_of_ymd, find_month,
  find_year, ymd_of_day, ymd_lt,
}
use sports_erp.Dates.Civil.Blocks.{
  days_before_year-suc, days_before_month-suc, days_before_month-13, days_in_year-bounds,
  days_before_month_mono, days_before_year_mono,
}

-- A date of the calendar.
pub record IsDate (c : Ymd) : Type 0 where
  pub year_from : 1 ≤ c.year
  pub month_from : 1 ≤ c.month
  pub month_to : c.month ≤ 12
  pub day_from : 1 ≤ c.day
  pub day_to : c.day ≤ days_in_month c.year c.month

-- Where the search for a month ends: at a date of the year, whose place in the year is kept.
record Placed (y n : ℕ) (c : Ymd) : Type 0 where
  at_year : c.year ≡ y
  date : IsDate c
  place : days_before_month y c.month + c.day ≡ n + 1

find_month-Placed :
    (fuel y m n : ℕ)
    → 1 ≤ y
    → 1 ≤ m
    → fuel + m ≡ 13
    → days_before_month y m + n < days_in_year y
    → Placed y (days_before_month y m + n) (find_month fuel y m n)
unfolding find_month
find_month-Placed zero y m n hy hm e lt =
    let last : m ≡ 13 = omega arith in absurd (omega (arith, days_before_month-13 y, rw last at lt))
find_month-Placed (suc fuel) y m n hy hm e lt = elim (Bool-cases (ltb n (days_in_month y m))) [
  | inl here ↦ rw here (record {
    at_year = refl;
    date = record {
      year_from = hy;
      month_from = hm;
      month_to = omega arith;
      day_from = omega arith;
      day_to = omega tests;
    };
    place = omega arith;
  })
  | inr over ↦
      let rest : days_before_month y m + n ≡ days_before_month y (m + 1) + (n - days_in_month y m) =
        ground (arith, days_before_month-suc y m) in
      rw (over, rest)
        (find_month-Placed fuel y (m + 1) (n - days_in_month y m) hy (omega arith) (omega arith)
          (ground arith))
]

-- A day of the year `y`, as a date and by its number.
abbrev Names : ℕ → ℕ → Ymd → Type 0
Names y n c = IsDate c × (day_of_ymd c ≡ days_before_year y + n)

find_month-Names : (y n : ℕ) → 1 ≤ y → n < days_in_year y → Names y n (find_month 12 y 1 n)
unfolding day_of_ymd days_before_month
find_month-Names y n h lt =
    let p = find_month-Placed 12 y 1 n h (omega arith) (omega arith) (omega arith) in
    (p.date, rw p.at_year (omega (arith, p.place, p.date.day_from)))

find_year-Names : (fuel y n : ℕ) → 1 ≤ y → n ≤ fuel → Names y n (find_year fuel y n)
unfolding find_year
find_year-Names zero y n h lt = find_month-Names y n h (omega (arith, days_in_year-bounds y))
find_year-Names (suc fuel) y n h lt = elim (Bool-cases (ltb n (days_in_year y))) [
  | inl here ↦ rw here (find_month-Names y n h (ltb→lt n _ here))
  | inr over ↦
      let rest =
        find_year-Names fuel (y + 1) (n - days_in_year y) (omega arith)
          (omega (tests, days_in_year-bounds y)) in
      rw over (rest.0, omega (tests, rest.1, days_before_year-suc y h))
]

-- Every day number names a date.
pub ymd_of_day-IsDate : (n : ℕ) → IsDate (ymd_of_day n)
unfolding ymd_of_day
ymd_of_day-IsDate n = (find_year-Names n 1 n (omega arith) (omega arith)).0

pub day_of_ymd-ymd_of_day : (n : ℕ) → day_of_ymd (ymd_of_day n) ≡ n
unfolding ymd_of_day days_before_year
day_of_ymd-ymd_of_day n = omega (arith, (find_year-Names n 1 n (omega arith) (omega arith)).1)

-- The day lies in its month, and the month in its year.
day_of_ymd-lt-month :
    (a : Ymd)
    → IsDate a
    → day_of_ymd a < days_before_year a.year + days_before_month a.year (a.month + 1)
unfolding day_of_ymd
day_of_ymd-lt-month a d = omega (arith, days_before_month-suc a.year a.month)

day_of_ymd-ge-month :
    (a : Ymd) (y : ℕ)
    → IsDate a
    → y ≡ a.year
    → days_before_year y + days_before_month y a.month ≤ day_of_ymd a
unfolding day_of_ymd
day_of_ymd-ge-month a y d e = rw e (omega arith)

day_of_ymd-lt-year : (a : Ymd) → IsDate a → day_of_ymd a < days_before_year (a.year + 1)
day_of_ymd-lt-year a d =
    let e : (a.month + 1) + (12 - a.month) ≡ 13 = omega arith in
    let m = days_before_month_mono a.year (a.month + 1) (12 - a.month) (omega arith) in
    omega (
      arith,
      rw e at m,
      day_of_ymd-lt-month a d,
      days_before_month-13 a.year,
      days_before_year-suc a.year d.year_from,
    )

day_of_ymd-year : (a b : Ymd) → IsDate a → IsDate b → a.year < b.year → day_of_ymd a < day_of_ymd b
day_of_ymd-year a b d d' lt =
    let e : (a.year + 1) + (b.year - (a.year + 1)) ≡ b.year = omega arith in
    let m = days_before_year_mono (a.year + 1) (b.year - (a.year + 1)) (omega arith) in
    omega (arith, rw e at m, day_of_ymd-lt-year a d, day_of_ymd-ge-month b b.year d' refl)

day_of_ymd-month :
    (a b : Ymd)
    → IsDate a
    → IsDate b
    → a.year ≡ b.year
    → a.month < b.month
    → day_of_ymd a < day_of_ymd b
day_of_ymd-month a b d d' same lt =
    let e : (a.month + 1) + (b.month - (a.month + 1)) ≡ b.month = omega arith in
    let m = days_before_month_mono a.year (a.month + 1) (b.month - (a.month + 1)) (omega arith) in
    omega (arith, rw e at m, day_of_ymd-lt-month a d, day_of_ymd-ge-month b a.year d' same)

day_of_ymd-day :
    (a b : Ymd)
    → IsDate a
    → IsDate b
    → a.year ≡ b.year
    → a.month ≡ b.month
    → a.day < b.day
    → day_of_ymd a < day_of_ymd b
unfolding day_of_ymd
day_of_ymd-day a b d d' same same' lt = rw (same, same') (omega arith)

-- Dates are ordered as their day numbers are.
pub day_of_ymd_mono :
    (a b : Ymd) → IsDate a → IsDate b → ymd_lt a b ≡ true → day_of_ymd a < day_of_ymd b
unfolding ymd_lt
day_of_ymd_mono a b d d' lt =
    ground (arith, day_of_ymd-year a b d d', day_of_ymd-month a b d d', day_of_ymd-day a b d d')

ymd_lt-total : (a b : Ymd) → (a ≡ b) ⊎ (ymd_lt a b ≡ true) ⊎ (ymd_lt b a ≡ true)
unfolding ymd_lt
ymd_lt-total a b = ground arith

-- A date has one number, so the two functions are inverse.
pub ymd_of_day-day_of_ymd : (c : Ymd) → IsDate c → ymd_of_day (day_of_ymd c) ≡ c
ymd_of_day-day_of_ymd c d =
    let c' = ymd_of_day (day_of_ymd c) in
    let d' = ymd_of_day-IsDate (day_of_ymd c) in
    let same = day_of_ymd-ymd_of_day (day_of_ymd c) in
    elim (ymd_lt-total c' c) [
      | inl e ↦ e
      | inr (inl lt) ↦ absurd (omega (arith, same, day_of_ymd_mono c' c d' d lt))
      | inr (inr lt) ↦ absurd (omega (arith, same, day_of_ymd_mono c c' d d' lt))
    ]

-- The order of the texts is the order of the day numbers.
pub ymd_lt-ymd_of_day : (m n : ℕ) → ymd_lt (ymd_of_day m) (ymd_of_day n) ≡ ltb m n
ymd_lt-ymd_of_day m n =
    let a = ymd_of_day m in
    let b = ymd_of_day n in
    let da = ymd_of_day-IsDate m in
    let db = ymd_of_day-IsDate n in
    let ea = day_of_ymd-ymd_of_day m in
    let eb = day_of_ymd-ymd_of_day n in
    ground (arith, ea, eb, ymd_lt-total a b, day_of_ymd_mono a b da db, day_of_ymd_mono b a db da)
