-- ===== src/Members/Minors.antt =====
-- `isMinor` of member.service.ts: who is younger than nineteen.
use sports_erp.Prelude.{
  ◌∙◌, sym, ap, subst, false, ◌≤◌, inr, inl, Bool-cases, ℕ, ◌+◌, ◌≡◌, Bool, ◌&&◌, ◌||◌, ltb, ◌==◌,
  not, if◌then◌else◌, arith,
}
use sports_erp.Dates.Civil.{ymd, days_in_month, Ymd, is_leap, ymd_lt}
use sports_erp.Dates.Civil.Bijection.{IsDate}
use sports_erp.Dates.Kst.{add_years_to_date_string}
use sports_erp.Dates.Kst.Shifts.{full_year_same, add_years_to_date_string_lem}

-- Whether the birthday of the year of `today` is yet to come.
abbrev pub before_birthday : Ymd → Ymd → Bool
before_birthday birth today =
    ltb today.month birth.month || (today.month == birth.month && ltb today.day birth.day)

-- `age < 19`, with the age `ty - by`, less one before the birthday, on the other side.
unfoldable pub is_minor : Ymd → Ymd → Bool
is_minor birth today =
    ltb today.year (birth.year + 19 + (if before_birthday birth today then 1 else 0))

february : (y d : ℕ) → d ≤ days_in_month y 2 → is_leap y ≡ false → d ≤ 28
unfolding days_in_month
february y d h l = ground (arith, h, l)

short :
    (by : ℕ) (today : Ymd)
    → IsDate today
    → is_leap by ≡ false
    → today.year ≡ by
    → today.month ≡ 2
    → today.day ≤ 28
short by today t common e f = february by today.day (let h = t.day_to in rw (e, f) at h) common

-- Born on February 29th: the birthday of a common year is March 1st.
leap_day :
    (by : ℕ) (today : Ymd)
    → 1 ≤ today.month
    → 1 ≤ today.day
    → (today.year ≡ by + 19 → today.month ≡ 2 → today.day ≤ 28)
    → is_minor (ymd by 2 29) today ≡ ymd_lt today (ymd (by + 19) 3 1)
unfolding is_minor ymd_lt
leap_day by today m d s = ground (arith, m, d, s)

other_day :
    (birth today : Ymd)
    → is_minor birth today ≡ ymd_lt today (ymd (birth.year + 19) birth.month birth.day)
unfolding is_minor ymd_lt
other_day birth today = ground arith

-- For calendar dates of birth and of today, with a birth from the year 100 on and the nineteenth
-- birthday in a year up to 9999, `isMinor` says yes exactly on the days before the date that
-- `addYearsToDateString` gives for nineteen years after birth.
pub is_minor_lem :
    (birth today : Ymd)
    → IsDate birth
    → IsDate today
    → 100 ≤ birth.year
    → birth.year + 19 ≤ 9999
    → is_minor birth today ≡ ymd_lt today (add_years_to_date_string birth 19)
is_minor_lem birth today b t late written =
    let same = full_year_same birth.year late in
    rw (add_years_to_date_string_lem birth 19 b (omega (arith, same, written)), same)
      (elim (Bool-cases (birth.month == 2 && birth.day == 29 && not (is_leap (birth.year + 19)))) [
        | inl rolls ↦
            let m : birth.month ≡ 2 = ground (arith, rolls) in
            let d : birth.day ≡ 29 = ground (arith, rolls) in
            let common : is_leap (birth.year + 19) ≡ false = ground (arith, rolls) in
            rw rolls (
              subst (λ c. is_minor c today ≡ ymd_lt today (ymd (birth.year + 19) 3 1))
                (ap (λ n. ymd birth.year n 29) (sym m)
                  ∙ ap (λ n. ymd birth.year birth.month n) (sym d))
                (leap_day birth.year today t.month_from t.day_from
                  (short (birth.year + 19) today t common)))
        | inr stays ↦ rw stays (other_day birth today)
      ])
