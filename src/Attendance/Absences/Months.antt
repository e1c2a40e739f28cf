-- ===== src/Attendance/Absences/Months.antt =====
-- The days of a month that the loop of `previewAbsences` runs over.
use sports_erp.Prelude.{
  exists-append, ℕ, zero, suc, ◌+◌, ◌-◌, ◌/◌, ◌%◌, ◌≤◌, ◌≡◌, refl, ap, ◌∙◌, List, [], ◌∷◌, Bool,
  ◌&&◌, ltb, leb, ◌==◌, exists, inl, inr, Bool-cases, arith,
}
use sports_erp.Store.Staffing.{Staff}
use sports_erp.Dates.Civil.{ymd, ymd_of_day, day_of_ymd, utc_day, make_day, days_in_month}
use sports_erp.Dates.Civil.Blocks.{days_in_month-bounds}
use sports_erp.Dates.Kst.Shifts.{last_of, make_day-last, full_year_same}
use sports_erp.Attendance.Absences.{
  Month, month_from, month_to, AbsenceCandidate, in_month, absent_days, days_of, absent_staff,
}

abbrev pub is_candidate : ℕ → ℕ → AbsenceCandidate → Bool
is_candidate id date c = c.staff_id == id && c.date == date

-- The days of a month follow one another, and are as many as the loop counts.
module _ (m : Month) (year : 100 ≤ m.year) (from : 1 ≤ m.month) (to : m.month ≤ 12) where
  day_of_month : (d : ℕ) → 1 ≤ d → day_of_ymd (ymd m.year m.month d) ≡ month_from m + d - 1
  unfolding day_of_ymd month_from utc_day make_day
  day_of_month d h =
      let e : m.year + (m.month - 1) / 12 ≡ m.year = omega arith in
      let e' : (m.month - 1) % 12 + 1 ≡ m.month = omega arith in
      rw (full_year_same m.year year, e, e') (omega arith)

  day_before : month_to m - 1 ≡ make_day m.year m.month 0
  unfolding month_to utc_day make_day
  day_before = rw (full_year_same m.year year) (omega arith)

  days_of-length : days_of m ≡ days_in_month m.year m.month
  unfolding days_of
  days_of-length =
      ap (λ n. (ymd_of_day n).day) day_before ∙ last_of m.year m.month (omega (arith, year)) from to

  month_length : month_to m ≡ month_from m + days_of m
  month_length =
      let last : month_to m - 1 ≡ month_from m + days_in_month m.year m.month - 1 =
        day_before
        ∙ make_day-last m.year m.month (omega (arith, year)) from to
        ∙ day_of_month (days_in_month m.year m.month)
            (omega (arith, days_in_month-bounds m.year m.month)) in
      omega (arith, last, days_of-length, days_in_month-bounds m.year m.month)

  -- The loop over the days finds exactly the absent ones among them.
  found_days :
      (absent : ℕ → Bool) (s : Staff) (id date d n : ℕ)
      → 1 ≤ d
      → exists (is_candidate id date) (absent_days absent s m d n) ≡ (
          s.id == id
          && ((leb (month_from m + d - 1) date && ltb date (month_from m + d - 1 + n))
              && absent date))
  unfolding absent_days
  found_days absent s id date d zero h = ground arith
  found_days absent s id date d (suc n) h =
      let e = day_of_month d h in
      let rest = found_days absent s id date (d + 1) n (omega arith) in
      elim (Bool-cases (month_from m + d - 1 == date)) [
        | inl here ↦
            let at : day_of_ymd (ymd m.year m.month d) ≡ date = ground (arith, e, here) in
            rw at (ground (arith, here, rest))
        | inr other ↦ ground (arith, e, other, rest)
      ]

  pub found_staff :
      (absent : Staff → ℕ → Bool) (id date : ℕ) (staff : List Staff)
      → exists (is_candidate id date) (absent_staff absent m staff)
        ≡ exists (λ s. s.id == id && (in_month m date && absent s date)) staff
  unfolding absent_staff
  found_staff absent id date [] = refl
  found_staff absent id date (s ∷ staff) = ground (
    arith,
    exists-append (is_candidate id date) (absent_days (absent s) s m 1 (days_of m))
        (absent_staff absent m staff),
    found_days (absent s) s id date 1 (days_of m) (omega arith),
    month_length,
    found_staff absent id date staff,
  )
