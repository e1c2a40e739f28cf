-- ===== src/Attendance/Rules.antt =====
-- The rules of attendance.service.ts: lateness, work days, the branch on a date, and days of leave.
use sports_erp.Prelude.{
  zero, suc, ◌≡◌, refl, ap, ℕ, ◌+◌, ◌-◌, ◌*◌, ◌/◌, min, Option, none, some, List, [], ◌∷◌, Bool,
  true, false, not, ◌&&◌, ltb, leb, if◌then◌else◌, is_in, passes, arith,
}
use sports_erp.Store.Staffing.{Staff, StaffAssignment}
use sports_erp.Integrity.Codes.{text_eq}
use sports_erp.Dates.Civil.{Ymd, day_of_ymd, ymd_of_day, day_of_week}
use sports_erp.Dates.Civil.Bijection.{IsDate, ymd_of_day-day_of_ymd}
use sports_erp.Dates.Kst.{kst_hours_minutes}
use sports_erp.Staffing.{part_time}

-- `isLate`: more than ten minutes after the time that the branch has set.
unfoldable pub is_late : ℕ → Option (ℕ × ℕ) → Bool
is_late at none = false
is_late at (some t) = let c = kst_hours_minutes at in ltb (t.0 * 60 + t.1 + 10) (c.0 * 60 + c.1)

-- `isWorkDay`: 0 is Sunday.
unfoldable pub is_work_day : Staff → ℕ → Bool
is_work_day s date =
    if passes (text_eq part_time) s.employment_type
    then false
    else not (is_in (day_of_week date) s.off_days)

abbrev pub ends_after : ℕ → Option ℕ → Bool
ends_after date none = true
ends_after date (some last) = ltb date last

-- The day on which an assignment ends is no longer part of it.
abbrev pub holds_on : ℕ → StaffAssignment → Bool
holds_on date a = leb a.start_date date && ends_after date a.end_date

-- The assignment with the latest start, the first of several, given that of the rest.
abbrev pub latest : StaffAssignment → Option StaffAssignment → Option StaffAssignment
latest a none = some a
latest a (some b) = if leb b.start_date a.start_date then some a else some b

abbrev pub latest_on : ℕ → List StaffAssignment → Option StaffAssignment
latest_on date [] = none
latest_on date (a ∷ rows) =
    if holds_on date a then latest a (latest_on date rows) else latest_on date rows

abbrev pub branch_of_assignment : Option StaffAssignment → Option ℕ
branch_of_assignment none = none
branch_of_assignment (some a) = some a.branch_id

-- `branchOnDate`
unfoldable pub branch_on_date : List StaffAssignment → ℕ → Option ℕ
branch_on_date rows date = branch_of_assignment (latest_on date rows)

-- `annualLeaveTotalDays`
unfoldable pub annual_leave_total_days : ℕ → ℕ → ℕ
annual_leave_total_days hire_date year =
    let hired = (ymd_of_day hire_date).year in
    if ltb year (hired + 1) then 11 else min (15 + (year - hired - 1) / 2) 25

-- The entitlement after so many calendar years: eleven days in the year of hiring, fifteen in the
-- next two, and from then on one day more than two years before, up to twenty-five.
abbrev pub entitlement : ℕ → ℕ
entitlement zero = 11
entitlement (suc zero) = 15
entitlement (suc (suc zero)) = 15
entitlement (suc (suc (suc n))) =
    let before = entitlement (suc n) in if ltb before 25 then before + 1 else 25

entitlement_later : (n : ℕ) → entitlement (suc n) ≡ min (15 + n / 2) 25
entitlement_later zero = refl
entitlement_later (suc zero) = refl
entitlement_later (suc (suc n)) = ground (arith, entitlement_later n)

module _ (c : Ymd) (d : IsDate c) where
  hired_year : (ymd_of_day (day_of_ymd c)).year ≡ c.year
  hired_year = ap (λ e. e.year) (ymd_of_day-day_of_ymd c d)

  served_lem : (n : ℕ) → annual_leave_total_days (day_of_ymd c) (c.year + n) ≡ entitlement n
  unfolding annual_leave_total_days
  served_lem zero = rw hired_year (ground arith)
  served_lem (suc n) = rw (hired_year, entitlement_later n) (ground arith)

  not_served : (n : ℕ) → annual_leave_total_days (day_of_ymd c) (c.year - n) ≡ 11
  unfolding annual_leave_total_days
  not_served n = rw hired_year (ground arith)

  -- For a calendar date of hiring, the days of annual leave of a year that is so many years after
  -- the year of hiring are eleven for that year itself, fifteen for the first and the second
  -- after it, and from then on one more than two years before, up to twenty-five; for a year
  -- before that of hiring they are eleven.
  pub annual_leave_total_days_lem :
      (n : ℕ)
      → (annual_leave_total_days (day_of_ymd c) (c.year + n) ≡ entitlement n)
        × (annual_leave_total_days (day_of_ymd c) (c.year - n) ≡ 11)
  annual_leave_total_days_lem n = (served_lem n, not_served n)

-- `leaveDays`, the last day included; a period that ends before it starts has none.
unfoldable pub leave_days : ℕ → ℕ → ℕ
leave_days start_date end_date = end_date + 1 - start_date
