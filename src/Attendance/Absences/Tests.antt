-- ===== src/Attendance/Absences/Tests.antt =====
-- A month of one person, of whom two days are accounted for.
use sports_erp.Prelude.{◌*◌, ℕ, ◌≡◌, refl, none, some, [], ◌∷◌, ◌&&◌, ◌||◌, ◌==◌, exists, arith}
use sports_erp.Store.{Db, empty_db}
use sports_erp.Store.Staffing.{
  Staff, StaffStatus, AttendanceRecord, AttendanceStatus, LeaveRequest, LeaveType, LeaveStatus,
}
use sports_erp.Dates.Civil.{
  utc_day, day_of_ymd, ymd_of_day, day_of_week, days_before_year, days_before_month,
}
use sports_erp.Dates.Kst.{kst_day, day_ms}
use sports_erp.Attendance.Rules.{branch_on_date, is_work_day}
use sports_erp.Attendance.Absences.Months.{is_candidate}
use sports_erp.Attendance.Absences.{Month, StaffOrder, preview_absences, in_month, is_on}
use sports_erp.Attendance.Absences.Reference.{absent_on, preview_absences_lem}
use sports_erp.Attendance.Absences.Settled.{confirmed, confirm_absences_lem}

abbrev as_stored : StaffOrder
as_stored = record { by_code = λ xs. xs; same_rows = λ p xs. refl }

abbrev kim : Staff
kim = record {
  id = 1;
  account_id = 2;
  branch_id = 10;
  staff_code = [];
  name = "Kim";
  employment_type = none;
  hire_date = 730000;
  resign_date = none;
  status = StaffStatus.active;
  off_days = 0 ∷ 6 ∷ [];
}

-- The first of the year 2001 is day 730485, a Monday; today is the fourth.
abbrev january : Month
january = record { year = 2001; month = 1 }

abbrev worked : AttendanceRecord
worked = record {
  id = 5;
  staff_id = 1;
  branch_id = 10;
  date = 730485;
  check_in_at = some 63113929200000;
  check_out_at = none;
  status = AttendanceStatus.normal;
  note = none;
}

abbrev away : LeaveRequest
away = record {
  id = 6;
  staff_id = 1;
  type = LeaveType.sick;
  start_date = 730486;
  end_date = 730486;
  days = 1;
  reason = none;
  status = LeaveStatus.approved;
  approver_id = some 9;
  reviewed_at = some 1;
}

abbrev office : Db
office = record empty_db { staff = kim ∷ []; attendance = worked ∷ []; leave_requests = away ∷ [] }

abbrev fourth : ℕ
fourth = 730488 * day_ms

-- Only the third is left.
previewed :
    preview_absences as_stored fourth 10 january office
    ≡ record { staff_id = 1; name = "Kim"; date = 730487 } ∷ []
unfolding preview_absences ymd_of_day utc_day day_of_ymd days_before_year days_before_month kst_day
    branch_on_date is_work_day day_of_week
previewed = refl

preview_absences_lem_example :
    exists (is_candidate 1 730487) (preview_absences as_stored fourth 10 january office) ≡ (
      in_month january 730487
      && exists (λ s. s.id == 1 && absent_on (kst_day fourth) 10 office s 730487) office.staff)
preview_absences_lem_example =
    preview_absences_lem as_stored fourth 10 january office 1 730487 (omega arith) (omega arith)
      (omega arith)

confirm_absences_lem_example :
    (preview_absences as_stored fourth 10 january
        (confirmed as_stored fourth 10 7 none january office)
      ≡ [])
    × ((i d : ℕ)
        → exists (is_on i d) (confirmed as_stored fourth 10 7 none january office).attendance ≡ (
            exists (is_on i d) office.attendance
            || (in_month january d
                && exists
                    (λ s. s.id == i && absent_on (kst_day fourth) 10 office s d)
                    office.staff)))
confirm_absences_lem_example =
    confirm_absences_lem as_stored fourth 10 7 none january office (omega arith) (omega arith)
      (omega arith)
