-- ===== src/Attendance/Tests.antt =====
-- Leave of one person, and the theorems on it.
use sports_erp.Prelude.{◌≡◌, refl, none, [], ◌∷◌, arith}
use sports_erp.Store.{Db, empty_db}
use sports_erp.Store.Errors.{Code, err}
use sports_erp.Store.Staffing.{Staff, StaffStatus, LeaveType}
use sports_erp.Dates.Civil.{ymd, day_of_ymd, days_in_month}
use sports_erp.Dates.Civil.Bijection.{IsDate}
use sports_erp.Attendance.Rules.{
  leave_days, annual_leave_total_days, annual_leave_total_days_lem, entitlement,
}
use sports_erp.Attendance.Leave.{LeaveInput, request_leave, approve_leave_request}
use sports_erp.Attendance.Leave.Overlap.{Disjoint, begin, step, requests, approves, Reach-Disjoint}

abbrev lee : Staff
lee = record {
  id = 1;
  account_id = 2;
  branch_id = 10;
  staff_code = [];
  name = "Lee";
  employment_type = none;
  hire_date = 739000;
  resign_date = none;
  status = StaffStatus.active;
  off_days = [];
}

abbrev gym : Db
gym = record empty_db { staff = lee ∷ [] }

abbrev three_days : LeaveInput
three_days = record { type = LeaveType.sick; start_date = 740000; end_date = 740002; reason = none }

abbrev asked : Db
asked = (request_leave 0 7 1 three_days gym).1

abbrev granted : Db
granted = (approve_leave_request 5 7 3 asked).1

Reach-Disjoint_example : Disjoint granted.leave_requests
Reach-Disjoint_example = Reach-Disjoint gym granted tt (
    step asked granted (step gym asked begin (requests 0 7 1 three_days gym))
      (approves 5 7 3 asked))

asked_again : (request_leave 6 8 1 three_days granted).0 ≡ err Code.leave_request_overlap
unfolding request_leave approve_leave_request leave_days
asked_again = refl

hired : IsDate (ymd 2020 3 2)
unfolding days_in_month
hired = record {
  year_from = omega arith;
  month_from = omega arith;
  month_to = omega arith;
  day_from = omega arith;
  day_to = omega arith;
}

-- Six years after the year of hiring.
annual_leave_total_days_lem_example :
    (annual_leave_total_days (day_of_ymd (ymd 2020 3 2)) 2026 ≡ entitlement 6)
    × (annual_leave_total_days (day_of_ymd (ymd 2020 3 2)) 2014 ≡ 11)
annual_leave_total_days_lem_example = annual_leave_total_days_lem (ymd 2020 3 2) hired 6

seventeen : entitlement 6 ≡ 17
seventeen = refl
