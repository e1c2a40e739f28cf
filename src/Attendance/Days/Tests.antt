-- ===== src/Attendance/Days/Tests.antt =====
-- A day of one person: a check-in, a check-out, and a confirmation that finds the day taken.
use sports_erp.Prelude.{ℕ, ◌≡◌, refl, none, some, [], ◌∷◌, map}
use sports_erp.Store.{Db, empty_db}
use sports_erp.Store.Branches.{Branch, ContractStatus}
use sports_erp.Store.Staffing.{Staff, StaffStatus}
use sports_erp.Dates.Kst.{kst_day, kst_hours_minutes}
use sports_erp.Attendance.Rules.{branch_on_date, is_late}
use sports_erp.Attendance.{Env, check_in, check_out}
use sports_erp.Attendance.Absences.{AbsenceCandidate, confirm_absences}

abbrev park : Staff
park = record {
  id = 1;
  account_id = 2;
  branch_id = 10;
  staff_code = [];
  name = "Park";
  employment_type = none;
  hire_date = 0;
  resign_date = none;
  status = StaffStatus.active;
  off_days = [];
}

abbrev gym : Branch
gym = record {
  id = 10;
  name = "Gym";
  code = [];
  region = "Seoul";
  standard_check_in_time = some (9, 0);
  cancellation_deadline_hours = none;
  contract_status = ContractStatus.active;
}

abbrev opened : Db
opened = record empty_db { staff = park ∷ []; branches = gym ∷ [] }

abbrev at : ℕ → ℕ → Env
at now new = record { now = now; actor = 9; actor_branch = 10; new_id = new }

abbrev come : Db
come = (check_in (at 100000 5) 1 opened).1

abbrev gone : Db
gone = (check_out (at 200000 6) 1 come).1

abbrev not_seen : AbsenceCandidate
not_seen = record { staff_id = 1; name = "Park"; date = 0 }

abbrev marked : Db
marked = (confirm_absences 7 10 none (not_seen ∷ []) gone).1

-- The day keeps the row of the check-in, and its time.
same_row : map (λ r. r.check_in_at) marked.attendance ≡ some 100000 ∷ []
unfolding check_in check_out confirm_absences kst_day branch_on_date is_late kst_hours_minutes
same_row = refl
