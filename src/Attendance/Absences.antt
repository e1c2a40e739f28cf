-- ===== src/Attendance/Absences.antt =====
-- previewAbsences and confirmAbsences of attendance.service.ts: who is absent in a month, and the
-- rows that an administrator has written for them. The order of the staff is the database's; a
-- confirmation runs in no transaction, so its preview and its write are two steps. A month is a year
-- from 100 on (`Date.UTC` reads a smaller one as of the 20th century) and a month from 1 to 12; a
-- text that is none has no absences.
pub mod Months
pub mod Reference
pub mod Settled
mod Tests
use sports_erp.Prelude.{
  ℕ, zero, suc, ◌+◌, ◌-◌, ◌≡◌, Option, none, some, List, [], ◌∷◌, ◌++◌, map, String, Bool, true,
  false, not, ◌&&◌, ◌||◌, ltb, leb, ◌==◌, if◌then◌else◌, select, exists, is_in, or_else,
}
use sports_erp.Store.{Db, Action, pure, gets, ◌>>=◌, ◌>>◌, modify}
use sports_erp.Store.Errors.{ok, err}
use sports_erp.Store.Branches.{Text}
use sports_erp.Store.Staffing.{
  Staff, StaffStatus, StaffAssignment, AttendanceRecord, AttendanceStatus, LeaveRequest,
  LeaveStatus,
}
use sports_erp.Dates.Civil.{ymd, ymd_of_day, day_of_ymd, utc_day}
use sports_erp.Dates.Kst.{kst_day}
use sports_erp.Attendance.Rules.{branch_on_date, is_work_day}
use sports_erp.Attendance.Leave.{is_approved}

pub record Month : Type 0 where
  pub year : ℕ
  pub month : ℕ

-- `monthRange`: the first day, and the first that is past the month.
unfoldable pub month_from : Month → ℕ
month_from m = utc_day m.year (m.month - 1) 1

unfoldable pub month_to : Month → ℕ
month_to m = utc_day m.year m.month 1

pub record AbsenceCandidate : Type 0 where
  pub staff_id : ℕ
  pub name : String
  pub date : ℕ

abbrev pub is_employed : StaffStatus → Bool
is_employed StaffStatus.active = true
is_employed _ = false

-- Who belongs to the branch or has done so.
abbrev pub belongs : ℕ → List StaffAssignment → Staff → Bool
belongs branch assignments s =
    is_employed s.status
    && (s.branch_id == branch
        || exists (λ a. a.staff_id == s.id && a.branch_id == branch) assignments)

abbrev pub in_month : Month → ℕ → Bool
in_month m date = leb (month_from m) date && ltb date (month_to m)

-- The approved leave that may share a day with the month.
abbrev pub leave_in : Month → LeaveRequest → Bool
leave_in m l =
    is_approved l.status && (leb l.start_date (month_to m - 1) && leb (month_from m) l.end_date)

abbrev pub is_on : ℕ → ℕ → AttendanceRecord → Bool
is_on staff date r = r.staff_id == staff && r.date == date

abbrev pub covers : ℕ → LeaveRequest → Bool
covers date l = leb l.start_date date && leb date l.end_date

-- The tests of the loop on one day of one person, in their order.
unfoldable pub is_absent :
    ℕ → ℕ → List StaffAssignment → List AttendanceRecord → List LeaveRequest → Staff → ℕ → Bool
is_absent today branch assignments records leaves s date =
    ltb date today
    && (or_else (branch_on_date (select (λ a. a.staff_id == s.id) assignments) date) s.branch_id
          == branch
        && (is_work_day s date
            && (not (exists (is_on s.id date) records)
                && not (exists (covers date) (select (λ l. l.staff_id == s.id) leaves)))))

-- The days of the month from the `d`-th on, `n` of them.
unfoldable pub absent_days : (ℕ → Bool) → Staff → Month → ℕ → ℕ → List AbsenceCandidate
absent_days absent s m d zero = []
absent_days absent s m d (suc n) =
    let date = day_of_ymd (ymd m.year m.month d) in
    let rest = absent_days absent s m (d + 1) n in
    if absent date then record { staff_id = s.id; name = s.name; date = date } ∷ rest else rest

-- The number of days of the month: `lastDay.getUTCDate()`.
unfoldable pub days_of : Month → ℕ
days_of m = (ymd_of_day (month_to m - 1)).day

unfoldable pub absent_staff : (Staff → ℕ → Bool) → Month → List Staff → List AbsenceCandidate
unfolding absent_days days_of
absent_staff absent m [] = []
absent_staff absent m (s ∷ staff) =
    absent_days (absent s) s m 1 (days_of m) ++ absent_staff absent m staff

abbrev pub ids : List Staff → List ℕ
ids = map (λ s. s.id)

-- How the database orders the staff by their codes: the same rows in another order.
pub record StaffOrder : Type 0 where
  pub by_code : List Staff → List Staff
  pub same_rows : (p : Staff → Bool) (xs : List Staff) → exists p (by_code xs) ≡ exists p xs

module _ (order : StaffOrder) where
  -- The staff that the preview reads.
  abbrev pub candidates : ℕ → Db → List Staff
  candidates branch db = order.by_code (select (belongs branch db.assignments) db.staff)

  unfoldable pub preview_absences : ℕ → ℕ → Month → Db → List AbsenceCandidate
  unfolding absent_staff is_absent month_from month_to
  preview_absences now branch m db =
      let staff = candidates branch db in
      let records = select (λ r. is_in r.staff_id (ids staff) && in_month m r.date) db.attendance in
      let leaves = select (λ l. is_in l.staff_id (ids staff) && leave_in m l) db.leave_requests in
      absent_staff (is_absent (kst_day now) branch db.assignments records leaves) m staff

abbrev pub absent_row : ℕ → ℕ → Option String → AbsenceCandidate → AttendanceRecord
absent_row new branch memo c = record {
  id = new;
  staff_id = c.staff_id;
  branch_id = branch;
  date = c.date;
  check_in_at = none;
  check_out_at = none;
  status = AttendanceStatus.absent;
  note = some (or_else memo "결근 확정(관리자 확인)");
}

-- `createManyAndReturn` with `skipDuplicates`: a day that has a row is left out. The new rows get
-- the identifiers from `new` on.
unfoldable pub create_absences :
    ℕ → ℕ → Option String → List AbsenceCandidate → List AttendanceRecord → List AttendanceRecord
create_absences new branch memo [] rows = rows
create_absences new branch memo (c ∷ cs) rows = create_absences (new + 1) branch memo cs (
    if exists (is_on c.staff_id c.date) rows
    then rows
    else rows ++ absent_row new branch memo c ∷ [])

-- The write of `confirmAbsences`, for the candidates of its preview.
unfoldable pub confirm_absences : ℕ → ℕ → Option String → List AbsenceCandidate → Action (Unit {0})
unfolding create_absences
confirm_absences new branch memo cs =
    modify λ db. record db { attendance = create_absences new branch memo cs db.attendance }
