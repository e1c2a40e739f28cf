-- ===== src/Attendance.antt =====
-- modules/attendance/attendance.service.ts: the day's attendance and its correction. Leave is in
-- `Leave`, the rules of judgement are in `Rules`. A day's row is unique by staff member and date.
pub mod Rules
pub mod Leave
pub mod Absences
pub mod Days
mod Tests
use sports_erp.Prelude.{
  ℕ, ◌+◌, ◌-◌, ◌*◌, Option, none, some, List, [], ◌∷◌, ◌++◌, String, Bool, true, false, not, ◌&&◌,
  ◌||◌, ltb, leb, ◌==◌, if◌then◌else◌, find, count, select, update, exists, is_set, passes, or_else,
}
use sports_erp.Store.{
  Db, Action, pure, throw, gets, require, require_row, transaction, ◌>>=◌, ◌>>◌, throw_if, modify,
  record_audit,
}
use sports_erp.Store.Errors.{Code, Result, ok, err}
use sports_erp.Store.Branches.{Branch}
use sports_erp.Store.Staffing.{Staff, StaffAssignment, AttendanceStatus, AttendanceRecord, WorkLog}
use sports_erp.Store.Audit.{AuditEntity, AuditAction, Snapshot}
use sports_erp.Dates.Kst.{day_ms, kst_offset_ms, kst_day}
use sports_erp.Staffing.{map_err}
use Rules.{is_late, branch_on_date}

-- The time of the call, the account that makes it with its branch, and the new row's identifier.
pub record Env : Type 0 where
  pub now : ℕ
  pub actor : ℕ
  pub actor_branch : ℕ
  pub new_id : ℕ

abbrev pub is_day : ℕ → ℕ → AttendanceRecord → Bool
is_day staff date r = r.staff_id == staff && r.date == date

-- `branchIdForStaffOnDate`
abbrev pub branch_id_for_staff_on_date : ℕ → ℕ → Db → Option ℕ
branch_id_for_staff_on_date staff date db =
    branch_on_date (select (λ a. a.staff_id == staff) db.assignments) date

-- AttendanceRecord_staffId_date_key and AttendanceRecord_checkout_after_checkin_ck
abbrev pub is_reversed : Option ℕ → Option ℕ → Bool
is_reversed (some i) (some o) = ltb o i
is_reversed _ _ = false

unfoldable pub insert_attendance : AttendanceRecord → Action (Unit {0})
insert_attendance r = do
  clash ← gets λ db. exists (is_day r.staff_id r.date) db.attendance
  throw_if clash Code.unique_violation
  throw_if (is_reversed r.check_in_at r.check_out_at) Code.check_violation
  modify λ db. record db { attendance = db.attendance ++ r ∷ [] }

abbrev pub late_or_normal : ℕ → Branch → AttendanceStatus
late_or_normal now b =
    if is_late now b.standard_check_in_time then AttendanceStatus.late else AttendanceStatus.normal

abbrev pub check_in_row : ℕ → AttendanceStatus → ℕ → AttendanceRecord → AttendanceRecord
check_in_row now status branch r = record r {
  check_in_at = some now;
  status = status;
  branch_id = branch;
}

abbrev pub is_unchecked : ℕ → AttendanceRecord → Bool
is_unchecked id r = r.id == id && not (is_set r.check_in_at)

-- An index violation in `checkIn` is a check-in that came first.
abbrev pub as_checked_in : Code → Code
as_checked_in Code.unique_violation = Code.already_checked_in
as_checked_in c = c

abbrev pub first_row : Env → ℕ → ℕ → AttendanceStatus → AttendanceRecord
first_row e staff branch status = record {
  id = e.new_id;
  staff_id = staff;
  branch_id = branch;
  date = kst_day e.now;
  check_in_at = some e.now;
  check_out_at = none;
  status = status;
  note = none;
}

-- The write of a check-in, into the row of the day or as a new one.
unfoldable pub write_check_in : Env → ℕ → ℕ → AttendanceStatus → Option AttendanceRecord → Action ℕ
unfolding insert_attendance
write_check_in e staff branch status none db =
    let (r, db') = (insert_attendance (first_row e staff branch status) >> pure e.new_id) db in
    (map_err as_checked_in r, db')
write_check_in e staff branch status (some r) db =
    (do
      changed ← gets λ db. count (is_unchecked r.id) db.attendance
      modify λ db. record db {
        attendance = update (is_unchecked r.id) (check_in_row e.now status branch) db.attendance;
      }
      throw_if (changed == 0) Code.already_checked_in
      pure r.id)
      db

unfoldable pub check_in : Env → ℕ → Action ℕ
unfolding write_check_in
check_in e staff_id = do
  staff ← require_row (λ db. find (λ s. s.id == staff_id) db.staff) Code.staff_not_found
  branch ← require_row (λ db. find (λ b. b.id == staff.branch_id) db.branches) Code.row_missing
  existing ← gets λ db. find (is_day staff_id (kst_day e.now)) db.attendance
  throw_if (passes (λ r. is_set r.check_in_at) existing) Code.already_checked_in
  at ← gets λ db. or_else (branch_id_for_staff_on_date staff_id (kst_day e.now) db) staff.branch_id
  write_check_in e staff_id at (late_or_normal e.now branch) existing

abbrev pub is_present : ℕ → ℕ → AttendanceRecord → Bool
is_present staff date r =
    is_day staff date r && (is_set r.check_in_at && not (is_set r.check_out_at))

abbrev pub check_out_row : ℕ → AttendanceRecord → AttendanceRecord
check_out_row now r = record r { check_out_at = some now }

unfoldable pub check_out : Env → ℕ → Action ℕ
check_out e staff = do
  changed ← gets λ db. count (is_present staff (kst_day e.now)) db.attendance
  modify λ db. record db {
    attendance = update (is_present staff (kst_day e.now)) (check_out_row e.now) db.attendance;
  }
  row ← require_row (λ db. find (is_day staff (kst_day e.now)) db.attendance) Code.not_checked_in
  throw_if (not (is_set row.check_in_at)) Code.not_checked_in
  throw_if (changed == 0) Code.already_checked_out
  pure row.id

-- What a correction sets: clock times are hours and minutes.
pub record Correction : Type 0 where
  pub status : AttendanceStatus
  pub check_in_time : Option (ℕ × ℕ)
  pub check_out_time : Option (ℕ × ℕ)
  pub reason : String

abbrev pub is_worked : AttendanceStatus → Bool
is_worked AttendanceStatus.normal = true
is_worked AttendanceStatus.late = true
is_worked AttendanceStatus.early_leave = true
is_worked _ = false

abbrev pub minutes : ℕ × ℕ → ℕ
minutes t = t.0 * 60 + t.1

abbrev pub is_backward : Option (ℕ × ℕ) → Option (ℕ × ℕ) → Bool
is_backward (some i) (some o) = ltb (minutes o) (minutes i)
is_backward _ _ = false

-- The instant of a Korean clock time on a date.
abbrev pub kst_time : ℕ → Option (ℕ × ℕ) → Option ℕ
kst_time date none = none
kst_time date (some t) = some (date * day_ms + minutes t * 60000 - kst_offset_ms)

abbrev pub next_snapshot : ℕ → Correction → Snapshot
next_snapshot date c = record {
  status = c.status;
  check_in_at = kst_time date c.check_in_time;
  check_out_at = kst_time date c.check_out_time;
}

abbrev pub snapshot : AttendanceRecord → Snapshot
snapshot r = record {
  status = r.status;
  check_in_at = r.check_in_at;
  check_out_at = r.check_out_at;
}

abbrev pub status_eq : AttendanceStatus → AttendanceStatus → Bool
status_eq AttendanceStatus.normal AttendanceStatus.normal = true
status_eq AttendanceStatus.late AttendanceStatus.late = true
status_eq AttendanceStatus.early_leave AttendanceStatus.early_leave = true
status_eq AttendanceStatus.absent AttendanceStatus.absent = true
status_eq AttendanceStatus.on_leave AttendanceStatus.on_leave = true
status_eq _ _ = false

abbrev pub time_eq : Option ℕ → Option ℕ → Bool
time_eq none none = true
time_eq (some a) (some b) = a == b
time_eq _ _ = false

abbrev pub snapshot_eq : Snapshot → Snapshot → Bool
snapshot_eq a b =
    status_eq a.status b.status
    && (time_eq a.check_in_at b.check_in_at && time_eq a.check_out_at b.check_out_at)

-- The checks on the input of a correction, in the order of the source; a date is one.
unfoldable pub check_correction : ℕ → ℕ → Correction → Action (Unit {0})
check_correction today date c = do
  throw_if (ltb today date) Code.future_attendance
  throw_if (is_worked c.status && not (is_set c.check_in_time)) Code.check_in_required
  throw_if (not (is_worked c.status) && (is_set c.check_in_time || is_set c.check_out_time))
      Code.validation_error
  throw_if (is_backward c.check_in_time c.check_out_time) Code.invalid_time_range

abbrev pub corrected_row : Snapshot → String → AttendanceRecord → AttendanceRecord
corrected_row s reason r = record r {
  status = s.status;
  check_in_at = s.check_in_at;
  check_out_at = s.check_out_at;
  note = some reason;
}

abbrev pub corrected_new : Env → ℕ → ℕ → ℕ → Snapshot → String → AttendanceRecord
corrected_new e staff branch date s reason = record {
  id = e.new_id;
  staff_id = staff;
  branch_id = branch;
  date = date;
  check_in_at = s.check_in_at;
  check_out_at = s.check_out_at;
  status = s.status;
  note = some reason;
}

-- The row of the day is changed, or made.
unfoldable pub write_correction :
    Env → ℕ → ℕ → ℕ → Snapshot → String → Option AttendanceRecord → Action (Unit {0})
unfolding insert_attendance
write_correction e staff branch date s reason none =
    insert_attendance (corrected_new e staff branch date s reason)
write_correction e staff branch date s reason (some r) = modify λ db. record db {
  attendance = update (λ q. q.id == r.id) (corrected_row s reason) db.attendance;
}

abbrev pub snapshot_of : Option AttendanceRecord → Option Snapshot
snapshot_of none = none
snapshot_of (some r) = some (snapshot r)

abbrev pub branch_of_row : Option AttendanceRecord → Option ℕ
branch_of_row none = none
branch_of_row (some r) = some r.branch_id

unfoldable pub correct_body : Env → Staff → ℕ → Correction → Action (Unit {0})
unfolding write_correction
correct_body e staff date c = do
  let next = next_snapshot date c
  existing ← gets λ db. find (is_day staff.id date) db.attendance
  on_date ← gets (branch_id_for_staff_on_date staff.id date)
  let branch = or_else (branch_of_row existing) (or_else on_date staff.branch_id)
  throw_if (not (branch == e.actor_branch)) Code.attendance_scope_violation
  if passes (λ s. snapshot_eq s next) (snapshot_of existing)
      then pure tt
      else (write_correction e staff.id branch date next c.reason existing
          >> record_audit e.actor AuditEntity.staff staff.id
              (AuditAction.attendance_corrected date (snapshot_of existing) next branch))

abbrev pub as_conflict : Code → Code
as_conflict Code.unique_violation = Code.attendance_conflict
as_conflict c = c

unfoldable pub correct : Env → ℕ → ℕ → Correction → Action (Unit {0})
unfolding check_correction correct_body
correct e staff_id date c = do
  check_correction (kst_day e.now) date c
  staff ← require_row (λ db. find (λ s. s.id == staff_id) db.staff) Code.staff_not_found
  λ db. let (r, db') = transaction (correct_body e staff date c) db in (map_err as_conflict r, db')

abbrev pub is_log_on : ℕ → ℕ → WorkLog → Bool
is_log_on staff date l = l.staff_id == staff && l.date == date

abbrev pub new_work_log : Env → ℕ → ℕ → String → WorkLog
new_work_log e staff date content = record {
  id = e.new_id;
  staff_id = staff;
  date = date;
  content = content;
  created_at = e.now;
}

unfoldable pub write_log : Env → ℕ → ℕ → String → Option WorkLog → Action ℕ
write_log e staff date content none =
    modify (λ db. record db { work_logs = db.work_logs ++ new_work_log e staff date content ∷ [] })
    >> pure e.new_id
write_log e staff date content (some l) =
    modify (λ db. record db {
      work_logs = update (λ m. m.id == l.id) (λ m. record m { content = content }) db.work_logs;
    })
    >> pure l.id

-- `upsertWorkLog`
unfoldable pub upsert_work_log : Env → ℕ → ℕ → String → Action ℕ
unfolding write_log
upsert_work_log e staff date content = do
  existing ← gets λ db. find (is_log_on staff date) db.work_logs
  write_log e staff date content existing
