-- ===== src/Attendance/Leave.antt =====
-- The calls of attendance.service.ts on leave requests and the yearly balance.
pub mod Overlap
use sports_erp.Prelude.{
  ℕ, ◌+◌, ◌-◌, Option, none, some, List, [], ◌∷◌, ◌++◌, String, Bool, true, false, not, ◌&&◌, ◌||◌,
  ltb, leb, ◌==◌, if◌then◌else◌, find, count, update, exists, is_set, or_else,
}
use sports_erp.Store.{
  Db, Action, pure, throw, gets, require, require_row, transaction, ◌>>=◌, ◌>>◌, throw_if, modify,
}
use sports_erp.Store.Errors.{Code, Result, ok, err}
use sports_erp.Store.Staffing.{Staff, LeaveType, LeaveStatus, LeaveRequest, LeaveBalance}
use sports_erp.Dates.Kst.{to_kst_date_string}
use sports_erp.Integrity.{lock_staff}
use sports_erp.Attendance.Rules.{annual_leave_total_days, leave_days}

abbrev pub is_pending : LeaveStatus → Bool
is_pending LeaveStatus.pending = true
is_pending _ = false

abbrev pub is_approved : LeaveStatus → Bool
is_approved LeaveStatus.approved = true
is_approved _ = false

abbrev pub is_annual : LeaveType → Bool
is_annual LeaveType.annual = true
is_annual _ = false

abbrev pub balance_of : ℕ → ℕ → LeaveBalance → Bool
balance_of staff year b = b.staff_id == staff && b.year == year

abbrev pub new_balance : Staff → ℕ → LeaveBalance
new_balance s year = record {
  staff_id = s.id;
  year = year;
  total_days = annual_leave_total_days s.hire_date year;
  used_days = 0;
}

-- The balance that is there, or one that is made from the date of hiring.
unfoldable pub make_balance : ℕ → ℕ → Option LeaveBalance → Action LeaveBalance
make_balance staff_id year none = do
  staff ← require_row (λ db. find (λ s. s.id == staff_id) db.staff) Code.staff_not_found
  modify λ db. record db { leave_balances = db.leave_balances ++ new_balance staff year ∷ [] }
  require_row (λ db. find (balance_of staff_id year) db.leave_balances) Code.row_missing
make_balance staff_id year (some b) = pure b

-- `leaveBalance` of this year.
unfoldable pub leave_balance : ℕ → ℕ → Action LeaveBalance
unfolding make_balance
leave_balance now staff = do
  let year = (to_kst_date_string now).year
  found ← gets λ db. find (balance_of staff year) db.leave_balances
  make_balance staff year found

-- The leave of one person that shares a day with a period, both ends included.
abbrev pub overlaps : ℕ → ℕ → ℕ → (LeaveStatus → Bool) → LeaveRequest → Bool
overlaps staff start_date end_date statuses r =
    r.staff_id == staff
    && (statuses r.status && (leb r.start_date end_date && leb start_date r.end_date))

-- `assertNoOverlappingLeave`
unfoldable pub assert_no_overlapping_leave :
    ℕ → ℕ → ℕ → (LeaveStatus → Bool) → (LeaveRequest → Bool) → Action (Unit {0})
assert_no_overlapping_leave staff start_date end_date statuses except = do
  clash ← gets λ db.
      exists (λ r. overlaps staff start_date end_date statuses r && not (except r))
        db.leave_requests
  throw_if clash Code.leave_request_overlap

pub record LeaveInput : Type 0 where
  pub type : LeaveType
  pub start_date : ℕ
  pub end_date : ℕ
  pub reason : Option String

abbrev pub new_request : ℕ → ℕ → LeaveInput → LeaveRequest
new_request new staff i = record {
  id = new;
  staff_id = staff;
  type = i.type;
  start_date = i.start_date;
  end_date = i.end_date;
  days = leave_days i.start_date i.end_date;
  reason = i.reason;
  status = LeaveStatus.pending;
  approver_id = none;
  reviewed_at = none;
}

abbrev pub is_open : LeaveStatus → Bool
is_open s = is_pending s || is_approved s

unfoldable pub request_leave_body : ℕ → ℕ → LeaveInput → Action ℕ
unfolding assert_no_overlapping_leave
request_leave_body new staff i = do
  _ ← require_row (lock_staff staff) Code.staff_not_found
  assert_no_overlapping_leave staff i.start_date i.end_date is_open (λ r. false)
  modify λ db. record db { leave_requests = db.leave_requests ++ new_request new staff i ∷ [] }
  pure new

-- Whether an annual leave is longer than what is left, which is only a warning.
unfoldable pub warns_of_balance : ℕ → ℕ → LeaveInput → Action Bool
unfolding leave_balance
warns_of_balance now staff i =
    if is_annual i.type
    then (do
      b ← leave_balance now staff
      pure (ltb b.total_days (b.used_days + leave_days i.start_date i.end_date)))
    else pure false

unfoldable pub request_leave : ℕ → ℕ → ℕ → LeaveInput → Action (ℕ × Bool)
unfolding request_leave_body warns_of_balance
request_leave now new staff i = do
  throw_if (leave_days i.start_date i.end_date == 0) Code.invalid_date_range
  warning ← warns_of_balance now staff i
  id ← transaction (request_leave_body new staff i)
  pure (id, warning)

abbrev pub reviewed : ℕ → ℕ → LeaveStatus → LeaveRequest → LeaveRequest
reviewed now approver status r = record r {
  status = status;
  approver_id = some approver;
  reviewed_at = some now;
}

abbrev pub is_waiting : ℕ → LeaveRequest → Bool
is_waiting id r = r.id == id && is_pending r.status

-- `review`
unfoldable pub review : ℕ → ℕ → ℕ → LeaveStatus → Action LeaveRequest
review now id approver status = do
  changed ← gets λ db. count (is_waiting id) db.leave_requests
  modify λ db. record db {
    leave_requests = update (is_waiting id) (reviewed now approver status) db.leave_requests;
  }
  request ←
      require_row (λ db. find (λ r. r.id == id) db.leave_requests) Code.leave_request_not_found
  throw_if (changed == 0) Code.leave_request_already_reviewed
  pure request

-- An approval is refused if it would overlap leave that is approved.
unfoldable pub check_approvable : ℕ → Option LeaveRequest → Action (Unit {0})
unfolding assert_no_overlapping_leave
check_approvable id none = pure tt
check_approvable id (some r) =
    assert_no_overlapping_leave r.staff_id r.start_date r.end_date is_approved (λ q. q.id == id)

abbrev pub spend : ℕ → LeaveBalance → LeaveBalance
spend days b = record b { used_days = b.used_days + days }

unfoldable pub deduct : ℕ → LeaveRequest → Action (Unit {0})
unfolding leave_balance
deduct now r =
    if is_annual r.type
    then (do
      b ← leave_balance now r.staff_id
      modify λ db. record db {
        leave_balances = update (balance_of r.staff_id b.year) (spend r.days) db.leave_balances;
      })
    else pure tt

unfoldable pub approve_body : ℕ → ℕ → ℕ → Action (Unit {0})
unfolding check_approvable review deduct
approve_body now id approver = do
  waiting ← gets λ db. find (λ r. r.id == id) db.leave_requests
  check_approvable id waiting
  request ← review now id approver LeaveStatus.approved
  deduct now request

-- `approveLeaveRequest`
unfoldable pub approve_leave_request : ℕ → ℕ → ℕ → Action (Unit {0})
unfolding approve_body
approve_leave_request now id approver = transaction (approve_body now id approver)

unfoldable pub reject_leave_request : ℕ → ℕ → ℕ → Action LeaveRequest
unfolding review
reject_leave_request now id approver = transaction (review now id approver LeaveStatus.rejected)
