-- ===== src/Staffing.antt =====
-- modules/staff/staff.service.ts and terminated-branch-assignments.ts: hiring, resignation, transfer and
-- role of the staff, and the end of all assignments at a branch whose contract ends. Each runs in a
-- transaction on locked rows. The bcrypt hash of the temporary password is an argument.
pub mod Moves
pub mod Frames
pub mod Termination
pub mod Invariant
pub mod Resignation
use sports_erp.Prelude.{
  ℕ, ◌+◌, Option, none, some, List, [], ◌∷◌, ◌++◌, map, String, Bool, true, false, not, ◌&&◌, ◌||◌,
  ltb, ◌==◌, if◌then◌else◌, find, count, select, update, exists, is_set, is_id, is_in, passes,
  or_else, length,
}
use sports_erp.Store.{
  Db, Action, pure, throw, gets, require, require_row, transaction, ◌>>=◌, ◌>>◌, throw_if, modify,
  record_audit,
}
use sports_erp.Store.Errors.{Code, Result, ok, err}
use sports_erp.Store.Branches.{Text, Branch, CodeSequenceKind}
use sports_erp.Store.Members.{Member}
use sports_erp.Store.Staffing.{
  Account, Role, Staff, StaffStatus, StaffAssignment, Instructor, Document, DocumentCategory,
}
use sports_erp.Store.Audit.{AuditEntity, AuditAction}
use sports_erp.Dates.Civil.{ymd_of_day, day_of_ymd}
use sports_erp.Dates.Kst.{kst_day, add_years_to_date_string}
use sports_erp.Integrity.{is_terminated, is_branch_terminated, lock_staff, lock_branch_for_share}
use sports_erp.Integrity.Codes.{text_eq, allocate_branch_code}

-- The time of the call, the account that makes it, and the identifiers that the database generates.
pub record Env : Type 0 where
  pub now : ℕ
  pub actor : ℕ
  pub account_id : ℕ
  pub staff_id : ℕ
  pub assignment_id : ℕ

-- `endDate: null`
abbrev pub is_open : StaffAssignment → Bool
is_open a = not (is_set a.end_date)

abbrev pub is_open_of : ℕ → StaffAssignment → Bool
is_open_of staff a = a.staff_id == staff && is_open a

abbrev pub is_open_at : ℕ → StaffAssignment → Bool
is_open_at branch a = a.branch_id == branch && is_open a

abbrev pub end_assignment : ℕ → StaffAssignment → StaffAssignment
end_assignment today a = record a { end_date = some today }

-- An update that ends assignments on a day. StaffAssignment_period_ck: none ends before it starts.
unfoldable pub end_assignments : (StaffAssignment → Bool) → ℕ → Action (Unit {0})
end_assignments p today = do
  early ← gets λ db. exists (λ a. p a && ltb today a.start_date) db.assignments
  throw_if early Code.check_violation
  modify λ db. record db { assignments = update p (end_assignment today) db.assignments }

-- StaffAssignment_staffId_active_key
unfoldable pub insert_assignment : StaffAssignment → Action (Unit {0})
insert_assignment a = do
  clash ← gets λ db. exists (is_open_of a.staff_id) db.assignments
  throw_if (is_open a && clash) Code.unique_violation
  modify λ db. record db { assignments = db.assignments ++ a ∷ [] }

abbrev pub is_active_email : ℕ → Account → Bool
is_active_email email a = a.email == email && a.is_active

-- Account_email_active_key
unfoldable pub insert_account : Account → Action (Unit {0})
insert_account a = do
  clash ← gets λ db. exists (is_active_email a.email) db.accounts
  throw_if (a.is_active && clash) Code.unique_violation
  modify λ db. record db { accounts = db.accounts ++ a ∷ [] }

-- Staff_staffCode_key
unfoldable pub insert_staff : Staff → Action (Unit {0})
insert_staff s = do
  clash ← gets λ db. exists (λ t. text_eq t.staff_code s.staff_code) db.staff
  throw_if clash Code.unique_violation
  modify λ db. record db { staff = db.staff ++ s ∷ [] }

-- What `hire` is called with; the fields that no code reads again are left out.
pub record HireInput : Type 0 where
  pub branch_id : ℕ
  pub name : String
  pub email : ℕ
  pub employment_type : Option Text
  pub off_days : Option (List ℕ)
  pub hire_date : Option ℕ
  pub note : Option String

-- The Hangul of part-time work.
abbrev pub part_time : Text
part_time = 54028 ∷ 53944 ∷ 53440 ∷ 51076 ∷ []

abbrev pub new_account : Env → ℕ → HireInput → Account
new_account e hash i = record {
  id = e.account_id;
  email = i.email;
  password_hash = hash;
  role = Role.staff;
  name = i.name;
  is_active = true;
  must_change_password = true;
}

abbrev pub new_staff : Env → Text → ℕ → HireInput → Staff
new_staff e code hire_date i = record {
  id = e.staff_id;
  account_id = e.account_id;
  branch_id = i.branch_id;
  staff_code = code;
  name = i.name;
  employment_type = i.employment_type;
  hire_date = hire_date;
  resign_date = none;
  status = StaffStatus.active;
  off_days = if passes (text_eq part_time) i.employment_type then [] else or_else i.off_days [];
}

abbrev pub new_assignment : Env → ℕ → ℕ → ℕ → Option String → StaffAssignment
new_assignment e staff branch start note = record {
  id = e.assignment_id;
  staff_id = staff;
  branch_id = branch;
  start_date = start;
  end_date = none;
  assigned_by = e.actor;
  note = note;
}

unfoldable pub hire_body : Env → ℕ → ℕ → HireInput → Action ℕ
unfolding insert_account insert_staff insert_assignment
hire_body e hash hire_date i = do
  branch ← require_row (lock_branch_for_share i.branch_id) Code.branch_not_found
  throw_if (is_terminated branch.contract_status) Code.branch_terminated
  insert_account (new_account e hash i)
  code ← allocate_branch_code e.now branch CodeSequenceKind.staff
  insert_staff (new_staff e code hire_date i)
  insert_assignment (new_assignment e e.staff_id i.branch_id hire_date i.note)
  pure e.staff_id

-- An index violation in `hire` is reported as an email that is taken.
abbrev pub as_email_taken : Code → Code
as_email_taken Code.unique_violation = Code.email_already_exists
as_email_taken c = c

abbrev pub map_err : {A : Type 0} → (Code → Code) → Result A → Result A
map_err f (ok a) = ok a
map_err f (err c) = err (f c)

unfoldable pub hire : Env → ℕ → HireInput → Action ℕ
unfolding hire_body
hire e hash i = do
  taken ← gets λ db. exists (is_active_email i.email) db.accounts
  throw_if taken Code.email_already_exists
  λ db.
      let (r, db') = transaction (hire_body e hash (or_else i.hire_date (kst_day e.now)) i) db in
      (map_err as_email_taken r, db')
