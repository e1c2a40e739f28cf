-- ===== src/Staffing/Moves.antt =====
-- `resign`, `assign`, `update` and `updateRole` of staff.service.ts, and
-- `endAssignmentsAtTerminatedBranch`, which the end of a branch's contract calls.
use sports_erp.Prelude.{
  ℕ, Option, none, some, List, [], ◌∷◌, map, String, Bool, true, false, not, ◌&&◌, ◌||◌, ◌==◌,
  if◌then◌else◌, find, count, select, update, exists, is_set, is_id, is_in, passes, or_else, length,
}
use sports_erp.Store.{
  Db, Action, pure, gets, require_row, transaction, ◌>>=◌, ◌>>◌, throw_if, modify, record_audit,
}
use sports_erp.Store.Errors.{Code}
use sports_erp.Store.Branches.{Text}
use sports_erp.Store.Members.{Member}
use sports_erp.Store.Staffing.{
  Account, Role, Staff, StaffStatus, StaffAssignment, Instructor, DocumentCategory,
}
use sports_erp.Store.Audit.{AuditEntity, AuditAction}
use sports_erp.Dates.Civil.{ymd_of_day, day_of_ymd}
use sports_erp.Dates.Kst.{kst_day, add_years_to_date_string}
use sports_erp.Integrity.{is_terminated, lock_staff, lock_branch_for_share}
use sports_erp.Integrity.Codes.{text_eq}
use sports_erp.Staffing.{
  Env, is_open_of, is_open_at, end_assignments, insert_assignment, new_assignment, part_time,
}

abbrev pub is_resigned : StaffStatus → Bool
is_resigned StaffStatus.resigned = true
is_resigned _ = false

abbrev pub is_super_admin : Role → Bool
is_super_admin Role.super_admin = true
is_super_admin _ = false

abbrev pub role_eq : Role → Role → Bool
role_eq Role.super_admin Role.super_admin = true
role_eq Role.branch_admin Role.branch_admin = true
role_eq Role.staff Role.staff = true
role_eq Role.member Role.member = true
role_eq _ _ = false

abbrev pub unassign : Member → Member
unassign m = record m { assigned_staff_id = none }

-- `assignedStaffId: null` on the rows whose ids a query has returned.
abbrev pub release : List Member → Db → Db
release released db = record db {
  members = update (λ m. is_in m.id (map (λ r. r.id) released)) unassign db.members;
}

abbrev pub detach : Instructor → Instructor
detach i = record i { staff_id = none; is_active = false }

abbrev pub update_staff : ℕ → (Staff → Staff) → Db → Db
update_staff id f db = record db { staff = update (λ s. s.id == id) f db.staff }

abbrev pub update_account : ℕ → (Account → Account) → Db → Db
update_account id f db = record db { accounts = update (λ a. a.id == id) f db.accounts }

abbrev pub is_hr_record : DocumentCategory → Bool
is_hr_record DocumentCategory.hr_record = true
is_hr_record _ = false

-- `recalculateHrRetention` of modules/documents: three years from the last day on.
unfoldable pub recalculate_hr_retention : ℕ → ℕ → Action (Unit {0})
recalculate_hr_retention staff day =
    let until = day_of_ymd (add_years_to_date_string (ymd_of_day day) 3) in
    modify λ db. record db {
      documents =
          update
            (λ d.
              is_hr_record d.category
              && is_id d.related_staff_id staff
              && not (is_set d.deleted_at))
            (λ d. record d { retention_until = some until }) db.documents;
    }

abbrev pub resign_row : ℕ → Staff → Staff
resign_row today s = record s { status = StaffStatus.resigned; resign_date = some today }

-- The branch of the staff member, with the foreign key that says there is one.
unfoldable pub resign_body : Env → Role → ℕ → Action (List Member)
unfolding end_assignments recalculate_hr_retention
resign_body e role id = do
  let today = kst_day e.now
  staff ← require_row (lock_staff id) Code.staff_not_found
  branch ← require_row (λ db. find (λ b. b.id == staff.branch_id) db.branches) Code.row_missing
  throw_if (is_super_admin role && not (is_terminated branch.contract_status))
      Code.resign_by_branch_admin
  throw_if (is_resigned staff.status) Code.staff_already_resigned
  modify (update_staff id (resign_row today))
  modify (update_account staff.account_id λ a. record a { is_active = false })
  end_assignments (is_open_of id) today
  released ← gets λ db. select (λ m. is_id m.assigned_staff_id id) db.members
  modify (release released)
  recalculate_hr_retention id today
  record_audit e.actor AuditEntity.staff id
      (AuditAction.resigned staff.status staff.branch_id today (length released))
  pure released

unfoldable pub resign : Env → Role → ℕ → Action (List Member)
unfolding resign_body
resign e role id = transaction (resign_body e role id)

-- The trigger staff_branch_move: whoever looks after members or stands in for an instructor at
-- another branch is not moved.
abbrev pub is_bound_elsewhere : ℕ → ℕ → Db → Bool
is_bound_elsewhere staff branch db =
    exists (λ m. is_id m.assigned_staff_id staff && not (m.branch_id == branch)) db.members
    || exists (λ i. is_id i.staff_id staff && not (i.branch_id == branch)) db.instructors

abbrev pub move_row : ℕ → Staff → Staff
move_row branch s = record s { branch_id = branch }

unfoldable pub move_staff : ℕ → ℕ → Action (Unit {0})
move_staff id branch = do
  bound ← gets (is_bound_elsewhere id branch)
  moves ← gets λ db. exists (λ s. s.id == id && not (s.branch_id == branch)) db.staff
  throw_if (moves && bound) Code.check_violation
  modify (update_staff id (move_row branch))

unfoldable pub assign_body : Env → ℕ → ℕ → Option String → Action (List Member)
unfolding end_assignments insert_assignment move_staff
assign_body e id branch note = do
  let today = kst_day e.now
  staff ← require_row (lock_staff id) Code.staff_not_found
  throw_if (is_resigned staff.status) Code.staff_already_resigned
  target ← require_row (lock_branch_for_share branch) Code.branch_not_found
  throw_if (is_terminated target.contract_status) Code.branch_terminated
  end_assignments (is_open_of id) today
  insert_assignment (new_assignment e id branch today note)
  released ←
      gets
        λ db. select (λ m. is_id m.assigned_staff_id id && not (m.branch_id == branch)) db.members
  modify (release released)
  modify λ db. record db {
    instructors =
        update (λ i. is_id i.staff_id id && not (i.branch_id == branch)) detach db.instructors;
  }
  move_staff id branch
  record_audit e.actor AuditEntity.staff id
      (AuditAction.assigned staff.branch_id branch note (length released))
  pure released

unfoldable pub assign : Env → ℕ → ℕ → Option String → Action (List Member)
unfolding assign_body
assign e id branch note = transaction (assign_body e id branch note)

-- `update`: part-time work has no days off.
abbrev pub update_row : Option String → Option Text → Option (List ℕ) → Staff → Staff
update_row name type days s = record s {
  name = or_else name s.name;
  employment_type = if is_set type then type else s.employment_type;
  off_days =
      if passes (text_eq part_time) (if is_set type then type else s.employment_type)
      then []
      else or_else days s.off_days;
}

unfoldable pub update_profile :
    ℕ → Option String → Option Text → Option (List ℕ) → Action (Unit {0})
update_profile id name type days = do
  current ← require_row (λ db. find (λ s. s.id == id) db.staff) Code.staff_not_found
  modify (update_staff id (update_row name type days))

unfoldable pub update_role_body : Env → ℕ → Role → Action (Unit {0})
update_role_body e id role = do
  staff ← require_row (λ db. find (λ s. s.id == id) db.staff) Code.staff_not_found
  account ← require_row (λ db. find (λ a. a.id == staff.account_id) db.accounts) Code.row_missing
  if role_eq account.role role
      then pure tt
      else (modify (update_account staff.account_id λ a. record a { role = role })
          >> record_audit e.actor AuditEntity.staff id (AuditAction.role_changed account.role role))

unfoldable pub update_role : Env → ℕ → Role → Action (Unit {0})
unfolding update_role_body
update_role e id role = transaction (update_role_body e id role)

abbrev pub holds : List ℕ → Option ℕ → Bool
holds ids none = false
holds ids (some id) = is_in id ids

-- The audit entries, one for each assignment that ends.
unfoldable pub audit_ended : ℕ → ℕ → ℕ → List Member → List StaffAssignment → Action (Unit {0})
audit_ended actor branch today released [] = pure tt
audit_ended actor branch today released (a ∷ opened) =
    record_audit actor AuditEntity.staff a.staff_id (
      AuditAction.assignment_ended branch today
        (count (λ m. is_id m.assigned_staff_id a.staff_id) released))
    >> audit_ended actor branch today released opened

-- `endAssignmentsAtTerminatedBranch`: the assignments that it ends, and the members that it releases.
unfoldable pub end_assignments_at_terminated_branch :
    ℕ → ℕ → ℕ → Action (List StaffAssignment × List Member)
unfolding end_assignments audit_ended
end_assignments_at_terminated_branch branch actor today = do
  opened ← gets λ db. select (is_open_at branch) db.assignments
  let staff_ids = map (λ a. a.staff_id) opened
  if length opened == 0 then pure ([], []) else do
    end_assignments (λ a. is_in a.id (map (λ o. o.id) opened)) today
    released ← gets λ db. select (λ m. holds staff_ids m.assigned_staff_id) db.members
    modify (release released)
    modify λ db. record db {
      instructors = update (λ i. holds staff_ids i.staff_id) detach db.instructors;
    }
    audit_ended actor branch today released opened
    pure (opened, released)
