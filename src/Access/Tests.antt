-- ===== src/Access/Tests.antt =====
-- A branch with its administrator, what they may do, and the theorems on it.
use sports_erp.Prelude.{
  All, ◌==◌, ◌≡◌, refl, ℕ, Option, none, some, List, [], ◌∷◌, true, false, find, String,
  if◌then◌else◌,
}
use text.Mathlib.Text.{◌==◌ as str_eq}
use sports_erp.Store.{Db, empty_db}
use sports_erp.Store.Errors.{Code, ok, err}
use sports_erp.Store.Staffing.{Account, Role, Staff, StaffStatus}
use sports_erp.Store.Access.{PermissionAction, Feature, AccountPermission}
use sports_erp.Access.Catalog.{within_ceiling, role_eq, feature_eq}
use sports_erp.Access.Scope.{ScopedKind, find_owner}
use sports_erp.Access.{
  role_default, is_governed, Result, Source, Route, Request, guards, jwt_auth_guard, roles_guard,
  branch_scope_guard, permission_guard, build_request_user, enforce_branch_param, enforce_resource,
  effective, PermissionCell, allows,
}
use sports_erp.Access.Isolation.{IsAdmitted, guards-IsAdmitted}
use sports_erp.Access.Effective.{effective_lem, shown}
use sports_erp.Access.Admin.{set_role_cell, staff_matrix, StaffCell}
use sports_erp.Access.Admin.Cells.{SetsCell}
use sports_erp.Access.Admin.History.{begin, step, sets_role, set_role_cell_lem}
use sports_erp.Access.Admin.Matrix.{IsDecided, staff_matrix_lem}

abbrev manager_account : Account
manager_account = record {
  id = 2;
  email = 20;
  password_hash = 0;
  role = Role.branch_admin;
  name = "Lee";
  is_active = true;
  must_change_password = false;
}

abbrev manager : Staff
manager = record {
  id = 1;
  account_id = 2;
  branch_id = 10;
  staff_code = [];
  name = "Lee";
  employment_type = none;
  hire_date = 739000;
  resign_date = none;
  status = StaffStatus.active;
  off_days = [];
}

abbrev stranger : Staff
stranger = record manager { id = 3; account_id = 4; branch_id = 11 }

abbrev exports_again : AccountPermission
exports_again = record {
  account_id = 2;
  feature = Feature.attendance;
  action = PermissionAction.export;
  allowed = true;
  granted_by = 1;
}

abbrev office : Db
office = record empty_db {
  accounts = manager_account ∷ [];
  staff = manager ∷ stranger ∷ [];
  account_permissions = exports_again ∷ [];
}

-- The head office switches the export of attendance off for all branch administrators.
abbrev switched : Db
switched =
    (set_role_cell 1 Role.branch_admin Feature.attendance PermissionAction.export false office).1

abbrev attendance_list : Route
attendance_list = record {
  is_public = false;
  allow_during_password_change = false;
  roles = Role.branch_admin ∷ [];
  scoped = some (record {
    kind = ScopedKind.staff;
    source = Source.query;
    key = "staffId";
    code = some Code.attendance_scope_violation;
    skip_for = [];
  });
  permission =
      some (record {
        feature = Feature.attendance;
        action = PermissionAction.read;
        exportable = true;
      });
}

abbrev asks_for : Option ℕ → Source → String → Option ℕ
asks_for staff Source.query s = if str_eq s "staffId" then staff else none
asks_for staff Source.param s = none
asks_for staff Source.body s = none

abbrev asks : ℕ → Request
asks staff = record { subject = some 2; value = asks_for (some staff); export = true }

passed :
    guards switched.role_permissions attendance_list (asks 1) switched
    ≡ (ok (some (build_request_user switched manager_account), some 10), switched)
unfolding guards jwt_auth_guard roles_guard branch_scope_guard permission_guard enforce_branch_param
    enforce_resource set_role_cell build_request_user within_ceiling role_eq feature_eq find_owner
passed = refl

refused :
    (guards switched.role_permissions attendance_list (asks 3) switched).0
    ≡ err Code.attendance_scope_violation
unfolding guards jwt_auth_guard roles_guard branch_scope_guard permission_guard enforce_branch_param
    enforce_resource set_role_cell build_request_user within_ceiling role_eq feature_eq find_owner
refused = refl

guards-IsAdmitted_example :
    (switched ≡ switched)
    × IsAdmitted switched.role_permissions attendance_list
        (asks 1)
        switched
        (build_request_user switched manager_account)
        (some 10)
guards-IsAdmitted_example =
    guards-IsAdmitted switched.role_permissions attendance_list (asks 1) switched
      (build_request_user switched manager_account) (some 10) switched passed

governed : is_governed (build_request_user switched manager_account).role ≡ true
unfolding build_request_user
governed = refl

effective_lem_example :
    (cells : List PermissionCell) × (effective switched.role_permissions
        (build_request_user switched manager_account)
      ≡ some cells)
    × (shown Feature.attendance PermissionAction.export cells ≡ (
        if within_ceiling
          (build_request_user switched manager_account).role
          Feature.attendance
          PermissionAction.export
        then some (
            allows switched.role_permissions
              (build_request_user switched manager_account)
              Feature.attendance
              PermissionAction.export)
        else none))
effective_lem_example =
    effective_lem switched.role_permissions (build_request_user switched manager_account)
      Feature.attendance PermissionAction.export governed

set_role_cell_lem_example :
    (is_governed Role.branch_admin ≡ true
      → within_ceiling Role.branch_admin Feature.attendance PermissionAction.export ≡ true
      → SetsCell 1 Role.branch_admin Feature.attendance PermissionAction.export switched true)
    × (is_governed Role.branch_admin ≡ false
        → set_role_cell 1 Role.branch_admin Feature.attendance PermissionAction.export true switched
          ≡ (err Code.permission_role_not_governed, switched))
    × (is_governed Role.branch_admin ≡ true
        → within_ceiling Role.branch_admin Feature.attendance PermissionAction.export ≡ false
        → set_role_cell 1 Role.branch_admin Feature.attendance PermissionAction.export true switched
          ≡ (err Code.permission_outside_ceiling, switched))
set_role_cell_lem_example =
    set_role_cell_lem office switched 1 Role.branch_admin Feature.attendance PermissionAction.export
      true tt
      (step office switched begin
        (sets_role 1 Role.branch_admin Feature.attendance PermissionAction.export false office))

abbrev shown_cells : Result (Role × List StaffCell) → List StaffCell
shown_cells (ok (role, cells)) = cells
shown_cells (err c) = []

abbrev manager_cells : List StaffCell
manager_cells = shown_cells (staff_matrix 1 switched).0

matrix_read : staff_matrix 1 switched ≡ (ok (Role.branch_admin, manager_cells), switched)
unfolding staff_matrix set_role_cell within_ceiling role_default
matrix_read = refl

staff_matrix_lem_example :
    (s : Staff) × (a : Account) × (find (λ s. s.id == 1) switched.staff ≡ some s)
    × (find (λ a. a.id == s.account_id) switched.accounts ≡ some a)
    × (a.role ≡ Role.branch_admin)
    × All (IsDecided switched a) manager_cells
staff_matrix_lem_example =
    staff_matrix_lem switched switched 1 Role.branch_admin manager_cells matrix_read
