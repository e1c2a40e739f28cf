-- ===== src/Access/Admin.antt =====
-- modules/permissions/permission-admin.service.ts: the head office changes what a role may do, and
-- the exceptions of one person. A transaction reads the cell and writes it with no lock: the
-- primary keys, which the writes check, let one of two rival calls win.
pub mod Cells
pub mod Matrix
pub mod History
use sports_erp.Prelude.{
  ℕ, Option, none, some, List, [], ◌∷◌, ◌++◌, map, Bool, true, false, not, ◌&&◌, ◌==◌,
  if◌then◌else◌, find, exists, update, or_else, remove,
}
use sports_erp.Store.{
  Db, Action, pure, throw, gets, require, require_row, transaction, ◌>>=◌, ◌>>◌, throw_if, modify,
  record_audit,
}
use sports_erp.Store.Errors.{Code, Result, ok, err}
use sports_erp.Store.Staffing.{Account, Role, Staff}
use sports_erp.Store.Access.{PermissionAction, Feature, RolePermission, AccountPermission}
use sports_erp.Store.Audit.{AuditEntity, AuditAction}
use sports_erp.Access.Catalog.{
  is_governed, features, ceiling, within_ceiling, role_eq, feature_eq, action_eq, role_index,
}
use sports_erp.Access.{is_role_cell, is_cell, role_default, override_of, PermissionCell}

abbrev pub new_cell : ℕ → Role → Feature → PermissionAction → RolePermission
new_cell actor role feature action = record {
  role = role;
  feature = feature;
  action = action;
  allowed = false;
  updated_by = some actor;
}

abbrev pub bool_eq : Bool → Bool → Bool
bool_eq true b = b
bool_eq false b = not b

-- A cell that is allowed has no row; the primary key is the role with the cell.
unfoldable pub write_role_cell : ℕ → Role → Feature → PermissionAction → Bool → Action (Unit {0})
write_role_cell actor role feature action true = do
  found ← gets λ db. exists (is_role_cell role feature action) db.role_permissions
  throw_if (not found) Code.row_missing
  modify λ db. record db {
    role_permissions = remove (is_role_cell role feature action) db.role_permissions;
  }
write_role_cell actor role feature action false = do
  clash ← gets λ db. exists (is_role_cell role feature action) db.role_permissions
  throw_if clash Code.unique_violation
  modify λ db. record db {
    role_permissions = db.role_permissions ++ new_cell actor role feature action ∷ [];
  }

unfoldable pub set_role_body : ℕ → Role → Feature → PermissionAction → Bool → Action (Unit {0})
unfolding write_role_cell
set_role_body actor role feature action allowed = do
  before ← gets λ db. role_default db.role_permissions role feature action
  if bool_eq before allowed
      then pure tt
      else (write_role_cell actor role feature action allowed
          >> record_audit actor AuditEntity.role (role_index role)
              (AuditAction.role_permission_changed feature action before allowed))

-- `setRoleCell`: a role that is no text of the enum is refused like one that is not governed.
unfoldable pub set_role_cell : ℕ → Role → Feature → PermissionAction → Bool → Action (Unit {0})
unfolding set_role_body
set_role_cell actor role feature action allowed = do
  throw_if (not (is_governed role)) Code.permission_role_not_governed
  throw_if (not (within_ceiling role feature action)) Code.permission_outside_ceiling
  transaction (set_role_body actor role feature action allowed)

abbrev pub is_account_cell : ℕ → Feature → PermissionAction → AccountPermission → Bool
is_account_cell account feature action p = p.account_id == account && is_cell feature action p

abbrev new_exception : ℕ → ℕ → Feature → PermissionAction → Bool → AccountPermission
new_exception actor account feature action allowed = record {
  account_id = account;
  feature = feature;
  action = action;
  allowed = allowed;
  granted_by = actor;
}

abbrev grant : ℕ → Bool → AccountPermission → AccountPermission
grant actor allowed p = record p { allowed = allowed; granted_by = actor }

-- The row of an exception is deleted, changed or made.
unfoldable pub write_exception :
    ℕ → ℕ → Feature → PermissionAction → Option Bool → Action (Unit {0})
write_exception actor account feature action none = do
  found ← gets λ db. exists (is_account_cell account feature action) db.account_permissions
  throw_if (not found) Code.row_missing
  modify λ db. record db {
    account_permissions = remove (is_account_cell account feature action) db.account_permissions;
  }
write_exception actor account feature action (some allowed) = do
  found ← gets λ db. exists (is_account_cell account feature action) db.account_permissions
  modify λ db. record db {
    account_permissions =
        if found
        then update (is_account_cell account feature action) (grant actor allowed)
            db.account_permissions
        else db.account_permissions ++ new_exception actor account feature action allowed ∷ [];
  }

abbrev override_eq : Option Bool → Option Bool → Bool
override_eq none none = true
override_eq (some a) (some b) = bool_eq a b
override_eq _ _ = false

unfoldable pub exception : List AccountPermission → ℕ → Feature → PermissionAction → Option Bool
exception rows account feature action =
    override_of (find (is_account_cell account feature action) rows)

unfoldable pub set_staff_body :
    ℕ → ℕ → ℕ → Feature → PermissionAction → Option Bool → Action (Unit {0})
unfolding write_exception exception
set_staff_body actor staff account feature action next = do
  before ← gets λ db. exception db.account_permissions account feature action
  if override_eq before next
      then pure tt
      else (write_exception actor account feature action next
          >> record_audit actor AuditEntity.staff staff
              (AuditAction.permission_changed feature action before next))

-- `setStaffCell`: the mode DEFAULT is no exception.
unfoldable pub set_staff_cell : ℕ → ℕ → Feature → PermissionAction → Option Bool → Action (Unit {0})
unfolding set_staff_body
set_staff_cell actor staff_id feature action next = do
  staff ← require_row (λ db. find (λ s. s.id == staff_id) db.staff) Code.staff_not_found
  account ← require_row (λ db. find (λ a. a.id == staff.account_id) db.accounts) Code.row_missing
  throw_if (not (is_governed account.role)) Code.permission_role_not_governed
  throw_if (not (within_ceiling account.role feature action)) Code.permission_outside_ceiling
  transaction (set_staff_body actor staff_id account.id feature action next)

abbrev pub role_cell : List RolePermission → Role → Feature → PermissionAction → PermissionCell
role_cell rows role feature action = record {
  feature = feature;
  action = action;
  allowed = role_default rows role feature action;
}

-- The row of `roleMatrix` of one role: the cells of its ceiling (`cellsOf`).
unfoldable pub role_row : List RolePermission → Role → List Feature → List PermissionCell
role_row rows role [] = []
role_row rows role (f ∷ fs) = map (role_cell rows role f) (ceiling f role) ++ role_row rows role fs

pub record StaffCell : Type 0 where
  pub feature : Feature
  pub action : PermissionAction
  pub role_default : Bool
  pub override : Option Bool
  pub effective : Bool

abbrev pub staff_cell : List AccountPermission → ℕ → PermissionCell → StaffCell
staff_cell rows account c = record {
  feature = c.feature;
  action = c.action;
  role_default = c.allowed;
  override = exception rows account c.feature c.action;
  effective = or_else (exception rows account c.feature c.action) c.allowed;
}

-- `staffMatrix`: the account's role, and its cells.
unfoldable pub staff_matrix : ℕ → Action (Role × List StaffCell)
unfolding role_row exception
staff_matrix staff_id = do
  staff ← require_row (λ db. find (λ s. s.id == staff_id) db.staff) Code.staff_not_found
  account ← require_row (λ db. find (λ a. a.id == staff.account_id) db.accounts) Code.row_missing
  gets λ db. (
    account.role,
    if is_governed account.role
        then map (staff_cell db.account_permissions account.id)
            (role_row db.role_permissions account.role features)
        else [],
  )
