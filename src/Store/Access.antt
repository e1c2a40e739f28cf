-- ===== src/Store/Access.antt =====
-- apps/api/prisma/schema.prisma: the permissions, with the features of
-- apps/api/src/common/permissions/permission-catalog.ts.
use sports_erp.Prelude.{ℕ, Bool, Option}
use sports_erp.Store.Staffing.{Role}

pub data PermissionAction : Type 0 where
  read create update delete export : PermissionAction

-- The keys of the catalog, and any other text that a request may name, but for the names that the
-- catalog's object inherits (as `constructor`), on which a lookup of the ceiling throws.
pub data Feature : Type 0 where
  member program reservation payment attendance leave worklog staff branch post : Feature
  facility instructor asset document support : Feature
  other : ℕ → Feature

pub record RolePermission : Type 0 where
  pub role : Role
  pub feature : Feature
  pub action : PermissionAction
  pub allowed : Bool
  pub updated_by : Option ℕ

pub record AccountPermission : Type 0 where
  pub account_id : ℕ
  pub feature : Feature
  pub action : PermissionAction
  pub allowed : Bool
  pub granted_by : ℕ
