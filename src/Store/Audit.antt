-- ===== src/Store/Audit.antt =====
-- apps/api/src/prisma/audit.ts: the rows of the audit log. `before` and `after` are JSON objects
-- there; here each action has a constructor with the values that the code puts in.
use sports_erp.Prelude.{ℕ, Bool, Option, String}
use sports_erp.Store.Branches.{ContractStatus, ContractFileKind}
use sports_erp.Store.Members.{MemberStatus}
use sports_erp.Store.Operations.{AssetStatus}
use sports_erp.Store.Access.{Feature, PermissionAction}
use sports_erp.Store.Staffing.{AttendanceStatus, Role, StaffStatus}

pub data AuditEntity : Type 0 where
  staff member asset role branch : AuditEntity

-- The state of a day's attendance: its status and the two times.
pub record Snapshot : Type 0 where
  pub status : AttendanceStatus
  pub check_in_at : Option ℕ
  pub check_out_at : Option ℕ

pub record ContractTerms : Type 0 where
  pub partner : ℕ
  pub start_at : ℕ
  pub end_at : ℕ

-- The terms that a correction changes: as they were, or as they are.
pub record TermsChange : Type 0 where
  pub partner : Option ℕ
  pub start_at : Option ℕ
  pub end_at : Option ℕ

pub data AuditAction : Type 0 where
  -- the status before and after, and the branch
  member_status_changed : MemberStatus → MemberStatus → ℕ → AuditAction
  phone_viewed : ℕ → AuditAction
  -- the date, the day before and after, and the branch
  attendance_corrected : ℕ → Option Snapshot → Snapshot → ℕ → AuditAction
  branch_created : ℕ → ContractTerms → AuditAction
  -- the status before and after, and the round
  contract_status_changed : ContractStatus → ContractStatus → ℕ → AuditAction
  -- the round, its terms and the status before, and the new round and its terms
  contract_renewed : ℕ → ContractTerms → ContractStatus → ℕ → ContractTerms → AuditAction
  -- the round, and what changes of its terms, before and after
  contract_corrected : ℕ → TermsChange → TermsChange → AuditAction
  contract_file_uploaded contract_file_replaced : ℕ → ContractFileKind → String → AuditAction
  contract_file_archived contract_file_purged contract_file_viewed :
      ℕ → ContractFileKind → String → AuditAction
  -- the status and branch before, the last day, and how many members were released
  resigned : StaffStatus → ℕ → ℕ → ℕ → AuditAction
  -- the branch before and after, the note, and how many members were released
  assigned : ℕ → ℕ → Option String → ℕ → AuditAction
  role_changed : Role → Role → AuditAction
  -- the cell, and whether it was allowed and is
  role_permission_changed : Feature → PermissionAction → Bool → Bool → AuditAction
  -- the cell, and the exception before and after
  permission_changed : Feature → PermissionAction → Option Bool → Option Bool → AuditAction
  -- the status before and after, and the branch
  asset_status_changed : AssetStatus → AssetStatus → ℕ → AuditAction
  -- the branch, the last day, and how many members were released
  assignment_ended : ℕ → ℕ → ℕ → AuditAction

pub record AuditLog : Type 0 where
  pub actor_id : ℕ
  pub entity : AuditEntity
  pub entity_id : ℕ
  pub action : AuditAction
