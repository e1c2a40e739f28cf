-- ===== src/Store/Staffing.antt =====
-- apps/api/prisma/schema.prisma: accounts, staff and attendance.
use sports_erp.Prelude.{ℕ, Option, Bool, List, String}
use sports_erp.Store.Branches.{Text}

pub data Role : Type 0 where
  super_admin branch_admin staff member : Role

pub record Account : Type 0 where
  pub id : ℕ
  pub email : ℕ
  pub password_hash : ℕ
  pub role : Role
  pub name : String
  pub is_active : Bool
  pub must_change_password : Bool

pub record RefreshToken : Type 0 where
  pub id : ℕ
  pub account_id : ℕ
  pub token_hash : ℕ
  pub expires_at : ℕ
  pub revoked_at : Option ℕ

pub data StaffStatus : Type 0 where
  active on_leave resigned : StaffStatus

pub record Staff : Type 0 where
  pub id : ℕ
  pub account_id : ℕ
  pub branch_id : ℕ
  pub staff_code : Text
  pub name : String
  pub employment_type : Option Text
  pub hire_date : ℕ
  pub resign_date : Option ℕ
  pub status : StaffStatus
  pub off_days : List ℕ

pub record StaffAssignment : Type 0 where
  pub id : ℕ
  pub staff_id : ℕ
  pub branch_id : ℕ
  pub start_date : ℕ
  pub end_date : Option ℕ
  pub assigned_by : ℕ
  pub note : Option String

pub record Instructor : Type 0 where
  pub id : ℕ
  pub branch_id : ℕ
  pub staff_id : Option ℕ
  pub name : String
  pub is_active : Bool

pub data AttendanceStatus : Type 0 where
  normal late early_leave absent on_leave : AttendanceStatus

pub record AttendanceRecord : Type 0 where
  pub id : ℕ
  pub staff_id : ℕ
  pub branch_id : ℕ
  pub date : ℕ
  pub check_in_at : Option ℕ
  pub check_out_at : Option ℕ
  pub status : AttendanceStatus
  pub note : Option String

pub data LeaveType : Type 0 where
  annual sick family_event other : LeaveType

pub data LeaveStatus : Type 0 where
  pending approved rejected : LeaveStatus

pub record LeaveRequest : Type 0 where
  pub id : ℕ
  pub staff_id : ℕ
  pub type : LeaveType
  pub start_date : ℕ
  pub end_date : ℕ
  pub days : ℕ
  pub reason : Option String
  pub status : LeaveStatus
  pub approver_id : Option ℕ
  pub reviewed_at : Option ℕ

pub record LeaveBalance : Type 0 where
  pub staff_id : ℕ
  pub year : ℕ
  pub total_days : ℕ
  pub used_days : ℕ

pub record WorkLog : Type 0 where
  pub id : ℕ
  pub staff_id : ℕ
  pub date : ℕ
  pub content : String
  pub created_at : ℕ

pub data DocumentCategory : Type 0 where
  hr_record manual other : DocumentCategory

pub record Document : Type 0 where
  pub id : ℕ
  pub category : DocumentCategory
  pub branch_id : Option ℕ
  pub related_staff_id : Option ℕ
  pub retention_until : Option ℕ
  pub deleted_at : Option ℕ
