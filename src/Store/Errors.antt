-- ===== src/Store/Errors.antt =====
-- common/exceptions/app.exception.ts: an exception carries a code; the message and the HTTP status
-- that go with it are left out. Three codes are no `AppException`: the unique-index violation of the
-- database (Prisma's P2002), a failed CHECK constraint, and the failure of an `OrThrow` query or of an update by an id that no
-- row has (P2025).
use mathlib.Core.Bool.{Bool, true, false}

pub data Code : Type 0 where
  unique_violation check_violation row_missing : Code
  validation_error branch_not_found branch_terminated branch_code_taken : Code
  slot_not_found not_reservable program_not_running member_branch_mismatch slot_already_started :
      Code
  already_reserved slot_full reservation_not_found reservation_not_cancellable : Code
  check_in_not_today reservation_not_confirmed payment_not_pending : Code
  link_attempts_exceeded member_link_mismatch member_already_linked member_not_found : Code
  staff_branch_mismatch guardian_consent_required program_branch_mismatch : Code
  pt_session_not_found pt_session_exhausted email_already_exists : Code
  resign_by_branch_admin staff_already_resigned : Code
  staff_not_found already_checked_in not_checked_in already_checked_out : Code
  future_attendance check_in_required invalid_time_range attendance_scope_violation : Code
  attendance_conflict invalid_date_range leave_request_overlap leave_request_not_found : Code
  leave_request_already_reviewed : Code
  termination_agreement_required invalid_contract_period contract_round_changed : Code
  contract_round_missing attachment_duplicate attachment_not_uploaded contract_file_not_found : Code
  contract_file_already_archived contract_file_not_purgeable contract_file_purged : Code
  invalid_credentials account_inactive invalid_refresh_token demo_account_locked : Code
  account_not_found current_password_mismatch : Code
  unauthorized forbidden password_change_required permission_denied branch_scope_violation : Code
  member_scope_violation staff_scope_violation program_scope_violation : Code
  facility_scope_violation instructor_scope_violation asset_scope_violation : Code
  document_scope_violation reservation_scope_violation : Code
  program_not_found facility_not_found instructor_not_found asset_not_found : Code
  document_not_found change_request_not_found support_request_not_found : Code
  permission_role_not_governed permission_outside_ceiling : Code
  response_required invalid_status_transition : Code
  post_content_empty post_facility_not_allowed post_not_found branch_required : Code
  facility_branch_mismatch instructor_branch_mismatch program_capacity_required : Code
  slot_not_applicable invalid_capacity invalid_quantity : Code
  attachment_type_not_allowed attachment_too_large attachment_limit attachment_path_mismatch : Code
  attachment_not_found post_scope_violation : Code

pub data Result (A : Type 0) : Type 0 where
  ok : A → Result A
  err : Code → Result A

abbrev pub is_ok : {A : Type 0} → Result A → Bool
is_ok (ok a) = true
is_ok (err c) = false
