-- ===== src/Store/Members.antt =====
-- apps/api/prisma/schema.prisma: members, what they use, and the reservations and payments.
use sports_erp.Prelude.{ℕ, Option, Bool, String}
use sports_erp.Store.Branches.{Text}

pub data MemberStatus : Type 0 where
  active dormant withdrawn : MemberStatus

pub record Member : Type 0 where
  pub id : ℕ
  pub account_id : Option ℕ
  pub branch_id : ℕ
  pub assigned_staff_id : Option ℕ
  pub member_no : Text
  pub name : String
  pub phone : Option Text
  pub birth_date : Option ℕ
  pub gender : Option String
  pub joined_at : ℕ
  pub status : MemberStatus
  pub guardian_consent : Bool
  pub memo : Option String

pub record MemberLinkAttempt : Type 0 where
  pub member_no : Text
  pub attempted_at : ℕ

pub data EnrollmentStatus : Type 0 where
  active completed cancelled : EnrollmentStatus

pub record CourseEnrollment : Type 0 where
  pub id : ℕ
  pub member_id : ℕ
  pub program_id : ℕ
  pub enrolled_at : ℕ
  pub expires_at : Option ℕ
  pub status : EnrollmentStatus

pub record PtSession : Type 0 where
  pub id : ℕ
  pub member_id : ℕ
  pub program_id : ℕ
  pub total_sessions : ℕ
  pub used_sessions : ℕ
  pub purchased_at : ℕ

pub record PtSessionLog : Type 0 where
  pub id : ℕ
  pub pt_session_id : ℕ
  pub used_at : ℕ
  pub note : Option String

pub data ReservationStatus : Type 0 where
  requested confirmed cancelled completed no_show : ReservationStatus

pub record Reservation : Type 0 where
  pub id : ℕ
  pub member_id : ℕ
  pub schedule_slot_id : ℕ
  pub status : ReservationStatus
  pub created_at : ℕ
  pub cancelled_at : Option ℕ
  pub cancel_reason : Option String

pub data PaymentStatus : Type 0 where
  pending approved failed refunded : PaymentStatus

pub record Payment : Type 0 where
  pub id : ℕ
  pub reservation_id : ℕ
  pub member_id : ℕ
  pub amount : ℕ
  pub supply_amount : ℕ
  pub vat : ℕ
  pub status : PaymentStatus
  pub mock_approval_no : Option ℕ
  pub approved_at : Option ℕ
  pub refunded_at : Option ℕ
  pub created_at : ℕ
