-- ===== src/Store.antt =====
-- The database of apps/api/prisma/schema.prisma as the services see it: a record of tables, and the
-- calls that read and write it. Identifiers, emails, storage paths and hashes are only compared for
-- equality, so they are numbers; calendar dates are day numbers and instants milliseconds (`Dates`).
-- Time and the identifiers that the database generates are arguments of the calls.
pub mod Errors
pub mod Branches
pub mod Members
pub mod Staffing
pub mod Access
pub mod Operations
pub mod Audit
pub mod Steps
use sports_erp.Prelude.{ℕ, Option, none, some, List, [], ◌∷◌, ◌++◌, Bool, if◌then◌else◌}
use Errors.{Code, Result, ok, err}
use Branches.{Branch, ContractRound, ContractFile, CodeSequence, Program, ScheduleSlot}
use Members.{
  Member, MemberLinkAttempt, CourseEnrollment, PtSession, PtSessionLog, Reservation, Payment,
}
use Staffing.{
  Account, RefreshToken, Staff, StaffAssignment, Instructor, AttendanceRecord, LeaveRequest,
  LeaveBalance, WorkLog, Document,
}
use Access.{RolePermission, AccountPermission}
use Operations.{Facility, Asset, Post, Attachment, SupportRequest, StaffProfileChangeRequest}
use Audit.{AuditEntity, AuditAction, AuditLog}

pub record Db : Type 0 where
  pub branches : List Branch
  pub rounds : List ContractRound
  pub files : List ContractFile
  pub sequences : List CodeSequence
  pub programs : List Program
  pub slots : List ScheduleSlot
  pub members : List Member
  pub link_attempts : List MemberLinkAttempt
  pub enrollments : List CourseEnrollment
  pub pt_sessions : List PtSession
  pub pt_logs : List PtSessionLog
  pub reservations : List Reservation
  pub payments : List Payment
  pub accounts : List Account
  pub refresh_tokens : List RefreshToken
  pub staff : List Staff
  pub assignments : List StaffAssignment
  pub instructors : List Instructor
  pub attendance : List AttendanceRecord
  pub leave_requests : List LeaveRequest
  pub leave_balances : List LeaveBalance
  pub work_logs : List WorkLog
  pub documents : List Document
  pub role_permissions : List RolePermission
  pub account_permissions : List AccountPermission
  pub facilities : List Facility
  pub assets : List Asset
  pub posts : List Post
  pub attachments : List Attachment
  pub support_requests : List SupportRequest
  pub change_requests : List StaffProfileChangeRequest
  pub audit : List AuditLog

abbrev pub empty_db : Db
empty_db = record {
  branches = [];
  rounds = [];
  files = [];
  sequences = [];
  programs = [];
  slots = [];
  members = [];
  link_attempts = [];
  enrollments = [];
  pt_sessions = [];
  pt_logs = [];
  reservations = [];
  payments = [];
  accounts = [];
  refresh_tokens = [];
  staff = [];
  assignments = [];
  instructors = [];
  attendance = [];
  leave_requests = [];
  leave_balances = [];
  work_logs = [];
  documents = [];
  role_permissions = [];
  account_permissions = [];
  facilities = [];
  assets = [];
  posts = [];
  attachments = [];
  support_requests = [];
  change_requests = [];
  audit = [];
}

-- A call on the database: what was written before an exception stays written, unless a transaction
-- is around it.
abbrev pub Action : Type 0 → Type 0
Action A = Db → Result A × Db

module _ {A : Type 0} where
  abbrev pub pure : A → Action A
  pure a db = (ok a, db)

  abbrev pub throw : Code → Action A
  throw c db = (err c, db)

  abbrev pub gets : (Db → A) → Action A
  gets f db = (ok (f db), db)

  -- The value, or an exception if there is none.
  abbrev pub require : Option A → Code → Action A
  require none c = throw c
  require (some a) c = pure a

  -- The first row of a query, or an exception.
  abbrev pub require_row : (Db → Option A) → Code → Action A
  require_row f c db = require (f db) c db

  -- `$transaction`: an exception undoes every write.
  abbrev pub transaction : Action A → Action A
  transaction m db = let (r, db') = m db in elim r [ ok a ↦ (ok a, db') | err c ↦ (err c, db) ]

infixl 5 ◌>>=◌ ◌>>◌
abbrev pub ◌>>=◌ : {A B : Type 0} → Action A → (A → Action B) → Action B
◌>>=◌ m f db = let (r, db') = m db in elim r [ ok a ↦ f a db' | err c ↦ (err c, db') ]

abbrev pub ◌>>◌ : {A B : Type 0} → Action A → Action B → Action B
m >> k = m >>= λ _. k

abbrev pub throw_if : Bool → Code → Action (Unit {0})
throw_if b c db = (if b then err c else ok tt, db)

abbrev pub modify : (Db → Db) → Action (Unit {0})
modify f db = (ok tt, f db)

-- `recordAudit`.
abbrev pub record_audit : ℕ → AuditEntity → ℕ → AuditAction → Action (Unit {0})
record_audit actor entity id action = modify λ db. record db {
  audit =
      db.audit
      ++ record { actor_id = actor; entity = entity; entity_id = id; action = action } ∷ [];
}
