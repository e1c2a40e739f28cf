-- ===== src/Members/Sessions.antt =====
-- The calls of member.service.ts on course enrolments and packages of PT sessions.
pub mod Usage
use sports_erp.Prelude.{
  ℕ, ◌+◌, Option, none, some, List, [], ◌∷◌, ◌++◌, String, Bool, true, false, not, ◌&&◌, ltb, ◌==◌,
  find, count, update, passes,
}
use sports_erp.Store.{
  Db, Action, pure, gets, require, require_row, transaction, ◌>>=◌, ◌>>◌, throw_if, modify,
}
use sports_erp.Store.Errors.{Code}
use sports_erp.Store.Branches.{Program}
use sports_erp.Store.Members.{Member, CourseEnrollment, EnrollmentStatus, PtSession, PtSessionLog}
use sports_erp.Integrity.{is_branch_terminated, lock_branch_for_share}

-- `assertBranchNotTerminatedForMember`
unfoldable pub assert_branch_not_terminated_for_member : ℕ → Action Member
assert_branch_not_terminated_for_member id = do
  member ← require_row (λ db. find (λ m. m.id == id) db.members) Code.member_not_found
  branch ← gets (lock_branch_for_share member.branch_id)
  throw_if (is_branch_terminated branch) Code.branch_terminated
  pure member

-- `assertProgramInBranch`
unfoldable pub assert_program_in_branch : ℕ → ℕ → Action (Unit {0})
assert_program_in_branch id branch = do
  program ← gets λ db. find (λ p. p.id == id) db.programs
  throw_if (not (passes (λ p. p.branch_id == branch) program)) Code.program_branch_mismatch

unfoldable pub create_enrollment_body : ℕ → ℕ → ℕ → ℕ → Option ℕ → Action ℕ
unfolding assert_branch_not_terminated_for_member assert_program_in_branch
create_enrollment_body new member_id program_id enrolled_at expires_at = do
  member ← assert_branch_not_terminated_for_member member_id
  assert_program_in_branch program_id member.branch_id
  modify λ db. record db {
    enrollments =
        db.enrollments
        ++ record {
          id = new;
          member_id = member_id;
          program_id = program_id;
          enrolled_at = enrolled_at;
          expires_at = expires_at;
          status = EnrollmentStatus.active;
        }
          ∷ [];
  }
  pure new

unfoldable pub create_enrollment : ℕ → ℕ → ℕ → ℕ → Option ℕ → Action ℕ
unfolding create_enrollment_body
create_enrollment new member program enrolled_at expires_at =
    transaction (create_enrollment_body new member program enrolled_at expires_at)

abbrev pub new_pt_session : ℕ → ℕ → ℕ → ℕ → ℕ → PtSession
new_pt_session new member program total purchased_at = record {
  id = new;
  member_id = member;
  program_id = program;
  total_sessions = total;
  used_sessions = 0;
  purchased_at = purchased_at;
}

-- PTSession_usage_range_ck, for a package that is new.
unfoldable pub create_pt_session_body : ℕ → ℕ → ℕ → ℕ → ℕ → Action ℕ
unfolding assert_branch_not_terminated_for_member assert_program_in_branch
create_pt_session_body new member_id program_id total purchased_at = do
  member ← assert_branch_not_terminated_for_member member_id
  assert_program_in_branch program_id member.branch_id
  throw_if (ltb total 1) Code.check_violation
  modify λ db. record db {
    pt_sessions = db.pt_sessions ++ new_pt_session new member_id program_id total purchased_at ∷ [];
  }
  pure new

unfoldable pub create_pt_session : ℕ → ℕ → ℕ → ℕ → ℕ → Action ℕ
unfolding create_pt_session_body
create_pt_session new member program total purchased_at =
    transaction (create_pt_session_body new member program total purchased_at)

abbrev pub has_left : ℕ → PtSession → Bool
has_left id s = s.id == id && ltb s.used_sessions s.total_sessions

abbrev pub use_one : PtSession → PtSession
use_one s = record s { used_sessions = s.used_sessions + 1 }

abbrev pub new_log : ℕ → ℕ → ℕ → Option String → PtSessionLog
new_log new session now remark = record {
  id = new;
  pt_session_id = session;
  used_at = now;
  note = remark;
}

unfoldable pub use_pt_session_body : ℕ → ℕ → ℕ → Option String → Action (Unit {0})
use_pt_session_body new now id remark = do
  require_row (λ db. find (λ s. s.id == id) db.pt_sessions) Code.pt_session_not_found
  changed ← gets λ db. count (has_left id) db.pt_sessions
  modify λ db. record db { pt_sessions = update (has_left id) use_one db.pt_sessions }
  throw_if (changed == 0) Code.pt_session_exhausted
  modify λ db. record db { pt_logs = db.pt_logs ++ new_log new id now remark ∷ [] }

unfoldable pub use_pt_session : ℕ → ℕ → ℕ → Option String → Action (Unit {0})
unfolding use_pt_session_body
use_pt_session new now id remark = transaction (use_pt_session_body new now id remark)
