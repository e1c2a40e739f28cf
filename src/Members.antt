-- ===== src/Members.antt =====
-- modules/members/member.service.ts: registration, linking with an account, profile and status. The
-- bcrypt hash of a password is an argument.
pub mod Minors
pub mod Sessions
pub mod Linking
pub mod Status
mod Tests
use sports_erp.Prelude.{
  ℕ, ◌+◌, Option, none, some, List, [], ◌∷◌, ◌++◌, String, Bool, true, false, not, ◌&&◌, ltb, leb,
  ◌==◌, if◌then◌else◌, find, count, select, update, exists, is_set, is_id, passes, or_else,
}
use sports_erp.Store.{
  Db, Action, pure, throw, gets, require, require_row, transaction, ◌>>=◌, ◌>>◌, throw_if, modify,
  record_audit,
}
use sports_erp.Store.Errors.{Code, Result, ok, err}
use sports_erp.Store.Branches.{Text, Branch, CodeSequenceKind}
use sports_erp.Store.Members.{Member, MemberStatus, MemberLinkAttempt}
use sports_erp.Store.Staffing.{Account, Role}
use sports_erp.Store.Audit.{AuditEntity, AuditAction}
use sports_erp.Dates.Civil.{ymd_of_day}
use sports_erp.Dates.Kst.{kst_day, to_kst_date_string}
use sports_erp.Integrity.{is_terminated, lock_branch_for_share}
use sports_erp.Integrity.Codes.{text_eq, allocate_branch_code}
use sports_erp.Staffing.{is_active_email, insert_account, as_email_taken, map_err}
use sports_erp.Staffing.Moves.{update_account}
use Minors.{is_minor}

-- The time of the call, the account that makes it, and the identifiers that the database generates.
pub record Env : Type 0 where
  pub now : ℕ
  pub actor : ℕ
  pub account_id : ℕ
  pub member_id : ℕ

-- LINK_MAX_ATTEMPTS_PER_HOUR
abbrev pub link_max_attempts_per_hour : ℕ
link_max_attempts_per_hour = 5

-- LINK_WINDOW_MS
abbrev pub link_window_ms : ℕ
link_window_ms = 3600000

pub record ProfileInput : Type 0 where
  pub name : String
  pub phone : Option Text
  pub birth_date : Option ℕ
  pub gender : Option String
  pub assigned_staff_id : Option ℕ
  pub guardian_consent : Option Bool
  pub memo : Option String

abbrev pub is_withdrawn : MemberStatus → Bool
is_withdrawn MemberStatus.withdrawn = true
is_withdrawn _ = false

abbrev pub status_eq : MemberStatus → MemberStatus → Bool
status_eq MemberStatus.active MemberStatus.active = true
status_eq MemberStatus.dormant MemberStatus.dormant = true
status_eq MemberStatus.withdrawn MemberStatus.withdrawn = true
status_eq _ _ = false

-- `assertStaffInBranch`
unfoldable pub assert_staff_in_branch : ℕ → ℕ → Action (Unit {0})
assert_staff_in_branch staff branch = do
  row ← gets λ db. find (λ s. s.id == staff) db.staff
  throw_if (not (passes (λ s. s.branch_id == branch) row)) Code.staff_branch_mismatch

unfoldable pub assert_staff : Option ℕ → ℕ → Action (Unit {0})
unfolding assert_staff_in_branch
assert_staff none branch = pure tt
assert_staff (some staff) branch = assert_staff_in_branch staff branch

-- `assertCanRegister`
unfoldable pub assert_can_register : ℕ → ℕ → ProfileInput → Action Branch
unfolding assert_staff
assert_can_register now branch_id i = do
  branch ← require_row (lock_branch_for_share branch_id) Code.branch_not_found
  throw_if (is_terminated branch.contract_status) Code.branch_terminated
  assert_staff i.assigned_staff_id branch_id
  throw_if
      (passes (λ b. is_minor (ymd_of_day b) (to_kst_date_string now)) i.birth_date
        && not (or_else i.guardian_consent false))
      Code.guardian_consent_required
  pure branch

-- `memberData`, with the number that is allocated.
abbrev pub member_data : Env → ℕ → Option ℕ → Text → ProfileInput → Member
member_data e branch account number i = record {
  id = e.member_id;
  account_id = account;
  branch_id = branch;
  assigned_staff_id = i.assigned_staff_id;
  member_no = number;
  name = i.name;
  phone = i.phone;
  birth_date = i.birth_date;
  gender = i.gender;
  joined_at = kst_day e.now;
  status = MemberStatus.active;
  guardian_consent = or_else i.guardian_consent false;
  memo = i.memo;
}

abbrev pub has_account : Option ℕ → Member → Bool
has_account none m = false
has_account (some account) m = is_id m.account_id account

-- Member_memberNo_key and Member_accountId_key
unfoldable pub insert_member : Member → Action (Unit {0})
insert_member m = do
  taken ← gets λ db. exists (λ n. text_eq n.member_no m.member_no) db.members
  throw_if taken Code.unique_violation
  linked ← gets λ db. exists (has_account m.account_id) db.members
  throw_if linked Code.unique_violation
  modify λ db. record db { members = db.members ++ m ∷ [] }

unfoldable pub create_body : Env → ℕ → ProfileInput → Action ℕ
unfolding assert_can_register insert_member
create_body e branch_id i = do
  branch ← assert_can_register e.now branch_id i
  number ← allocate_branch_code e.now branch CodeSequenceKind.member
  insert_member (member_data e branch_id none number i)
  pure e.member_id

unfoldable pub create : Env → ℕ → ProfileInput → Action ℕ
unfolding create_body
create e branch_id i = transaction (create_body e branch_id i)

-- `duplicatePhoneWarnings`: whether another active member of the branch has the phone number.
unfoldable pub warns_of_phone : ℕ → Option Text → ℕ → Db → Bool
warns_of_phone branch none id db = false
warns_of_phone branch (some phone) id db = ltb 0 (
    count
      (λ m.
        m.branch_id == branch
        && passes (text_eq phone) m.phone
        && status_eq m.status MemberStatus.active
        && not (m.id == id))
      db.members)

abbrev pub member_account : Env → ℕ → ℕ → String → Account
member_account e email hash name = record {
  id = e.account_id;
  email = email;
  password_hash = hash;
  role = Role.member;
  name = name;
  is_active = true;
  must_change_password = false;
}

-- `assertEmailAvailable`
unfoldable pub assert_email_available : ℕ → Action (Unit {0})
assert_email_available email = do
  taken ← gets λ db. exists (is_active_email email) db.accounts
  throw_if taken Code.email_already_exists

-- `withEmailConflict`
abbrev pub with_email_conflict : {A : Type 0} → Action A → Action A
with_email_conflict m db = let (r, db') = m db in (map_err as_email_taken r, db')

unfoldable pub register_body : Env → ℕ → ℕ → ℕ → ProfileInput → Action ℕ
unfolding assert_can_register insert_account insert_member
register_body e branch_id email hash i = do
  branch ← assert_can_register e.now branch_id i
  insert_account (member_account e email hash i.name)
  number ← allocate_branch_code e.now branch CodeSequenceKind.member
  insert_member (member_data e branch_id (some e.account_id) number i)
  pure e.member_id

unfoldable pub register : Env → ℕ → ℕ → ℕ → ProfileInput → Action ℕ
unfolding assert_email_available register_body
register e branch_id email hash i =
    assert_email_available email
    >> with_email_conflict (transaction (register_body e branch_id email hash i))

-- `digitsOf`: 48 to 57 are the digits.
abbrev pub digits : Text → Text
digits [] = []
digits (c ∷ t) = if leb 48 c && leb c 57 then c ∷ digits t else digits t

abbrev pub digits_of : Option Text → Text
digits_of none = []
digits_of (some t) = digits t

abbrev pub is_empty : Text → Bool
is_empty [] = true
is_empty (c ∷ t) = false

-- Whether the member's phone number has digits, and those that are given.
abbrev pub matches : Text → Member → Bool
matches phone m = not (is_empty (digits_of m.phone)) && text_eq (digits_of m.phone) (digits phone)

-- A failed attempt of the last hour.
abbrev pub is_recent : Text → ℕ → MemberLinkAttempt → Bool
is_recent number now a = text_eq a.member_no number && ltb now (a.attempted_at + link_window_ms)

abbrev pub is_linkable : Text → Member → Bool
is_linkable number m = text_eq m.member_no number && not (is_withdrawn m.status)

abbrev pub link_row : ℕ → Member → Member
link_row account m = record m { account_id = some account }

abbrev pub is_unlinked : ℕ → Member → Bool
is_unlinked id m = m.id == id && not (is_set m.account_id)

unfoldable pub link_body : Env → ℕ → ℕ → Member → Action ℕ
unfolding insert_account
link_body e email hash m = do
  insert_account (member_account e email hash m.name)
  changed ← gets λ db. count (is_unlinked m.id) db.members
  modify λ db. record db { members = update (is_unlinked m.id) (link_row e.account_id) db.members }
  throw_if (changed == 0) Code.member_already_linked
  pure e.account_id

-- A match, and a mismatch, which is recorded outside any transaction.
unfoldable pub link_found : Env → Text → Text → ℕ → ℕ → Option Member → Action ℕ
unfolding assert_email_available link_body
link_found e number phone email hash none =
    modify (λ db. record db {
      link_attempts = db.link_attempts ++ record { member_no = number; attempted_at = e.now } ∷ [];
    })
    >> throw Code.member_link_mismatch
link_found e number phone email hash (some m) = do
  throw_if (is_set m.account_id) Code.member_already_linked
  assert_email_available email
  with_email_conflict (transaction (link_body e email hash m))

abbrev pub matching : Text → Option Member → Option Member
matching phone none = none
matching phone (some m) = if matches phone m then some m else none

-- The check of `link` on the number of attempts.
unfoldable pub check_attempts : ℕ → Text → Action (Unit {0})
check_attempts now number = do
  recent ← gets λ db. count (is_recent number now) db.link_attempts
  throw_if (leb link_max_attempts_per_hour recent) Code.link_attempts_exceeded

-- The rest of `link`, for the member that the query has found: no lock and no transaction holds it
-- together with the check.
abbrev pub link_rest : Env → Text → Text → ℕ → ℕ → Option Member → Action ℕ
link_rest e number phone email hash found =
    link_found e number phone email hash (matching phone found)

-- `link` where nothing comes between.
unfoldable pub link : Env → Text → Text → ℕ → ℕ → Action ℕ
unfolding check_attempts link_found
link e number phone email hash = do
  check_attempts e.now number
  found ← gets λ db. find (is_linkable number) db.members
  link_rest e number phone email hash found

-- What `update` is called with; no value leaves a field, and the empty staff id takes it away.
pub record ProfileUpdate : Type 0 where
  pub name : Option String
  pub phone : Option Text
  pub birth_date : Option ℕ
  pub gender : Option String
  pub memo : Option String
  pub assigned_staff_id : Option (Option ℕ)

abbrev pub given : {A : Type 0} → Option A → Option A → Option A
given none old = old
given (some a) old = some a

abbrev pub update_row : ProfileUpdate → Member → Member
update_row u m = record m {
  name = or_else u.name m.name;
  phone = given u.phone m.phone;
  birth_date = given u.birth_date m.birth_date;
  gender = given u.gender m.gender;
  memo = given u.memo m.memo;
  assigned_staff_id = or_else u.assigned_staff_id m.assigned_staff_id;
}

unfoldable pub update_profile : ℕ → ProfileUpdate → Action (Unit {0})
unfolding assert_staff
update_profile id u = do
  m ← require_row (λ db. find (λ m. m.id == id) db.members) Code.member_not_found
  assert_staff (or_else u.assigned_staff_id none) m.branch_id
  modify λ db. record db { members = update (λ m. m.id == id) (update_row u) db.members }

abbrev pub set_active : Bool → Account → Account
set_active b a = record a { is_active = b }

-- An update of an account that could make two active ones share an email.
unfoldable pub set_account_active : ℕ → Bool → Action (Unit {0})
set_account_active id b = do
  account ← require_row (λ db. find (λ a. a.id == id) db.accounts) Code.row_missing
  clash ← gets λ db. exists (λ a. is_active_email account.email a && not (a.id == id)) db.accounts
  throw_if (b && clash) Code.unique_violation
  modify (update_account id (set_active b))

unfoldable pub set_account : Option ℕ → Bool → Action (Unit {0})
unfolding set_account_active
set_account none b = pure tt
set_account (some id) b = set_account_active id b

unfoldable pub update_status_body : Env → ℕ → MemberStatus → Member → Action (Unit {0})
unfolding set_account
update_status_body e id status m = do
  modify λ db. record db {
    members = update (λ m. m.id == id) (λ m. record m { status = status }) db.members;
  }
  set_account m.account_id (not (is_withdrawn status))
  if status_eq m.status status
      then pure tt
      else record_audit e.actor AuditEntity.member id
          (AuditAction.member_status_changed m.status status m.branch_id)

unfoldable pub update_status : Env → ℕ → MemberStatus → Action (Unit {0})
unfolding update_status_body
update_status e id status = do
  m ← require_row (λ db. find (λ m. m.id == id) db.members) Code.member_not_found
  transaction (update_status_body e id status m)
