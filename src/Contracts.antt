-- ===== src/Contracts.antt =====
-- modules/branches: the consignment contracts of the branches. branch.service.ts changes their state
-- under an exclusive lock of the branch's row, in a transaction, so each call is one step;
-- contract-file.service.ts keeps the files of a round. The file argument of a call is one that
-- `verify` has let pass: what is stored under a path is the business of the storage service.
pub mod Retention
pub mod Changes
pub mod Files
pub mod View
pub mod Lock
pub mod Frames
pub mod Placement
pub mod Ending
mod Tests
use sports_erp.Prelude.{
  ℕ, ◌+◌, ◌*◌, Option, none, some, List, [], ◌∷◌, ◌++◌, String, Bool, true, false, not, ◌&&◌, ◌||◌,
  ltb, leb, ◌==◌, if◌then◌else◌, find, count, select, update, exists, is_set, or_else, length,
}
use sports_erp.Store.{
  Db, Action, pure, throw, gets, require, require_row, transaction, ◌>>=◌, ◌>>◌, throw_if, modify,
  record_audit,
}
use sports_erp.Store.Errors.{Code, Result, ok, err}
use sports_erp.Store.Branches.{
  Text, ContractStatus, Branch, ContractRound, ContractFileKind, ContractFile,
}
use sports_erp.Store.Audit.{AuditEntity, AuditAction, ContractTerms, TermsChange}
use sports_erp.Dates.Kst.{day_ms, kst_day, to_kst_date_string}
use sports_erp.Integrity.{is_terminated}
use sports_erp.Integrity.Codes.{text_eq}
use Retention.{RetentionState, retention_state}

-- The time of the call, the account that makes it, and the identifiers that the database generates.
pub record Env : Type 0 where
  pub now : ℕ
  pub actor : ℕ
  pub branch_id : ℕ
  pub round_id : ℕ
  pub file_id : ℕ

-- `FileRef`
pub record FileRef : Type 0 where
  pub path : ℕ
  pub file_name : String

abbrev pub file_kind_eq : ContractFileKind → ContractFileKind → Bool
file_kind_eq ContractFileKind.contract ContractFileKind.contract = true
file_kind_eq ContractFileKind.termination_agreement ContractFileKind.termination_agreement = true
file_kind_eq _ _ = false

abbrev pub status_eq : ContractStatus → ContractStatus → Bool
status_eq ContractStatus.active ContractStatus.active = true
status_eq ContractStatus.renewal_due ContractStatus.renewal_due = true
status_eq ContractStatus.expired ContractStatus.expired = true
status_eq ContractStatus.terminated ContractStatus.terminated = true
status_eq _ _ = false

-- The branch's round with the highest number, of the rows `r ∷ …` given that of the rest.
abbrev pub later_of : ContractRound → Option ContractRound → Option ContractRound
later_of r none = some r
later_of r (some s) = if ltb s.round_no r.round_no then some r else some s

-- `findFirst` with `orderBy: { roundNo: 'desc' }`
abbrev pub current_round : ℕ → List ContractRound → Option ContractRound
current_round branch [] = none
current_round branch (r ∷ rs) =
    if r.branch_id == branch then later_of r (current_round branch rs) else current_round branch rs

-- Whether a call expects another round than the current one.
abbrev pub is_other_round : Option ℕ → ℕ → Bool
is_other_round none n = false
is_other_round (some m) n = not (m == n)

-- `lockContract`
unfoldable pub lock_contract : ℕ → Option ℕ → Action (ContractStatus × ContractRound)
lock_contract branch_id expected = do
  row ← require_row (λ db. find (λ b. b.id == branch_id) db.branches) Code.branch_not_found
  round ← require_row (λ db. current_round branch_id db.rounds) Code.contract_round_missing
  throw_if (is_other_round expected round.round_no) Code.contract_round_changed
  pure (row.contract_status, round)

-- `checkPeriod`
abbrev pub check_period : ℕ → ℕ → Action (Unit {0})
check_period start_at end_at = throw_if (ltb end_at start_at) Code.invalid_contract_period

-- ContractRound_branchId_roundNo_key, ContractRound_round_no_ck and ContractRound_period_ck
unfoldable pub insert_round : ContractRound → Action (Unit {0})
insert_round r = do
  clash ← gets λ db. exists (λ s. s.branch_id == r.branch_id && s.round_no == r.round_no) db.rounds
  throw_if clash Code.unique_violation
  throw_if (ltb r.round_no 1 || ltb r.end_at r.start_at) Code.check_violation
  modify λ db. record db { rounds = db.rounds ++ r ∷ [] }

-- The files of one kind that are in force in a round.
abbrev pub is_current_file : ℕ → ContractFileKind → ContractFile → Bool
is_current_file round kind f =
    f.round_id == round && file_kind_eq f.kind kind && not (is_set f.replaced_at)

abbrev pub new_file : Env → ℕ → ContractFileKind → FileRef → ContractFile
new_file e round kind file = record {
  id = e.file_id;
  round_id = round;
  kind = kind;
  path = file.path;
  file_name = file.file_name;
  uploaded_by = e.actor;
  uploaded_at = e.now;
  replaced_at = none;
  archived_at = none;
  archived_by = none;
  purged_at = none;
  purged_by = none;
}

abbrev pub replace_file : ℕ → ContractFile → ContractFile
replace_file now f = record f { replaced_at = some now }

-- `attach`: whether it replaces a file. ContractFile_path_key and ContractFile_current_key are the
-- two indexes that the new row could break.
unfoldable pub attach : Env → ℕ → ContractFileKind → FileRef → Action Bool
attach e round kind file = do
  replaced ← gets λ db. count (is_current_file round kind) db.files
  modify
      λ db. record db { files = update (is_current_file round kind) (replace_file e.now) db.files }
  clash ← gets λ db. exists (λ f. f.path == file.path || is_current_file round kind f) db.files
  throw_if clash Code.attachment_duplicate
  modify λ db. record db { files = db.files ++ new_file e round kind file ∷ [] }
  pure (ltb 0 replaced)

abbrev pub set_status : ContractStatus → Branch → Branch
set_status status b = record b { contract_status = status }

abbrev pub update_branch : ℕ → (Branch → Branch) → Db → Db
update_branch id f db = record db { branches = update (λ b. b.id == id) f db.branches }

abbrev pub update_round : ℕ → (ContractRound → ContractRound) → Db → Db
update_round id f db = record db { rounds = update (λ r. r.id == id) f db.rounds }
