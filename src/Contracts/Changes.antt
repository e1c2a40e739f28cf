-- ===== src/Contracts/Changes.antt =====
-- The calls of branch.service.ts that change a contract: status, registration, renewal, correction
-- and the files of the current round.
use sports_erp.Prelude.{
  ℕ, ◌+◌, ◌-◌, Option, none, some, List, [], ◌∷◌, ◌++◌, String, Bool, not, ◌&&◌, ◌||◌, ltb, leb,
  ◌==◌, if◌then◌else◌, find, count, exists, or_else,
}
use sports_erp.Store.{
  Action, pure, gets, require_row, transaction, ◌>>=◌, ◌>>◌, throw_if, modify, record_audit,
}
use sports_erp.Store.Errors.{Code}
use sports_erp.Store.Branches.{Text, ContractStatus, Branch, ContractRound, ContractFileKind}
use sports_erp.Store.Members.{Member}
use sports_erp.Store.Staffing.{StaffAssignment}
use sports_erp.Store.Audit.{AuditEntity, AuditAction, ContractTerms, TermsChange}
use sports_erp.Dates.Kst.{kst_day}
use sports_erp.Integrity.{is_terminated}
use sports_erp.Integrity.Codes.{text_eq}
use sports_erp.Staffing.{map_err}
use sports_erp.Staffing.Moves.{end_assignments_at_terminated_branch}
use sports_erp.Contracts.{
  Env, FileRef, status_eq, lock_contract, check_period, insert_round, is_current_file, attach,
  set_status, update_branch, update_round,
}

abbrev pub set_terminated_at : Option ℕ → ContractRound → ContractRound
set_terminated_at day r = record r { terminated_at = day }

abbrev when : Bool → Action (Unit {0}) → Action (Unit {0})
when b m = if b then m else pure tt

-- What a change of status gives back: the status before, the assignments that have ended, and the
-- members that have been released.
abbrev pub StatusChange : Type 0
StatusChange = ContractStatus × (List StaffAssignment × List Member)

-- Under the lock, from the status and the current round that it reads.
unfoldable pub change_locked :
    Env → ℕ → ContractStatus → ContractStatus × ContractRound → Action StatusChange
unfolding end_assignments_at_terminated_branch
change_locked e branch status (before, round) = do
  let today = kst_day e.now
  let terminating = is_terminated status && not (is_terminated before)
  let reverting = is_terminated before && not (is_terminated status)
  agreement ←
      gets λ db. count (is_current_file round.id ContractFileKind.termination_agreement) db.files
  throw_if (terminating && agreement == 0) Code.termination_agreement_required
  when (terminating || reverting) (
      modify (update_round round.id (set_terminated_at (if terminating then some today else none))))
  modify (update_branch branch (set_status status))
  when (not (status_eq before status)) (
      record_audit e.actor AuditEntity.branch branch
        (AuditAction.contract_status_changed before status round.round_no))
  ended ←
      if terminating
      then end_assignments_at_terminated_branch branch e.actor today
      else pure ([], [])
  pure (before, ended)

unfoldable pub change_contract_status : Env → ℕ → ContractStatus → Action StatusChange
unfolding lock_contract change_locked
change_contract_status e branch status =
    transaction (lock_contract branch none >>= change_locked e branch status)

-- What a branch is registered with, and a contract is renewed with.
pub record BranchInput : Type 0 where
  pub name : String
  pub code : Text
  pub region : String
  pub standard_check_in_time : Option (ℕ × ℕ)

-- Branch_code_key
unfoldable pub insert_branch : Branch → Action (Unit {0})
insert_branch b = do
  clash ← gets λ db. exists (λ c. text_eq c.code b.code) db.branches
  throw_if clash Code.unique_violation
  modify λ db. record db { branches = db.branches ++ b ∷ [] }

abbrev pub new_branch : Env → BranchInput → Branch
new_branch e i = record {
  id = e.branch_id;
  name = i.name;
  code = i.code;
  region = i.region;
  standard_check_in_time = i.standard_check_in_time;
  cancellation_deadline_hours = none;
  contract_status = ContractStatus.active;
}

abbrev pub new_round : Env → ℕ → ℕ → ContractTerms → ContractRound
new_round e branch round_no t = record {
  id = e.round_id;
  branch_id = branch;
  round_no = round_no;
  partner = t.partner;
  start_at = t.start_at;
  end_at = t.end_at;
  terminated_at = none;
  created_by = some e.actor;
}

unfoldable pub create_branch_body : Env → BranchInput → ContractTerms → FileRef → Action ℕ
unfolding insert_branch insert_round attach
create_branch_body e i terms file = do
  insert_branch (new_branch e i)
  insert_round (new_round e e.branch_id 1 terms)
  _ ← attach e e.round_id ContractFileKind.contract file
  record_audit e.actor AuditEntity.branch e.branch_id (AuditAction.branch_created 1 terms)
  pure e.branch_id

abbrev pub as_code_taken : Code → Code
as_code_taken Code.unique_violation = Code.branch_code_taken
as_code_taken c = c

unfoldable pub create_branch : Env → BranchInput → ContractTerms → FileRef → Action ℕ
unfolding create_branch_body
create_branch e i terms file = check_period terms.start_at terms.end_at >> λ db.
    let (r, db') = transaction (create_branch_body e i terms file) db in
    (map_err as_code_taken r, db')

abbrev pub terms_of : ContractRound → ContractTerms
terms_of r = record { partner = r.partner; start_at = r.start_at; end_at = r.end_at }

unfoldable pub renew_locked :
    Env → ℕ → ContractTerms → FileRef → ContractStatus × ContractRound → Action ℕ
unfolding insert_round attach
renew_locked e branch terms file (status, round) = do
  throw_if (is_terminated status) Code.branch_terminated
  throw_if (leb terms.start_at round.start_at) Code.invalid_contract_period
  insert_round (new_round e branch (round.round_no + 1) terms)
  _ ← attach e e.round_id ContractFileKind.contract file
  modify (update_branch branch (set_status ContractStatus.active))
  record_audit e.actor AuditEntity.branch branch (
      AuditAction.contract_renewed round.round_no (terms_of round) status (round.round_no + 1)
        terms)
  pure (round.round_no + 1)

unfoldable pub renew_contract : Env → ℕ → ContractTerms → FileRef → Action ℕ
unfolding lock_contract renew_locked
renew_contract e branch terms file =
    check_period terms.start_at terms.end_at
    >> transaction (lock_contract branch none >>= renew_locked e branch terms file)

abbrev pub set_terms : ContractTerms → ContractRound → ContractRound
set_terms t r = record r { partner = t.partner; start_at = t.start_at; end_at = t.end_at }

-- `pick`: the fields of `v` in which `a` and `b` differ.
abbrev pub pick : ContractTerms → ContractTerms → ContractTerms → TermsChange
pick a b v = record {
  partner = if a.partner == b.partner then none else some v.partner;
  start_at = if a.start_at == b.start_at then none else some v.start_at;
  end_at = if a.end_at == b.end_at then none else some v.end_at;
}

abbrev pub is_unchanged : ContractTerms → ContractTerms → Bool
is_unchanged a b = a.partner == b.partner && (a.start_at == b.start_at && a.end_at == b.end_at)

-- The fields that are given, over the current ones.
abbrev pub given_over : TermsChange → ContractTerms → ContractTerms
given_over g t = record {
  partner = or_else g.partner t.partner;
  start_at = or_else g.start_at t.start_at;
  end_at = or_else g.end_at t.end_at;
}

abbrev pub is_numbered : ℕ → ℕ → ContractRound → Bool
is_numbered branch n r = r.branch_id == branch && r.round_no == n

-- From the second round on, a new start is later than that of the round before.
unfoldable pub check_start : ℕ → ContractRound → ContractTerms → Action (Unit {0})
check_start branch round next =
    if ltb 1 round.round_no && not (next.start_at == round.start_at)
    then (do
      prev ←
          require_row (λ db. find (is_numbered branch (round.round_no - 1)) db.rounds)
            Code.row_missing
      throw_if (leb next.start_at prev.start_at) Code.invalid_contract_period)
    else pure tt

-- Round, and the terms that it is to have.
unfoldable pub correct_to : Env → ℕ → ContractRound → ContractTerms → Action (Unit {0})
unfolding check_start
correct_to e branch round next = do
  let current = terms_of round
  check_period next.start_at next.end_at
  check_start branch round next
  if is_unchanged next current
      then pure tt
      else (modify (update_round round.id (set_terms next))
          >> record_audit e.actor AuditEntity.branch branch (
              AuditAction.contract_corrected round.round_no (pick next current current)
                (pick next current next)))

unfoldable pub correct_locked :
    Env → ℕ → TermsChange → ContractStatus × ContractRound → Action (Unit {0})
unfolding correct_to
correct_locked e branch given (status, round) =
    correct_to e branch round (given_over given (terms_of round))

unfoldable pub correct_contract : Env → ℕ → ℕ → TermsChange → Action (Unit {0})
unfolding lock_contract correct_locked
correct_contract e branch round_no given =
    transaction (lock_contract branch (some round_no) >>= correct_locked e branch given)

unfoldable pub set_file_locked :
    Env → ℕ → ContractFileKind → FileRef → ContractStatus × ContractRound → Action Bool
unfolding attach
set_file_locked e branch kind file (status, round) = do
  throw_if (is_terminated status) Code.branch_terminated
  replaced ← attach e round.id kind file
  record_audit e.actor AuditEntity.branch branch (
      if replaced
      then AuditAction.contract_file_replaced round.round_no kind file.file_name
      else AuditAction.contract_file_uploaded round.round_no kind file.file_name)
  pure replaced

unfoldable pub set_contract_file : Env → ℕ → ContractFileKind → ℕ → FileRef → Action Bool
unfolding lock_contract set_file_locked
set_contract_file e branch kind round_no file =
    transaction (lock_contract branch (some round_no) >>= set_file_locked e branch kind file)
