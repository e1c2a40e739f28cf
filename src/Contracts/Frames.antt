-- ===== src/Contracts/Frames.antt =====
-- What each call on a contract does to the database, if it does anything.
use sports_erp.Prelude.{
  ℕ, ◌-◌, ◌<◌, ◌≤◌, ◌+◌, ◌≡◌, ◌⊎◌, inl, inr, none, some, List, [], ◌∷◌, ◌++◌, Bool, true, false,
  not, ◌&&◌, ◌||◌, ltb, leb, ◌==◌, if◌then◌else◌, find, count, update, passes, arith, Bool-cases,
}
use sports_erp.Store.{Db, transaction}
use sports_erp.Store.Errors.{Code, ok, err}
use sports_erp.Store.Branches.{ContractStatus, ContractRound, ContractFileKind}
use sports_erp.Store.Audit.{AuditEntity, AuditAction}
use sports_erp.Dates.Kst.{kst_day}
use sports_erp.Integrity.{is_terminated}
use sports_erp.Staffing.{end_assignment}
use sports_erp.Staffing.Termination.{is_ending, end_at_frame}
use sports_erp.Contracts.{
  ContractTerms, ContractFile, Env, FileRef, new_file, replace_file, is_current_file, set_status,
  update_branch, update_round,
}
use sports_erp.Contracts.Changes.{
  is_unchanged, correct_to, set_terms, terms_of, new_branch, new_round, set_file_locked,
  create_branch, renew_locked, change_locked, BranchInput, is_numbered, check_start,
  set_terminated_at,
}

-- Whether a change of status ends the contract, or takes the end back.
abbrev pub terminates : ContractStatus → ContractStatus → Bool
terminates before status = is_terminated status && not (is_terminated before)

abbrev pub reverts : ContractStatus → ContractStatus → Bool
reverts before status = is_terminated before && not (is_terminated status)

abbrev pub has_agreement : ContractRound → Db → Bool
has_agreement r db =
    ltb 0 (count (is_current_file r.id ContractFileKind.termination_agreement) db.files)

abbrev pub Changed : Env → ℕ → ContractStatus → ContractStatus → ContractRound → Db → Db → Type 0
Changed e branch status before r db db' =
    (db'.branches ≡ update (λ c. c.id == branch) (set_status status) db.branches)
    × (db'.assignments ≡ (
        if terminates before status
        then update (is_ending branch db) (end_assignment (kst_day e.now)) db.assignments
        else db.assignments))
    × (db'.staff ≡ db.staff)
    × (db'.rounds ≡ (
        if terminates before status
        then update (λ s. s.id == r.id) (set_terminated_at (some (kst_day e.now))) db.rounds
        else if reverts before status
        then update (λ s. s.id == r.id) (set_terminated_at none) db.rounds
        else db.rounds))
    × (db'.files ≡ db.files)
    × ((terminates before status ≡ true) → (has_agreement r db ≡ true))

-- The database when the end of a contract comes to the assignments.
abbrev pub terminated_db : Env → ℕ → ContractStatus → ContractRound → Db → Db
terminated_db e branch before r db =
    record (update_branch branch (set_status ContractStatus.terminated)
      (update_round r.id (set_terminated_at (some (kst_day e.now))) db)) {
        audit =
            db.audit
            ++ record {
              actor_id = e.actor;
              entity = AuditEntity.branch;
              entity_id = branch;
              action =
                  AuditAction.contract_status_changed before ContractStatus.terminated r.round_no;
            }
              ∷ [];
      }

pub change_frame :
    (e : Env) (branch : ℕ) (status before : ContractStatus) (r : ContractRound) (db : Db)
    → let db' = (transaction (change_locked e branch status (before, r)) db).1 in
      (db' ≡ db) ⊎ Changed e branch status before r db db'
unfolding change_locked
change_frame e branch ContractStatus.active before r db = ground arith
change_frame e branch ContractStatus.renewal_due before r db = ground arith
change_frame e branch ContractStatus.expired before r db = ground arith
change_frame e branch ContractStatus.terminated ContractStatus.terminated r db = ground arith
change_frame e branch ContractStatus.terminated ContractStatus.active r db = ground (
  arith,
  end_at_frame branch e.actor (kst_day e.now) (terminated_db e branch ContractStatus.active r db),
)
change_frame e branch ContractStatus.terminated ContractStatus.renewal_due r db = ground (
  arith,
  end_at_frame branch e.actor (kst_day e.now)
      (terminated_db e branch ContractStatus.renewal_due r db),
)
change_frame e branch ContractStatus.terminated ContractStatus.expired r db = ground (
  arith,
  end_at_frame branch e.actor (kst_day e.now) (terminated_db e branch ContractStatus.expired r db),
)

-- What is left of the files of a round when a new one is attached.
abbrev pub attached : Env → ℕ → ContractFileKind → FileRef → Db → List ContractFile
attached e round kind file db =
    update (is_current_file round kind) (replace_file e.now) db.files
    ++ new_file e round kind file ∷ []

pub renew_frame :
    (e : Env) (branch : ℕ) (terms : ContractTerms) (file : FileRef) (before : ContractStatus)
    (r : ContractRound) (db : Db)
    → let db' = (transaction (renew_locked e branch terms file (before, r)) db).1 in
      (db' ≡ db)
      ⊎ ((is_terminated before ≡ false)
          × (r.start_at < terms.start_at)
          × (terms.start_at ≤ terms.end_at)
          × (db'.branches
              ≡ update (λ c. c.id == branch) (set_status ContractStatus.active) db.branches)
          × (db'.assignments ≡ db.assignments)
          × (db'.staff ≡ db.staff)
          × (db'.rounds ≡ db.rounds ++ new_round e branch (r.round_no + 1) terms ∷ [])
          × (db'.files ≡ attached e e.round_id ContractFileKind.contract file db))
unfolding renew_locked
renew_frame e branch terms file before r db = ground arith

-- Whether a corrected start is the old one, that of a first round, or later than the round before.
abbrev pub starts_later : ℕ → ContractRound → ContractTerms → Db → Bool
starts_later branch r next db =
    next.start_at == r.start_at
    || (leb r.round_no 1
        || passes (λ p. ltb p.start_at next.start_at)
            (find (is_numbered branch (r.round_no - 1)) db.rounds))

check_start_lem :
    (branch : ℕ) (r : ContractRound) (next : ContractTerms) (db : Db)
    → ((check_start branch r next db ≡ (ok tt, db)) × (starts_later branch r next db ≡ true))
      ⊎ (check_start branch r next db ≡ (err Code.row_missing, db))
      ⊎ (check_start branch r next db ≡ (err Code.invalid_contract_period, db))
unfolding check_start
check_start_lem branch r next db = ground arith

pub correct_frame :
    (e : Env) (branch : ℕ) (r : ContractRound) (next : ContractTerms) (db : Db)
    → let db' = (transaction (correct_to e branch r next) db).1 in
      (db' ≡ db)
      ⊎ ((next.start_at ≤ next.end_at)
          × (starts_later branch r next db ≡ true)
          × (db'.branches ≡ db.branches)
          × (db'.assignments ≡ db.assignments)
          × (db'.staff ≡ db.staff)
          × (db'.rounds ≡ update (λ s. s.id == r.id) (set_terms next) db.rounds)
          × (db'.files ≡ db.files))
unfolding correct_to
correct_frame e branch r next db = elim (Bool-cases (is_unchanged next (terms_of r))) [
  | inl u ↦ elim (check_start_lem branch r next db) [
    | inl (c, l) ↦ ground (arith, u, c, l)
    | inr (inl c) ↦ ground (arith, u, c)
    | inr (inr c) ↦ ground (arith, u, c)
  ]
  | inr u ↦ elim (check_start_lem branch r next db) [
    | inl (c, l) ↦ ground (arith, u, c, l)
    | inr (inl c) ↦ ground (arith, u, c)
    | inr (inr c) ↦ ground (arith, u, c)
  ]
]

pub set_file_frame :
    (e : Env) (branch : ℕ) (kind : ContractFileKind) (file : FileRef) (before : ContractStatus)
    (r : ContractRound) (db : Db)
    → let db' = (transaction (set_file_locked e branch kind file (before, r)) db).1 in
      (db' ≡ db)
      ⊎ ((is_terminated before ≡ false)
          × (db'.branches ≡ db.branches)
          × (db'.assignments ≡ db.assignments)
          × (db'.staff ≡ db.staff)
          × (db'.rounds ≡ db.rounds)
          × (db'.files ≡ attached e r.id kind file db))
unfolding set_file_locked
set_file_frame e branch kind file before r db = ground arith

pub create_frame :
    (e : Env) (i : BranchInput) (terms : ContractTerms) (file : FileRef) (db : Db)
    → let db' = (create_branch e i terms file db).1 in
      (db' ≡ db)
      ⊎ ((terms.start_at ≤ terms.end_at)
          × (db'.branches ≡ db.branches ++ new_branch e i ∷ [])
          × (db'.assignments ≡ db.assignments)
          × (db'.staff ≡ db.staff)
          × (db'.rounds ≡ db.rounds ++ new_round e e.branch_id 1 terms ∷ [])
          × (db'.files ≡ attached e e.round_id ContractFileKind.contract file db))
unfolding create_branch
create_frame e i terms file db = ground arith
