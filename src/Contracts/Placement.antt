-- ===== src/Contracts/Placement.antt =====
-- The calls on staff and contracts together, in any order.
use sports_erp.Prelude.{
  ℕ, ◌≡◌, ◌≢◌, inl, inr, refl, sym, subst, Option, none, some, List, [], ◌∷◌, String, false, ◌==◌,
  if◌then◌else◌, update, arith, Bool-cases, Option-cases, find-append_none, find-append_some,
  find-update_other, find-update_same,
}
use sports_erp.Store.{Db, Action, transaction, ◌>>=◌}
use sports_erp.Store.Branches.{ContractStatus, Branch, ContractRound, ContractFileKind}
use sports_erp.Store.Staffing.{Staff, StaffAssignment, Role}
use sports_erp.Store.Audit.{ContractTerms, TermsChange}
use sports_erp.Dates.Kst.{kst_day}
use sports_erp.Integrity.{is_terminated, is_branch_terminated}
use sports_erp.Staffing
use sports_erp.Staffing.{HireInput, hire, end_assignment, is_open_at}
use sports_erp.Staffing.Moves.{resign, assign}
use sports_erp.Staffing.Frames.{resign_frame, assign_frame, hire_frame}
use sports_erp.Staffing.Termination.{is_ending, ending_gone}
use sports_erp.Staffing.Invariant.{
  IsStaffed, branch_of, staff_of, ended-IsStaffed, resigned-IsStaffed, assigned-IsStaffed,
  hired-IsStaffed, branches-IsStaffed,
}
use sports_erp.Contracts.{ltb, lock_contract, Env, FileRef, set_status}
use sports_erp.Contracts.Changes.{
  correct_to, terms_of, given_over, new_branch, renew_locked, set_file_locked, correct_locked,
  BranchInput, change_contract_status, change_locked, create_branch, renew_contract,
  correct_contract, set_contract_file,
}
use sports_erp.Contracts.Lock.{on_lock}
use sports_erp.Contracts.Frames.{
  renew_frame, set_file_frame, correct_frame, create_frame, change_frame, Changed, terminates,
}

abbrev pub Staffed : Db → Type 0
Staffed db = IsStaffed db.branches db.staff db.assignments

tables :
    (db' : Db) (branches : List Branch) (staff : List Staff) (rows : List StaffAssignment)
    → db'.branches ≡ branches
    → db'.staff ≡ staff
    → db'.assignments ≡ rows
    → IsStaffed branches staff rows
    → Staffed db'
tables db' branches staff rows a b c i = rw (a, b, c) i

status_at :
    (b branch : ℕ) (status : ContractStatus) (branches : List Branch) (row : Branch)
    → branch_of branch branches ≡ some row
    → is_branch_terminated (branch_of b (update (λ c. c.id == branch) (set_status status) branches))
      ≡ (if b == branch then is_terminated status else is_branch_terminated (branch_of b branches))
status_at b branch status branches row h = elim (Bool-cases (b == branch)) [
  | inl same ↦
      let e : b ≡ branch = ground (arith, same) in
      rw e (
        ground (
          arith,
          find-update_same (λ c. c.id) branch (set_status status) branches row (λ x. refl) h,
        ))
  | inr ne ↦
      let d : b ≢ branch = λ e. absurd (ground (arith, e, ne)) in
      rw (ne, find-update_other (λ c. c.id) b branch (set_status status) branches (λ x. refl) d)
        refl
]

-- A branch whose status changes without a new end.
set_status-IsStaffed :
    (branch : ℕ) (status : ContractStatus) (db : Db) (row : Branch)
    → branch_of branch db.branches ≡ some row
    → terminates row.contract_status status ≡ false
    → Staffed db
    → IsStaffed
        (update (λ c. c.id == branch) (set_status status) db.branches)
        db.staff
        db.assignments
set_status-IsStaffed branch status db row h t =
    branches-IsStaffed db.branches db.staff db.assignments _
      (λ b u. ground (arith, u, h, t, status_at b branch status db.branches row h))

terminated-IsStaffed :
    (branch day : ℕ) (status : ContractStatus) (db : Db) (row : Branch)
    → branch_of branch db.branches ≡ some row
    → Staffed db
    → IsStaffed
        (update (λ c. c.id == branch) (set_status status) db.branches)
        db.staff
        (update (is_ending branch db) (end_assignment day) db.assignments)
terminated-IsStaffed branch day status db row h i =
    let j = ended-IsStaffed db.branches db.staff db.assignments day (is_ending branch db) i in
    record {
      one = j.one;
      here = j.here;
      live = λ b u. elim (Bool-cases (b == branch)) [
        | inl same ↦ let e : b ≡ branch = ground (arith, same) in rw e (ending_gone branch day db)
        | inr ne ↦ j.live b (rw (status_at b branch status db.branches row h, ne) at u)
      ];
      placed = j.placed;
    }

Changed-Staffed :
    (e : Env) (branch : ℕ) (status : ContractStatus) (b : Branch) (r : ContractRound) (db db' : Db)
    → branch_of branch db.branches ≡ some b
    → Changed e branch status b.contract_status r db db'
    → Staffed db
    → Staffed db'
Changed-Staffed e branch status b r db db' hb f i =
    elim (Bool-cases (terminates b.contract_status status)) [
      | inl t ↦
          tables db' _ _ _ f.0 f.2 (rw t at f.1)
            (terminated-IsStaffed branch (kst_day e.now) status db b hb i)
      | inr t ↦
          tables db' _ _ _ f.0 f.2 (rw t at f.1) (set_status-IsStaffed branch status db b hb t i)
    ]

-- A result that a call that takes the lock has come to, from what it does under the lock.
locked-Staffed :
    {A : Type 0} (branch : ℕ) (expected : Option ℕ) (f : ContractStatus × ContractRound → Action A)
    (db : Db)
    → Staffed db
    → ((b : Branch) (r : ContractRound)
        → branch_of branch db.branches ≡ some b
        → Staffed (transaction (f (b.contract_status, r)) db).1)
    → Staffed (transaction (lock_contract branch expected >>= f) db).1
locked-Staffed branch expected f db i h = elim (on_lock branch expected f db) [
  | inl (c, n, x) ↦ subst (λ y. Staffed y.1) (sym x) i
  | inr (b, r, hb, hr, o, x) ↦ subst (λ y. Staffed y.1) (sym x) (h b r hb)
]

change-Staffed :
    (e : Env) (branch : ℕ) (status : ContractStatus) (db : Db)
    → Staffed db
    → Staffed (change_contract_status e branch status db).1
unfolding change_contract_status
change-Staffed e branch status db i =
    locked-Staffed branch none (change_locked e branch status) db i λ b r hb.
      elim (change_frame e branch status b.contract_status r db) [
        | inl same ↦ subst Staffed (sym same) i
        | inr f ↦
            Changed-Staffed e branch status b r db
              (transaction (change_locked e branch status (b.contract_status, r)) db).1 hb f i
      ]

renew-Staffed :
    (e : Env) (branch : ℕ) (terms : ContractTerms) (file : FileRef) (db : Db)
    → Staffed db
    → Staffed (renew_contract e branch terms file db).1
unfolding renew_contract
renew-Staffed e branch terms file db i = elim (Bool-cases (ltb terms.end_at terms.start_at)) [
  | inl bad ↦ rw bad i
  | inr good ↦ rw good (
      locked-Staffed branch none (renew_locked e branch terms file) db i λ b r hb.
        elim (renew_frame e branch terms file b.contract_status r db) [
          | inl same ↦ subst Staffed (sym same) i
          | inr f ↦
              tables (transaction (renew_locked e branch terms file (b.contract_status, r)) db).1 _
                _ _ f.3 f.5 f.4
                (set_status-IsStaffed branch ContractStatus.active db b hb (ground arith) i)
        ])
]

correct-Staffed :
    (e : Env) (branch round_no : ℕ) (given : TermsChange) (db : Db)
    → Staffed db
    → Staffed (correct_contract e branch round_no given db).1
unfolding correct_contract
correct-Staffed e branch round_no given db i =
    locked-Staffed branch (some round_no) (correct_locked e branch given) db i λ b r hb.
      elim (correct_frame e branch r (given_over given (terms_of r)) db) [
        | inl same ↦ subst Staffed (sym same) i
        | inr f ↦
            tables (transaction (correct_to e branch r (given_over given (terms_of r))) db).1 _ _ _
              f.2 f.4 f.3 i
      ]

set_file-Staffed :
    (e : Env) (branch : ℕ) (kind : ContractFileKind) (round_no : ℕ) (file : FileRef) (db : Db)
    → Staffed db
    → Staffed (set_contract_file e branch kind round_no file db).1
unfolding set_contract_file
set_file-Staffed e branch kind round_no file db i =
    locked-Staffed branch (some round_no) (set_file_locked e branch kind file) db i λ b r hb.
      elim (set_file_frame e branch kind file b.contract_status r db) [
        | inl same ↦ subst Staffed (sym same) i
        | inr f ↦
            tables (transaction (set_file_locked e branch kind file (b.contract_status, r)) db).1 _
              _ _ f.1 f.3 f.2 i
      ]

create-Staffed :
    (e : Env) (input : BranchInput) (terms : ContractTerms) (file : FileRef) (db : Db)
    → Staffed db
    → Staffed (create_branch e input terms file db).1
create-Staffed e input terms file db i = elim (create_frame e input terms file db) [
  | inl same ↦ subst Staffed (sym same) i
  | inr f ↦ tables (create_branch e input terms file db).1 _ _ _ f.1 f.3 f.2 (
      branches-IsStaffed db.branches db.staff db.assignments _
        (λ b u. elim (Option-cases (branch_of b db.branches)) [
          | inl n ↦ absurd (
              ground (
                arith,
                u,
                n,
                find-append_none (λ c. c.id == b) db.branches (new_branch e input ∷ []) n,
              ))
          | inr (row, h) ↦ ground (
            arith,
            u,
            h,
            find-append_some (λ c. c.id == b) db.branches (new_branch e input ∷ []) row h,
          )
        ])
        i)
]

-- A call on the staff or a contract, with its new identifiers as the database generates them.
pub data Step : Db → Db → Type 0 where
  hires :
      (e : Staffing.Env) (hash : ℕ) (input : HireInput) (db : Db)
      → staff_of e.staff_id db.staff ≡ none
      → Step db (hire e hash input db).1
  resigns : (e : Staffing.Env) (role : Role) (id : ℕ) (db : Db) → Step db (resign e role id db).1
  assigns :
      (e : Staffing.Env) (id branch : ℕ) (remark : Option String) (db : Db)
      → Step db (assign e id branch remark db).1
  changes :
      (e : Env) (branch : ℕ) (status : ContractStatus) (db : Db)
      → Step db (change_contract_status e branch status db).1
  creates :
      (e : Env) (input : BranchInput) (terms : ContractTerms) (file : FileRef) (db : Db)
      → Step db (create_branch e input terms file db).1
  renews :
      (e : Env) (branch : ℕ) (terms : ContractTerms) (file : FileRef) (db : Db)
      → Step db (renew_contract e branch terms file db).1
  corrects :
      (e : Env) (branch round_no : ℕ) (given : TermsChange) (db : Db)
      → Step db (correct_contract e branch round_no given db).1
  files :
      (e : Env) (branch : ℕ) (kind : ContractFileKind) (round_no : ℕ) (file : FileRef) (db : Db)
      → Step db (set_contract_file e branch kind round_no file db).1

-- What any sequence of calls leads to.
pub data Reach (start : Db) : Db → Type 0 where
  begin : Reach start start
  step : (db db' : Db) → Reach start db → Step db db' → Reach start db'

hire-Staffed :
    (e : Staffing.Env) (hash : ℕ) (input : HireInput) (db : Db)
    → staff_of e.staff_id db.staff ≡ none
    → Staffed db
    → Staffed (hire e hash input db).1
hire-Staffed e hash input db fresh i = elim (hire_frame e hash input db) [
  | inl same ↦ subst Staffed (sym same) i
  | inr f ↦
      tables (hire e hash input db).1 _ _ _ f.0 f.2 f.1
        (hired-IsStaffed db.branches db.staff db.assignments 0 _ _ fresh refl refl refl f.3 i)
]

resign-Staffed :
    (e : Staffing.Env) (role : Role) (id : ℕ) (db : Db)
    → Staffed db
    → Staffed (resign e role id db).1
resign-Staffed e role id db i = elim (resign_frame e role id db) [
  | inl same ↦ subst Staffed (sym same) i
  | inr f ↦
      tables (resign e role id db).1 _ _ _ f.0 f.2 f.1
        (resigned-IsStaffed db.branches db.staff db.assignments (kst_day e.now) id i)
]

assign-Staffed :
    (e : Staffing.Env) (id branch : ℕ) (remark : Option String) (db : Db)
    → Staffed db
    → Staffed (assign e id branch remark db).1
assign-Staffed e id branch remark db i = elim (assign_frame e id branch remark db) [
  | inl same ↦ subst Staffed (sym same) i
  | inr f ↦ tables (assign e id branch remark db).1 _ _ _ f.0 f.2 f.1 (
      assigned-IsStaffed db.branches db.staff db.assignments (kst_day e.now) e id branch remark f.3
        f.4 i)
]

Step-Staffed : {db db' : Db} → Step db db' → Staffed db → Staffed db'
Step-Staffed (hires e hash input db fresh) i = hire-Staffed e hash input db fresh i
Step-Staffed (resigns e role id db) i = resign-Staffed e role id db i
Step-Staffed (assigns e id branch remark db) i = assign-Staffed e id branch remark db i
Step-Staffed (changes e branch status db) i = change-Staffed e branch status db i
Step-Staffed (creates e input terms file db) i = create-Staffed e input terms file db i
Step-Staffed (renews e branch terms file db) i = renew-Staffed e branch terms file db i
Step-Staffed (corrects e branch round_no given db) i = correct-Staffed e branch round_no given db i
Step-Staffed (files e branch kind round_no file db) i =
    set_file-Staffed e branch kind round_no file db i

-- From a database in which it holds, after any sequence of hirings (with a new staff id),
-- resignations, transfers, registrations, renewals and corrections of contracts, contract files
-- and changes of a contract's status, failed ones included, nobody has two open assignments,
-- nobody who has left or is no staff has one, none is at a branch whose contract has ended, and
-- each is at the branch that the row of its staff member names.
pub Reach-Staffed : (start db : Db) → Staffed start → Reach start db → Staffed db
Reach-Staffed start _ i begin = i
Reach-Staffed start _ i (step db db' r s) = Step-Staffed s (Reach-Staffed start db i r)
