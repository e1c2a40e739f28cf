-- ===== src/Contracts/Tests.antt =====
-- A branch that is registered, staffed for a later day, given its agreement and ended too early.
use sports_erp.Prelude.{List, ℕ, ◌≡◌, refl, none, some, [], ◌∷◌, count, arith}
use sports_erp.Store.{Db, empty_db}
use sports_erp.Store.Errors.{Result, ok, Code, err, is_ok}
use sports_erp.Store.Branches.{ContractStatus, ContractFileKind}
use sports_erp.Store.Staffing.{Role}
use sports_erp.Store.Audit.{ContractTerms}
use sports_erp.Dates.Kst.{kst_day}
use sports_erp.Integrity.Codes.{allocate_branch_code}
use sports_erp.Staffing
use sports_erp.Staffing.{HireInput, hire, is_open_of, is_open_at}
use sports_erp.Staffing.Moves.{resign}
use sports_erp.Staffing.Resignation.{may_resign, resign_iff, resign_early}
use sports_erp.Contracts.{Env, FileRef}
use sports_erp.Contracts.Changes.{
  BranchInput, create_branch, set_contract_file, change_contract_status,
}
use sports_erp.Contracts.Ending.{may_terminate, terminate_iff}
use sports_erp.Contracts.Placement.{
  Staffed, Reach, begin, step, hires, creates, files, Reach-Staffed,
}

-- Day 739897 and the account 1.
abbrev call : ℕ → Env
call n = record { now = 63927180000000; actor = 1; branch_id = 10; round_id = 20; file_id = n }

abbrev staff_call : Staffing.Env
staff_call = record {
  now = 63927180000000;
  actor = 1;
  account_id = 2;
  staff_id = 3;
  assignment_id = 4;
}

abbrev seocho : BranchInput
seocho = record { name = "Seocho"; code = 83 ∷ []; region = "Seoul"; standard_check_in_time = none }

abbrev terms : ContractTerms
terms = record { partner = 5; start_at = 739000; end_at = 740000 }

abbrev file : ℕ → FileRef
file n = record { path = n; file_name = "scan" }

-- Hired for a thousand days later.
abbrev later_hire : HireInput
later_hire = record {
  branch_id = 10;
  name = "Kim";
  email = 6;
  employment_type = none;
  off_days = none;
  hire_date = some 740897;
  note = none;
}

abbrev registered : Db
registered = (create_branch (call 30) seocho terms (file 1) empty_db).1

abbrev hired : Db
hired = (hire staff_call 7 later_hire registered).1

abbrev agreed : Db
agreed = (set_contract_file (call 31) 10 ContractFileKind.termination_agreement 1 (file 2) hired).1

empty_db-Staffed : Staffed empty_db
empty_db-Staffed = record {
  one = λ s. omega arith;
  here = λ s h. refl;
  live = λ b h. refl;
  placed = tt;
}

agreed-Reach : Reach empty_db agreed
unfolding create_branch
agreed-Reach =
    step hired agreed
      (step registered hired
        (step empty_db registered begin (creates (call 30) seocho terms (file 1) empty_db))
        (hires staff_call 7 later_hire registered refl))
      (files (call 31) 10 ContractFileKind.termination_agreement 1 (file 2) hired)

Reach-Staffed_example : Staffed agreed
Reach-Staffed_example = Reach-Staffed empty_db agreed empty_db-Staffed agreed-Reach

hired_one : count (is_open_at 10) agreed.assignments ≡ 1
unfolding create_branch hire set_contract_file allocate_branch_code
hired_one = refl

hired_early : (resign staff_call Role.branch_admin 3 agreed).0 ≡ err Code.check_violation
unfolding create_branch hire set_contract_file resign allocate_branch_code kst_day
hired_early = refl

resign_early_example :
    resign staff_call Role.branch_admin 3 agreed ≡ (err Code.check_violation, agreed)
unfolding create_branch hire set_contract_file allocate_branch_code kst_day
resign_early_example = resign_early staff_call Role.branch_admin 3 agreed refl refl

resign_iff_example :
    is_ok (resign staff_call Role.branch_admin 3 agreed).0
    ≡ may_resign staff_call Role.branch_admin 3 agreed
resign_iff_example = resign_iff staff_call Role.branch_admin 3 agreed

-- Somebody is hired there for a later day, so the contract's end is refused.
terminate_iff_example :
    is_ok (change_contract_status (call 32) 10 ContractStatus.terminated agreed).0
    ≡ may_terminate (call 32) 10 agreed
terminate_iff_example = terminate_iff (call 32) 10 agreed

-- A round that ended five years before, with a file that has been archived.
abbrev archived : Db
archived = record empty_db {
  rounds =
      record {
        id = 20;
        branch_id = 10;
        round_no = 1;
        partner = 5;
        start_at = 737000;
        end_at = 738000;
        terminated_at = none;
        created_by = none;
      }
      ∷ [];
  files =
      record {
        id = 30;
        round_id = 20;
        kind = ContractFileKind.contract;
        path = 1;
        file_name = "scan";
        uploaded_by = 1;
        uploaded_at = 0;
        replaced_at = none;
        archived_at = some 1;
        archived_by = some 1;
        purged_at = none;
        purged_by = none;
      }
      ∷ [];
}

abbrev removes : List ℕ → Result (Unit {0})
removes paths = ok tt
