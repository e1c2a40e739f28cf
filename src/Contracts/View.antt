-- ===== src/Contracts/View.antt =====
-- What branch.service.ts shows of a contract, and to whom.
use sports_erp.Prelude.{
  ℕ, ◌-◌, Option, none, some, List, String, Bool, true, false, ◌&&◌, ltb, leb, ◌==◌, if◌then◌else◌,
  count, select,
}
use sports_erp.Store.{Db}
use sports_erp.Store.Branches.{
  ContractStatus, Branch, ContractRound, ContractFileKind, ProgramStatus,
}
use sports_erp.Store.Staffing.{Role}
use sports_erp.Dates.Kst.{kst_day}
use sports_erp.Staffing.Moves.{is_super_admin}
use sports_erp.Contracts.{[], is_current_file, status_eq}

-- RENEWAL_NOTICE_DAYS
abbrev pub renewal_notice_days : ℕ
renewal_notice_days = 60

-- The days to the end of the contract, and those that have passed since; one of them is 0.
pub record DaysLeft : Type 0 where
  pub ahead : ℕ
  pub past : ℕ

pub record ContractView : Type 0 where
  pub id : ℕ
  pub name : String
  pub region : String
  pub contract_status : ContractStatus
  pub round_no : ℕ
  pub partner : ℕ
  pub start_at : ℕ
  pub end_at : ℕ
  pub days_left : DaysLeft
  pub renewal_notice : Bool
  pub has_contract_file : Bool
  pub has_termination_agreement : Bool

abbrev pub has_file : ContractRound → ContractFileKind → Db → Bool
has_file r kind db = ltb 0 (count (is_current_file r.id kind) db.files)

-- `toContractView`, of a branch and its current round.
unfoldable pub to_contract_view : ℕ → Branch → ContractRound → Db → ContractView
to_contract_view now b r db =
    let today = kst_day now in
    record {
      id = b.id;
      name = b.name;
      region = b.region;
      contract_status = b.contract_status;
      round_no = r.round_no;
      partner = r.partner;
      start_at = r.start_at;
      end_at = r.end_at;
      days_left = record { ahead = r.end_at - today; past = today - r.end_at };
      renewal_notice =
          status_eq b.contract_status ContractStatus.active
          && (leb today r.end_at && leb (r.end_at - today) renewal_notice_days);
      has_contract_file = has_file r ContractFileKind.contract db;
      has_termination_agreement = has_file r ContractFileKind.termination_agreement db;
    }

-- `listVisibleTo`: all branches for the head office, else the caller's own.
unfoldable pub list_visible_to : Role → Option ℕ → Db → List Branch
list_visible_to role own db =
    if is_super_admin role
    then db.branches
    else (elim own [ none ↦ [] | some id ↦ select (λ b. b.id == id) db.branches ])

pub record Counts : Type 0 where
  pub members : ℕ
  pub staff : ℕ
  pub running_programs : ℕ

abbrev pub is_running : ProgramStatus → Bool
is_running ProgramStatus.running = true
is_running _ = false

-- `counts`, of one branch.
unfoldable pub counts : ℕ → Db → Counts
counts branch db = record {
  members = count (λ m. m.branch_id == branch) db.members;
  staff = count (λ s. s.branch_id == branch) db.staff;
  running_programs = count (λ p. p.branch_id == branch && is_running p.status) db.programs;
}
