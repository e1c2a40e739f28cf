-- ===== src/Integrity/Tests.antt =====
-- Codes of one branch, and the theorem on them at one of its members.
use sports_erp.Prelude.{[], ◌∷◌, none, ◌≢◌, refl}
use sports_erp.Store.{empty_db}
use sports_erp.Store.Branches.{Branch, CodeSequenceKind, ContractStatus}
use sports_erp.Integrity.Codes.{allocate_branch_code}
use sports_erp.Integrity.Codes.Fresh.{Allocations, run, allocate_branch_code_fresh}

abbrev seocho : Branch
seocho = record {
  id = 1;
  name = "Seocho";
  code = 83 ∷ [];
  region = "Seoul";
  standard_check_in_time = none;
  cancellation_deadline_hours = none;
  contract_status = ContractStatus.active;
}

abbrev others : Allocations
others = (1, (CodeSequenceKind.staff, 83 ∷ 45 ∷ [])) ∷ (2, (CodeSequenceKind.member, 84 ∷ [])) ∷ []

allocate_branch_code_fresh_example :
    (allocate_branch_code 0 seocho CodeSequenceKind.asset empty_db).0
    ≢ (allocate_branch_code 5 seocho CodeSequenceKind.asset
        (run others (allocate_branch_code 0 seocho CodeSequenceKind.asset empty_db).1)).0
allocate_branch_code_fresh_example =
    allocate_branch_code_fresh 0 5 seocho CodeSequenceKind.asset others empty_db refl
