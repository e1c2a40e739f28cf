-- ===== src/Store/Branches.antt =====
-- apps/api/prisma/schema.prisma: branches, contracts, code sequences and programs.
use sports_erp.Prelude.{ℕ, Option, List, String}

-- Text that the code takes apart, as its code points.
abbrev pub Text : Type 0
Text = List ℕ

pub data ContractStatus : Type 0 where
  active renewal_due expired terminated : ContractStatus

pub record Branch : Type 0 where
  pub id : ℕ
  pub name : String
  pub code : Text
  pub region : String
  pub standard_check_in_time : Option (ℕ × ℕ)
  pub cancellation_deadline_hours : Option ℕ
  pub contract_status : ContractStatus

pub record ContractRound : Type 0 where
  pub id : ℕ
  pub branch_id : ℕ
  pub round_no : ℕ
  pub partner : ℕ
  pub start_at : ℕ
  pub end_at : ℕ
  pub terminated_at : Option ℕ
  pub created_by : Option ℕ

pub data ContractFileKind : Type 0 where
  contract termination_agreement : ContractFileKind

pub record ContractFile : Type 0 where
  pub id : ℕ
  pub round_id : ℕ
  pub kind : ContractFileKind
  pub path : ℕ
  pub file_name : String
  pub uploaded_by : ℕ
  pub uploaded_at : ℕ
  pub replaced_at : Option ℕ
  pub archived_at : Option ℕ
  pub archived_by : Option ℕ
  pub purged_at : Option ℕ
  pub purged_by : Option ℕ

pub data CodeSequenceKind : Type 0 where
  staff member asset : CodeSequenceKind

pub record CodeSequence : Type 0 where
  pub branch_id : ℕ
  pub kind : CodeSequenceKind
  pub prefix : Text
  pub last_value : ℕ

pub data AgeGroup : Type 0 where
  all child teen adult senior : AgeGroup

pub data PricingType : Type 0 where
  free_access paid_session pt_package : PricingType

pub data ProgramStatus : Type 0 where
  preparing running paused ended : ProgramStatus

pub record Program : Type 0 where
  pub id : ℕ
  pub branch_id : ℕ
  pub name : String
  pub price : ℕ
  pub pricing_type : PricingType
  pub status : ProgramStatus
  pub facility_id : Option ℕ
  pub instructor_id : Option ℕ
  pub category : String
  pub age_group : AgeGroup
  pub description : Option String
  pub capacity : Option ℕ
  pub start_date : ℕ
  pub end_date : Option ℕ

pub record ScheduleSlot : Type 0 where
  pub id : ℕ
  pub program_id : ℕ
  pub date : ℕ
  pub start_time : ℕ × ℕ
  pub end_time : ℕ × ℕ
  pub capacity : ℕ
