-- ===== src/Contracts/Retention.antt =====
-- modules/branches/contract-retention.ts: how long the file of a contract round is kept.
use sports_erp.Prelude.{ℕ, ◌*◌, Bool, not, ◌&&◌, is_set, or_else}
use sports_erp.Store.Branches.{ContractRound, ContractFile}
use sports_erp.Dates.Civil.{Ymd, ymd_lt}
use sports_erp.Dates.Kst.{
  day_ms, to_kst_date_string, add_years_to_date_string, add_months_to_date_string,
}

-- CONTRACT_FILE_RETENTION_YEARS
abbrev pub contract_file_retention_years : ℕ
contract_file_retention_years = 3

-- CONTRACT_ARCHIVE_NOTICE_MONTHS
abbrev pub contract_archive_notice_months : ℕ
contract_archive_notice_months = 6

-- `contractFileRetentionUntil`: from the day on which the round ended.
unfoldable pub contract_file_retention_until : ContractRound → Ymd
contract_file_retention_until round =
    add_years_to_date_string
      (to_kst_date_string (or_else round.terminated_at round.end_at * day_ms))
      contract_file_retention_years

pub record RetentionState : Type 0 where
  pub retention_until : Ymd
  pub needs_archive : Bool
  pub retention_ended : Bool

-- `retentionState`, at a calendar date.
unfoldable pub retention_state : ContractFile → ContractRound → Ymd → RetentionState
unfolding contract_file_retention_until
retention_state file round today = record {
  retention_until = contract_file_retention_until round;
  needs_archive =
      not (is_set file.archived_at)
      && not (is_set file.purged_at)
      && not (
          ymd_lt (add_months_to_date_string today contract_archive_notice_months)
            (contract_file_retention_until round));
  retention_ended = ymd_lt (contract_file_retention_until round) today;
}
