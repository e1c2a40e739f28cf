-- ===== src/Contracts/Files/Purge.antt =====
-- When a file may be removed from the storage.
use sports_erp.Prelude.{ℕ, Bool, not, ◌&&◌, is_set, or_else, passes}
use sports_erp.Store.{Db}
use sports_erp.Store.Branches.{ContractFile, ContractRound}
use sports_erp.Dates.Civil.{Ymd, ymd_lt, ymd_of_day}
use sports_erp.Dates.Kst.Shifts.{years_later}
use sports_erp.Contracts.Files.{round_of}

-- The day on which a round ended: the one of its termination, or its last.
abbrev pub ended_on : ContractRound → ℕ
ended_on r = or_else r.terminated_at r.end_at

-- A file that has been archived and not been removed, three years or more after its round ended.
abbrev pub is_removable : Ymd → Db → ContractFile → Bool
is_removable today db f =
    is_set f.archived_at
    && (not (is_set f.purged_at)
        && passes (λ r. ymd_lt (years_later (ymd_of_day (ended_on r)) 3) today) (round_of f db))
