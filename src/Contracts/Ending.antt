-- ===== src/Contracts/Ending.antt =====
-- The end of a contract: when it goes through, and what it leaves.
use sports_erp.Prelude.{
  ℕ, ◌≡◌, inl, inr, ap, ◌∙◌, none, some, Bool, false, not, ◌&&◌, ◌||◌, ◌==◌, find, arith,
}
use sports_erp.Store.{Db, transaction}
use sports_erp.Store.Errors.{is_ok}
use sports_erp.Store.Branches.{ContractRound, ContractStatus}
use sports_erp.Dates.Kst.{kst_day}
use sports_erp.Integrity.{is_terminated}
use sports_erp.Staffing.Termination.{ends_early, end_at-ok}
use sports_erp.Contracts.{Env, current_round}
use sports_erp.Contracts.Changes.{change_contract_status, change_locked}
use sports_erp.Contracts.Lock.{on_lock}
use sports_erp.Contracts.Frames.{has_agreement, terminated_db}

-- The contract's end is confirmed exactly if there is a branch and a round, an agreement for it is
-- in force, and no assignment there has yet to begin; it ends once.
abbrev pub may_terminate : Env → ℕ → Db → Bool
may_terminate e branch db = elim (find (λ b. b.id == branch) db.branches) [
  | none ↦ false
  | some b ↦ elim (current_round branch db.rounds) [
    | none ↦ false
    | some r ↦
        is_terminated b.contract_status
        || (has_agreement r db && not (ends_early branch (kst_day e.now) db))
  ]
]

terminate_locked :
    (e : Env) (branch : ℕ) (before : ContractStatus) (r : ContractRound) (db : Db)
    → is_ok (transaction (change_locked e branch ContractStatus.terminated (before, r)) db).0
      ≡ (is_terminated before || (has_agreement r db && not (ends_early branch (kst_day e.now) db)))
unfolding change_locked
terminate_locked e branch ContractStatus.active r db = ground (
  arith,
  end_at-ok branch e.actor (kst_day e.now) (terminated_db e branch ContractStatus.active r db),
)
terminate_locked e branch ContractStatus.renewal_due r db = ground (
  arith,
  end_at-ok branch e.actor (kst_day e.now) (terminated_db e branch ContractStatus.renewal_due r db),
)
terminate_locked e branch ContractStatus.expired r db = ground (
  arith,
  end_at-ok branch e.actor (kst_day e.now) (terminated_db e branch ContractStatus.expired r db),
)
terminate_locked e branch ContractStatus.terminated r db = ground arith

-- The call that sets a branch's contract to terminated succeeds exactly if the branch has a row
-- and a round, and either it was terminated already, or a termination agreement of the current
-- round is in force and none of the assignments that it would end begins after today.
pub terminate_iff :
    (e : Env) (branch : ℕ) (db : Db)
    → is_ok (change_contract_status e branch ContractStatus.terminated db).0
      ≡ may_terminate e branch db
unfolding change_contract_status
terminate_iff e branch db =
    elim (on_lock branch none (change_locked e branch ContractStatus.terminated) db) [
      | inl (c, n, x) ↦ ap (λ y. is_ok y.0) x ∙ ground (arith, n)
      | inr (b, r, hb, hr, o, x) ↦
          ap (λ y. is_ok y.0) x
          ∙ terminate_locked e branch b.contract_status r db
          ∙ ground (arith, hb, hr)
    ]
