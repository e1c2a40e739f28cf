-- ===== src/Contracts/Lock.antt =====
-- What a call that starts with `lockContract` does.
use sports_erp.Prelude.{
  passes, ◌&&◌, not, ℕ, ◌≡◌, ◌⊎◌, inl, inr, ap, Option, some, false, ◌==◌, find, arith, Bool-cases,
  Option-cases,
}
use sports_erp.Store.{Db, Action, transaction, ◌>>=◌}
use sports_erp.Store.Errors.{Code, Result, ok, err}
use sports_erp.Store.Branches.{ContractStatus, Branch, ContractRound}
use sports_erp.Contracts.{is_set, Bool, is_other_round, current_round, lock_contract}

-- There is a branch, and its current round is the one that is expected.
abbrev pub may_lock : ℕ → Option ℕ → Db → Bool
may_lock branch expected db =
    is_set (find (λ c. c.id == branch) db.branches)
    && passes (λ r. not (is_other_round expected r.round_no)) (current_round branch db.rounds)

-- A call that starts by taking the lock does nothing if there is no branch, no round or another
-- one than is expected; else it goes on with what it has read.
abbrev OnLock :
    {A : Type 0} → ℕ → Option ℕ → (ContractStatus × ContractRound → Action A) → Db → Type 0
OnLock {A} branch expected f db =
    ((c : Code) × (may_lock branch expected db ≡ false)
      × (transaction (lock_contract branch expected >>= f) db ≡ (err c, db)))
    ⊎ ((b : Branch) × (r : ContractRound) × (find (λ c. c.id == branch) db.branches ≡ some b)
        × (current_round branch db.rounds ≡ some r)
        × (is_other_round expected r.round_no ≡ false)
        × (transaction (lock_contract branch expected >>= f) db
            ≡ transaction (f (b.contract_status, r)) db))

abbrev finish : {A : Type 0} → Db → Result A × Db → Result A × Db
finish db x = elim x.0 [ ok a ↦ (ok a, x.1) | err c ↦ (err c, db) ]

abbrev proceed : {A B : Type 0} → (A → Action B) → Result A × Db → Result B × Db
proceed f x = elim x.0 [ ok a ↦ f a x.1 | err c ↦ (err c, x.1) ]

lock_contract-err :
    (branch : ℕ) (expected : Option ℕ) (db : Db)
    → ((c : Code) × (may_lock branch expected db ≡ false)
        × (lock_contract branch expected db ≡ (err c, db)))
      ⊎ ((b : Branch) × (r : ContractRound) × (find (λ c. c.id == branch) db.branches ≡ some b)
          × (current_round branch db.rounds ≡ some r)
          × (is_other_round expected r.round_no ≡ false)
          × (lock_contract branch expected db ≡ (ok (b.contract_status, r), db)))
unfolding lock_contract
lock_contract-err branch expected db =
    elim (Option-cases (find (λ b. b.id == branch) db.branches)) [
      | inl e ↦ inl (Code.branch_not_found, ground (arith, e), ground (arith, e))
      | inr (b, e) ↦ elim (Option-cases (current_round branch db.rounds)) [
        | inl n ↦ inl (Code.contract_round_missing, ground (arith, e, n), ground (arith, e, n))
        | inr (r, f) ↦ elim (Bool-cases (is_other_round expected r.round_no)) [
          | inl o ↦
              inl (Code.contract_round_changed, ground (arith, e, f, o), ground (arith, e, f, o))
          | inr o ↦ inr (b, r, e, f, o, ground (arith, e, f, o))
        ]
      ]
    ]

pub on_lock :
    {A : Type 0} (branch : ℕ) (expected : Option ℕ) (f : ContractStatus × ContractRound → Action A)
    (db : Db)
    → OnLock branch expected f db
on_lock branch expected f db = elim (lock_contract-err branch expected db) [
  | inl (c, n, e) ↦ inl (c, n, ap (λ x. finish db (proceed f x)) e)
  | inr (b, r, hb, hr, o, e) ↦ inr (b, r, hb, hr, o, ap (λ x. finish db (proceed f x)) e)
]
