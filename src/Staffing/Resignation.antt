-- ===== src/Staffing/Resignation.antt =====
-- When a resignation goes through, and what becomes of a person who is hired for a later day.
use sports_erp.Prelude.{
  Option-cases, inl, inr, false, some, ℕ, ◌≡◌, Bool, true, not, ◌&&◌, ltb, ◌==◌, find, exists,
  passes, arith,
}
use sports_erp.Store.{Db}
use sports_erp.Store.Errors.{Code, err, is_ok}
use sports_erp.Store.Branches.{Branch}
use sports_erp.Store.Staffing.{Staff, Role}
use sports_erp.Dates.Kst.{kst_day}
use sports_erp.Integrity.{is_terminated}
use sports_erp.Staffing.{Env, is_open_of}
use sports_erp.Staffing.Moves.{is_resigned, is_super_admin, resign}

-- Somebody who is there, and of whom the caller may take leave.
abbrev pub may_leave : Role → Staff → Db → Bool
may_leave role s db =
    passes (λ b. not (is_super_admin role && not (is_terminated b.contract_status)))
      (find (λ b. b.id == s.branch_id) db.branches)
    && not (is_resigned s.status)

-- An open assignment of the person that begins after a day.
abbrev pub begins_after : ℕ → ℕ → Db → Bool
begins_after id day db = exists (λ a. is_open_of id a && ltb day a.start_date) db.assignments

abbrev pub may_resign : Env → Role → ℕ → Db → Bool
may_resign e role id db =
    passes (λ s. may_leave role s db) (find (λ s. s.id == id) db.staff)
    && not (begins_after id (kst_day e.now) db)

-- A resignation succeeds exactly if the person and their branch have rows, the caller is not the
-- head office of a branch whose contract still runs, the person has not left before, and no open
-- assignment of theirs begins after today.
pub resign_iff :
    (e : Env) (role : Role) (id : ℕ) (db : Db)
    → is_ok (resign e role id db).0 ≡ may_resign e role id db
unfolding resign
resign_iff e role id db = ground arith

early_fails :
    (e : Env) (role : Role) (id : ℕ) (db : Db) (s : Staff) (b : Branch)
    → find (λ s. s.id == id) db.staff ≡ some s
    → find (λ b. b.id == s.branch_id) db.branches ≡ some b
    → (is_super_admin role && not (is_terminated b.contract_status)) ≡ false
    → is_resigned s.status ≡ false
    → begins_after id (kst_day e.now) db ≡ true
    → resign e role id db ≡ (err Code.check_violation, db)
unfolding resign
early_fails e role id db s b m n runs there early = ground arith

-- If the person may otherwise leave, but an open assignment of theirs begins after today, the
-- resignation fails with the violated CHECK constraint on the period of an assignment, and
-- changes nothing.
pub resign_early :
    (e : Env) (role : Role) (id : ℕ) (db : Db)
    → passes (λ s. may_leave role s db) (find (λ s. s.id == id) db.staff) ≡ true
    → begins_after id (kst_day e.now) db ≡ true
    → resign e role id db ≡ (err Code.check_violation, db)
resign_early e role id db may early = elim (Option-cases (find (λ s. s.id == id) db.staff)) [
  | inl n ↦ absurd (ground (arith, may, n))
  | inr (s, m) ↦ elim (Option-cases (find (λ b. b.id == s.branch_id) db.branches)) [
    | inl n ↦ absurd (ground (arith, may, m, n))
    | inr (b, n) ↦
        let runs : (is_super_admin role && not (is_terminated b.contract_status)) ≡ false =
          ground (arith, may, m, n) in
        let there : is_resigned s.status ≡ false = ground (arith, may, m, n) in
        early_fails e role id db s b m n runs there early
  ]
]
