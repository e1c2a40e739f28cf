-- ===== src/Staffing/Frames.antt =====
-- What each call on the staff does to branches, assignments and staff, if it does anything.
use sports_erp.Prelude.{
  ℕ, ◌≡◌, ◌⊎◌, Option, none, some, [], ◌∷◌, ◌++◌, String, true, false, not, ◌==◌, find, update,
  passes, or_else, arith,
}
use sports_erp.Store.{Db}
use sports_erp.Store.Errors.{Result, ok, err}
use sports_erp.Store.Staffing.{Role}
use sports_erp.Store.Branches.{Text, CodeSequenceKind}
use sports_erp.Integrity.{is_branch_terminated}
use sports_erp.Integrity.Codes.{allocate_branch_code}
use sports_erp.Dates.Kst.{kst_day}
use sports_erp.Staffing.{
  Env, is_open_of, end_assignment, hire, HireInput, new_staff, new_assignment,
}
use sports_erp.Staffing.Moves.{resign, resign_row, is_resigned, assign, move_row}

abbrev Keeps : Db → Db → Type 0
Keeps db db' =
    (db'.branches ≡ db.branches) × (db'.assignments ≡ db.assignments) × (db'.staff ≡ db.staff)

pub resign_frame :
    (e : Env) (role : Role) (id : ℕ) (db : Db)
    → ((resign e role id db).1 ≡ db)
      ⊎ (((resign e role id db).1.branches ≡ db.branches)
          × ((resign e role id db).1.assignments
              ≡ update (is_open_of id) (end_assignment (kst_day e.now)) db.assignments)
          × ((resign e role id db).1.staff
              ≡ update (λ s. s.id == id) (resign_row (kst_day e.now)) db.staff))
unfolding resign
resign_frame e role id db = ground arith

-- A transfer goes to a branch whose contract runs, and moves nobody who has left.
pub assign_frame :
    (e : Env) (id branch : ℕ) (remark : Option String) (db : Db)
    → ((assign e id branch remark db).1 ≡ db)
      ⊎ (((assign e id branch remark db).1.branches ≡ db.branches)
          × ((assign e id branch remark db).1.assignments
              ≡ update (is_open_of id) (end_assignment (kst_day e.now)) db.assignments
                ++ new_assignment e id branch (kst_day e.now) remark ∷ [])
          × ((assign e id branch remark db).1.staff
              ≡ update (λ s. s.id == id) (move_row branch) db.staff)
          × (passes (λ s. not (is_resigned s.status)) (find (λ s. s.id == id) db.staff) ≡ true)
          × (is_branch_terminated (find (λ b. b.id == branch) db.branches) ≡ false))
unfolding assign
assign_frame e id branch remark db = ground arith

abbrev drawn : Result Text → Text
drawn (ok code) = code
drawn (err c) = []

-- The staff code that a hire draws.
abbrev pub drawn_code : Env → HireInput → Db → Text
drawn_code e i db = elim (find (λ b. b.id == i.branch_id) db.branches) [
  | none ↦ []
  | some b ↦ drawn (allocate_branch_code e.now b CodeSequenceKind.staff db).0
]

pub hire_frame :
    (e : Env) (hash : ℕ) (i : HireInput) (db : Db)
    → ((hire e hash i db).1 ≡ db)
      ⊎ (((hire e hash i db).1.branches ≡ db.branches)
          × ((hire e hash i db).1.assignments
              ≡ db.assignments
                ++ new_assignment e e.staff_id i.branch_id
                    (or_else i.hire_date (kst_day e.now))
                    i.note
                  ∷ [])
          × ((hire e hash i db).1.staff
              ≡ db.staff
                ++ new_staff e (drawn_code e i db) (or_else i.hire_date (kst_day e.now)) i ∷ [])
          × (is_branch_terminated (find (λ b. b.id == i.branch_id) db.branches) ≡ false))
unfolding hire allocate_branch_code
hire_frame e hash i db = ground arith
