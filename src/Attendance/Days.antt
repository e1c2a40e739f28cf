-- ===== src/Attendance/Days.antt =====
-- The row of a person on a day, while no correction rewrites it. A check-in has read a row or none,
-- and perhaps a time ago; a confirmation of absences writes for the candidates of any preview.
mod Tests
use sports_erp.Prelude.{
  ℕ, ◌≡◌, ap, Option, none, some, List, String, not, if◌then◌else◌, find, updated,
}
use sports_erp.Store.{Db}
use sports_erp.Store.Staffing.{AttendanceRecord, AttendanceStatus}
use sports_erp.Attendance.{Env, is_day, check_out, write_check_in, is_reversed}
use sports_erp.Attendance.Absences.{AbsenceCandidate, confirm_absences}

-- A row is made without a time of leaving; somebody who has not come may come, and somebody who has
-- come and not left may leave.
pub data Moves : Option AttendanceRecord → Option AttendanceRecord → Type 0 where
  made : (r : AttendanceRecord) → r.check_out_at ≡ none → Moves none (some r)
  comes :
      (r : AttendanceRecord) (now branch : ℕ) (status : AttendanceStatus)
      → r.check_in_at ≡ none
      → Moves
          (some r)
          (some (record r { check_in_at = some now; status = status; branch_id = branch }))
  leaves :
      (r : AttendanceRecord) (now came : ℕ)
      → r.check_in_at ≡ some came
      → r.check_out_at ≡ none
      → Moves (some r) (some (record r { check_out_at = some now }))

pub data Life (o : Option AttendanceRecord) : Option AttendanceRecord → Type 0 where
  stays : Life o o
  then_moves : (p q : Option AttendanceRecord) → Life o p → Moves p q → Life o q

pub data Step : Db → Db → Type 0 where
  comes_in :
      (e : Env) (staff branch : ℕ) (status : AttendanceStatus) (o : Option AttendanceRecord)
      (db : Db)
      → Step db (write_check_in e staff branch status o db).1
  goes_out : (e : Env) (staff : ℕ) (db : Db) → Step db (check_out e staff db).1
  confirms :
      (new branch : ℕ) (memo : Option String) (cs : List AbsenceCandidate) (db : Db)
      → Step db (confirm_absences new branch memo cs db).1
  elsewhere : (db db' : Db) → db'.attendance ≡ db.attendance → Step db db'

pub data Reach (start : Db) : Db → Type 0 where
  begin : Reach start start
  step : (db db' : Db) → Reach start db → Step db db' → Reach start db'

abbrev row_of : ℕ → ℕ → List AttendanceRecord → Option AttendanceRecord
row_of staff day rows = find (is_day staff day) rows

module _ (staff day : ℕ) (o : Option AttendanceRecord) where
  abbrev Lived : List AttendanceRecord → Type 0
  Lived rows = Life o (row_of staff day rows)
