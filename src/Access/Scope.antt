-- ===== src/Access/Scope.antt =====
-- common/guards/scope-owners.ts: whose a resource is.
use sports_erp.Prelude.{ℕ, Option, none, some, Bool, true, false, not, ◌&&◌, ◌==◌, find, is_set}
use sports_erp.Store.{Db}
use sports_erp.Store.Errors.{Code}

pub data ScopedKind : Type 0 where
  member staff program facility instructor asset document reservation : ScopedKind
  leave_request staff_change_request support_request contract_file : ScopedKind

pub record ScopeOwner : Type 0 where
  pub branch_id : Option ℕ
  pub member_id : Option ℕ
  pub staff_id : Option ℕ

-- SCOPED_KINDS: the code of a resource that is not there, and that of one of somebody else.
abbrev pub not_found : ScopedKind → Code
not_found ScopedKind.member = Code.member_not_found
not_found ScopedKind.staff = Code.staff_not_found
not_found ScopedKind.program = Code.program_not_found
not_found ScopedKind.facility = Code.facility_not_found
not_found ScopedKind.instructor = Code.instructor_not_found
not_found ScopedKind.asset = Code.asset_not_found
not_found ScopedKind.document = Code.document_not_found
not_found ScopedKind.reservation = Code.reservation_not_found
not_found ScopedKind.leave_request = Code.leave_request_not_found
not_found ScopedKind.staff_change_request = Code.change_request_not_found
not_found ScopedKind.support_request = Code.support_request_not_found
not_found ScopedKind.contract_file = Code.contract_file_not_found

abbrev pub violation : ScopedKind → Code
violation ScopedKind.member = Code.member_scope_violation
violation ScopedKind.staff = Code.staff_scope_violation
violation ScopedKind.program = Code.program_scope_violation
violation ScopedKind.facility = Code.facility_scope_violation
violation ScopedKind.instructor = Code.instructor_scope_violation
violation ScopedKind.asset = Code.asset_scope_violation
violation ScopedKind.document = Code.document_scope_violation
violation ScopedKind.reservation = Code.reservation_scope_violation
violation ScopedKind.leave_request = Code.attendance_scope_violation
violation ScopedKind.staff_change_request = Code.staff_scope_violation
violation ScopedKind.support_request = Code.branch_scope_violation
violation ScopedKind.contract_file = Code.branch_scope_violation

-- Only a document may be of no branch, and is then open to all.
abbrev pub is_shared : ScopedKind → Bool
is_shared ScopedKind.document = true
is_shared _ = false

infixl 5 ◌>>=◌
abbrev ◌>>=◌ : {A B : Type 0} → Option A → (A → Option B) → Option B
none >>= f = none
some a >>= f = f a

abbrev branch_only : ℕ → Option ScopeOwner
branch_only branch = some (record { branch_id = some branch; member_id = none; staff_id = none })

-- `ScopeOwners.find`
unfoldable pub find_owner : ScopedKind → ℕ → Db → Option ScopeOwner
find_owner ScopedKind.member id db = do
  row ← find (λ m. m.id == id) db.members
  some (record { branch_id = some row.branch_id; member_id = some id; staff_id = none })
find_owner ScopedKind.staff id db = do
  row ← find (λ s. s.id == id) db.staff
  some (record { branch_id = some row.branch_id; member_id = none; staff_id = some id })
find_owner ScopedKind.program id db = do
  row ← find (λ p. p.id == id) db.programs
  branch_only row.branch_id
find_owner ScopedKind.facility id db = do
  row ← find (λ f. f.id == id) db.facilities
  branch_only row.branch_id
find_owner ScopedKind.instructor id db = do
  row ← find (λ i. i.id == id) db.instructors
  branch_only row.branch_id
find_owner ScopedKind.asset id db = do
  row ← find (λ a. a.id == id) db.assets
  branch_only row.branch_id
find_owner ScopedKind.document id db = do
  row ← find (λ d. d.id == id && not (is_set d.deleted_at)) db.documents
  some (record { branch_id = row.branch_id; member_id = none; staff_id = none })
find_owner ScopedKind.reservation id db = do
  row ← find (λ r. r.id == id) db.reservations
  slot ← find (λ s. s.id == row.schedule_slot_id) db.slots
  course ← find (λ p. p.id == slot.program_id) db.programs
  some (record {
    branch_id = some course.branch_id;
    member_id = some row.member_id;
    staff_id = none;
  })
find_owner ScopedKind.leave_request id db = do
  row ← find (λ r. r.id == id) db.leave_requests
  person ← find (λ s. s.id == row.staff_id) db.staff
  some
      (record { branch_id = some person.branch_id; member_id = none; staff_id = some row.staff_id })
find_owner ScopedKind.support_request id db = do
  row ← find (λ r. r.id == id) db.support_requests
  branch_only row.branch_id
find_owner ScopedKind.contract_file id db = do
  row ← find (λ f. f.id == id) db.files
  round ← find (λ r. r.id == row.round_id) db.rounds
  branch_only round.branch_id
find_owner ScopedKind.staff_change_request id db = do
  row ← find (λ r. r.id == id) db.change_requests
  person ← find (λ s. s.id == row.staff_id) db.staff
  some
      (record { branch_id = some person.branch_id; member_id = none; staff_id = some row.staff_id })
