-- ===== src/Integrity.antt =====
-- apps/api/src/prisma/integrity.ts: row locks and code allocation. A lock is taken and held by a
-- transaction, so a call that runs in one is a single step of the model; what is left of a lock
-- function is the row that it returns.
pub mod Codes
mod Tests
use sports_erp.Prelude.{ℕ, Option, none, some, Bool, true, false, find, ◌==◌}
use sports_erp.Store.{Db}
use sports_erp.Store.Branches.{Branch, ScheduleSlot, ContractStatus}
use sports_erp.Store.Members.{Reservation, ReservationStatus}
use sports_erp.Store.Staffing.{Staff}

abbrev pub lock_schedule_slot : ℕ → Db → Option ScheduleSlot
lock_schedule_slot id db = find (λ s. s.id == id) db.slots

abbrev pub lock_reservation : ℕ → Db → Option Reservation
lock_reservation id db = find (λ r. r.id == id) db.reservations

abbrev pub lock_staff : ℕ → Db → Option Staff
lock_staff id db = find (λ s. s.id == id) db.staff

abbrev pub lock_branch_for_share : ℕ → Db → Option Branch
lock_branch_for_share id db = find (λ b. b.id == id) db.branches

-- ACTIVE_RESERVATION_STATUSES
abbrev pub is_active : ReservationStatus → Bool
is_active ReservationStatus.requested = true
is_active ReservationStatus.confirmed = true
is_active _ = false

abbrev pub is_terminated : ContractStatus → Bool
is_terminated ContractStatus.terminated = true
is_terminated _ = false

abbrev pub is_branch_terminated : Option Branch → Bool
is_branch_terminated none = false
is_branch_terminated (some b) = is_terminated b.contract_status
