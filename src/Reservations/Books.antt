-- ===== src/Reservations/Books.antt =====
-- What holds of the reservations and payments between two calls, and that every call keeps it.
pub mod Create
pub mod Payments
pub mod Pay
pub mod Changes
use sports_erp.Prelude.{
  ℕ, ◌+◌, ◌≤◌, ◌≡◌, ◌≢◌, Option, none, some, Bool, true, false, All, Distinct, count, find,
}
use sports_erp.Store.{Db}
use sports_erp.Store.Branches.{ScheduleSlot}
use sports_erp.Store.Members.{Reservation, ReservationStatus, Payment, PaymentStatus}
use sports_erp.Integrity.{lock_schedule_slot}
use sports_erp.Reservations.{Env, books, active_of, payment_of}

-- The active reservations of a slot.
abbrev pub booked : ℕ → Db → ℕ
booked slot db = count (books slot) db.reservations

-- Which states of a reservation and of its payment go together.
abbrev pub pair_agrees : ReservationStatus → PaymentStatus → Bool
pair_agrees ReservationStatus.requested PaymentStatus.pending = true
pair_agrees ReservationStatus.requested _ = false
pair_agrees ReservationStatus.cancelled PaymentStatus.pending = false
pair_agrees ReservationStatus.cancelled _ = true
pair_agrees _ PaymentStatus.approved = true
pair_agrees _ _ = false

-- A reservation without a payment was free, and is never waiting for one.
abbrev pub agrees : ReservationStatus → Option Payment → Bool
agrees s (some p) = pair_agrees s p.status
agrees ReservationStatus.requested none = false
agrees _ none = true

abbrev pub Agrees : Db → Reservation → Type 0
Agrees db r = agrees r.status (payment_of r.id db.payments) ≡ true

abbrev pub IsSplit : Payment → Type 0
IsSplit p = p.supply_amount + p.vat ≡ p.amount

pub record IsSound (db : Db) : Type 0 where
  pub within_capacity :
      (id : ℕ) (s : ScheduleSlot) → lock_schedule_slot id db ≡ some s → booked id db ≤ s.capacity
  pub single : (member slot : ℕ) → count (active_of member slot) db.reservations ≤ 1
  pub agreed : All (Agrees db) db.reservations
  pub reservation_ids : Distinct (λ r. r.id) db.reservations
  pub payment_ids : Distinct (λ p. p.id) db.payments
  pub split : All IsSplit db.payments

-- The identifiers that the database generates are new.
pub record IsFresh (e : Env) (db : Db) : Type 0 where
  pub new_reservation : All (λ r. r.id ≢ e.reservation_id) db.reservations
  pub new_payment : All (λ p. p.id ≢ e.payment_id) db.payments
  pub unpaid : payment_of e.reservation_id db.payments ≡ none
