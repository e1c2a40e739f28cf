-- ===== src/Reservations.antt =====
-- modules/reservations/reservation.service.ts and modules/payments/payment.service.ts: the calls
-- that change reservations and payments. Each runs in a transaction on a locked row, so it is one
-- step. The partial unique index on active reservations and the CHECK on payments are those of
-- prisma/migrations; an insert that would break one throws.
pub mod Vat
pub mod Books
pub mod History
mod Tests
use sports_erp.Prelude.{
  ℕ, ◌+◌, ◌-◌, ◌*◌, Option, none, some, List, [], ◌∷◌, ◌++◌, String, Bool, true, false, not, ◌&&◌,
  ◌||◌, ltb, leb, ◌==◌, if◌then◌else◌, find, count, update, exists, is_set, or_else,
}
use sports_erp.Store.{
  Db, Action, pure, throw, gets, require, require_row, transaction, ◌>>=◌, ◌>>◌, throw_if, modify,
}
use sports_erp.Store.Errors.{Code, Result, ok, err}
use sports_erp.Store.Branches.{Program, ScheduleSlot, Branch, PricingType, ProgramStatus}
use sports_erp.Store.Members.{Member, Reservation, ReservationStatus, Payment, PaymentStatus}
use sports_erp.Dates.Kst.{day_ms, kst_offset_ms, kst_day}
use sports_erp.Integrity.{
  lock_schedule_slot, lock_reservation, lock_branch_for_share, is_active, is_branch_terminated,
}
use Vat.{split_vat}

-- The time of the call and the identifiers that the database generates in it.
pub record Env : Type 0 where
  pub now : ℕ
  pub reservation_id : ℕ
  pub payment_id : ℕ

abbrev pub is_paid_session : PricingType → Bool
is_paid_session PricingType.paid_session = true
is_paid_session _ = false

abbrev pub is_running : ProgramStatus → Bool
is_running ProgramStatus.running = true
is_running _ = false

abbrev pub is_pending : PaymentStatus → Bool
is_pending PaymentStatus.pending = true
is_pending _ = false

abbrev pub is_approved : PaymentStatus → Bool
is_approved PaymentStatus.approved = true
is_approved _ = false

abbrev pub is_confirmed : ReservationStatus → Bool
is_confirmed ReservationStatus.confirmed = true
is_confirmed _ = false

-- `kstSlotStart`: date and clock time are Korean.
unfoldable pub kst_slot_start : ScheduleSlot → ℕ
kst_slot_start s =
    s.date * day_ms + s.start_time.0 * 3600000 + s.start_time.1 * 60000 - kst_offset_ms

abbrev pub active_of : ℕ → ℕ → Reservation → Bool
active_of member slot r = r.member_id == member && r.schedule_slot_id == slot && is_active r.status

-- The active reservations of a slot, which `create` counts.
abbrev pub books : ℕ → Reservation → Bool
books slot r = r.schedule_slot_id == slot && is_active r.status

abbrev pub payment_of : ℕ → List Payment → Option Payment
payment_of id = find (λ p. p.reservation_id == id)

abbrev pub is_member_of : Option Member → ℕ → Bool
is_member_of none branch = false
is_member_of (some m) branch = m.branch_id == branch

abbrev pub new_reservation : Env → ℕ → ℕ → Bool → Reservation
new_reservation e member slot paid = record {
  id = e.reservation_id;
  member_id = member;
  schedule_slot_id = slot;
  status = if paid then ReservationStatus.requested else ReservationStatus.confirmed;
  created_at = e.now;
  cancelled_at = none;
  cancel_reason = none;
}

abbrev pub new_payment : Env → ℕ → ℕ → Payment
new_payment e member price = record {
  id = e.payment_id;
  reservation_id = e.reservation_id;
  member_id = member;
  amount = price;
  supply_amount = (split_vat price).0;
  vat = (split_vat price).1;
  status = PaymentStatus.pending;
  mock_approval_no = none;
  approved_at = none;
  refunded_at = none;
  created_at = e.now;
}

-- Reservation_memberId_scheduleSlotId_active_key
unfoldable pub insert_reservation : Reservation → Action (Unit {0})
insert_reservation r = do
  clash ← gets λ db. exists (active_of r.member_id r.schedule_slot_id) db.reservations
  throw_if (is_active r.status && clash) Code.unique_violation
  modify λ db. record db { reservations = db.reservations ++ r ∷ [] }

-- Payment_reservationId_key and Payment_amount_split_ck
unfoldable pub insert_payment : Payment → Action (Unit {0})
insert_payment p = do
  clash ← gets λ db. is_set (payment_of p.reservation_id db.payments)
  throw_if clash Code.unique_violation
  throw_if (not (p.supply_amount + p.vat == p.amount)) Code.check_violation
  modify λ db. record db { payments = db.payments ++ p ∷ [] }

-- What a reservation wants of its slot, in the order of the source.
unfoldable pub check_reservable : ℕ → ℕ → ℕ → Action (ScheduleSlot × Program)
check_reservable now member_id slot_id = do
  slot ← require_row (lock_schedule_slot slot_id) Code.slot_not_found
  program ← require_row (λ db. find (λ p. p.id == slot.program_id) db.programs) Code.row_missing
  throw_if (not (is_paid_session program.pricing_type)) Code.not_reservable
  throw_if (not (is_running program.status)) Code.program_not_running
  member ← gets λ db. find (λ m. m.id == member_id) db.members
  throw_if (not (is_member_of member program.branch_id)) Code.member_branch_mismatch
  branch ← gets (lock_branch_for_share program.branch_id)
  throw_if (is_branch_terminated branch) Code.branch_terminated
  throw_if (leb (kst_slot_start slot) now) Code.slot_already_started
  duplicate ← gets λ db. find (active_of member_id slot_id) db.reservations
  throw_if (is_set duplicate) Code.already_reserved
  booked ← gets λ db. count (books slot_id) db.reservations
  throw_if (leb slot.capacity booked) Code.slot_full
  pure (slot, program)

-- The transaction of `create`, up to the new reservation's id.
unfoldable pub create_body : Env → ℕ → ℕ → Action ℕ
create_body e member_id slot_id = do
  (slot, program) ← check_reservable e.now member_id slot_id
  insert_reservation (new_reservation e member_id slot_id (ltb 0 program.price))
  if ltb 0 program.price then insert_payment (new_payment e member_id program.price) else pure tt
  pure e.reservation_id

-- `withDuplicateGuard`: an index violation is reported as a duplicate.
abbrev pub guarded : Code → Code
guarded Code.unique_violation = Code.already_reserved
guarded c = c

abbrev pub as_duplicate : Result ℕ → Result ℕ
as_duplicate (err c) = err (guarded c)
as_duplicate (ok id) = ok id

unfoldable pub create : Env → ℕ → ℕ → Action ℕ
unfolding create_body
create e member_id slot_id db =
    let (r, db') = transaction (create_body e member_id slot_id) db in (as_duplicate r, db')

-- The effect of `updateMany`: how many rows pass, and the rows after it.
unfoldable pub update_reservations : (Reservation → Bool) → (Reservation → Reservation) → Action ℕ
update_reservations p f db =
    (ok (count p db.reservations), record db { reservations = update p f db.reservations })

unfoldable pub update_payments : (Payment → Bool) → (Payment → Payment) → Action ℕ
update_payments p f db = (ok (count p db.payments), record db { payments = update p f db.payments })

-- `changePayment`: the payment is changed only from the state that was read.
unfoldable pub change_payment : ℕ → (PaymentStatus → Bool) → (Payment → Payment) → Action (Unit {0})
unfolding update_payments
change_payment id from f = do
  changed ← update_payments (λ p. p.id == id && from p.status) f
  throw_if (changed == 0) Code.reservation_not_cancellable

abbrev pub fail_payment : Payment → Payment
fail_payment p = record p { status = PaymentStatus.failed }

abbrev pub refund_payment : ℕ → Payment → Payment
refund_payment now p = record p { status = PaymentStatus.refunded; refunded_at = some now }

-- Whether the slot is far enough ahead for a refund: 24 hours, or what the branch has set.
abbrev pub is_refundable : ℕ → ScheduleSlot → Branch → Bool
is_refundable now slot branch =
    leb (now + or_else branch.cancellation_deadline_hours 24 * 3600000) (kst_slot_start slot)

-- What a cancellation does to the payment that was read.
unfoldable pub settle : ℕ → ScheduleSlot → Branch → Option Payment → Action (Unit {0})
unfolding change_payment
settle now slot branch none = pure tt
settle now slot branch (some p) =
    if is_pending p.status
    then change_payment p.id is_pending fail_payment
    else if is_approved p.status && is_refundable now slot branch
    then change_payment p.id is_approved (refund_payment now)
    else pure tt

abbrev pub cancel_row : ℕ → Option String → Reservation → Reservation
cancel_row now reason r = record r {
  status = ReservationStatus.cancelled;
  cancelled_at = some now;
  cancel_reason = reason;
}

abbrev pub is_active_row : ℕ → Reservation → Bool
is_active_row id r = r.id == id && is_active r.status

unfoldable pub cancel_body : ℕ → ℕ → Option String → Action (Unit {0})
unfolding update_reservations
cancel_body now id reason = do
  r ← require_row (lock_reservation id) Code.reservation_not_found
  slot ← require_row (lock_schedule_slot r.schedule_slot_id) Code.row_missing
  program ← require_row (λ db. find (λ p. p.id == slot.program_id) db.programs) Code.row_missing
  branch ← require_row (lock_branch_for_share program.branch_id) Code.row_missing
  payment ← gets λ db. payment_of id db.payments
  changed ← update_reservations (is_active_row id) (cancel_row now reason)
  throw_if (changed == 0) Code.reservation_not_cancellable
  settle now slot branch payment

unfoldable pub cancel : ℕ → ℕ → Option String → Action (Unit {0})
unfolding cancel_body
cancel now id reason = transaction (cancel_body now id reason)

-- `approval` stands for the random approval number.
abbrev pub approve_payment : ℕ → ℕ → Payment → Payment
approve_payment now approval p = record p {
  supply_amount = (split_vat p.amount).0;
  vat = (split_vat p.amount).1;
  status = PaymentStatus.approved;
  mock_approval_no = some approval;
  approved_at = some now;
}

abbrev pub confirm_row : Reservation → Reservation
confirm_row r = record r { status = ReservationStatus.confirmed }

-- `mockPay` of payment.service.ts.
unfoldable pub mock_pay_body : ℕ → ℕ → ℕ → Action (Unit {0})
unfolding update_payments update_reservations
mock_pay_body now approval id = do
  require_row (lock_reservation id) Code.payment_not_pending
  payment ← require_row (λ db. payment_of id db.payments) Code.payment_not_pending
  throw_if (not (is_pending payment.status)) Code.payment_not_pending
  changed ←
      update_payments (λ p. p.id == payment.id && is_pending p.status)
        (approve_payment now approval)
  throw_if (changed == 0) Code.payment_not_pending
  confirmed ← update_reservations (λ r. r.id == id) confirm_row
  throw_if (confirmed == 0) Code.row_missing

unfoldable pub mock_pay : ℕ → ℕ → ℕ → Action (Unit {0})
unfolding mock_pay_body
mock_pay now approval id = transaction (mock_pay_body now approval id)

abbrev pub complete_row : Reservation → Reservation
complete_row r = record r { status = ReservationStatus.completed }

-- On the Korean day of the slot only. This is no transaction: the update is its one write.
unfoldable pub check_in : ℕ → ℕ → Action (Unit {0})
unfolding update_reservations
check_in now id = do
  r ← require_row (lock_reservation id) Code.reservation_not_found
  slot ← require_row (lock_schedule_slot r.schedule_slot_id) Code.row_missing
  throw_if (not (kst_day (slot.date * day_ms) == kst_day now)) Code.check_in_not_today
  changed ← update_reservations (λ r. r.id == id && is_confirmed r.status) complete_row
  throw_if (changed == 0) Code.reservation_not_confirmed
