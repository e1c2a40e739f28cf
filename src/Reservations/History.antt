-- ===== src/Reservations/History.antt =====
-- Histories of reservations: any sequence of calls on any reservations, by any clients.
use sports_erp.Prelude.{
  ◌+◌, ◌*◌, ◌<◌, ap, leb, inl, inr, Option-cases, ℕ, ◌≡◌, refl, Option, none, some, String, Bool,
  true, false, ◌==◌, arith, find, count, if◌then◌else◌, count-update_gone, is_set, find-update, ◌∙◌,
}
use sports_erp.Store.{Db}
use sports_erp.Store.Errors.{Code, ok, err}
use sports_erp.Store.Members.{Payment, PaymentStatus, Reservation}
use sports_erp.Store.Branches.{Branch, Program, ScheduleSlot}
use sports_erp.Integrity.{lock_reservation, lock_schedule_slot, lock_branch_for_share}
use sports_erp.Reservations.{
  Env, payment_of, is_pending, create, cancel, mock_pay, check_in, is_active_row, cancel_row,
  settle, approve_payment, is_refundable, kst_slot_start,
}
use sports_erp.Reservations.Books.{IsSound, IsFresh}
use sports_erp.Reservations.Books.Create.{create-IsSound}
use sports_erp.Reservations.Books.Payments.{settled_row, payment_of-settled}
use sports_erp.Reservations.Books.Changes.{cancelled_db, refund_due, cancel-IsSound}
use sports_erp.Reservations.Books.Pay.{
  mock_pay-ok, paid_for, paid_after, mock_pay-IsSound, mock_pay_refused, mock_pay_unpriced,
  check_in-IsSound,
}

-- One call, whether it succeeds or throws.
pub data Step (db db' : Db) : Type 0 where
  creates :
      (e : Env) (member slot : ℕ) → IsFresh e db → db' ≡ (create e member slot db).1 → Step db db'
  cancels : (now id : ℕ) (reason : Option String) → db' ≡ (cancel now id reason db).1 → Step db db'
  pays : (now approval id : ℕ) → db' ≡ (mock_pay now approval id db).1 → Step db db'
  checks_in : (now id : ℕ) → db' ≡ (check_in now id db).1 → Step db db'

pub data Reach (db : Db) : Db → Type 0 where
  here : Reach db db
  next : {db' db'' : Db} → Reach db db' → Step db' db'' → Reach db db''

Step-IsSound : (db db' : Db) → IsSound db → Step db db' → IsSound db'
Step-IsSound db db' v (creates e m s f q) = rw q (create-IsSound e m s db f v)
Step-IsSound db db' v (cancels now id reason q) = rw q (cancel-IsSound now id reason db v)
Step-IsSound db db' v (pays now a id q) = rw q (mock_pay-IsSound now a id db v)
Step-IsSound db db' v (checks_in now id q) = rw q (check_in-IsSound now id db v)

-- From a database in which it holds, after any sequence of reservations, cancellations, payments
-- and check-ins, failed ones included and with new identifiers for what is created, no slot has
-- more active reservations than places, no member has two in one slot, the ids of reservations
-- and of payments are distinct, every reservation's state agrees with its payment's, and every
-- payment's two parts make up its amount.
pub Reach-IsSound : {db db' : Db} → IsSound db → Reach db db' → IsSound db'
Reach-IsSound v here = v
Reach-IsSound v (next {db' = d} {db'' = d'} r s) = Step-IsSound d d' (Reach-IsSound v r) s

cancel-ok :
    (now id : ℕ) (reason : Option String) (db db' : Db)
    → cancel now id reason db ≡ (ok tt, db')
    → db' ≡ cancelled_db now id reason db
unfolding cancel settle
cancel-ok now id reason db db' h = ground arith

cancelled_payments :
    (now id : ℕ) (reason : Option String) (db db' : Db)
    → IsSound db
    → cancel now id reason db ≡ (ok tt, db')
    → (k : ℕ)
    → payment_of k db'.payments ≡ (
        if k == id
        then settled_row now (refund_due now id db) (payment_of id db.payments)
        else payment_of k db.payments)
cancelled_payments now id reason db db' v h k =
    rw (cancel-ok now id reason db db' h)
      (payment_of-settled now (refund_due now id db) db.payments id v.payment_ids k)

abbrev pub hours_ahead : Option ℕ → ℕ
hours_ahead none = 24
hours_ahead (some hours) = hours

-- Whether so many hours are left before the slot starts, at its Korean date and clock time: nine
-- hours later by the clock of Korea than by the universal one.
abbrev pub is_early : ℕ → ScheduleSlot → Option ℕ → Bool
is_early now s hours =
    leb (now + 9 * 3600000 + hours_ahead hours * 3600000)
      (s.date * 24 * 3600000 + s.start_time.0 * 3600000 + s.start_time.1 * 60000)

abbrev pub outcome : PaymentStatus → ℕ → Bool → Payment → Payment
outcome PaymentStatus.pending now early p = record p { status = PaymentStatus.failed }
outcome PaymentStatus.approved now early p =
    if early then record p { status = PaymentStatus.refunded; refunded_at = some now } else p
outcome PaymentStatus.failed now early p = p
outcome PaymentStatus.refunded now early p = p

-- What a cancellation has to make of the payment of a reservation.
abbrev pub payment_then : ℕ → Bool → Option Payment → Option Payment
payment_then now early none = none
payment_then now early (some p) = some (outcome p.status now early p)

settled_row-payment_then :
    (now : ℕ) (early : Bool) (o : Option Payment)
    → settled_row now early o ≡ payment_then now early o
settled_row-payment_then now early none = refl
settled_row-payment_then now early (some p) = ground arith

is_refundable-is_early :
    (now : ℕ) (s : ScheduleSlot) (b : Branch)
    → 0 < now
    → is_refundable now s b ≡ is_early now s b.cancellation_deadline_hours
unfolding kst_slot_start
is_refundable-is_early now s b h = elim (Option-cases b.cancellation_deadline_hours) [
  | inl n ↦ ground (arith, h, n)
  | inr (hours, n) ↦ ground (arith, h, n)
]

-- In a sound database, a cancellation that goes through sets a waiting payment of its reservation
-- to failed, sets an approved one to refunded, with the time of the call, exactly if the start of
-- the slot, at its date and clock time in Korea, is at least the branch's number of hours away
-- (24 if it sets none), and leaves any other payment as it is, of this reservation or of another.
-- The reservation, its slot, program and branch are those with their ids, and the time of the
-- call is not the very first.
pub cancel_settles :
    (now id : ℕ) (reason : Option String) (db db' : Db) (r : Reservation) (s : ScheduleSlot)
    (p : Program) (b : Branch)
    → 0 < now
    → IsSound db
    → find (λ x. x.id == id) db.reservations ≡ some r
    → find (λ x. x.id == r.schedule_slot_id) db.slots ≡ some s
    → find (λ x. x.id == s.program_id) db.programs ≡ some p
    → find (λ x. x.id == p.branch_id) db.branches ≡ some b
    → cancel now id reason db ≡ (ok tt, db')
    → (k : ℕ)
    → payment_of k db'.payments ≡ (
        if k == id
        then payment_then now
            (is_early now s b.cancellation_deadline_hours)
            (payment_of id db.payments)
        else payment_of k db.payments)
cancel_settles now id reason db db' r s p b pos v hr hs hp hb h k =
    let due : refund_due now id db ≡ is_early now s b.cancellation_deadline_hours =
      ground (arith, hr, hs, hp, hb) ∙ is_refundable-is_early now s b pos in
    cancelled_payments now id reason db db' v h k
    ∙ ap (λ o. if k == id then o else payment_of k db.payments)
        (ap (λ d. settled_row now d (payment_of id db.payments)) due
          ∙ settled_row-payment_then now (is_early now s b.cancellation_deadline_hours)
              (payment_of id db.payments))

-- In a sound database, a payment that goes through was waiting; it is approved, the payments of
-- the other reservations stay as they were, and whoever pays for the reservation again is refused
-- and changes nothing.
pub mock_pay_once :
    (now now' approval approval' id : ℕ) (db db' : Db)
    → IsSound db
    → mock_pay now approval id db ≡ (ok tt, db')
    → (p : Payment) × (payment_of id db.payments ≡ some p)
      × (is_pending p.status ≡ true)
      × ((k : ℕ)
          → payment_of k db'.payments
            ≡ (if k == id then some (approve_payment now approval p) else payment_of k db.payments))
      × (mock_pay now' approval' id db' ≡ (err Code.payment_not_pending, db'))
mock_pay_once now now' a a' id db db' v h =
    let (p, found, ready, e) = mock_pay-ok now a id db db' h in
    (
      p,
      found,
      ready,
      λ k. rw e (paid_for now a id db v p found ready k),
      rw e (paid_after now a id db v p found ready now' a'),
    )

-- Whether there is a reservation, with its slot, program and branch.
abbrev is_found : ℕ → Db → Bool
is_found id db = elim (lock_reservation id db) [
  | none ↦ false
  | some r ↦ elim (lock_schedule_slot r.schedule_slot_id db) [
    | none ↦ false
    | some s ↦ elim (find (λ p. p.id == s.program_id) db.programs) [
      | none ↦ false
      | some p ↦ is_set (lock_branch_for_share p.branch_id db)
    ]
  ]
]

-- A cancellation that went through has found what it looks up.
cancel-found :
    (now id : ℕ) (reason : Option String) (db db' : Db)
    → cancel now id reason db ≡ (ok tt, db')
    → is_found id db ≡ true
unfolding cancel settle
cancel-found now id reason db db' h = ground arith

cancel_inactive :
    (now id : ℕ) (reason : Option String) (db : Db)
    → is_found id db ≡ true
    → count (is_active_row id) db.reservations ≡ 0
    → cancel now id reason db ≡ (err Code.reservation_not_cancellable, db)
unfolding cancel
cancel_inactive now id reason db found none_left = ground arith

is_found-cancelled :
    (now id : ℕ) (reason : Option String) (db : Db)
    → is_found id (cancelled_db now id reason db) ≡ is_found id db
is_found-cancelled now id reason db = ground (
  arith,
  find-update (λ r. r.id == id) (is_active_row id) (cancel_row now reason) db.reservations
      (λ r. refl),
)

cancel_again :
    (now now' id : ℕ) (reason reason' : Option String) (db : Db)
    → is_found id db ≡ true
    → cancel now' id reason' (cancelled_db now id reason db)
      ≡ (err Code.reservation_not_cancellable, cancelled_db now id reason db)
cancel_again now now' id reason reason' db found =
    cancel_inactive now' id reason' (cancelled_db now id reason db)
      (is_found-cancelled now id reason db ∙ found)
      (count-update_gone (is_active_row id) (cancel_row now reason) db.reservations
        (λ r t. ground arith))

settled_unpayable :
    (now now' approval id : ℕ) (due : Bool) (o : Option Payment) (db : Db)
    → payment_of id db.payments ≡ settled_row now due o
    → mock_pay now' approval id db ≡ (err Code.payment_not_pending, db)
settled_unpayable now now' a id due none db h = mock_pay_unpriced now' a id db h
settled_unpayable now now' a id due (some p) db h = mock_pay_refused now' a id db _ h (ground arith)

-- In a sound database, a reservation whose cancellation has gone through can right after neither
-- be cancelled again nor be paid for: both calls are refused and change nothing.
pub cancel_once :
    (now now' id : ℕ) (reason reason' : Option String) (db db' : Db)
    → IsSound db
    → cancel now id reason db ≡ (ok tt, db')
    → (cancel now' id reason' db' ≡ (err Code.reservation_not_cancellable, db'))
      × ((approval : ℕ) → mock_pay now' approval id db' ≡ (err Code.payment_not_pending, db'))
cancel_once now now' id reason reason' db db' v h =
    let e = cancel-ok now id reason db db' h in
    (
      rw e (cancel_again now now' id reason reason' db (cancel-found now id reason db db' h)),
      λ a.
          settled_unpayable now now' a id (refund_due now id db) (payment_of id db.payments) db'
            (cancelled_payments now id reason db db' v h id ∙ ground arith),
    )
