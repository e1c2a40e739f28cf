-- ===== src/Reservations/Tests.antt =====
-- A branch with a paid slot of one place and a free one, and calls on them.
use sports_erp.Reservations.Books.Pay.{mock_pay-IsSound, paid_db}
use sports_erp.Prelude.{
  ◌*◌, ◌/◌, ◌+◌, ◌≤◌, ap, ◌≡◌, refl, none, some, [], ◌∷◌, true, arith, if◌then◌else◌, ◌==◌, ℕ, ◌⊎◌,
  false,
}
use sports_erp.Reservations.Vat.{split_vat, split_vat_exact}
use sports_erp.Store.{Db, empty_db}
use sports_erp.Store.Errors.{Code, ok, err}
use sports_erp.Store.Branches.{
  Branch, Program, ScheduleSlot, ContractStatus, PricingType, AgeGroup, ProgramStatus,
}
use sports_erp.Store.Members.{Member, MemberStatus, Payment, Reservation}
use sports_erp.Reservations.{
  insert_payment, new_payment, kst_slot_start, insert_reservation, check_reservable, split_vat,
  confirm_row, new_reservation, settle, Env, create, cancel, mock_pay, payment_of, is_pending,
  approve_payment,
}
use sports_erp.Reservations.Books.{IsSound, IsFresh}
use sports_erp.Reservations.Books.Create.{
  create-IsSound, create_outcome, is_reservable, program_of, opened,
}
use sports_erp.Reservations.Books.Changes.{cancelled_db}
use sports_erp.Reservations.History.{
  here, next, creates, cancels, pays, Reach-IsSound, cancel_settles, payment_then, is_early,
  mock_pay_once, cancel_once,
}

abbrev branch : Branch
branch = record {
  id = 1;
  name = "Seocho";
  code = 83 ∷ [];
  region = "Seoul";
  standard_check_in_time = none;
  cancellation_deadline_hours = none;
  contract_status = ContractStatus.active;
}

abbrev swimming : Program
swimming = record {
  id = 10;
  branch_id = 1;
  name = "Swimming";
  price = 11000;
  pricing_type = PricingType.paid_session;
  status = ProgramStatus.running;
  facility_id = none;
  instructor_id = none;
  category = "swimming";
  age_group = AgeGroup.all;
  description = none;
  capacity = some 1;
  start_date = 90;
  end_date = none;
}

abbrev slot : ScheduleSlot
slot = record {
  id = 100;
  program_id = 10;
  date = 100;
  start_time = (10, 0);
  end_time = (11, 0);
  capacity = 1;
}

abbrev member : ℕ → Member
member id = record {
  id = id;
  account_id = none;
  branch_id = 1;
  assigned_staff_id = none;
  member_no = id ∷ [];
  name = "Kim";
  phone = none;
  birth_date = none;
  gender = none;
  joined_at = 1;
  status = MemberStatus.active;
  guardian_consent = false;
  memo = none;
}

abbrev start : Db
start = record empty_db {
  branches = branch ∷ [];
  programs = swimming ∷ [];
  slots = slot ∷ [];
  members = member 7 ∷ member 8 ∷ [];
}

abbrev first : Env
first = record { now = 0; reservation_id = 1000; payment_id = 2000 }

abbrev booked : Db
booked = opened first 7 100 11000 start

abbrev paid : Db
paid = paid_db 5 77 1000 (new_payment first 7 11000) booked

create-first : create first 7 100 start ≡ (ok 1000, booked)
unfolding create check_reservable insert_reservation insert_payment kst_slot_start split_vat
create-first = refl

-- The one place is taken.
create_second :
    create (record { now = 1; reservation_id = 1001; payment_id = 2001 }) 8 100 booked
    ≡ (err Code.slot_full, booked)
unfolding create check_reservable insert_reservation insert_payment kst_slot_start split_vat
create_second = refl

pay_first : mock_pay 5 77 1000 booked ≡ (ok tt, paid)
unfolding mock_pay split_vat
pay_first = refl

start-IsSound : IsSound start
start-IsSound = record {
  within_capacity = λ id s e. omega arith;
  single = λ m s. omega arith;
  agreed = tt;
  reservation_ids = tt;
  payment_ids = tt;
  split = tt;
}

first-IsFresh : IsFresh first start
first-IsFresh = record { new_reservation = tt; new_payment = tt; unpaid = refl }

booked-IsSound : IsSound booked
booked-IsSound =
    rw (ap (λ r. r.1) create-first) at
      (create-IsSound first 7 100 start first-IsFresh start-IsSound)

paid-IsSound : IsSound paid
paid-IsSound = rw (ap (λ r. r.1) pay_first) at (mock_pay-IsSound 5 77 1000 booked booked-IsSound)

cancel-paid : cancel 6 1000 none paid ≡ (ok tt, cancelled_db 6 1000 none paid)
unfolding cancel settle kst_slot_start
cancel-paid = refl

Reach-IsSound_example :
    IsSound (cancel 6 1000 none (mock_pay 5 77 1000 (create first 7 100 start).1).1).1
Reach-IsSound_example =
    Reach-IsSound {db = start}
      {db' = (cancel 6 1000 none (mock_pay 5 77 1000 (create first 7 100 start).1).1).1}
      start-IsSound
      (next (next (next here (creates first 7 100 first-IsFresh refl)) (pays 5 77 1000 refl))
        (cancels 6 1000 none refl))

create_outcome_example :
    ((is_reservable 0 7 100 start ≡ true)
      × (p : Program) × (program_of 100 start ≡ some p)
      × (create first 7 100 start ≡ (ok 1000, opened first 7 100 p.price start)))
    ⊎ ((is_reservable 0 7 100 start ≡ false)
        × (c : Code) × (create first 7 100 start ≡ (err c, start)))
create_outcome_example = create_outcome first 7 100 start first-IsFresh

abbrev kept : Reservation
kept = confirm_row (new_reservation first 7 100 true)

-- The slot is ten hours of Korean time into day 100, so the payment is refunded.
cancel_settles_example : payment_of 1000 (cancelled_db 6 1000 none paid).payments ≡ (
    if 1000 == 1000
    then payment_then 6 (is_early 6 slot none) (payment_of 1000 paid.payments)
    else payment_of 1000 paid.payments)
cancel_settles_example =
    cancel_settles 6 1000 none paid (cancelled_db 6 1000 none paid) kept slot swimming branch
      (omega arith) paid-IsSound refl refl refl refl cancel-paid 1000

early_enough : is_early 6 slot none ≡ true
early_enough = refl

mock_pay_once_example :
    (p : Payment) × (payment_of 1000 booked.payments ≡ some p)
    × (is_pending p.status ≡ true)
    × ((k : ℕ)
        → payment_of k paid.payments
          ≡ (if k == 1000 then some (approve_payment 5 77 p) else payment_of k booked.payments))
    × (mock_pay 9 78 1000 paid ≡ (err Code.payment_not_pending, paid))
mock_pay_once_example = mock_pay_once 5 9 77 78 1000 booked paid booked-IsSound pay_first

cancel_once_example :
    (cancel 8 1000 none (cancelled_db 6 1000 none paid)
      ≡ (err Code.reservation_not_cancellable, cancelled_db 6 1000 none paid))
    × ((approval : ℕ)
        → mock_pay 8 approval 1000 (cancelled_db 6 1000 none paid)
          ≡ (err Code.payment_not_pending, cancelled_db 6 1000 none paid))
cancel_once_example =
    cancel_once 6 8 1000 none none paid (cancelled_db 6 1000 none paid) paid-IsSound cancel-paid

split_vat_exact_example :
    ((split_vat 11000).0 ≡ (20 * 11000 + 11) / 22)
    × (10 * (split_vat 11000).1 ≤ (split_vat 11000).0 + 5)
    × ((split_vat 11000).0 ≤ 10 * (split_vat 11000).1 + 5)
split_vat_exact_example = split_vat_exact 11000 (omega arith)
