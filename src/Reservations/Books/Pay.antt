-- ===== src/Reservations/Books/Pay.antt =====
-- What a payment and a check-in make of the books.
use sports_erp.Prelude.{
  ℕ, ◌≡◌, refl, inl, inr, ◌⊎◌, none, some, Bool, true, false, ◌==◌, ◌&&◌, arith, update, All-update,
  Distinct-update, Bool-cases, Option-cases, update_none, if◌then◌else◌,
}
use sports_erp.Store.{Db}
use sports_erp.Store.Errors.{Code, ok, err}
use sports_erp.Store.Members.{Reservation, Payment}
use sports_erp.Reservations.{
  payment_of, is_pending, is_confirmed, mock_pay, approve_payment, confirm_row, complete_row,
  check_in,
}
use sports_erp.Reservations.Vat.{split_vat-sum}
use sports_erp.Reservations.Books.{Agrees, IsSplit, IsSound}
use sports_erp.Reservations.Books.Payments.{paid_row, payment_of-update}
use sports_erp.Reservations.Books.Changes.{changed-IsSound}

abbrev pub is_confirmed_row : ℕ → Reservation → Bool
is_confirmed_row id r = r.id == id && is_confirmed r.status

abbrev pub paid_db : ℕ → ℕ → ℕ → Payment → Db → Db
paid_db now approval id p db = record db {
  payments = update (paid_row p.id is_pending) (approve_payment now approval) db.payments;
  reservations = update (λ r. r.id == id) confirm_row db.reservations;
}

mock_pay_pending :
    (now approval id : ℕ) (db : Db) (p : Payment)
    → payment_of id db.payments ≡ some p
    → (mock_pay now approval id db ≡ (ok tt, paid_db now approval id p db))
      ⊎ ((mock_pay now approval id db).1 ≡ db)
unfolding mock_pay
mock_pay_pending now approval id db p e = ground arith

-- A payment that is not waiting is refused.
pub mock_pay_refused :
    (now approval id : ℕ) (db : Db) (p : Payment)
    → payment_of id db.payments ≡ some p
    → is_pending p.status ≡ false
    → mock_pay now approval id db ≡ (err Code.payment_not_pending, db)
unfolding mock_pay
mock_pay_refused now approval id db p e t = ground arith

pub mock_pay_unpriced :
    (now approval id : ℕ) (db : Db)
    → payment_of id db.payments ≡ none
    → mock_pay now approval id db ≡ (err Code.payment_not_pending, db)
unfolding mock_pay
mock_pay_unpriced now approval id db e = ground arith

unfoldable pub checked_in : ℕ → Db → Db
checked_in id db = record db {
  reservations = update (is_confirmed_row id) complete_row db.reservations;
}

-- A check-in changes the one confirmed row or, if there is none, nothing.
pub check_in_lem :
    (now id : ℕ) (db : Db)
    → (check_in now id db ≡ (ok tt, checked_in id db)) ⊎ ((check_in now id db).1 ≡ db)
unfolding check_in checked_in
check_in_lem now id db =
    ground (arith, update_none (is_confirmed_row id) complete_row db.reservations)

module _ (now approval id : ℕ) (db : Db) (v : IsSound db) (p : Payment)
    (found : payment_of id db.payments ≡ some p) (ready : is_pending p.status ≡ true) where
  abbrev after : Db
  after = paid_db now approval id p db

  pub paid_for :
      (k : ℕ)
      → payment_of k after.payments
        ≡ (if k == id then some (approve_payment now approval p) else payment_of k db.payments)
  paid_for k =
      payment_of-update db.payments id p is_pending (approve_payment now approval) v.payment_ids
        found ready (λ q. refl) k

  paid-IsSound : IsSound after
  paid-IsSound =
      changed-IsSound db (λ r. r.id == id) confirm_row after.payments (Agrees db) v.agreed
        (λ r. (refl, refl, refl)) (λ r h t a. ground (arith, found, ready, t, h))
        (All-update (Agrees db) (Agrees after) (λ r. r.id == id) confirm_row db.reservations
          (λ r t h. ground (arith, paid_for r.id, t)) (λ r t h. ground (arith, paid_for r.id, t, h))
          v.agreed)
        (Distinct-update (λ (q : Payment). q.id) (paid_row p.id is_pending)
          (approve_payment now approval) db.payments (λ q. refl) v.payment_ids)
        (All-update IsSplit IsSplit (paid_row p.id is_pending) (approve_payment now approval)
          db.payments (λ q t h. split_vat-sum q.amount) (λ q t h. h) v.split)
        v

  pub paid_after :
      (now' approval' : ℕ)
      → mock_pay now' approval' id after ≡ (err Code.payment_not_pending, after)
  paid_after now' a' =
      mock_pay_refused now' a' id after (approve_payment now approval p)
        (ground (arith, paid_for id)) refl

-- What a payment that went through has found and done.
pub mock_pay-ok :
    (now approval id : ℕ) (db db' : Db)
    → mock_pay now approval id db ≡ (ok tt, db')
    → (p : Payment) × (payment_of id db.payments ≡ some p)
      × (is_pending p.status ≡ true)
      × (db' ≡ paid_db now approval id p db)
unfolding mock_pay
mock_pay-ok now approval id db db' h = elim (Option-cases (payment_of id db.payments)) [
  | inl e ↦ absurd (ground (arith, e))
  | inr (p, e) ↦ (p, e, ground (arith, e), ground (arith, e))
]

-- A payment keeps the books sound, whatever its outcome.
pub mock_pay-IsSound :
    (now approval id : ℕ) (db : Db) → IsSound db → IsSound (mock_pay now approval id db).1
mock_pay-IsSound now approval id db v = elim (Option-cases (payment_of id db.payments)) [
  | inl e ↦ rw (mock_pay_unpriced now approval id db e) v
  | inr (p, e) ↦ elim (Bool-cases (is_pending p.status)) [
    | inl t ↦ elim (mock_pay_pending now approval id db p e) [
      | inl done ↦ rw done (paid-IsSound now approval id db v p e t)
      | inr same ↦ rw same v
    ]
    | inr t ↦ rw (mock_pay_refused now approval id db p e t) v
  ]
]

-- A check-in keeps the books sound, whatever its outcome.
pub check_in-IsSound : (now id : ℕ) (db : Db) → IsSound db → IsSound (check_in now id db).1
unfolding checked_in
check_in-IsSound now id db v = elim (check_in_lem now id db) [
  | inl done ↦ rw done (
      changed-IsSound db (is_confirmed_row id) complete_row db.payments (Agrees db) v.agreed
        (λ r. (refl, refl, refl)) (λ r h t a. cc)
        (All-update (Agrees db) (Agrees db) (is_confirmed_row id) complete_row db.reservations
          (λ r t h. ground (arith, t, h)) (λ r t h. h) v.agreed)
        v.payment_ids v.split v)
  | inr same ↦ rw same v
]
