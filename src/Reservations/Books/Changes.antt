-- ===== src/Reservations/Books/Changes.antt =====
-- What a cancellation, a payment and a check-in make of the books.
use sports_erp.Prelude.{
  ℕ, ◌<◌, ◌≡◌, refl, inl, inr, ◌⊎◌, Option, none, some, List, String, Bool, true, false, ◌==◌,
  arith, find, count, update, All, All-map, All-zip, All-update, Distinct, Distinct-update,
  Distinct-find, count-update-le, find_of_count, find-passes,
}
use sports_erp.Store.{Db}
use sports_erp.Store.Errors.{ok}
use sports_erp.Store.Branches.{ScheduleSlot, Program}
use sports_erp.Store.Members.{Reservation, Payment}
use sports_erp.Integrity.{lock_schedule_slot, lock_reservation, lock_branch_for_share, is_active}
use sports_erp.Reservations.{
  books, active_of, payment_of, is_refundable, cancel_row, is_active_row, cancel, settle,
}
use sports_erp.Reservations.Books.{Agrees, IsSplit, IsSound}
use sports_erp.Reservations.Books.Payments.{
  settled, payment_of-settled, settled-Distinct, settled-IsSplit,
}

-- Whether the slot of a reservation is far enough ahead for a refund.
abbrev pub refund_due_at : ℕ → ScheduleSlot → Db → Option Program → Bool
refund_due_at now s db none = false
refund_due_at now s db (some p) = elim (lock_branch_for_share p.branch_id db) [
  | none ↦ false
  | some b ↦ is_refundable now s b
]

abbrev pub refund_due : ℕ → ℕ → Db → Bool
refund_due now id db = elim (lock_reservation id db) [
  | none ↦ false
  | some r ↦ elim (lock_schedule_slot r.schedule_slot_id db) [
    | none ↦ false
    | some s ↦ refund_due_at now s db (find (λ p. p.id == s.program_id) db.programs)
  ]
]

abbrev pub cancelled_db : ℕ → ℕ → Option String → Db → Db
cancelled_db now id reason db = record db {
  reservations = update (is_active_row id) (cancel_row now reason) db.reservations;
  payments = settled now (refund_due now id db) (payment_of id db.payments) db.payments;
}

-- A cancellation either goes through with just this effect, or is refused and changes nothing.
pub cancel_lem :
    (now id : ℕ) (reason : Option String) (db : Db)
    → ((cancel now id reason db ≡ (ok tt, cancelled_db now id reason db))
        × (0 < count (is_active_row id) db.reservations))
      ⊎ ((cancel now id reason db).1 ≡ db)
unfolding cancel settle
cancel_lem now id reason db = ground arith

-- The rows after an update that keeps ids, members and slots and makes no row active: capacity and
-- single bookings stay.
module _ (db : Db) (p : Reservation → Bool) (f : Reservation → Reservation) (ps : List Payment)
    (P : Reservation → Type 0) (rows : All P db.reservations)
    (same : (r : Reservation)
      → ((f r).id ≡ r.id)
        × ((f r).member_id ≡ r.member_id)
        × ((f r).schedule_slot_id ≡ r.schedule_slot_id))
    (no_more : (r : Reservation)
      → P r
      → p r ≡ true
      → is_active (f r).status ≡ true
      → is_active r.status ≡ true) where
  abbrev pub changed_db : Db
  changed_db = record db { reservations = update p f db.reservations; payments = ps }

  pub changed-IsSound :
      All (Agrees changed_db) changed_db.reservations
      → Distinct (λ (q : Payment). q.id) ps
      → All IsSplit ps
      → IsSound db
      → IsSound changed_db
  changed-IsSound agreed ids split v = record {
    within_capacity = λ id s found. omega (
      arith,
      v.within_capacity id s found,
      count-update-le P (books id) p f db.reservations
          (λ r h t a. ground (arith, no_more r h t, same r)) rows,
    );
    single = λ m s. omega (
      arith,
      v.single m s,
      count-update-le P (active_of m s) p f db.reservations
          (λ r h t a. ground (arith, no_more r h t, same r)) rows,
    );
    agreed = agreed;
    reservation_ids =
        Distinct-update (λ (r : Reservation). r.id) p f db.reservations (λ r. (same r).0)
          v.reservation_ids;
    payment_ids = ids;
    split = split;
  }

module _ (now id : ℕ) (reason : Option String) (db : Db) (v : IsSound db)
    (active : 0 < count (is_active_row id) db.reservations) where
  -- The reservation that is cancelled is the only one of its id.
  abbrev Only : Reservation → Type 0
  Only r = r.id ≡ id → is_active r.status ≡ true

  only : All Only db.reservations
  only =
      let (x, e) = find_of_count (is_active_row id) db.reservations active in
      All-map (λ r. r.id ≡ x.id → r ≡ x) Only db.reservations
        (λ r h same. ground (arith, find-passes (is_active_row id) db.reservations x e, h))
        (Distinct-find (λ r. r.id) (is_active_row id) db.reservations x v.reservation_ids e)

  abbrev after : Db
  after = cancelled_db now id reason db

  cancelled-agreed : All (Agrees after) after.reservations
  cancelled-agreed =
      let paid = payment_of-settled now (refund_due now id db) db.payments id v.payment_ids in
      All-update (λ r. Only r × Agrees db r) (Agrees after) (is_active_row id)
        (cancel_row now reason) db.reservations (λ r t h. ground (arith, paid r.id, h.1, t))
        (λ r t h. ground (arith, paid r.id, h.1, h.0, t))
        (All-zip Only (Agrees db) db.reservations only v.agreed)

  cancelled-IsSound : IsSound after
  cancelled-IsSound =
      changed-IsSound db (is_active_row id) (cancel_row now reason) after.payments Only only
        (λ r. (refl, refl, refl)) (λ r h t a. cc) cancelled-agreed
        (settled-Distinct now (refund_due now id db) db.payments (payment_of id db.payments)
          v.payment_ids)
        (settled-IsSplit now (refund_due now id db) db.payments (payment_of id db.payments) v.split)
        v

-- A cancellation keeps the books sound, whatever its outcome.
pub cancel-IsSound :
    (now id : ℕ) (reason : Option String) (db : Db)
    → IsSound db
    → IsSound (cancel now id reason db).1
cancel-IsSound now id reason db v = elim (cancel_lem now id reason db) [
  | inl (done, active) ↦ rw done (cancelled-IsSound now id reason db v active)
  | inr same ↦ rw same v
]
