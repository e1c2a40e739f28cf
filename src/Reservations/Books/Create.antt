-- ===== src/Reservations/Books/Create.antt =====
-- A new reservation keeps the books sound.
use sports_erp.Prelude.{
  ◌&&◌, not, Option, exists, ◌⊎◌, is_set, Bool, ℕ, ◌+◌, ◌≤◌, ◌≡◌, ◌≢◌, refl, inl, inr, none, some,
  List, [], ◌∷◌, ◌++◌, true, false, ltb, ◌==◌, arith, find, All, All-append, All-map, All-zip,
  Distinct-append, Bool-cases, count-append, count-eq-zero, find-append_none, find-append_skip,
  exists-eq-false, if◌then◌else◌,
}
use sports_erp.Store.{Db}
use sports_erp.Store.Errors.{is_ok, Code, Result, ok, err}
use sports_erp.Store.Branches.{ScheduleSlot, Program}
use sports_erp.Store.Members.{Reservation, Payment}
use sports_erp.Integrity.{is_branch_terminated, lock_branch_for_share, lock_schedule_slot}
use sports_erp.Reservations.{
  kst_slot_start, is_member_of, is_running, guarded, is_paid_session, Env, books, active_of,
  new_reservation, new_payment, insert_reservation, insert_payment, check_reservable, create,
}
use sports_erp.Reservations.Vat.{split_vat-sum}
use sports_erp.Reservations.Books.{booked, Agrees, IsSplit, IsSound, IsFresh}

-- The program of a slot.
abbrev pub program_of : ℕ → Db → Option Program
program_of slot db = elim (lock_schedule_slot slot db) [
  | none ↦ none
  | some s ↦ find (λ p. p.id == s.program_id) db.programs
]

-- What the checks of `create` make sure of.
pub record IsAdmitted (member slot : ℕ) (db : Db) (s : ScheduleSlot) (p : Program) : Type 0 where
  pub priced : program_of slot db ≡ some p
  pub locked : lock_schedule_slot slot db ≡ some s
  pub no_duplicate : find (active_of member slot) db.reservations ≡ none
  pub has_room : booked slot db + 1 ≤ s.capacity

pub check_reservable-IsAdmitted :
    (now member slot : ℕ) (db db' : Db) (s : ScheduleSlot) (p : Program)
    → check_reservable now member slot db ≡ (ok (s, p), db')
    → IsAdmitted member slot db s p × (db' ≡ db)
unfolding check_reservable
check_reservable-IsAdmitted now member slot db db' s p h = ground arith

-- A refused request changes nothing.
check_reservable-err :
    (now member slot : ℕ) (db db' : Db) (c : Code)
    → check_reservable now member slot db ≡ (err c, db')
    → db' ≡ db
unfolding check_reservable
check_reservable-err now member slot db db' c h = ground arith

-- The database with the new reservation and, at a price, its payment.
abbrev pub opened : Env → ℕ → ℕ → ℕ → Db → Db
opened e member slot price db = record db {
  reservations = db.reservations ++ new_reservation e member slot (ltb 0 price) ∷ [];
  payments = if ltb 0 price then db.payments ++ new_payment e member price ∷ [] else db.payments;
}

-- Once the checks have passed, no constraint of the database refuses the new rows.
pub create-IsAdmitted :
    (e : Env) (member slot : ℕ) (db : Db) (s : ScheduleSlot) (p : Program)
    → IsFresh e db
    → check_reservable e.now member slot db ≡ (ok (s, p), db)
    → create e member slot db ≡ (ok e.reservation_id, opened e member slot p.price db)
unfolding create insert_reservation insert_payment
create-IsAdmitted e member slot db s p f h =
    let a = check_reservable-IsAdmitted e.now member slot db db s p h in
    ground (
      arith,
      f.unpaid,
      split_vat-sum p.price,
      exists-eq-false (active_of member slot) db.reservations a.0.no_duplicate,
    )

-- The rows that were there agree with their payments after one is added for another reservation.
Agrees-new_payment :
    (db : Db) (p : Payment) (rs : List Reservation)
    → All (λ r. r.id ≢ p.reservation_id) rs
    → All (Agrees db) rs
    → All (Agrees (record db { payments = db.payments ++ p ∷ [] })) rs
Agrees-new_payment db p rs new a =
    All-map (λ r. (r.id ≢ p.reservation_id) × Agrees db r)
      (Agrees (record db { payments = db.payments ++ p ∷ [] })) rs
      (λ r h.
        rw (find-append_skip (λ q. q.reservation_id == r.id) db.payments (p ∷ []) (ground arith))
          h.1)
      (All-zip (λ r. r.id ≢ p.reservation_id) (Agrees db) rs new a)

module _ (e : Env) (member slot price : ℕ) (db : Db) (s : ScheduleSlot) (p : Program) where
  opened-agreed :
      IsFresh e db
      → IsSound db
      → All (Agrees (opened e member slot price db)) (opened e member slot price db).reservations
  opened-agreed f v = elim (Bool-cases (ltb 0 price)) [
    | inl paid ↦ rw paid (
        All-append
          (Agrees (record db { payments = db.payments ++ new_payment e member price ∷ [] }))
          db.reservations (new_reservation e member slot true ∷ [])
          (Agrees-new_payment db (new_payment e member price) db.reservations f.new_reservation
            v.agreed)
          (
            ground (
              arith,
              find-append_none (λ q. q.reservation_id == e.reservation_id) db.payments
                  (new_payment e member price ∷ []) f.unpaid,
            ),
            tt,
          ))
    | inr free ↦ rw free (
        All-append (Agrees db) db.reservations (new_reservation e member slot false ∷ []) v.agreed
          (ground (arith, f.unpaid), tt))
  ]

  pub opened-IsSound :
      IsFresh e db
      → IsAdmitted member slot db s p
      → IsSound db
      → IsSound (opened e member slot price db)
  opened-IsSound f a v = record {
    within_capacity = λ id t found. ground (
      arith,
      v.within_capacity id t found,
      count-append (books id) db.reservations (new_reservation e member slot (ltb 0 price) ∷ []),
    );
    single = λ m t. ground (
      arith,
      v.single m t,
      count-eq-zero (active_of member slot) db.reservations a.no_duplicate,
      count-append (active_of m t) db.reservations
          (new_reservation e member slot (ltb 0 price) ∷ []),
    );
    agreed = opened-agreed f v;
    reservation_ids =
        Distinct-append (λ (r : Reservation). r.id) db.reservations
          (new_reservation e member slot (ltb 0 price)) v.reservation_ids f.new_reservation;
    payment_ids = elim (Bool-cases (ltb 0 price)) [
      | inl paid ↦ rw paid (
          Distinct-append (λ (p : Payment). p.id) db.payments (new_payment e member price)
            v.payment_ids f.new_payment)
      | inr free ↦ rw free v.payment_ids
    ];
    split = elim (Bool-cases (ltb 0 price)) [
      | inl paid ↦ rw paid (
          All-append IsSplit db.payments (new_payment e member price ∷ []) v.split
            (split_vat-sum price, tt))
      | inr free ↦ rw free v.split
    ];
  }

-- What a slot, a program, a member and a branch have to be like for a reservation.
abbrev pub is_reservable_in : ℕ → ℕ → ScheduleSlot → Program → Db → Bool
is_reservable_in now member s p db =
    is_paid_session p.pricing_type
    && is_running p.status
    && is_member_of (find (λ m. m.id == member) db.members) p.branch_id
    && not (is_branch_terminated (lock_branch_for_share p.branch_id db))
    && ltb now (kst_slot_start s)

abbrev pub is_reservable : ℕ → ℕ → ℕ → Db → Bool
is_reservable now member slot db = elim (lock_schedule_slot slot db) [
  | none ↦ false
  | some s ↦ elim (find (λ p. p.id == s.program_id) db.programs) [
    | none ↦ false
    | some p ↦
        is_reservable_in now member s p db
        && not (exists (active_of member slot) db.reservations)
        && ltb (booked slot db) s.capacity
  ]
]

-- A request that the checks refuse is answered with their error, and changes nothing.
pub create_refused :
    (e : Env) (member slot : ℕ) (db db' : Db) (c : Code)
    → check_reservable e.now member slot db ≡ (err c, db')
    → create e member slot db ≡ (err (guarded c), db)
unfolding create
create_refused e member slot db db' c h = ground arith

-- A new reservation, or a refused one, keeps the books sound.
pub create-IsSound :
    (e : Env) (member slot : ℕ) (db : Db)
    → IsFresh e db
    → IsSound db
    → IsSound (create e member slot db).1
create-IsSound e member slot db f v = go (check_reservable e.now member slot db) refl
  where
    go :
        (r : Result (ScheduleSlot × Program) × Db)
        → check_reservable e.now member slot db ≡ r
        → IsSound (create e member slot db).1
    go (err c, db') h = rw (create_refused e member slot db db' c h) v
    go (ok (s, p), db') h =
        let a = check_reservable-IsAdmitted e.now member slot db db' s p h in
        let done = create-IsAdmitted e member slot db s p f (rw a.1 at h) in
        rw done (opened-IsSound e member slot p.price db s p f a.0 v)

find-exists : (p : Reservation → Bool) (rs : List Reservation) → is_set (find p rs) ≡ exists p rs
find-exists p [] = refl
find-exists p (r ∷ rs) = ground (arith, find-exists p rs)

check_reservable_iff :
    (now member slot : ℕ) (db : Db)
    → is_ok (check_reservable now member slot db).0 ≡ is_reservable now member slot db
unfolding check_reservable
check_reservable_iff now member slot db =
    ground (arith, find-exists (active_of member slot) db.reservations)

-- With new identifiers, `create` succeeds exactly if the slot exists, its program is a running
-- paid-session program of the member's branch, the branch is not terminated, the slot has not
-- started, the member has no active reservation in it, and it has a free place. The new rows are
-- then the reservation, waiting for its payment at a price and confirmed without one, and at a
-- price the waiting payment of the program's price. A refused request changes nothing.
pub create_outcome :
    (e : Env) (member slot : ℕ) (db : Db)
    → IsFresh e db
    → ((is_reservable e.now member slot db ≡ true)
        × (p : Program) × (program_of slot db ≡ some p)
        × (create e member slot db ≡ (ok e.reservation_id, opened e member slot p.price db)))
      ⊎ ((is_reservable e.now member slot db ≡ false)
          × (c : Code) × (create e member slot db ≡ (err c, db)))
create_outcome e member slot db f = go (check_reservable e.now member slot db) refl
  where
    go :
        (r : Result (ScheduleSlot × Program) × Db)
        → check_reservable e.now member slot db ≡ r
        → ((is_reservable e.now member slot db ≡ true)
            × (p : Program) × (program_of slot db ≡ some p)
            × (create e member slot db ≡ (ok e.reservation_id, opened e member slot p.price db)))
          ⊎ ((is_reservable e.now member slot db ≡ false)
              × (c : Code) × (create e member slot db ≡ (err c, db)))
    go (err c, db') h = inr (
      ground (arith, h, check_reservable_iff e.now member slot db),
      guarded c,
      create_refused e member slot db db' c h,
    )
    go (ok (s, p), db') h =
        let a = check_reservable-IsAdmitted e.now member slot db db' s p h in
        inl (
          ground (arith, h, check_reservable_iff e.now member slot db),
          p,
          a.0.priced,
          create-IsAdmitted e member slot db s p f (rw a.1 at h),
        )
