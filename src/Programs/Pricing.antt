-- ===== src/Programs/Pricing.antt =====
-- What the price and the places of a program have to do with its pricing type.
use sports_erp.Prelude.{
  ltb→lt, or_else, ◌⊎◌, ℕ, ◌≡◌, ◌<◌, refl, subst, Option, none, some, [], ◌∷◌, ◌++◌, Bool, true,
  false, not, ◌&&◌, ◌==◌, inl, inr, Bool-cases, Option-cases, find, exists, All, All-append,
  All-update, arith, passes, ltb,
}
use sports_erp.Store.{Db}
use sports_erp.Store.Errors.{Code, ok, err}
use sports_erp.Store.Branches.{Program, PricingType, ProgramStatus}
use sports_erp.Programs.{
  data_of, new_slot, or_capacity, given, ProgramInput, ProgramPatch, ProgramData, SlotInput, create,
  new_program, check_update, write_update, patched, write_status, moved, is_still, check_status,
  create_slot, is_paid, is_free, has_places, normalize_price, normalize_capacity,
  assert_instructor_in_branch, assert_facility_in_branch, assert_capacity_for_pricing_type,
}

-- Free access has no price and no places; a session that is paid for has places.
abbrev pub PricedAs : PricingType → ℕ → Option ℕ → Type 0
PricedAs type price capacity =
    (is_free type ≡ true → (price ≡ 0) × (capacity ≡ none))
    × (is_paid type ≡ true → has_places capacity ≡ true)

abbrev pub IsPriced : Program → Type 0
IsPriced p = PricedAs p.pricing_type p.price p.capacity

-- An update and a change of status write what was checked at any time before.
pub data Step : Db → Db → Type 0 where
  creates : (new branch : ℕ) (i : ProgramInput) (db : Db) → Step db (create new branch i db).1
  updates :
      (id : ℕ) (i : ProgramPatch) (d : ProgramData) (seen db : Db)
      → check_update id i seen ≡ (ok d, seen)
      → Step db (write_update id d db).1
  changes_status :
      (id : ℕ) (status current : ProgramStatus) (seen db : Db)
      → check_status id status seen ≡ (ok current, seen)
      → Step db (write_status id status current db).1
  creates_slot :
      (new program : ℕ) (i : SlotInput) (db : Db) → Step db (create_slot new program i db).1

pub data Reach (start : Db) : Db → Type 0 where
  begin : Reach start start
  step : (db db' : Db) → Reach start db → Step db db' → Reach start db'

-- Every program is priced as its type demands, and every slot has a place.
pub record IsSellable (db : Db) : Type 0 where
  pub priced : All IsPriced db.programs
  pub open_slots : All (λ s. 0 < s.capacity) db.slots

normalized-PricedAs :
    (type : PricingType) (price : ℕ) (capacity : Option ℕ)
    → (is_paid type && not (has_places capacity)) ≡ false
    → PricedAs type (normalize_price type price) (normalize_capacity type capacity)
unfolding normalize_price normalize_capacity
normalized-PricedAs PricingType.free_access price capacity h =
    ((λ _. (refl, refl)), λ q. absurd (ground (arith, q)))
normalized-PricedAs PricingType.paid_session price capacity h =
    ((λ q. absurd (ground (arith, q))), λ q. ground (arith, h, q))
normalized-PricedAs PricingType.pt_package price capacity h =
    ((λ q. absurd (ground (arith, q))), λ q. absurd (ground (arith, q)))

-- The checks read and do not write.
instructor_checked :
    (o : Option ℕ) (branch : ℕ) (db : Db)
    → (assert_instructor_in_branch o branch db ≡ (ok tt, db))
      ⊎ (assert_instructor_in_branch o branch db ≡ (err Code.instructor_branch_mismatch, db))
unfolding assert_instructor_in_branch
instructor_checked none branch db = inl refl
instructor_checked (some id) branch db =
    elim (Bool-cases
      (passes (λ i. i.branch_id == branch) (find (λ i. i.id == id) db.instructors))) [
        | inl t ↦ inl (ground (arith, t))
        | inr f ↦ inr (ground (arith, f))
      ]

facility_checked :
    (o : Option ℕ) (branch : ℕ) (db : Db)
    → (assert_facility_in_branch o branch db ≡ (ok tt, db))
      ⊎ (assert_facility_in_branch o branch db ≡ (err Code.facility_branch_mismatch, db))
unfolding assert_facility_in_branch
facility_checked none branch db = inl refl
facility_checked (some id) branch db =
    elim (Bool-cases (passes (λ f. f.branch_id == branch) (find (λ f. f.id == id) db.facilities))) [
      | inl t ↦ inl (ground (arith, t))
      | inr f ↦ inr (ground (arith, f))
    ]

module _ (new branch : ℕ) (i : ProgramInput) (db : Db) where
  abbrev pub lacks : Bool
  lacks = is_paid i.pricing_type && not (has_places i.capacity)

  pub created :
      ((create new branch i db).1 ≡ db)
      ⊎ ((lacks ≡ false)
          × ((create new branch i db).1
              ≡ record db { programs = db.programs ++ new_program new branch i ∷ [] }))
  unfolding create assert_capacity_for_pricing_type
  created = elim (instructor_checked i.instructor_id branch db) [
    | inr e ↦ inl (ground (arith, e))
    | inl e ↦ elim (facility_checked i.facility_id branch db) [
      | inr f ↦ inl (ground (arith, e, f))
      | inl f ↦ elim (Bool-cases lacks) [
        | inl l ↦ inl (ground (arith, e, f, l))
        | inr l ↦ inr (l, ground (arith, e, f, l))
      ]
    ]
  ]

  create-IsSellable : IsSellable db → IsSellable (create new branch i db).1
  create-IsSellable s = elim created [
    | inl e ↦ rw e s
    | inr (l, e) ↦ rw e (record {
      priced =
          All-append IsPriced db.programs (new_program new branch i ∷ []) s.priced
            (normalized-PricedAs i.pricing_type i.price i.capacity l, tt);
      open_slots = s.open_slots;
    })
  ]

-- What is written of an update that was checked fits its type.
checked-PricedAs :
    (id : ℕ) (i : ProgramPatch) (d : ProgramData) (seen : Db)
    → check_update id i seen ≡ (ok d, seen)
    → PricedAs d.pricing_type d.price d.capacity
unfolding check_update assert_capacity_for_pricing_type
checked-PricedAs id i d seen h = elim (Option-cases (find (λ p. p.id == id) seen.programs)) [
  | inl e ↦ absurd (ground (arith, h, e))
  | inr (p, e) ↦ elim (instructor_checked (given i.instructor_id) p.branch_id seen) [
    | inr f ↦ absurd (ground (arith, h, e, f))
    | inl f ↦ elim (facility_checked (given i.facility_id) p.branch_id seen) [
      | inr g ↦ absurd (ground (arith, h, e, f, g))
      | inl g ↦
          let type : PricingType = or_else i.pricing_type p.pricing_type in
          let capacity : Option ℕ = or_capacity i.capacity p.capacity in
          elim (Bool-cases (is_paid type && not (has_places capacity))) [
            | inl l ↦ absurd (ground (arith, h, e, f, g, l))
            | inr l ↦
                let same : data_of i p ≡ d = ground (arith, h, e, f, g, l) in
                subst (λ d. PricedAs d.pricing_type d.price d.capacity) same
                  (normalized-PricedAs type (or_else i.price p.price) capacity l)
          ]
    ]
  ]
]

write_update-IsSellable :
    (id : ℕ) (d : ProgramData) (db : Db)
    → PricedAs d.pricing_type d.price d.capacity
    → IsSellable db
    → IsSellable (write_update id d db).1
unfolding write_update
write_update-IsSellable id d db fits s = elim (Bool-cases (exists (λ p. p.id == id) db.programs)) [
  | inr f ↦ rw f s
  | inl t ↦ rw t (record {
    priced =
        All-update IsPriced IsPriced (λ p. p.id == id) (patched d) db.programs (λ p _ _. fits)
          (λ p _ q. q) s.priced;
    open_slots = s.open_slots;
  })
]

write_status-IsSellable :
    (id : ℕ) (status current : ProgramStatus) (db : Db)
    → IsSellable db
    → IsSellable (write_status id status current db).1
unfolding write_status
write_status-IsSellable id status current db s = record {
  priced =
      All-update IsPriced IsPriced (is_still id current) (moved status) db.programs (λ p _ q. q)
        (λ p _ q. q) s.priced;
  open_slots = s.open_slots;
}

module _ (new program : ℕ) (i : SlotInput) (db : Db) where
  pub slot_created :
      ((create_slot new program i db).1 ≡ db)
      ⊎ ((c : ℕ) × (0 < c)
          × ((create_slot new program i db).1
              ≡ record db { slots = db.slots ++ new_slot new program c i ∷ [] }))
  unfolding create_slot
  slot_created = elim (Option-cases (find (λ p. p.id == program) db.programs)) [
    | inl e ↦ inl (ground (arith, e))
    | inr (p, e) ↦ elim (Bool-cases (is_paid p.pricing_type)) [
      | inr f ↦ inl (ground (arith, e, f))
      | inl t ↦ elim (Option-cases (or_capacity i.capacity p.capacity)) [
        | inl n ↦ inl (ground (arith, e, t, n))
        | inr (c, n) ↦ elim (Bool-cases (ltb 0 c)) [
          | inr z ↦ inl (ground (arith, e, t, n, z))
          | inl z ↦ inr (c, ltb→lt 0 c z, ground (arith, e, t, n, z))
        ]
      ]
    ]
  ]

  create_slot-IsSellable : IsSellable db → IsSellable (create_slot new program i db).1
  create_slot-IsSellable s = elim slot_created [
    | inl e ↦ rw e s
    | inr (c, z, e) ↦ rw e (record {
      priced = s.priced;
      open_slots =
          All-append (λ s. 0 < s.capacity) db.slots (new_slot new program c i ∷ []) s.open_slots
            (z, tt);
    })
  ]

Step-IsSellable : {db db' : Db} → Step db db' → IsSellable db → IsSellable db'
Step-IsSellable (Step.creates new branch i db) s = create-IsSellable new branch i db s
Step-IsSellable (Step.updates id i d seen db h) s =
    write_update-IsSellable id d db (checked-PricedAs id i d seen h) s
Step-IsSellable (Step.changes_status id status current seen db h) s =
    write_status-IsSellable id status current db s
Step-IsSellable (Step.creates_slot new program i db) s = create_slot-IsSellable new program i db s

-- If it is so at first, then after any sequence of creations of programs and slots and of writes
-- of updates and of changes of status, whenever their checks were made, a program with free
-- access has the price zero and no number of places, one with paid sessions has at least one
-- place, and every slot has at least one.
pub Reach-IsSellable : (start db : Db) → IsSellable start → Reach start db → IsSellable db
Reach-IsSellable start _ s begin = s
Reach-IsSellable start _ s (step db db' r st) = Step-IsSellable st (Reach-IsSellable start db s r)
