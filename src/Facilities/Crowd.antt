-- ===== src/Facilities/Crowd.antt =====
-- How crowded the list says that a facility is.
use sports_erp.Prelude.{
  zero, suc, count_or, count_cong, count-select, count_none, ℕ, ◌+◌, ◌*◌, ◌≤◌, ◌<◌, ◌≡◌, ◌≢◌, refl,
  sym, ap, ◌∙◌, Option, none, some, List, [], ◌∷◌, map, Bool, true, false, ◌&&◌, ◌||◌, ◌==◌, leb,
  if◌then◌else◌, inl, inr, Bool-cases, count, select, exists, is_in, passes, All, All-map, Distinct,
  ==_refl, arith,
}
use sports_erp.Store.{Db}
use sports_erp.Store.Branches.{ScheduleSlot}
use sports_erp.Store.Members.{Reservation}
use sports_erp.Store.Operations.{Facility}
use sports_erp.Facilities.{
  FacilityView, list, with_occupancy, congestion_level, reserved_counts, running_slots, slot_row,
  is_running, facility_of, has_place, places, get, add_to, tally, in_branch, bool_eq,
}

-- What the rows add up to for one facility.
abbrev total : ℕ → List (ℕ × ℕ) → ℕ
total id [] = 0
total id (e ∷ rows) = (if e.0 == id then e.1 else 0) + total id rows

get-add_to :
    (id k n : ℕ) (counts : List (ℕ × ℕ))
    → get id (add_to k n counts) ≡ get id counts + (if k == id then n else 0)
get-add_to id k n [] = ground arith
get-add_to id k n (e ∷ counts) = ground (arith, get-add_to id k n counts)

get-tally :
    (id : ℕ) (rows counts : List (ℕ × ℕ))
    → get id (tally rows counts) ≡ get id counts + total id rows
unfolding tally
get-tally id [] counts = omega arith
get-tally id (e ∷ rows) counts =
    ground (arith, get-tally id rows (add_to e.0 e.1 counts), get-add_to id e.0 e.1 counts)

module _ (now : ℕ) (db : Db) (id : ℕ) where
  -- A slot that is running at the facility.
  abbrev pub runs_here : ScheduleSlot → Bool
  runs_here s = is_running now s && passes (λ f. f == id) (facility_of db s)

  -- A person with a place in such a slot.
  abbrev pub is_here : List ScheduleSlot → Reservation → Bool
  is_here slots r =
      has_place r.status && exists (λ s. r.schedule_slot_id == s.id && runs_here s) slots

  slot_total :
      (ids : List ℕ) (s : ScheduleSlot) (o : Option ℕ) (rows : List (ℕ × ℕ))
      → is_in id ids ≡ true
      → total id (slot_row ids db s o rows)
        ≡ (if passes (λ f. f == id) o then places s.id db.reservations else 0) + total id rows
  slot_total ids s none rows h = omega arith
  slot_total ids s (some f) rows h = elim (Bool-cases (f == id)) [
    | inl t ↦
        let e : f ≡ id = ground (arith, t) in
        let i : is_in f ids ≡ true = ap (λ (k : ℕ). is_in k ids) e ∙ h in ground (arith, t, i)
    | inr n ↦ ground (arith, n)
  ]

  -- What one slot adds.
  abbrev seats : List ScheduleSlot → ℕ
  seats [] = 0
  seats (s ∷ slots) = (if runs_here s then places s.id db.reservations else 0) + seats slots

  total-running :
      (ids : List ℕ) (slots : List ScheduleSlot)
      → is_in id ids ≡ true
      → total id (running_slots ids now db slots) ≡ seats slots
  unfolding running_slots
  total-running ids [] h = refl
  total-running ids (s ∷ slots) h = ground (
    arith,
    slot_total ids s (facility_of db s) (running_slots ids now db slots) h,
    total-running ids slots h,
  )

  no_slot :
      (k : ℕ) (slots : List ScheduleSlot)
      → All (λ s. s.id ≢ k) slots
      → exists (λ s. k == s.id && runs_here s) slots ≡ false
  no_slot k [] a = refl
  no_slot k (s ∷ slots) a = elim (Bool-cases (k == s.id)) [
    | inl t ↦ absurd (a.0 (ground (arith, t)))
    | inr f ↦ ground (arith, f, no_slot k slots a.1)
  ]

  -- Every person is counted once, as no two slots have one identifier.
  seats-count :
      (slots : List ScheduleSlot)
      → Distinct (λ s. s.id) slots
      → seats slots ≡ count (is_here slots) db.reservations
  seats-count [] d = sym (count_none (is_here []) db.reservations (λ r. ground arith))
  seats-count (s ∷ slots) d =
      let rest = seats-count slots d.1 in
      elim (Bool-cases (runs_here s)) [
        | inr f ↦
            let same =
              count_cong (is_here (s ∷ slots)) (is_here slots) db.reservations
                (λ r. ground (arith, f)) in
            ground (arith, f, rest, same)
        | inl t ↦
            let here : Reservation → Bool = λ r. r.schedule_slot_id == s.id && has_place r.status in
            let split =
              count_cong (is_here (s ∷ slots)) (λ r. here r || is_here slots r) db.reservations
                (λ r. ground (arith, t)) in
            let apart = count_or here (is_here slots) db.reservations λ r h.
              let e : s.id ≡ r.schedule_slot_id = ground (arith, h) in
              ground (
                arith,
                no_slot r.schedule_slot_id slots (
                    All-map (λ q. q.id ≢ s.id) (λ q. q.id ≢ r.schedule_slot_id) slots
                      (λ q n e'. n (e' ∙ sym e)) d.0),
              ) in
            ground (arith, t, rest, split, apart)
      ]

  reserved-count :
      (ids : List ℕ)
      → is_in id ids ≡ true
      → Distinct (λ s. s.id) db.slots
      → get id (reserved_counts ids now db) ≡ count (is_here db.slots) db.reservations
  unfolding reserved_counts
  reserved-count [] h d = absurd (ground (arith, h))
  reserved-count (k ∷ ids) h d =
      get-tally id (running_slots (k ∷ ids) now db db.slots) []
      ∙ omega arith
      ∙ total-running (k ∷ ids) db.slots h
      ∙ seats-count db.slots d

-- The people at a facility by the reservations alone: those with a place in a slot that is running
-- there now.
abbrev pub people_at : ℕ → Db → ℕ → ℕ
people_at now db id = count (is_here now db id db.slots) db.reservations

-- How many fifths of the capacity the people fill, of which the last has no end; without a capacity
-- it is the last.
abbrev pub Fills : ℕ → ℕ → ℕ → Type 0
Fills people zero level = level ≡ 5
Fills people (suc c) level =
    (1 ≤ level)
    × (level ≤ 5)
    × (level < 5 → people * 5 ≤ level * suc c)
    × (1 < level → level * suc c < people * 5 + suc c)

level-Fills : (people capacity : ℕ) → Fills people capacity (congestion_level people capacity)
unfolding congestion_level
level-Fills n zero = refl
level-Fills n (suc c) = elim (Bool-cases (leb (n * 100) (20 * suc c))) [
  | inl a ↦ rw a (omega arith, omega arith, λ _. ground (arith, a), λ h. absurd (omega (arith, h)))
  | inr a ↦ elim (Bool-cases (leb (n * 100) (40 * suc c))) [
    | inl b ↦ rw (a, b) (omega arith, omega arith, λ _. ground (arith, b), λ _. ground (arith, a))
    | inr b ↦ elim (Bool-cases (leb (n * 100) (60 * suc c))) [
      | inl d ↦
          rw (a, b, d) (omega arith, omega arith, λ _. ground (arith, d), λ _. ground (arith, b))
      | inr d ↦ elim (Bool-cases (leb (n * 100) (80 * suc c))) [
        | inl e ↦
            rw (a, b, d, e)
              (omega arith, omega arith, λ _. ground (arith, e), λ _. ground (arith, d))
        | inr e ↦
            rw (a, b, d, e)
              (omega arith, omega arith, λ h. absurd (omega (arith, h)), λ _. ground (arith, e))
      ]
    ]
  ]
]

-- A view counts the people by the reservations and those at hand, and has their level.
abbrev pub IsRight : ℕ → Db → FacilityView → Type 0
IsRight now db v =
    (v.reserved_count ≡ people_at now db v.facility.id)
    × (v.total_count ≡ people_at now db v.facility.id + v.facility.current_count)
    × Fills v.total_count v.facility.capacity v.level

occupied-IsRight :
    (now : ℕ) (db : Db) (f : Facility) (n : ℕ)
    → n ≡ people_at now db f.id
    → IsRight now db (with_occupancy f n)
unfolding with_occupancy
occupied-IsRight now db f n h =
    (h, ap (λ k. k + f.current_count) h, level-Fills (n + f.current_count) f.capacity)

module _ (by_id : List Facility → List Facility) (branch : Option ℕ) (active : Bool) (now : ℕ)
    (db : Db) (same : (p : Facility → Bool) (xs : List Facility) → count p (by_id xs) ≡ count p xs)
    (keyed : Distinct (λ s. s.id) db.slots) where
  each_view :
      (ids : List ℕ) (rows : List Facility)
      → All (λ f. is_in f.id ids ≡ true) rows
      → All
          (IsRight now db)
          (map (λ f. with_occupancy f (get f.id (reserved_counts ids now db))) rows)
  each_view ids [] a = tt
  each_view ids (f ∷ rows) a = (
    occupied-IsRight now db f (get f.id (reserved_counts ids now db))
        (reserved-count now db f.id ids a.0 keyed),
    each_view ids rows a.1,
  )

  all_in : (rows : List Facility) → All (λ f. is_in f.id (map (λ g. g.id) rows) ≡ true) rows
  all_in [] = tt
  all_in (f ∷ rows) = (
    ground (arith, ==_refl f.id),
    All-map (λ g. is_in g.id (map (λ h. h.id) rows) ≡ true)
        (λ g. is_in g.id (map (λ h. h.id) (f ∷ rows)) ≡ true) rows (λ g h. ground (arith, h))
        (all_in rows),
  )

  shown_rows :
      (p : Facility → Bool) (counts : List (ℕ × ℕ)) (rows : List Facility)
      → count (λ v. p v.facility) (map (λ f. with_occupancy f (get f.id counts)) rows)
        ≡ count p rows
  unfolding with_occupancy
  shown_rows p counts [] = refl
  shown_rows p counts (f ∷ rows) = ap (λ n. (if p f then 1 else 0) + n) (shown_rows p counts rows)

  list-IsRight : All (IsRight now db) (list by_id branch active now db)
  unfolding list
  list-IsRight =
      let rows =
        by_id (select (λ f. in_branch branch f && bool_eq f.is_active active) db.facilities) in
      each_view (map (λ f. f.id) rows) rows (all_in rows)

  list-rows :
      (p : Facility → Bool)
      → count (λ v. p v.facility) (list by_id branch active now db)
        ≡ count (λ f. (in_branch branch f && bool_eq f.is_active active) && p f) db.facilities
  unfolding list
  list-rows p =
      let wanted : Facility → Bool = λ f. in_branch branch f && bool_eq f.is_active active in
      let rows = by_id (select wanted db.facilities) in
      shown_rows p (reserved_counts (map (λ f. f.id) rows) now db) rows
      ∙ same p (select wanted db.facilities)
      ∙ count-select p wanted db.facilities

  -- If no two slots have one identifier, and the order of the database keeps the rows, then the
  -- list has a view for each facility of the branch that is in service as asked, and each view
  -- counts the reservations, confirmed or completed, of slots that are running at the facility
  -- now, adds the people at hand, and has as its level how many fifths of the capacity they fill,
  -- the fifth one without an end.
  pub list_lem :
      All (IsRight now db) (list by_id branch active now db)
      × ((p : Facility → Bool)
          → count (λ v. p v.facility) (list by_id branch active now db)
            ≡ count (λ f. (in_branch branch f && bool_eq f.is_active active) && p f) db.facilities)
  list_lem = (list-IsRight, list-rows)
