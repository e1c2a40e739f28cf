-- ===== src/Facilities.antt =====
-- modules/facilities/facility.service.ts: the facilities of a branch and how crowded they are. What
-- the database orders the list by is a parameter of `list`; a view keeps the row of the facility
-- beside what is reckoned from it. An update and an entry of the people at hand read the facility
-- first and write later, so each is two steps.
pub mod Crowd
mod Tests
use sports_erp.Prelude.{
  zero, suc, ℕ, ◌+◌, ◌*◌, Option, none, some, List, [], ◌∷◌, ◌++◌, map, String, Bool, true, false,
  not, ◌&&◌, ◌||◌, ◌==◌, ltb, leb, if◌then◌else◌, find, count, select, update, exists, is_in,
  or_else,
}
use sports_erp.Store.{
  Db, Action, pure, throw, gets, require, require_row, transaction, ◌>>=◌, ◌>>◌, throw_if, modify,
}
use sports_erp.Store.Errors.{Code, Result, ok, err}
use sports_erp.Store.Branches.{ScheduleSlot, Program}
use sports_erp.Store.Members.{Reservation, ReservationStatus}
use sports_erp.Store.Operations.{Facility, FacilityType}
use sports_erp.Integrity.{lock_branch_for_share, is_branch_terminated}
use sports_erp.Dates.Kst.{kst_day, kst_hours_minutes}

-- `congestionLevel`: the ratio is a multiple of 20 exactly if it is one of the quotient, so the
-- comparison of the doubles is that of the whole numbers. A division by 0 gives a ratio that is not
-- below any number.
unfoldable pub congestion_level : ℕ → ℕ → ℕ
congestion_level people zero = 5
congestion_level people (suc c) =
    let capacity = suc c in
    if leb (people * 100) (20 * capacity)
    then 1
    else if leb (people * 100) (40 * capacity)
    then 2
    else if leb (people * 100) (60 * capacity)
    then 3
    else if leb (people * 100) (80 * capacity)
    then 4
    else 5

-- The clock times are `HH:MM` with leading zeros, whose order as texts is that of the minutes.
abbrev pub clock : ℕ × ℕ → ℕ
clock t = t.0 * 60 + t.1

-- A slot of today that has begun and not ended.
unfoldable pub is_running : ℕ → ScheduleSlot → Bool
is_running now s =
    s.date == kst_day now
    && (leb (clock s.start_time) (clock (kst_hours_minutes now))
        && ltb (clock (kst_hours_minutes now)) (clock s.end_time))

abbrev pub facility_of_program : Option Program → Option ℕ
facility_of_program none = none
facility_of_program (some p) = p.facility_id

-- The facility of a slot is that of its program.
abbrev pub facility_of : Db → ScheduleSlot → Option ℕ
facility_of db s = facility_of_program (find (λ p. p.id == s.program_id) db.programs)

abbrev pub has_place : ReservationStatus → Bool
has_place ReservationStatus.confirmed = true
has_place ReservationStatus.completed = true
has_place _ = false

abbrev pub places : ℕ → List Reservation → ℕ
places slot = count (λ r. r.schedule_slot_id == slot && has_place r.status)

-- A row of the query: a slot's facility and how many people have a place in the slot.
abbrev pub slot_row : List ℕ → Db → ScheduleSlot → Option ℕ → List (ℕ × ℕ) → List (ℕ × ℕ)
slot_row ids db s none rows = rows
slot_row ids db s (some f) rows =
    if is_in f ids then (f, places s.id db.reservations) ∷ rows else rows

unfoldable pub running_slots : List ℕ → ℕ → Db → List ScheduleSlot → List (ℕ × ℕ)
unfolding is_running
running_slots ids now db [] = []
running_slots ids now db (s ∷ slots) =
    let rows = running_slots ids now db slots in
    if is_running now s then slot_row ids db s (facility_of db s) rows else rows

-- `counts.get(id) ?? 0`
abbrev pub get : ℕ → List (ℕ × ℕ) → ℕ
get id [] = 0
get id (e ∷ counts) = if e.0 == id then e.1 else get id counts

-- `counts.set(id, (counts.get(id) ?? 0) + n)`
abbrev pub add_to : ℕ → ℕ → List (ℕ × ℕ) → List (ℕ × ℕ)
add_to id n [] = (id, n) ∷ []
add_to id n (e ∷ counts) = if e.0 == id then (e.0, e.1 + n) ∷ counts else e ∷ add_to id n counts

-- The loop over the rows.
unfoldable pub tally : List (ℕ × ℕ) → List (ℕ × ℕ) → List (ℕ × ℕ)
tally [] counts = counts
tally (e ∷ rows) counts = tally rows (add_to e.0 e.1 counts)

unfoldable pub reserved_counts : List ℕ → ℕ → Db → List (ℕ × ℕ)
unfolding running_slots tally
reserved_counts [] now db = []
reserved_counts (id ∷ ids) now db = tally (running_slots (id ∷ ids) now db db.slots) []

pub record FacilityView : Type 0 where
  pub facility : Facility
  pub reserved_count : ℕ
  pub total_count : ℕ
  pub level : ℕ

unfoldable pub with_occupancy : Facility → ℕ → FacilityView
unfolding congestion_level
with_occupancy f reserved = record {
  facility = f;
  reserved_count = reserved;
  total_count = reserved + f.current_count;
  level = congestion_level (reserved + f.current_count) f.capacity;
}

abbrev pub in_branch : Option ℕ → Facility → Bool
in_branch none f = true
in_branch (some branch) f = f.branch_id == branch

abbrev pub bool_eq : Bool → Bool → Bool
bool_eq true b = b
bool_eq false b = not b

unfoldable pub list : (List Facility → List Facility) → Option ℕ → Bool → ℕ → Db → List FacilityView
unfolding with_occupancy reserved_counts
list by_id branch active now db =
    let rows =
      by_id (select (λ f. in_branch branch f && bool_eq f.is_active active) db.facilities) in
    let reserved = reserved_counts (map (λ f. f.id) rows) now db in
    map (λ f. with_occupancy f (get f.id reserved)) rows

abbrev pub has_id : ℕ → Facility → Bool
has_id id f = f.id == id

-- `afterWrite`
unfoldable pub after_write : ℕ → ℕ → Action FacilityView
unfolding with_occupancy reserved_counts
after_write now id = do
  row ← require_row (λ db. find (has_id id) db.facilities) Code.row_missing
  reserved ← gets (reserved_counts (id ∷ []) now)
  pure (with_occupancy row (get id reserved))

-- Facility_congestion_range_ck, of which the stored level stands between 1 and 5.
abbrev pub breaks_range : Facility → Bool
breaks_range f = f.capacity == 0

pub record FacilityInput : Type 0 where
  pub name : String
  pub type : FacilityType
  pub capacity : ℕ

abbrev pub new_facility : ℕ → ℕ → ℕ → FacilityInput → Facility
new_facility now new branch i = record {
  id = new;
  branch_id = branch;
  name = i.name;
  type = i.type;
  capacity = i.capacity;
  is_active = true;
  current_count = 0;
  level = 1;
  last_updated_at = some now;
}

unfoldable pub create_body : ℕ → ℕ → ℕ → FacilityInput → Action (Unit {0})
create_body now new branch i = do
  row ← gets (lock_branch_for_share branch)
  throw_if (is_branch_terminated row) Code.branch_terminated
  throw_if (ltb i.capacity 1) Code.invalid_capacity
  modify λ db. record db { facilities = db.facilities ++ new_facility now new branch i ∷ [] }

unfoldable pub create : ℕ → ℕ → ℕ → FacilityInput → Action FacilityView
unfolding create_body after_write
create now new branch i = transaction (create_body now new branch i) >> after_write now new

-- What is left out stays.
pub record FacilityPatch : Type 0 where
  pub name : Option String
  pub type : Option FacilityType
  pub capacity : Option ℕ
  pub is_active : Option Bool

abbrev pub is_below_one : Option ℕ → Bool
is_below_one none = false
is_below_one (some n) = ltb n 1

-- The checks of `update`: the facility that is read.
unfoldable pub check_update : ℕ → FacilityPatch → Action Facility
check_update id p = do
  facility ← require_row (λ db. find (has_id id) db.facilities) Code.facility_not_found
  throw_if (is_below_one p.capacity) Code.invalid_capacity
  pure facility

-- The level is reckoned anew, from the people that were read, if a capacity is given.
abbrev pub patched_level : Option ℕ → ℕ → ℕ → ℕ
patched_level none people level = level
patched_level (some capacity) people level = congestion_level people capacity

unfoldable pub patched : Facility → FacilityPatch → Facility → Facility
unfolding congestion_level
patched seen p f = record f {
  name = or_else p.name f.name;
  type = or_else p.type f.type;
  capacity = or_else p.capacity f.capacity;
  level = patched_level p.capacity seen.current_count f.level;
  is_active = or_else p.is_active f.is_active;
}

-- The write of `update`, for the facility that it has read.
unfoldable pub write_update : ℕ → ℕ → FacilityPatch → Facility → Action FacilityView
unfolding patched after_write
write_update now id p seen = do
  row ← require_row (λ db. find (has_id id) db.facilities) Code.row_missing
  throw_if (breaks_range (patched seen p row)) Code.check_violation
  modify λ db. record db { facilities = update (has_id id) (patched seen p) db.facilities }
  after_write now id

abbrev pub counted : ℕ → ℕ → Facility → Facility → Facility
counted now people seen f = record f {
  current_count = people;
  level = congestion_level people seen.capacity;
  last_updated_at = some now;
}

unfoldable pub set_body : ℕ → ℕ → ℕ → Facility → Action (Unit {0})
set_body now id people seen = do
  row ← gets (lock_branch_for_share seen.branch_id)
  throw_if (is_branch_terminated row) Code.branch_terminated
  _ ← require_row (λ db. find (has_id id) db.facilities) Code.row_missing
  modify λ db. record db { facilities = update (has_id id) (counted now people seen) db.facilities }

-- `setManualCongestion`, from the facility that `requireFacility` has read; a number is not negative.
unfoldable pub set_manual_congestion : ℕ → ℕ → ℕ → Facility → Action FacilityView
unfolding set_body after_write
set_manual_congestion now id people seen =
    transaction (set_body now id people seen) >> after_write now id
