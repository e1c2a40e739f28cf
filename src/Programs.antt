-- ===== src/Programs.antt =====
-- modules/programs/program.service.ts: programs and their schedule slots. No call runs in a
-- transaction: an update and a change of status check what they read and write later, so each is
-- two steps. A price is a natural number, as the DTOs demand. The triggers that keep instructors
-- and facilities in the branch are behind the checks here and left out.
pub mod Pricing
pub mod Lifecycle
mod Tests
use sports_erp.Prelude.{
  ℕ, Option, none, some, List, [], ◌∷◌, ◌++◌, String, Bool, true, false, not, ◌&&◌, ◌||◌, ◌==◌, ltb,
  if◌then◌else◌, find, count, update, exists, passes, or_else,
}
use sports_erp.Store.{
  Db, Action, pure, throw, gets, require, require_row, ◌>>=◌, ◌>>◌, throw_if, modify,
}
use sports_erp.Store.Errors.{Code, Result, ok, err}
use sports_erp.Store.Branches.{Program, ScheduleSlot, PricingType, ProgramStatus, AgeGroup}
use sports_erp.Store.Staffing.{Instructor}
use sports_erp.Store.Operations.{Facility}

pub record ProgramInput : Type 0 where
  pub name : String
  pub category : String
  pub age_group : AgeGroup
  pub description : Option String
  pub pricing_type : PricingType
  pub price : ℕ
  pub capacity : Option ℕ
  pub facility_id : Option ℕ
  pub instructor_id : Option ℕ
  pub start_date : ℕ
  pub end_date : Option ℕ

-- `assertInstructorInBranch`, of an instructor that is given.
unfoldable pub assert_instructor_in_branch : Option ℕ → ℕ → Action (Unit {0})
assert_instructor_in_branch none branch = pure tt
assert_instructor_in_branch (some id) branch = do
  row ← gets λ db. find (λ i. i.id == id) db.instructors
  throw_if (not (passes (λ i. i.branch_id == branch) row)) Code.instructor_branch_mismatch

-- `assertFacilityInBranch`
unfoldable pub assert_facility_in_branch : Option ℕ → ℕ → Action (Unit {0})
assert_facility_in_branch none branch = pure tt
assert_facility_in_branch (some id) branch = do
  row ← gets λ db. find (λ f. f.id == id) db.facilities
  throw_if (not (passes (λ f. f.branch_id == branch) row)) Code.facility_branch_mismatch

abbrev pub is_paid : PricingType → Bool
is_paid PricingType.paid_session = true
is_paid _ = false

abbrev pub is_free : PricingType → Bool
is_free PricingType.free_access = true
is_free _ = false

-- `capacity !== undefined && capacity >= 1`
abbrev pub has_places : Option ℕ → Bool
has_places = passes (ltb 0)

-- `assertCapacityForPricingType`
unfoldable pub assert_capacity_for_pricing_type : PricingType → Option ℕ → Action (Unit {0})
assert_capacity_for_pricing_type type capacity =
    throw_if (is_paid type && not (has_places capacity)) Code.program_capacity_required

-- `normalizePricing`: the price and the capacity that are kept.
unfoldable pub normalize_price : PricingType → ℕ → ℕ
normalize_price type price = if is_free type then 0 else price

unfoldable pub normalize_capacity : PricingType → Option ℕ → Option ℕ
normalize_capacity type capacity = if is_free type then none else capacity

abbrev pub new_program : ℕ → ℕ → ProgramInput → Program
new_program new branch i = record {
  id = new;
  branch_id = branch;
  name = i.name;
  price = normalize_price i.pricing_type i.price;
  pricing_type = i.pricing_type;
  status = ProgramStatus.preparing;
  facility_id = i.facility_id;
  instructor_id = i.instructor_id;
  category = i.category;
  age_group = i.age_group;
  description = i.description;
  capacity = normalize_capacity i.pricing_type i.capacity;
  start_date = i.start_date;
  end_date = i.end_date;
}

unfoldable pub create : ℕ → ℕ → ProgramInput → Action ℕ
unfolding assert_instructor_in_branch assert_facility_in_branch assert_capacity_for_pricing_type
    normalize_price normalize_capacity
create new branch i = do
  assert_instructor_in_branch i.instructor_id branch
  assert_facility_in_branch i.facility_id branch
  assert_capacity_for_pricing_type i.pricing_type i.capacity
  modify λ db. record db { programs = db.programs ++ new_program new branch i ∷ [] }
  pure new

-- The input of an update: what is left out stays. An instructor, a facility or an end that is
-- given empty is taken away.
pub record ProgramPatch : Type 0 where
  pub name : Option String
  pub category : Option String
  pub age_group : Option AgeGroup
  pub description : Option String
  pub pricing_type : Option PricingType
  pub price : Option ℕ
  pub capacity : Option ℕ
  pub facility_id : Option (Option ℕ)
  pub instructor_id : Option (Option ℕ)
  pub start_date : Option ℕ
  pub end_date : Option (Option ℕ)

abbrev pub given : Option (Option ℕ) → Option ℕ
given none = none
given (some o) = o

abbrev pub or_capacity : Option ℕ → Option ℕ → Option ℕ
or_capacity none old = old
or_capacity (some c) old = some c

abbrev pub or_description : Option String → Option String → Option String
or_description none old = old
or_description (some d) old = some d

-- What the update of a program will write: the pricing is computed from the row that was read.
pub record ProgramData : Type 0 where
  pub patch : ProgramPatch
  pub pricing_type : PricingType
  pub price : ℕ
  pub capacity : Option ℕ

abbrev pub data_of : ProgramPatch → Program → ProgramData
data_of i p =
    let type = or_else i.pricing_type p.pricing_type in
    record {
      patch = i;
      pricing_type = type;
      price = normalize_price type (or_else i.price p.price);
      capacity = normalize_capacity type (or_capacity i.capacity p.capacity);
    }

-- The checks of `update`.
unfoldable pub check_update : ℕ → ProgramPatch → Action ProgramData
unfolding assert_instructor_in_branch assert_facility_in_branch assert_capacity_for_pricing_type
    normalize_price normalize_capacity
check_update id i = do
  p ← require_row (λ db. find (λ p. p.id == id) db.programs) Code.program_not_found
  assert_instructor_in_branch (given i.instructor_id) p.branch_id
  assert_facility_in_branch (given i.facility_id) p.branch_id
  assert_capacity_for_pricing_type (or_else i.pricing_type p.pricing_type)
      (or_capacity i.capacity p.capacity)
  pure (data_of i p)

abbrev pub patched : ProgramData → Program → Program
patched d p = record p {
  name = or_else d.patch.name p.name;
  category = or_else d.patch.category p.category;
  age_group = or_else d.patch.age_group p.age_group;
  description = or_description d.patch.description p.description;
  start_date = or_else d.patch.start_date p.start_date;
  pricing_type = d.pricing_type;
  price = d.price;
  capacity = d.capacity;
  instructor_id = or_else d.patch.instructor_id p.instructor_id;
  facility_id = or_else d.patch.facility_id p.facility_id;
  end_date = or_else d.patch.end_date p.end_date;
}

-- The write of `update`.
unfoldable pub write_update : ℕ → ProgramData → Action (Unit {0})
write_update id d = do
  found ← gets λ db. exists (λ p. p.id == id) db.programs
  throw_if (not found) Code.row_missing
  modify λ db. record db { programs = update (λ p. p.id == id) (patched d) db.programs }

abbrev pub status_index : ProgramStatus → ℕ
status_index ProgramStatus.preparing = 0
status_index ProgramStatus.running = 1
status_index ProgramStatus.paused = 2
status_index ProgramStatus.ended = 3

abbrev pub status_eq : ProgramStatus → ProgramStatus → Bool
status_eq a b = status_index a == status_index b

-- PROGRAM_STATUS_TRANSITIONS
unfoldable pub transitions : ProgramStatus → List ProgramStatus
transitions ProgramStatus.preparing = ProgramStatus.running ∷ ProgramStatus.ended ∷ []
transitions ProgramStatus.running = ProgramStatus.paused ∷ ProgramStatus.ended ∷ []
transitions ProgramStatus.paused = ProgramStatus.running ∷ ProgramStatus.ended ∷ []
transitions ProgramStatus.ended = []

unfoldable pub can_change : ProgramStatus → ProgramStatus → Bool
unfolding transitions
can_change old new = exists (λ s. status_eq s new) (transitions old)

-- The check of `updateStatus`: the status that is read.
unfoldable pub check_status : ℕ → ProgramStatus → Action ProgramStatus
unfolding can_change
check_status id status = do
  p ← require_row (λ db. find (λ p. p.id == id) db.programs) Code.program_not_found
  throw_if (not (can_change p.status status)) Code.invalid_status_transition
  pure p.status

abbrev pub is_still : ℕ → ProgramStatus → Program → Bool
is_still id status p = p.id == id && status_eq p.status status

abbrev pub moved : ProgramStatus → Program → Program
moved status p = record p { status = status }

-- The write of `updateStatus`, for the status that it has read.
unfoldable pub write_status : ℕ → ProgramStatus → ProgramStatus → Action (Unit {0})
write_status id status current = do
  changed ← gets λ db. count (is_still id current) db.programs
  modify λ db. record db { programs = update (is_still id current) (moved status) db.programs }
  throw_if (changed == 0) Code.invalid_status_transition

pub record SlotInput : Type 0 where
  pub date : ℕ
  pub start_time : ℕ × ℕ
  pub end_time : ℕ × ℕ
  pub capacity : Option ℕ

abbrev pub new_slot : ℕ → ℕ → ℕ → SlotInput → ScheduleSlot
new_slot new program capacity i = record {
  id = new;
  program_id = program;
  date = i.date;
  start_time = i.start_time;
  end_time = i.end_time;
  capacity = capacity;
}

-- `!capacity || capacity < 1`
abbrev pub positive : Option ℕ → Option ℕ
positive none = none
positive (some c) = if ltb 0 c then some c else none

unfoldable pub create_slot : ℕ → ℕ → SlotInput → Action ℕ
create_slot new program_id i = do
  p ← require_row (λ db. find (λ p. p.id == program_id) db.programs) Code.program_not_found
  throw_if (not (is_paid p.pricing_type)) Code.slot_not_applicable
  capacity ← require (positive (or_capacity i.capacity p.capacity)) Code.invalid_capacity
  modify λ db. record db { slots = db.slots ++ new_slot new program_id capacity i ∷ [] }
  pure new
