-- ===== src/Programs/Tests.antt =====
-- A course that is priced, runs and gets a slot.
use sports_erp.Prelude.{◌≡◌, refl, none, some, find, arith}
use sports_erp.Store.{Db, empty_db}
use sports_erp.Store.Errors.{Code, ok, err}
use sports_erp.Store.Branches.{PricingType, ProgramStatus, AgeGroup}
use sports_erp.Programs.{
  ProgramInput, ProgramPatch, SlotInput, ProgramData, create, check_update, write_update,
  check_status, write_status, create_slot, new_program, data_of, normalize_capacity,
}
use sports_erp.Programs.Pricing.{
  Reach, begin, step, updates, changes_status, creates_slot, IsSellable, Reach-IsSellable,
}
use sports_erp.Programs.Lifecycle.{Follows, has_id, Reach-Follows}

abbrev yoga : ProgramInput
yoga = record {
  name = "Yoga";
  category = "yoga";
  age_group = AgeGroup.all;
  description = none;
  pricing_type = PricingType.paid_session;
  price = 11000;
  capacity = some 12;
  facility_id = none;
  instructor_id = none;
  start_date = 740000;
  end_date = none;
}

abbrev opened : Db
opened = (create 1 10 yoga empty_db).1

abbrev made_free : ProgramPatch
made_free = record {
  name = none;
  category = none;
  age_group = none;
  description = none;
  pricing_type = some PricingType.free_access;
  price = some 500;
  capacity = none;
  facility_id = none;
  instructor_id = none;
  start_date = none;
  end_date = none;
}

abbrev morning : SlotInput
morning = record { date = 740003; start_time = (9, 0); end_time = (10, 0); capacity = none }

abbrev with_slot : Db
with_slot = (create_slot 5 1 morning opened).1

abbrev free_data : ProgramData
free_data = data_of made_free (new_program 1 10 yoga)

checked_free : check_update 1 made_free opened ≡ (ok free_data, opened)
unfolding create check_update
checked_free = refl

abbrev free : Db
free = (write_update 1 free_data with_slot).1

checked_start : check_status 1 ProgramStatus.running opened ≡ (ok ProgramStatus.preparing, opened)
unfolding create check_status
checked_start = refl

abbrev running : Db
running = (write_status 1 ProgramStatus.running ProgramStatus.preparing free).1

steps_on : Reach opened running
steps_on =
    step free running
      (step with_slot free (step opened with_slot begin (creates_slot 5 1 morning opened))
        (updates 1 made_free free_data opened with_slot checked_free))
      (changes_status 1 ProgramStatus.running ProgramStatus.preparing opened free checked_start)

sellable : IsSellable opened
unfolding create normalize_capacity
sellable = record { priced = (((λ h. absurd (ground (arith, h))), λ h. refl), tt); open_slots = tt }

Reach-IsSellable_example : IsSellable running
Reach-IsSellable_example = Reach-IsSellable opened running sellable steps_on

is_there : find (has_id 1) opened.programs ≡ some (new_program 1 10 yoga)
unfolding create
is_there = refl

Reach-Follows_example : Follows (new_program 1 10 yoga) (find (has_id 1) running.programs)
Reach-Follows_example = Reach-Follows 1 (new_program 1 10 yoga) opened running is_there steps_on

no_places :
    (create 2 10 (record yoga { capacity = some 0 }) opened).0 ≡ err Code.program_capacity_required
unfolding create
no_places = refl
