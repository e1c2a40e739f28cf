-- ===== src/Facilities/Tests.antt =====
-- A pool at ten in the morning: a course has two places taken, and three people came without one.
use sports_erp.Prelude.{ℕ, ◌≡◌, refl, none, some, [], ◌∷◌, ◌&&◌, Bool, true, count, map, All}
use sports_erp.Store.{Db, empty_db}
use sports_erp.Store.Errors.{Code, err}
use sports_erp.Store.Branches.{Program, PricingType, ProgramStatus, AgeGroup, ScheduleSlot}
use sports_erp.Store.Members.{Reservation, ReservationStatus}
use sports_erp.Store.Operations.{Facility, FacilityType}
use sports_erp.Dates.Kst.{kst_day, kst_hours_minutes}
use sports_erp.Facilities.{list, in_branch, bool_eq, create}
use sports_erp.Facilities.Crowd.{IsRight, list_lem}

abbrev pool : Facility
pool = record {
  id = 3;
  branch_id = 10;
  name = "Pool";
  type = FacilityType.pool;
  capacity = 10;
  is_active = true;
  current_count = 3;
  level = 2;
  last_updated_at = none;
}

abbrev swimming : Program
swimming = record {
  id = 1;
  branch_id = 10;
  name = "Swimming";
  price = 0;
  pricing_type = PricingType.free_access;
  status = ProgramStatus.running;
  facility_id = some 3;
  instructor_id = none;
  category = "water";
  age_group = AgeGroup.all;
  description = none;
  capacity = none;
  start_date = 0;
  end_date = none;
}

abbrev morning : ScheduleSlot
morning = record {
  id = 5;
  program_id = 1;
  date = 0;
  start_time = (10, 0);
  end_time = (11, 0);
  capacity = 8;
}

abbrev place : ℕ → ReservationStatus → Reservation
place id status = record {
  id = id;
  member_id = id;
  schedule_slot_id = 5;
  status = status;
  created_at = 0;
  cancelled_at = none;
  cancel_reason = none;
}

abbrev today : Db
today = record empty_db {
  facilities = pool ∷ [];
  programs = swimming ∷ [];
  slots = morning ∷ [];
  reservations =
      place 1 ReservationStatus.confirmed
      ∷ place 2 ReservationStatus.completed
      ∷ place 3 ReservationStatus.cancelled
      ∷ [];
}

-- Ten in the morning in Korea is one in the morning by the clock of the server.
list_lem_example :
    All (IsRight 3600000 today) (list (λ xs. xs) (some 10) true 3600000 today)
    × ((p : Facility → Bool)
        → count (λ v. p v.facility) (list (λ xs. xs) (some 10) true 3600000 today)
          ≡ count
              (λ f. (in_branch (some 10) f && bool_eq f.is_active true) && p f)
              today.facilities)
list_lem_example = list_lem (λ xs. xs) (some 10) true 3600000 today (λ p xs. refl) (tt, tt)

half_full : map (λ v. v.level) (list (λ xs. xs) (some 10) true 3600000 today) ≡ 3 ∷ []
unfolding list kst_day kst_hours_minutes
half_full = refl

no_room :
    (create 0 4 10 (record { name = "Hall"; type = FacilityType.etc; capacity = 0 }) today).0
    ≡ err Code.invalid_capacity
unfolding create
no_room = refl
