-- ===== src/Members/Tests.antt =====
-- One member with a package of two sessions, and the theorems on the calls that use them.
use sports_erp.Prelude.{
  ◌+◌, ◌≤◌, ◌==◌, ◌≡◌, refl, none, some, [], ◌∷◌, true, false, not, passes, find, count, arith,
}
use sports_erp.Store.{Db, empty_db}
use sports_erp.Store.Errors.{ok, is_ok}
use sports_erp.Store.Members.{Member, MemberStatus, PtSession}
use sports_erp.Store.Staffing.{Account, Role}
use sports_erp.Dates.Civil.{ymd, ymd_lt, days_in_month}
use sports_erp.Dates.Civil.Bijection.{IsDate}
use sports_erp.Dates.Kst.{add_years_to_date_string}
use sports_erp.Members.{
  check_attempts, link_rest, link_found, is_recent, is_linkable, Env, link, update_status,
  is_withdrawn,
}
use sports_erp.Members.Minors.{is_minor, is_minor_lem}
use sports_erp.Members.Sessions.{use_pt_session}
use sports_erp.Members.Sessions.Usage.{IsSound, begin, step, uses, Reach-IsUsed}
use sports_erp.Members.Linking
use sports_erp.Members.Linking.{Calls, checks, goes_on, Calls-IsLimited}
use sports_erp.Integrity.Codes.{text_eq}
use sports_erp.Store.Branches.{Text}
use sports_erp.Members.Status.{account_of, may_set, update_status_iff, update_status-active}

abbrev kim : Member
kim = record {
  id = 1;
  account_id = some 5;
  branch_id = 10;
  assigned_staff_id = none;
  member_no = 83 ∷ [];
  name = "Kim";
  phone = some (48 ∷ 49 ∷ []);
  birth_date = none;
  gender = none;
  joined_at = 739000;
  status = MemberStatus.withdrawn;
  guardian_consent = false;
  memo = none;
}

abbrev account : Account
account = record {
  id = 5;
  email = 6;
  password_hash = 7;
  role = Role.member;
  name = "Kim";
  is_active = false;
  must_change_password = false;
}

abbrev two_sessions : PtSession
two_sessions = record {
  id = 2;
  member_id = 1;
  program_id = 3;
  total_sessions = 2;
  used_sessions = 0;
  purchased_at = 739100;
}

abbrev gym : Db
gym = record empty_db {
  members = kim ∷ [];
  accounts = account ∷ [];
  pt_sessions = two_sessions ∷ [];
}

abbrev e : Env
e = record { now = 63927180000000; actor = 9; account_id = 20; member_id = 21 }

gym-IsSound : IsSound gym.pt_sessions gym.pt_logs
gym-IsSound = record { ids = (tt, tt); used = ((omega arith, refl), tt) }

Reach-IsUsed_example :
    let used = (use_pt_session 30 0 2 none gym).1 in IsSound used.pt_sessions used.pt_logs
Reach-IsUsed_example =
    Reach-IsUsed gym (use_pt_session 30 0 2 none gym).1 gym-IsSound
      (step gym (use_pt_session 30 0 2 none gym).1 begin (uses 30 0 2 none gym))

used_once :
    (find (λ s. s.id == 2) (use_pt_session 30 0 2 none gym).1.pt_sessions)
    ≡ some (record two_sessions { used_sessions = 1 })
unfolding use_pt_session
used_once = refl

-- A wrong phone number.
abbrev number : Text
number = 83 ∷ []

abbrev mismatch : Db → Db
mismatch db = (link_rest e number (50 ∷ []) 6 7 (find (is_linkable number) gym.members) db).1

passed : check_attempts e.now number gym ≡ (ok tt, gym)
unfolding check_attempts
passed = refl

-- Two calls are checked before either records its attempt.
six_come : Calls 2 gym e.now [] (mismatch (mismatch gym))
six_come =
    goes_on e.now e number (50 ∷ []) 6 7 (find (is_linkable number) gym.members) [] []
      (mismatch gym)
      (goes_on e.now e number (50 ∷ []) 6 7 (find (is_linkable number) gym.members) [] (number ∷ [])
        gym
        (checks e.now e.now number (number ∷ []) gym
          (checks 0 e.now number [] gym Linking.begin (omega arith) passed (omega arith))
          (omega arith) passed (omega arith))
        (omega arith))
      (omega arith)

Calls-IsLimited_example :
    count (is_recent number e.now) (mismatch (mismatch gym)).link_attempts
      + count (text_eq number) []
    ≤ 4 + 2
Calls-IsLimited_example =
    Calls-IsLimited 2 gym e.now [] (mismatch (mismatch gym)) (λ n t. omega arith) six_come number
      e.now (omega arith)

abbrev four_before : Db
four_before = record gym {
  link_attempts =
      record { member_no = number; attempted_at = e.now }
      ∷ record { member_no = number; attempted_at = e.now }
      ∷ record { member_no = number; attempted_at = e.now }
      ∷ record { member_no = number; attempted_at = e.now }
      ∷ [];
}

-- With four attempts on record both calls pass the check, and a sixth is recorded.
both_pass : check_attempts e.now number four_before ≡ (ok tt, four_before)
unfolding check_attempts
both_pass = refl

six_recorded : count (is_recent number e.now) (mismatch (mismatch four_before)).link_attempts ≡ 6
unfolding link_found
six_recorded = refl

recorded_once : count (λ a. true) (link e (83 ∷ []) (50 ∷ []) 6 7 gym).1.link_attempts ≡ 1
unfolding link
recorded_once = refl

update_status_iff_example :
    is_ok (update_status e 1 MemberStatus.active gym).0
    ≡ passes (λ m. may_set MemberStatus.active gym m.account_id) (find (λ m. m.id == 1) gym.members)
update_status_iff_example = update_status_iff e 1 MemberStatus.active gym

update_status-active_example :
    passes (λ a. a.is_active) (account_of 5 (update_status e 1 MemberStatus.active gym).1)
    ≡ not (is_withdrawn MemberStatus.active)
unfolding update_status
update_status-active_example =
    update_status-active e 1 5 MemberStatus.active gym (update_status e 1 MemberStatus.active gym).1
      kim refl refl refl

born : IsDate (ymd 2008 2 29)
unfolding days_in_month
born = record {
  year_from = omega arith;
  month_from = omega arith;
  month_to = omega arith;
  day_from = omega arith;
  day_to = omega arith;
}

today : IsDate (ymd 2027 2 28)
unfolding days_in_month
today = record {
  year_from = omega arith;
  month_from = omega arith;
  month_to = omega arith;
  day_from = omega arith;
  day_to = omega arith;
}

is_minor_lem_example :
    is_minor (ymd 2008 2 29) (ymd 2027 2 28)
    ≡ ymd_lt (ymd 2027 2 28) (add_years_to_date_string (ymd 2008 2 29) 19)
is_minor_lem_example =
    is_minor_lem (ymd 2008 2 29) (ymd 2027 2 28) born today (omega arith) (omega arith)
