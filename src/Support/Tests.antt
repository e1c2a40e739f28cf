-- ===== src/Support/Tests.antt =====
-- A request that two people handle.
use sports_erp.Prelude.{◌≡◌, ◌↔◌, refl, none, some, [], ◌∷◌, find, All}
use sports_erp.Store.{Db, empty_db}
use sports_erp.Store.Errors.{Code, ok, err}
use sports_erp.Store.Operations.{SupportRequest, SupportRequestStatus, SupportRequestCategory}
use sports_erp.Texts.{trim}
use sports_erp.Support.{SupportInput, create, check_status, write_status, change_status}
use sports_erp.Support.History.{
  Reach, begin, step, creates, writes, Evolves, status_of, Reach-Evolves, Reach-Ended, has_id,
}
use sports_erp.Support.Answers.{IsSettled, Reach-IsSettled, MayChange, change_status_iff}

abbrev new_pump : SupportInput
new_pump = record {
  category = SupportRequestCategory.supplies;
  title = 32 ∷ 80 ∷ 10 ∷ [];
  content = 80 ∷ [];
}

abbrev asked : Db
asked = (create 7 1 2 10 new_pump empty_db).1

abbrev done : SupportRequestStatus
done = SupportRequestStatus.done

abbrev answered : Db
answered = (write_status 9 3 1 done none SupportRequestStatus.requested asked).1

read : check_status 1 done none asked ≡ (ok SupportRequestStatus.requested, asked)
unfolding check_status create trim
read = refl

steps : Reach empty_db answered
steps =
    step asked answered (step empty_db asked begin (creates 7 1 2 10 new_pump empty_db))
      (writes 9 3 1 done none SupportRequestStatus.requested asked asked read)

Reach-Evolves_example : Evolves (status_of 1 empty_db) (status_of 1 answered)
Reach-Evolves_example = Reach-Evolves 1 steps

-- The second person is late.
write_late :
    (write_status 9 4 1 SupportRequestStatus.rejected
      (some (110 ∷ []))
      SupportRequestStatus.requested
      answered).0
    ≡ err Code.invalid_status_transition
unfolding create write_status
write_late = refl

abbrev pump : SupportRequest
pump = record {
  id = 1;
  branch_id = 10;
  requester_id = 2;
  category = SupportRequestCategory.supplies;
  title = 80 ∷ [];
  content = 80 ∷ [];
  status = done;
  handler_id = some 3;
  response = none;
  resolved_at = some 9;
  created_at = 7;
}

is_there : find (has_id 1) answered.support_requests ≡ some pump
unfolding create write_status trim
is_there = refl

abbrev late : Db
late =
    (write_status 9 4 1 SupportRequestStatus.in_progress none SupportRequestStatus.requested
      answered).1

read_early :
    check_status 1 SupportRequestStatus.in_progress none asked
    ≡ (ok SupportRequestStatus.requested, asked)
unfolding check_status create trim
read_early = refl

Reach-Ended_example : find (has_id 1) late.support_requests ≡ some pump
Reach-Ended_example =
    Reach-Ended 1 pump refl
      (step answered late begin (
        writes 9 4 1 SupportRequestStatus.in_progress none SupportRequestStatus.requested asked
          answered read_early))
      is_there

Reach-IsSettled_example : All IsSettled answered.support_requests
Reach-IsSettled_example = Reach-IsSettled empty_db answered tt steps

change_status_iff_example :
    ((change_status 9 3 1 done none asked).0 ≡ ok tt) ↔ MayChange 9 3 1 done none asked
change_status_iff_example = change_status_iff 9 3 1 done none asked
