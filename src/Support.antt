-- ===== src/Support.antt =====
-- modules/support-requests/support-request.service.ts: what the branches ask of the head office.
-- changeStatus runs in no transaction: it reads the status, and later writes only if the status is
-- still what it read, so it is two steps.
pub mod History
pub mod Answers
mod Tests
use sports_erp.Prelude.{
  ℕ, Option, none, some, List, [], ◌∷◌, ◌++◌, Bool, true, false, not, ◌&&◌, ◌==◌, if◌then◌else◌,
  find, count, update, exists, is_set,
}
use sports_erp.Store.{
  Db, Action, pure, throw, gets, require, require_row, transaction, ◌>>=◌, ◌>>◌, throw_if, modify,
}
use sports_erp.Store.Errors.{Code, Result, ok, err}
use sports_erp.Store.Branches.{Text}
use sports_erp.Store.Operations.{SupportRequest, SupportRequestCategory, SupportRequestStatus}
use sports_erp.Integrity.{lock_branch_for_share, is_branch_terminated}
use sports_erp.Texts.{trim, is_empty}

pub record SupportInput : Type 0 where
  pub category : SupportRequestCategory
  pub title : Text
  pub content : Text

abbrev new_request : ℕ → ℕ → ℕ → ℕ → SupportInput → SupportRequest
new_request now new requester branch i = record {
  id = new;
  branch_id = branch;
  requester_id = requester;
  category = i.category;
  title = trim i.title;
  content = trim i.content;
  status = SupportRequestStatus.requested;
  handler_id = none;
  response = none;
  resolved_at = none;
  created_at = now;
}

unfoldable pub create_body : ℕ → ℕ → ℕ → ℕ → SupportInput → Action ℕ
create_body now new requester branch i = do
  row ← gets (lock_branch_for_share branch)
  throw_if (is_branch_terminated row) Code.branch_terminated
  modify λ db. record db {
    support_requests = db.support_requests ++ new_request now new requester branch i ∷ [];
  }
  pure new

unfoldable pub create : ℕ → ℕ → ℕ → ℕ → SupportInput → Action ℕ
unfolding create_body
create now new requester branch i = transaction (create_body now new requester branch i)

abbrev pub status_index : SupportRequestStatus → ℕ
status_index SupportRequestStatus.requested = 0
status_index SupportRequestStatus.in_progress = 1
status_index SupportRequestStatus.done = 2
status_index SupportRequestStatus.rejected = 3

abbrev pub status_eq : SupportRequestStatus → SupportRequestStatus → Bool
status_eq a b = status_index a == status_index b

-- TRANSITIONS
unfoldable pub transitions : SupportRequestStatus → List SupportRequestStatus
transitions SupportRequestStatus.requested =
    SupportRequestStatus.in_progress ∷ SupportRequestStatus.done ∷ SupportRequestStatus.rejected
    ∷ []
transitions SupportRequestStatus.in_progress =
    SupportRequestStatus.done ∷ SupportRequestStatus.rejected ∷ []
transitions SupportRequestStatus.done = []
transitions SupportRequestStatus.rejected = []

unfoldable pub can_change : SupportRequestStatus → SupportRequestStatus → Bool
unfolding transitions
can_change old new = exists (λ s. status_eq s new) (transitions old)

abbrev pub is_rejected : SupportRequestStatus → Bool
is_rejected SupportRequestStatus.rejected = true
is_rejected _ = false

abbrev pub is_terminal : SupportRequestStatus → Bool
is_terminal SupportRequestStatus.done = true
is_terminal SupportRequestStatus.rejected = true
is_terminal _ = false

-- `input.response?.trim() || undefined`
abbrev non_empty : Text → Option Text
non_empty t = if is_empty t then none else some t

unfoldable pub response_of : Option Text → Option Text
response_of none = none
response_of (some t) = non_empty (trim t)

-- The checks of `changeStatus`: the status that is read.
unfoldable pub check_status : ℕ → SupportRequestStatus → Option Text → Action SupportRequestStatus
unfolding can_change response_of
check_status id status response = do
  throw_if (is_rejected status && not (is_set (response_of response))) Code.response_required
  current ←
      require_row (λ db. find (λ r. r.id == id) db.support_requests) Code.support_request_not_found
  throw_if (not (can_change current.status status)) Code.invalid_status_transition
  pure current.status

abbrev pub is_still : ℕ → SupportRequestStatus → SupportRequest → Bool
is_still id status r = r.id == id && status_eq r.status status

abbrev pub or_kept : Option Text → Option Text → Option Text
or_kept none old = old
or_kept (some t) old = some t

unfoldable pub handled :
    ℕ → ℕ → SupportRequestStatus → Option Text → SupportRequest → SupportRequest
unfolding response_of
handled now handler status response r = record r {
  status = status;
  handler_id = some handler;
  response = or_kept (response_of response) r.response;
  resolved_at = if is_terminal status then some now else none;
}

-- The write of `changeStatus`, for the status that it has read.
unfoldable pub write_status :
    ℕ → ℕ → ℕ → SupportRequestStatus → Option Text → SupportRequestStatus → Action (Unit {0})
unfolding handled
write_status now handler id status response current = do
  changed ← gets λ db. count (is_still id current) db.support_requests
  modify λ db. record db {
    support_requests =
        update (is_still id current) (handled now handler status response) db.support_requests;
  }
  throw_if (changed == 0) Code.invalid_status_transition

-- `changeStatus` where nothing comes between.
unfoldable pub change_status : ℕ → ℕ → ℕ → SupportRequestStatus → Option Text → Action (Unit {0})
unfolding check_status write_status
change_status now handler id status response =
    check_status id status response >>= write_status now handler id status response
