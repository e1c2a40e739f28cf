-- ===== src/Attendance/Leave/Overlap.antt =====
-- Two pieces of leave of one person never share a day.
use sports_erp.Prelude.{
  ℕ, ◌≡◌, ◌⊎◌, inl, inr, List, [], ◌∷◌, ◌++◌, Bool, true, false, not, ◌&&◌, if◌then◌else◌, exists,
  update, arith, All, All-append,
}
use sports_erp.Store.{Db}
use sports_erp.Store.Staffing.{LeaveRequest, LeaveStatus}
use sports_erp.Attendance.Leave.{
  LeaveInput, is_open, is_waiting, overlaps, reviewed, new_request, request_leave,
  approve_leave_request, reject_leave_request,
}

-- Two open requests of one person that share a day.
abbrev pub clash : LeaveRequest → LeaveRequest → Bool
clash r s = is_open s.status && overlaps s.staff_id s.start_date s.end_date is_open r

-- No two requests of the list clash.
abbrev pub Disjoint : List LeaveRequest → Type 0
Disjoint [] = Unit {0}
Disjoint (r ∷ rs) = All (λ s. clash r s ≡ false) rs × Disjoint rs

request_frame :
    (now new staff : ℕ) (i : LeaveInput) (db : Db)
    → ((request_leave now new staff i db).1.leave_requests ≡ db.leave_requests)
      ⊎ (((request_leave now new staff i db).1.leave_requests
            ≡ db.leave_requests ++ new_request new staff i ∷ [])
          × (exists
                (λ r. overlaps staff i.start_date i.end_date is_open r && not false)
                db.leave_requests
              ≡ false))
unfolding request_leave
request_frame now new staff i db = ground arith

approve_frame :
    (now id approver : ℕ) (db : Db)
    → ((approve_leave_request now id approver db).1.leave_requests ≡ db.leave_requests)
      ⊎ ((approve_leave_request now id approver db).1.leave_requests
          ≡ update (is_waiting id) (reviewed now approver LeaveStatus.approved) db.leave_requests)
unfolding approve_leave_request
approve_frame now id approver db = ground arith

reject_frame :
    (now id approver : ℕ) (db : Db)
    → ((reject_leave_request now id approver db).1.leave_requests ≡ db.leave_requests)
      ⊎ ((reject_leave_request now id approver db).1.leave_requests
          ≡ update (is_waiting id) (reviewed now approver LeaveStatus.rejected) db.leave_requests)
unfolding reject_leave_request
reject_frame now id approver db = ground arith

Disjoint-append :
    (rs : List LeaveRequest) (x : LeaveRequest)
    → exists (λ r. overlaps x.staff_id x.start_date x.end_date is_open r && not false) rs ≡ false
    → Disjoint rs
    → Disjoint (rs ++ x ∷ [])
Disjoint-append [] x h d = (tt, tt)
Disjoint-append (r ∷ rs) x h d = (
  All-append (λ s. clash r s ≡ false) rs (x ∷ []) d.0 (ground (arith, h), tt),
  Disjoint-append rs x (ground (arith, h)) d.1,
)

module _ (now id approver : ℕ) (status : LeaveStatus) where
  review_row : LeaveRequest → LeaveRequest
  review_row r = if is_waiting id r then reviewed now approver status r else r

  -- A review opens no request.
  open_before : (r : LeaveRequest) → is_open (review_row r).status ≡ true → is_open r.status ≡ true
  unfolding review_row
  open_before r h = ground (arith, h)

  review_keeps :
      (r s : LeaveRequest) → clash r s ≡ false → clash (review_row r) (review_row s) ≡ false
  unfolding review_row
  review_keeps r s h = ground (arith, h, open_before r, open_before s)

  clash-review :
      (r : LeaveRequest) (rs : List LeaveRequest)
      → All (λ s. clash r s ≡ false) rs
      → All
          (λ s. clash (review_row r) s ≡ false)
          (update (is_waiting id) (reviewed now approver status) rs)
  unfolding review_row
  clash-review r [] a = tt
  clash-review r (s ∷ rs) a = (review_keeps r s a.0, clash-review r rs a.1)

  Disjoint-review :
      (rs : List LeaveRequest)
      → Disjoint rs
      → Disjoint (update (is_waiting id) (reviewed now approver status) rs)
  unfolding review_row
  Disjoint-review [] d = tt
  Disjoint-review (r ∷ rs) d = (clash-review r rs d.0, Disjoint-review rs d.1)

-- A request, or its approval or rejection.
pub data Step : Db → Db → Type 0 where
  requests :
      (now new staff : ℕ) (i : LeaveInput) (db : Db) → Step db (request_leave now new staff i db).1
  approves : (now id approver : ℕ) (db : Db) → Step db (approve_leave_request now id approver db).1
  rejects : (now id approver : ℕ) (db : Db) → Step db (reject_leave_request now id approver db).1

pub data Reach (start : Db) : Db → Type 0 where
  begin : Reach start start
  step : (db db' : Db) → Reach start db → Step db db' → Reach start db'

Step-Disjoint :
    {db db' : Db} → Step db db' → Disjoint db.leave_requests → Disjoint db'.leave_requests
Step-Disjoint (requests now new staff i db) d = elim (request_frame now new staff i db) [
  | inl same ↦ rw same d
  | inr (e, free) ↦ rw e (Disjoint-append db.leave_requests (new_request new staff i) free d)
]
Step-Disjoint (approves now id approver db) d = elim (approve_frame now id approver db) [
  | inl same ↦ rw same d
  | inr e ↦ rw e (Disjoint-review now id approver LeaveStatus.approved db.leave_requests d)
]
Step-Disjoint (rejects now id approver db) d = elim (reject_frame now id approver db) [
  | inl same ↦ rw same d
  | inr e ↦ rw e (Disjoint-review now id approver LeaveStatus.rejected db.leave_requests d)
]

-- If no two waiting or approved leave requests of one person share a day, then after any sequence
-- of requests, approvals and rejections, failed ones included, still none do.
pub Reach-Disjoint :
    (start db : Db) → Disjoint start.leave_requests → Reach start db → Disjoint db.leave_requests
Reach-Disjoint start _ d begin = d
Reach-Disjoint start _ d (step db db' r s) = Step-Disjoint s (Reach-Disjoint start db d r)
