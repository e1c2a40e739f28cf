-- ===== src/Support/History.antt =====
-- What becomes of a request while several people handle requests at once.
use sports_erp.Prelude.{
  ℕ, ◌≡◌, refl, sym, ap, subst, Option, none, some, [], ◌∷◌, Bool, true, false, ◌==◌, inl, inr,
  Bool-cases, Option-cases, find, update, is_set, find-update, find-append_none, find-append_some,
  arith, updated,
}
use sports_erp.Store.{Db}
use sports_erp.Store.Errors.{ok}
use sports_erp.Store.Branches.{Text}
use sports_erp.Store.Operations.{SupportRequest, SupportRequestStatus}
use sports_erp.Integrity.{lock_branch_for_share, is_branch_terminated}
use sports_erp.Support.{
  SupportInput, create, create_body, new_request, check_status, write_status, can_change,
  transitions, is_terminal, is_rejected, is_still, handled, response_of, status_eq,
}

-- A write comes after checks that may have been made at any time before.
pub data Step : Db → Db → Type 0 where
  creates :
      (now new requester branch : ℕ) (i : SupportInput) (db : Db)
      → Step db (create now new requester branch i db).1
  writes :
      (now handler id : ℕ) (status : SupportRequestStatus) (response : Option Text)
      (current : SupportRequestStatus) (seen db : Db)
      → check_status id status response seen ≡ (ok current, seen)
      → Step db (write_status now handler id status response current db).1

pub data Reach (start : Db) : Db → Type 0 where
  begin : Reach start start
  step : (db db' : Db) → Reach start db → Step db db' → Reach start db'

-- The life of a request: it is made, may be taken up, and ends once.
pub data Moves : Option SupportRequestStatus → Option SupportRequestStatus → Type 0 where
  made : Moves none (some SupportRequestStatus.requested)
  taken_up : Moves (some SupportRequestStatus.requested) (some SupportRequestStatus.in_progress)
  done_at_once : Moves (some SupportRequestStatus.requested) (some SupportRequestStatus.done)
  rejected_at_once :
      Moves (some SupportRequestStatus.requested) (some SupportRequestStatus.rejected)
  done : Moves (some SupportRequestStatus.in_progress) (some SupportRequestStatus.done)
  rejected : Moves (some SupportRequestStatus.in_progress) (some SupportRequestStatus.rejected)

pub data Evolves (s : Option SupportRequestStatus) : Option SupportRequestStatus → Type 0 where
  stays : Evolves s s
  then_moves : (t u : Option SupportRequestStatus) → Evolves s t → Moves t u → Evolves s u

abbrev pub has_id : ℕ → SupportRequest → Bool
has_id id r = r.id == id

abbrev status_in : Option SupportRequest → Option SupportRequestStatus
status_in none = none
status_in (some r) = some r.status

-- The status of a request, if it is there.
abbrev pub status_of : ℕ → Db → Option SupportRequestStatus
status_of id db = status_in (find (has_id id) db.support_requests)

can_change-Moves : (a b : SupportRequestStatus) → can_change a b ≡ true → Moves (some a) (some b)
unfolding can_change transitions
can_change-Moves SupportRequestStatus.requested SupportRequestStatus.requested h =
    absurd (ground arith)
can_change-Moves SupportRequestStatus.requested SupportRequestStatus.in_progress h = taken_up
can_change-Moves SupportRequestStatus.requested SupportRequestStatus.done h = done_at_once
can_change-Moves SupportRequestStatus.requested SupportRequestStatus.rejected h = rejected_at_once
can_change-Moves SupportRequestStatus.in_progress SupportRequestStatus.requested h =
    absurd (ground arith)
can_change-Moves SupportRequestStatus.in_progress SupportRequestStatus.in_progress h =
    absurd (ground arith)
can_change-Moves SupportRequestStatus.in_progress SupportRequestStatus.done h = Moves.done
can_change-Moves SupportRequestStatus.in_progress SupportRequestStatus.rejected h = Moves.rejected
can_change-Moves SupportRequestStatus.done b h = absurd (ground arith)
can_change-Moves SupportRequestStatus.rejected b h = absurd (ground arith)

-- What the checks have seen to.
pub checked :
    (id : ℕ) (status : SupportRequestStatus) (response : Option Text)
    (current : SupportRequestStatus) (seen : Db)
    → check_status id status response seen ≡ (ok current, seen)
    → (can_change current status ≡ true)
      × (is_rejected status ≡ true → is_set (response_of response) ≡ true)
unfolding check_status
checked id status response current seen h =
    elim (Option-cases (find (has_id id) seen.support_requests)) [
      | inl e ↦ absurd (ground (arith, h, e))
      | inr (r, e) ↦ (ground (arith, h, e), λ q. ground (arith, h, e, q))
    ]

status_eq→eq : (a b : SupportRequestStatus) → status_eq a b ≡ true → a ≡ b
status_eq→eq a b h = ground arith

module _ (now handler id : ℕ) (status : SupportRequestStatus) (response : Option Text)
    (current : SupportRequestStatus) (db : Db) where
  pub written :
      (write_status now handler id status response current db).1.support_requests
      ≡ update (is_still id current) (handled now handler status response) db.support_requests
  unfolding write_status
  written = ground arith

  handled_id : (r : SupportRequest) → (handled now handler status response r).id ≡ r.id
  unfolding handled
  handled_id r = refl

  handled_status : (r : SupportRequest) → (handled now handler status response r).status ≡ status
  unfolding handled
  handled_status r = refl

  found_written :
      (k : ℕ)
      → find (has_id k) (write_status now handler id status response current db).1.support_requests
        ≡ updated
            (is_still id current)
            (handled now handler status response)
            (find (has_id k) db.support_requests)
  found_written k = rw written (
      find-update (has_id k) (is_still id current) (handled now handler status response)
        db.support_requests (λ r. ap (λ (i : ℕ). i == k) (handled_id r)))

-- What one step may do to a request.
data Advances (s t : Option SupportRequestStatus) : Type 0 where
  same : t ≡ s → Advances s t
  moves : Moves s t → Advances s t

module _ (k : ℕ) where
  written-Advances :
      (now handler id : ℕ) (status : SupportRequestStatus) (response : Option Text)
      (current : SupportRequestStatus) (db : Db)
      → can_change current status ≡ true
      → Advances
          (status_of k db)
          (status_of k (write_status now handler id status response current db).1)
  written-Advances now handler id status response current db c =
      elim (Option-cases (find (has_id k) db.support_requests)) [
        | inl e ↦
            Advances.same (rw (found_written now handler id status response current db k, e) refl)
        | inr (r, e) ↦ elim (Bool-cases (is_still id current r)) [
          | inr f ↦
              Advances.same
                (rw (found_written now handler id status response current db k, e, f) refl)
          | inl t ↦
              let was : r.status ≡ current = status_eq→eq r.status current (ground (arith, t)) in
              rw
                (
                  found_written now handler id status response current db k,
                  e,
                  t,
                  handled_status now handler id status response current db r,
                  was,
                )
                (Advances.moves (can_change-Moves current status c))
        ]
      ]

  created-Advances :
      (now new requester branch : ℕ) (i : SupportInput) (db : Db)
      → Advances (status_of k db) (status_of k (create now new requester branch i db).1)
  unfolding create create_body
  created-Advances now new requester branch i db =
      elim (Bool-cases (is_branch_terminated (lock_branch_for_share branch db))) [
        | inl t ↦ Advances.same (ground (arith, t))
        | inr f ↦ elim (Option-cases (find (has_id k) db.support_requests)) [
          | inr (r, e) ↦
              let found =
                find-append_some (has_id k) db.support_requests
                  (new_request now new requester branch i ∷ []) r e in
              Advances.same (ground (arith, f, e, found))
          | inl e ↦
              let found =
                find-append_none (has_id k) db.support_requests
                  (new_request now new requester branch i ∷ []) e in
              elim (Bool-cases (new == k)) [
                | inr n ↦ Advances.same (ground (arith, f, e, found, n))
                | inl n ↦
                    let before : none ≡ status_of k db = ground (arith, e) in
                    let after : some SupportRequestStatus.requested
                        ≡ status_of k (create now new requester branch i db).1 =
                      ground (arith, f, e, found, n) in
                    subst (λ s. Advances s (status_of k (create now new requester branch i db).1))
                      before (subst (Advances none) after (Advances.moves made))
              ]
        ]
      ]

  Step-Advances : {db db' : Db} → Step db db' → Advances (status_of k db) (status_of k db')
  Step-Advances (Step.creates now new requester branch i db) =
      created-Advances now new requester branch i db
  Step-Advances (Step.writes now handler id status response current seen db h) =
      written-Advances now handler id status response current db
        (checked id status response current seen h).0

  advance : (s t u : Option SupportRequestStatus) → Evolves s t → Advances t u → Evolves s u
  advance s t u e (Advances.same p) = subst (Evolves s) (sym p) e
  advance s t u e (Advances.moves m) = then_moves t u e m

  -- Over any sequence of creations and of writes of changes whose checks were made at any time,
  -- the status of the request of an id moves along the life of a request: it is made as
  -- requested, may be taken up, and is done or rejected once, from requested or from taken up.
  pub Reach-Evolves :
      {start db : Db} → Reach start db → Evolves (status_of k start) (status_of k db)
  Reach-Evolves begin = stays
  Reach-Evolves {start} (step db db' r s) =
      advance (status_of k start) (status_of k db) (status_of k db') (Reach-Evolves r)
        (Step-Advances s)

-- An answered request stays as it is.
terminal_stuck : (a b : SupportRequestStatus) → can_change a b ≡ true → is_terminal a ≡ false
unfolding can_change transitions
terminal_stuck SupportRequestStatus.requested b h = refl
terminal_stuck SupportRequestStatus.in_progress b h = refl
terminal_stuck SupportRequestStatus.done b h = absurd (ground arith)
terminal_stuck SupportRequestStatus.rejected b h = absurd (ground arith)

module _ (k : ℕ) (row : SupportRequest) (ended : is_terminal row.status ≡ true) where
  Step-Ended :
      {db db' : Db}
      → Step db db'
      → find (has_id k) db.support_requests ≡ some row
      → find (has_id k) db'.support_requests ≡ some row
  unfolding create create_body
  Step-Ended (Step.creates now new requester branch i db) e =
      let found =
        find-append_some (has_id k) db.support_requests
          (new_request now new requester branch i ∷ []) row e in
      elim (Bool-cases (is_branch_terminated (lock_branch_for_share branch db))) [
        | inl t ↦ ground (arith, t, e)
        | inr f ↦ ground (arith, f, found)
      ]
  Step-Ended (Step.writes now handler id status response current seen db h) e =
      let open_before =
        terminal_stuck current status (checked id status response current seen h).0 in
      elim (Bool-cases (is_still id current row)) [
        | inr f ↦ rw (found_written now handler id status response current db k, e, f) refl
        | inl t ↦
            let was : row.status ≡ current = status_eq→eq row.status current (ground (arith, t)) in
            absurd (ground (arith, ended, open_before, was))
      ]

  -- A request that is done or rejected keeps its whole row over any sequence of creations and of
  -- writes of changes, whenever their checks were made.
  pub Reach-Ended :
      {start db : Db}
      → Reach start db
      → find (has_id k) start.support_requests ≡ some row
      → find (has_id k) db.support_requests ≡ some row
  Reach-Ended begin e = e
  Reach-Ended (step db db' r s) e = Step-Ended s (Reach-Ended r e)
