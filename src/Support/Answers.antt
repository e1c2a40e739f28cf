-- ===== src/Support/Answers.antt =====
-- The answer to a request: when a change of status goes through, and what is kept of it.
use mathlib.Core.Path.{
  subst, subst, subst, subst, subst, subst, subst, subst, subst, subst, subst, subst, subst, subst,
  subst, subst, subst, subst, subst, subst, subst, subst, subst, subst, subst, subst, subst, subst,
  subst, subst,
}
use sports_erp.Prelude.{
  find-passes, find_narrow, ℕ, ◌≡◌, ◌↔◌, refl, subst, Option, none, some, [], ◌∷◌, ◌++◌, true, not,
  inl, inr, Bool-cases, Option-cases, find, count-pos, is_set, All, All-append, All-update, arith,
  passes,
}
use sports_erp.Store.{Db}
use sports_erp.Store.Errors.{ok}
use sports_erp.Store.Branches.{Text}
use sports_erp.Store.Operations.{SupportRequest, SupportRequestStatus}
use sports_erp.Integrity.{lock_branch_for_share, is_branch_terminated}
use sports_erp.Texts.{is_empty}
use sports_erp.Support.{
  create, create_body, new_request, check_status, write_status, change_status, can_change,
  is_terminal, is_rejected, is_still, handled, response_of,
}
use sports_erp.Support.History.{begin, step, step, Step, Reach, checked, written, has_id}

-- A request has a time of its end exactly if it has ended, and an answer with text if it was
-- rejected.
abbrev pub IsSettled : SupportRequest → Type 0
IsSettled r =
    (is_set r.resolved_at ≡ is_terminal r.status)
    × (is_rejected r.status ≡ true → passes (λ t. not (is_empty t)) r.response ≡ true)

response_text :
    (o : Option Text)
    → is_set (response_of o) ≡ true
    → passes (λ t. not (is_empty t)) (response_of o) ≡ true
unfolding response_of
response_text none h = absurd (ground arith)
response_text (some t) h = ground (arith, h)

handled-IsSettled :
    (now handler : ℕ) (status : SupportRequestStatus) (response : Option Text) (r : SupportRequest)
    → (is_rejected status ≡ true → is_set (response_of response) ≡ true)
    → IsSettled (handled now handler status response r)
unfolding handled
handled-IsSettled now handler status response r given = (
  ground arith,
  λ q.
      let text = response_text response (given q) in
      elim (Option-cases (response_of response)) [
        | inl e ↦ absurd (ground (arith, e, text))
        | inr (t, e) ↦ ground (arith, e, text)
      ],
)

Step-IsSettled :
    {db db' : Db}
    → Step db db'
    → All IsSettled db.support_requests
    → All IsSettled db'.support_requests
unfolding create create_body
Step-IsSettled (Step.creates now new requester branch i db) a =
    elim (Bool-cases (is_branch_terminated (lock_branch_for_share branch db))) [
      | inl t ↦
          let same : db.support_requests
              ≡ (create now new requester branch i db).1.support_requests =
            ground (arith, t) in
          subst (All IsSettled) same a
      | inr f ↦
          let grown : db.support_requests ++ new_request now new requester branch i ∷ []
              ≡ (create now new requester branch i db).1.support_requests =
            ground (arith, f) in
          subst (All IsSettled) grown (
            All-append IsSettled db.support_requests (new_request now new requester branch i ∷ []) a
              ((refl, λ q. absurd (ground (arith, q))), tt))
    ]
Step-IsSettled (Step.writes now handler id status response current seen db h) a =
    rw (written now handler id status response current db) (
      All-update IsSettled IsSettled (is_still id current) (handled now handler status response)
        db.support_requests
        (λ r _ _.
          handled-IsSettled now handler status response r
            (checked id status response current seen h).1)
        (λ r _ s. s) a)

-- If it is so at first, then after any sequence of creations and of writes of changes, whenever
-- their checks were made, a request has a time of its end exactly if it is done or rejected, and
-- a rejected one has an answer that is not empty.
pub Reach-IsSettled :
    (start db : Db)
    → All IsSettled start.support_requests
    → Reach start db
    → All IsSettled db.support_requests
Reach-IsSettled start _ a begin = a
Reach-IsSettled start _ a (step db db' r s) = Step-IsSettled s (Reach-IsSettled start db a r)

module _ (now handler id : ℕ) (status : SupportRequestStatus) (response : Option Text)
    (db : Db) where
  abbrev pub MayChange : Type 0
  MayChange =
      (r : SupportRequest) × (find (has_id id) db.support_requests ≡ some r)
      × (can_change r.status status ≡ true)
      × (is_rejected status ≡ true → is_set (response_of response) ≡ true)

  -- A change of status that nothing interrupts succeeds exactly if the request is there, its
  -- status may change to the new one, and a rejection comes with an answer that is not empty when
  -- trimmed.
  pub change_status_iff : ((change_status now handler id status response db).0 ≡ ok tt) ↔ MayChange
  unfolding change_status check_status write_status
  change_status_iff = (
    (λ h. elim (Option-cases (find (has_id id) db.support_requests)) [
      | inl e ↦ absurd (ground (arith, h, e))
      | inr (r, e) ↦ (r, e, ground (arith, h, e), λ q. ground (arith, h, e, q))
    ]),
    λ (r, e, c, given).
        let here =
          find_narrow (has_id id) (is_still id r.status) db.support_requests r
            (λ x t. ground (arith, t)) e
            (ground (arith, find-passes (has_id id) db.support_requests r e)) in
        let some_row = count-pos (is_still id r.status) db.support_requests r here in
        elim (Bool-cases (is_rejected status)) [
          | inl q ↦ ground (arith, e, c, q, given q, some_row)
          | inr q ↦ ground (arith, e, c, q, some_row)
        ],
  )
