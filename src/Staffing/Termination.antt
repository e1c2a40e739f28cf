-- ===== src/Staffing/Termination.antt =====
-- What the end of a branch's contract does to the assignments there.
use sports_erp.Prelude.{
  ℕ, ◌≡◌, ◌⊎◌, inl, inr, refl, ap, ◌∙◌, List, [], ◌∷◌, ◌++◌, map, Bool, true, false, not, ◌&&◌, ltb,
  count, select, update, exists, is_id, is_in, length, arith, Bool-cases, All, All-map, ==_refl,
}
use sports_erp.Store.{Db}
use sports_erp.Store.Errors.{Code, ok, err, is_ok}
use sports_erp.Store.Members.{Member}
use sports_erp.Store.Staffing.{StaffAssignment}
use sports_erp.Store.Audit.{AuditLog, AuditEntity, AuditAction}
use sports_erp.Staffing.{is_open_at, end_assignments, end_assignment}
use sports_erp.Staffing.Moves.{
  holds, release, detach, audit_ended, end_assignments_at_terminated_branch,
}

-- The audit entries of the assignments that end.
abbrev ended_entries : ℕ → ℕ → ℕ → List Member → List StaffAssignment → List AuditLog
ended_entries actor branch today released [] = []
ended_entries actor branch today released (a ∷ opened) =
    record {
      actor_id = actor;
      entity = AuditEntity.staff;
      entity_id = a.staff_id;
      action =
          AuditAction.assignment_ended branch today
            (count (λ m. is_id m.assigned_staff_id a.staff_id) released);
    }
    ∷ ended_entries actor branch today released opened

append_assoc : (xs ys zs : List AuditLog) → (xs ++ ys) ++ zs ≡ xs ++ (ys ++ zs)
append_assoc [] ys zs = refl
append_assoc (x ∷ xs) ys zs = ap (λ t. x ∷ t) (append_assoc xs ys zs)

append_nil : (xs : List AuditLog) → xs ++ [] ≡ xs
append_nil [] = refl
append_nil (x ∷ xs) = ap (λ t. x ∷ t) (append_nil xs)

audit_ended_lem :
    (actor branch today : ℕ) (released : List Member) (opened : List StaffAssignment) (db : Db)
    → audit_ended actor branch today released opened db
      ≡ (ok tt, record db { audit = db.audit ++ ended_entries actor branch today released opened })
unfolding audit_ended
audit_ended_lem actor branch today released [] db = rw (append_nil db.audit) refl
audit_ended_lem actor branch today released (a ∷ opened) db =
    let e : AuditLog = record {
      actor_id = actor;
      entity = AuditEntity.staff;
      entity_id = a.staff_id;
      action =
          AuditAction.assignment_ended branch today
            (count (λ m. is_id m.assigned_staff_id a.staff_id) released);
    } in
    audit_ended_lem actor branch today released opened (record db { audit = db.audit ++ e ∷ [] })
    ∙ ap (λ l. (ok tt, record db { audit = l }))
        (append_assoc db.audit (e ∷ []) (ended_entries actor branch today released opened))

-- Whether an assignment is one that the end of the branch's contract ends.
abbrev pub is_ending : ℕ → Db → StaffAssignment → Bool
is_ending branch db a = is_in a.id (map (λ o. o.id) (select (is_open_at branch) db.assignments))

update_in_empty :
    (f : StaffAssignment → StaffAssignment) (ids : List StaffAssignment) (xs : List StaffAssignment)
    → length ids ≡ 0
    → update (λ a. is_in a.id (map (λ o. o.id) ids)) f xs ≡ xs
update_in_empty f [] [] h = refl
update_in_empty f [] (x ∷ xs) h = ap (λ t. x ∷ t) (update_in_empty f [] xs h)
update_in_empty f (i ∷ ids) xs h = absurd (ground arith)

-- The members that the end of the branch's contract releases.
abbrev pub released_at : ℕ → Db → List Member
released_at branch db =
    select
      (λ m.
        holds (map (λ a. a.staff_id) (select (is_open_at branch) db.assignments))
          m.assigned_staff_id)
      db.members

abbrev ended_db : ℕ → ℕ → Db → Db
ended_db branch today db = record (release (released_at branch db) db) {
  assignments = update (is_ending branch db) (end_assignment today) db.assignments;
  instructors =
      update
        (λ i. holds (map (λ a. a.staff_id) (select (is_open_at branch) db.assignments)) i.staff_id)
        detach db.instructors;
}

pub end_at_frame :
    (branch actor today : ℕ) (db : Db)
    → let (r, db') = end_assignments_at_terminated_branch branch actor today db in
      (r ≡ err Code.check_violation)
      ⊎ ((db'.branches ≡ db.branches)
          × (db'.assignments ≡ update (is_ending branch db) (end_assignment today) db.assignments)
          × (db'.staff ≡ db.staff)
          × (db'.rounds ≡ db.rounds)
          × (db'.files ≡ db.files))
unfolding end_assignments_at_terminated_branch end_assignments
end_at_frame branch actor today db = ground (
  arith,
  update_in_empty (end_assignment today) (select (is_open_at branch) db.assignments) db.assignments,
  audit_ended_lem actor branch today (released_at branch db)
      (select (is_open_at branch) db.assignments) (ended_db branch today db),
)

-- An assignment that the end of the contract would end before it begins.
abbrev pub ends_early : ℕ → ℕ → Db → Bool
ends_early branch day db =
    exists (λ a. is_ending branch db a && ltb day a.start_date) db.assignments

early_empty :
    (day : ℕ) (ids rows : List StaffAssignment)
    → length ids ≡ 0
    → exists (λ a. is_in a.id (map (λ o. o.id) ids) && ltb day a.start_date) rows ≡ false
early_empty day [] [] h = refl
early_empty day [] (x ∷ rows) h = early_empty day [] rows h
early_empty day (i ∷ ids) rows h = absurd (ground arith)

pub end_at-ok :
    (branch actor today : ℕ) (db : Db)
    → is_ok (end_assignments_at_terminated_branch branch actor today db).0
      ≡ not (ends_early branch today db)
unfolding end_assignments_at_terminated_branch end_assignments
end_at-ok branch actor today db = ground (
  arith,
  early_empty today (select (is_open_at branch) db.assignments) db.assignments,
  audit_ended_lem actor branch today (released_at branch db)
      (select (is_open_at branch) db.assignments) (ended_db branch today db),
)

module _ {A : Type 0} (key : A → ℕ) (p : A → Bool) where
  -- Each selected row is named by the keys of the selection.
  named : (xs : List A) → All (λ x. p x ≡ true → is_in (key x) (map key (select p xs)) ≡ true) xs
  named [] = tt
  named (x ∷ xs) = (
    λ t. ground (arith, t, ==_refl (key x)),
    All-map (λ y. p y ≡ true → is_in (key y) (map key (select p xs)) ≡ true)
        (λ y. p y ≡ true → is_in (key y) (map key (select p (x ∷ xs))) ≡ true) xs
        (λ y h q. elim (Bool-cases (p x)) [
          | inl t ↦ ground (arith, t, h q)
          | inr f ↦ ground (arith, f, h q)
        ])
        (named xs),
  )

  -- An update that covers the rows that pass, and makes every row fail.
  count-update_covered :
      (q : A → Bool) (f : A → A) (xs : List A)
      → All (λ x. p x ≡ true → q x ≡ true) xs
      → ((x : A) → p (f x) ≡ false)
      → count p (update q f xs) ≡ 0
  count-update_covered q f [] a h = refl
  count-update_covered q f (x ∷ xs) a h = elim (Bool-cases (q x)) [
    | inl t ↦ ground (arith, t, h x, count-update_covered q f xs a.1 h)
    | inr n ↦ elim (Bool-cases (p x)) [
      | inl t ↦ absurd (ground (arith, n, a.0 t))
      | inr m ↦ ground (arith, n, m, count-update_covered q f xs a.1 h)
    ]
  ]

-- The end of a branch's contract leaves no assignment open there.
pub ending_gone :
    (branch day : ℕ) (db : Db)
    → count (is_open_at branch) (update (is_ending branch db) (end_assignment day) db.assignments)
      ≡ 0
ending_gone branch day db =
    count-update_covered (λ a. a.id) (is_open_at branch) (is_ending branch db) (end_assignment day)
      db.assignments (named (λ a. a.id) (is_open_at branch) db.assignments) (λ a. ground arith)
