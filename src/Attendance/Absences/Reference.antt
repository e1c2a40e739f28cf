-- ===== src/Attendance/Absences/Reference.antt =====
-- The preview against a direct description of absence, which reads the whole tables.
use sports_erp.Prelude.{
  exists-select, exists_cong, All_of, ==_refl, Option-cases, ℕ, ◌≤◌, ◌≡◌, refl, sym, ap, ◌∙◌, some,
  List, [], ◌∷◌, Bool, true, false, not, ◌&&◌, ◌||◌, ltb, leb, ◌==◌, select, exists, is_in, or_else,
  inl, inr, Bool-cases, All, arith,
}
use sports_erp.Store.{Db}
use sports_erp.Store.Staffing.{Staff, StaffAssignment, AttendanceRecord, LeaveRequest}
use sports_erp.Dates.Kst.{kst_day}
use sports_erp.Attendance.Rules.{branch_on_date, is_work_day, latest_on, holds_on}
use sports_erp.Attendance.Leave.{is_approved}
use sports_erp.Attendance.Absences.Months.{is_candidate, found_staff}
use sports_erp.Attendance.Absences.{
  Month, is_employed, belongs, in_month, leave_in, is_on, covers, is_absent, ids, StaffOrder,
  candidates, preview_absences,
}

-- Who was at the branch on a day by an assignment has one there.
latest_branch :
    (branch date : ℕ) (rows : List StaffAssignment) (a : StaffAssignment)
    → latest_on date rows ≡ some a
    → a.branch_id ≡ branch
    → exists (λ a. a.branch_id == branch) rows ≡ true
latest_branch branch date [] a h e = absurd (ground arith)
latest_branch branch date (r ∷ rows) a h e = elim (Bool-cases (holds_on date r)) [
  | inr f ↦ ground (arith, f, h, latest_branch branch date rows a (ground (arith, f, h)) e)
  | inl t ↦ elim (Option-cases (latest_on date rows)) [
    | inl n ↦ ground (arith, t, n, h, e)
    | inr (b, n) ↦ elim (Bool-cases (leb b.start_date r.start_date)) [
      | inl l ↦ ground (arith, t, n, l, h, e)
      | inr l ↦
          let same : b ≡ a = ground (arith, t, n, l, h) in
          ground (arith, latest_branch branch date rows b n (ap (λ x. x.branch_id) same ∙ e))
    ]
  ]
]

-- A person is absent on a day: in service, on a past day, of the branch on that day, which is a
-- work day of theirs, with no row of the day and no approved leave on it.
abbrev pub absent_on : ℕ → ℕ → Db → Staff → ℕ → Bool
absent_on today branch db s date =
    is_employed s.status
    && (ltb date today
        && (or_else (branch_on_date (select (λ a. a.staff_id == s.id) db.assignments) date)
                s.branch_id
              == branch
            && (is_work_day s date
                && (not (exists (is_on s.id date) db.attendance)
                    && not (
                        exists (λ l. l.staff_id == s.id && (is_approved l.status && covers date l))
                          db.leave_requests)))))

module _ (today branch : ℕ) (m : Month) (db : Db) (s : Staff) (date : ℕ)
    (inside : in_month m date ≡ true) where
  abbrev records : List ℕ → List AttendanceRecord
  records known = select (λ r. is_in r.staff_id known && in_month m r.date) db.attendance

  abbrev leaves : List ℕ → List LeaveRequest
  leaves known = select (λ l. is_in l.staff_id known && leave_in m l) db.leave_requests

  same_record :
      (known : List ℕ)
      → is_in s.id known ≡ true
      → exists (is_on s.id date) (records known) ≡ exists (is_on s.id date) db.attendance
  same_record known k =
      exists-select (is_on s.id date) (λ r. is_in r.staff_id known && in_month m r.date)
        db.attendance
      ∙ exists_cong _ (is_on s.id date) db.attendance (
          All_of _ db.attendance λ r. elim (Bool-cases (is_on s.id date r)) [
            | inr f ↦ ground (arith, f)
            | inl t ↦
                let e : r.staff_id ≡ s.id = ground (arith, t) in
                let e' : r.date ≡ date = ground (arith, t) in
                let i : is_in r.staff_id known ≡ true = ap (λ (n : ℕ). is_in n known) e ∙ k in
                let j : in_month m r.date ≡ true = ap (λ (n : ℕ). in_month m n) e' ∙ inside in
                ground (arith, t, i, j)
          ])

  same_leave :
      (known : List ℕ)
      → is_in s.id known ≡ true
      → exists (covers date) (select (λ l. l.staff_id == s.id) (leaves known))
        ≡ exists
            (λ l. l.staff_id == s.id && (is_approved l.status && covers date l))
            db.leave_requests
  same_leave known k =
      exists-select (covers date) (λ l. l.staff_id == s.id) (leaves known)
      ∙ exists-select (λ l. l.staff_id == s.id && covers date l)
          (λ l. is_in l.staff_id known && leave_in m l) db.leave_requests
      ∙ exists_cong _ _ db.leave_requests (
          All_of _ db.leave_requests λ l. elim (Bool-cases (l.staff_id == s.id)) [
            | inr f ↦ ground (arith, f)
            | inl t ↦
                let e : l.staff_id ≡ s.id = ground (arith, t) in
                let i : is_in l.staff_id known ≡ true = ap (λ (n : ℕ). is_in n known) e ∙ k in
                ground (arith, t, i, inside)
          ])

  at_branch :
      or_else (branch_on_date (select (λ a. a.staff_id == s.id) db.assignments) date) s.branch_id
        ≡ branch
      → (s.branch_id == branch
          || exists (λ a. a.staff_id == s.id && a.branch_id == branch) db.assignments)
        ≡ true
  unfolding branch_on_date
  at_branch h =
      let own = select (λ a. a.staff_id == s.id) db.assignments in
      elim (Option-cases (latest_on date own)) [
        | inl n ↦ ground (arith, h, n)
        | inr (a, n) ↦
            let e : a.branch_id ≡ branch = ground (arith, h, n) in
            ground (
              arith,
              latest_branch branch date own a n e,
              exists-select (λ a. a.branch_id == branch) (λ a. a.staff_id == s.id) db.assignments,
            )
      ]

  -- The preview asks less of the tables and finds the same.
  same_absence :
      (known : List ℕ)
      → is_in s.id known ≡ true
      → (belongs branch db.assignments s
          && is_absent today branch db.assignments (records known) (leaves known) s date)
        ≡ absent_on today branch db s date
  unfolding is_absent
  same_absence known k =
      elim (Bool-cases (
        or_else (branch_on_date (select (λ a. a.staff_id == s.id) db.assignments) date) s.branch_id
        == branch)) [
          | inr f ↦ ground (arith, f)
          | inl t ↦
              ground
                (arith, t, same_record known k, same_leave known k, at_branch (ground (arith, t)))
        ]

  outsider : belongs branch db.assignments s ≡ false → absent_on today branch db s date ≡ false
  outsider b =
      elim (Bool-cases (
        or_else (branch_on_date (select (λ a. a.staff_id == s.id) db.assignments) date) s.branch_id
        == branch)) [
          | inr f ↦ ground (arith, f)
          | inl t ↦ ground (arith, b, t, at_branch (ground (arith, t)))
        ]

  judged :
      (known : List ℕ)
      → (belongs branch db.assignments s ≡ true → is_in s.id known ≡ true)
      → (belongs branch db.assignments s
          && is_absent today branch db.assignments (records known) (leaves known) s date)
        ≡ absent_on today branch db s date
  judged known k = elim (Bool-cases (belongs branch db.assignments s)) [
    | inl t ↦ same_absence known (k t)
    | inr f ↦ rw f (sym (outsider f))
  ]

All_select :
    (p : Staff → Bool) (known : List ℕ) (xs : List Staff)
    → ((i : ℕ) → exists (λ s. s.id == i) (select p xs) ≡ true → is_in i known ≡ true)
    → All (λ s. p s ≡ true → is_in s.id known ≡ true) xs
All_select p known [] h = tt
All_select p known (s ∷ xs) h = (
  (λ t. h s.id (rw t (rw (==_refl s.id) refl))),
  All_select p known xs λ i e.
      h i (elim (Bool-cases (p s)) [ inl t ↦ ground (arith, t, e) | inr f ↦ ground (arith, f, e) ]),
)

is_in-ids : (i : ℕ) (xs : List Staff) → is_in i (ids xs) ≡ exists (λ s. s.id == i) xs
is_in-ids i [] = refl
is_in-ids i (s ∷ xs) = ground (arith, is_in-ids i xs)

module _ (order : StaffOrder) (now branch : ℕ) (m : Month) (db : Db) (id date : ℕ)
    (year : 100 ≤ m.year) (from : 1 ≤ m.month) (to : m.month ≤ 12) where
  abbrev known : List ℕ
  known = ids (candidates order branch db)

  all_known : All (λ s. belongs branch db.assignments s ≡ true → is_in s.id known ≡ true) db.staff
  all_known = All_select (belongs branch db.assignments) known db.staff λ i e.
      is_in-ids i (candidates order branch db)
      ∙ order.same_rows (λ s. s.id == i) (select (belongs branch db.assignments) db.staff)
      ∙ e

  abbrev absent : Staff → ℕ → Bool
  absent s d =
      is_absent (kst_day now) branch db.assignments
        (select (λ r. is_in r.staff_id known && in_month m r.date) db.attendance)
        (select (λ l. is_in l.staff_id known && leave_in m l) db.leave_requests) s d

  row_by_row :
      (xs : List Staff)
      → All (λ s. belongs branch db.assignments s ≡ true → is_in s.id known ≡ true) xs
      → exists
          (λ s.
            belongs branch db.assignments s && (s.id == id && (in_month m date && absent s date)))
          xs
        ≡ (in_month m date
            && exists (λ s. s.id == id && absent_on (kst_day now) branch db s date) xs)
  row_by_row [] a = ground arith
  row_by_row (s ∷ xs) a =
      let rest = row_by_row xs a.1 in
      elim (Bool-cases (in_month m date)) [
        | inr f ↦ ground (arith, f, rest)
        | inl t ↦
            let same = judged (kst_day now) branch m db s date t known a.0 in
            ground (arith, t, rest, same)
      ]

  -- For a month of a year from 100 on, `previewAbsences` names a person and a day exactly if the
  -- day is in the month and that person is absent on it by the whole tables: in service, the day
  -- before today, of the branch on that day by the assignments, on a work day, with no row of the
  -- day and no approved leave on it.
  pub preview_absences_lem :
      exists (is_candidate id date) (preview_absences order now branch m db) ≡ (
        in_month m date
        && exists (λ s. s.id == id && absent_on (kst_day now) branch db s date) db.staff)
  unfolding preview_absences
  preview_absences_lem =
      found_staff m year from to absent id date (candidates order branch db)
      ∙ order.same_rows (λ s. s.id == id && (in_month m date && absent s date))
          (select (belongs branch db.assignments) db.staff)
      ∙ exists-select (λ s. s.id == id && (in_month m date && absent s date))
          (belongs branch db.assignments) db.staff
      ∙ row_by_row db.staff all_known
