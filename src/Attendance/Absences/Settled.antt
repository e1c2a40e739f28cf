-- ===== src/Attendance/Absences/Settled.antt =====
-- What a confirmation of absences leaves behind.
use sports_erp.Prelude.{
  exists-append, ℕ, ◌+◌, ◌≤◌, ◌≡◌, refl, sym, ap, ◌∙◌, Option, List, [], ◌∷◌, ◌++◌, String, true,
  false, ◌&&◌, ◌||◌, ◌==◌, if◌then◌else◌, exists, inl, inr, Bool-cases, arith, ==_refl,
}
use sports_erp.Store.{Db}
use sports_erp.Store.Staffing.{Staff, AttendanceRecord}
use sports_erp.Dates.Kst.{kst_day}
use sports_erp.Attendance.Absences.Months.{is_candidate}
use sports_erp.Attendance.Absences.{
  Month, AbsenceCandidate, StaffOrder, is_on, in_month, absent_row, create_absences,
  confirm_absences, preview_absences,
}
use sports_erp.Attendance.Absences.Reference.{absent_on, preview_absences_lem}

module _ (new branch : ℕ) (memo : Option String) where
  one_more :
      (c : AbsenceCandidate) (i d : ℕ) (rows : List AttendanceRecord)
      → exists (is_on i d) (
          if exists (is_on c.staff_id c.date) rows
          then rows
          else rows ++ absent_row new branch memo c ∷ [])
        ≡ (exists (is_on i d) rows || is_candidate i d c)
  one_more c i d rows = elim (Bool-cases (exists (is_on c.staff_id c.date) rows)) [
    | inr f ↦ ground (arith, f, exists-append (is_on i d) rows (absent_row new branch memo c ∷ []))
    | inl t ↦ elim (Bool-cases (is_candidate i d c)) [
      | inr g ↦ ground (arith, t, g)
      | inl g ↦
          let e : c.staff_id ≡ i = ground (arith, g) in
          let e' : c.date ≡ d = ground (arith, g) in
          let there : exists (is_on i d) rows ≡ true =
            sym (λ k. exists (is_on (e k) (e' k)) rows) ∙ t in
          ground (arith, t, g, there)
    ]
  ]

-- After the write exactly those days have a row that had one or were candidates.
written_days :
    (new branch : ℕ) (memo : Option String) (i d : ℕ) (cs : List AbsenceCandidate)
    (rows : List AttendanceRecord)
    → exists (is_on i d) (create_absences new branch memo cs rows)
      ≡ (exists (is_on i d) rows || exists (is_candidate i d) cs)
unfolding create_absences
written_days new branch memo i d [] rows = ground arith
written_days new branch memo i d (c ∷ cs) rows =
    written_days (new + 1) branch memo i d cs _
    ∙ ap (λ b. b || exists (is_candidate i d) cs) (one_more new branch memo c i d rows)
    ∙ ground arith

no_candidates :
    (cs : List AbsenceCandidate) → ((i d : ℕ) → exists (is_candidate i d) cs ≡ false) → cs ≡ []
no_candidates [] h = refl
no_candidates (c ∷ cs) h =
    absurd (ground (arith, h c.staff_id c.date, ==_refl c.staff_id, ==_refl c.date))

-- The database after a confirmation of what the preview shows.
abbrev pub confirmed : StaffOrder → ℕ → ℕ → ℕ → Option String → Month → Db → Db
confirmed order now branch new memo m db =
    (confirm_absences new branch memo (preview_absences order now branch m db) db).1

module _ (order : StaffOrder) (now branch new : ℕ) (memo : Option String) (m : Month) (db : Db)
    (year : 100 ≤ m.year) (from : 1 ≤ m.month) (to : m.month ≤ 12) where
  abbrev after : Db
  after = confirmed order now branch new memo m db

  confirmed_days :
      (i d : ℕ)
      → exists (is_on i d) after.attendance ≡ (
          exists (is_on i d) db.attendance
          || (in_month m d
              && exists (λ s. s.id == i && absent_on (kst_day now) branch db s d) db.staff))
  unfolding confirm_absences
  confirmed_days i d =
      written_days new branch memo i d (preview_absences order now branch m db) db.attendance
      ∙ ap (λ b. exists (is_on i d) db.attendance || b)
          (preview_absences_lem order now branch m db i d year from to)

  -- Whoever is still absent was absent, and has no row now.
  still :
      (i d : ℕ) (s : Staff)
      → (s.id == i && absent_on (kst_day now) branch after s d) ≡ true
      → ((s.id == i && absent_on (kst_day now) branch db s d) ≡ true)
        × (exists (is_on i d) after.attendance ≡ false)
  unfolding confirm_absences
  still i d s h =
      let e : s.id ≡ i = ground (arith, h) in
      let free : exists (is_on s.id d) after.attendance ≡ false = ground (arith, h) in
      let before =
        written_days new branch memo s.id d (preview_absences order now branch m db)
          db.attendance in
      (ground (arith, h, free, before), sym (λ k. exists (is_on (e k) d) after.attendance) ∙ free)

  nobody :
      (i d : ℕ) (xs : List Staff)
      → exists (λ s. s.id == i && absent_on (kst_day now) branch after s d) xs ≡ true
      → (exists (λ s. s.id == i && absent_on (kst_day now) branch db s d) xs ≡ true)
        × (exists (is_on i d) after.attendance ≡ false)
  nobody i d [] h = absurd (ground (arith, h))
  nobody i d (s ∷ xs) h =
      elim (Bool-cases (s.id == i && absent_on (kst_day now) branch after s d)) [
        | inl t ↦ let (was, row) = still i d s t in (ground (arith, was), row)
        | inr f ↦
            let (was, row) = nobody i d xs (ground (arith, f, h)) in (ground (arith, was), row)
      ]

  same_staff : after.staff ≡ db.staff
  unfolding confirm_absences
  same_staff = refl

  none_left : preview_absences order now branch m after ≡ []
  none_left = no_candidates (preview_absences order now branch m after) λ i d.
      elim (Bool-cases (exists (is_candidate i d) (preview_absences order now branch m after))) [
        | inr f ↦ f
        | inl t ↦
            let found = preview_absences_lem order now branch m after i d year from to in
            let (was, row) = nobody i d after.staff (ground (arith, found, t)) in
            let was' : exists (λ s. s.id == i && absent_on (kst_day now) branch db s d) db.staff
                ≡ true =
              ap (exists (λ s. s.id == i && absent_on (kst_day now) branch db s d)) (sym same_staff)
              ∙ was in
            absurd (ground (arith, found, t, was', row, confirmed_days i d))
      ]

  -- For a month of a year from 100 on, after a confirmation of what the preview shows, with
  -- nothing between the two, a person has a row of a day exactly if there was one before or the
  -- day is in the month and the person was absent on it, and a preview at the same time finds
  -- nobody any more.
  pub confirm_absences_lem :
      (preview_absences order now branch m (confirmed order now branch new memo m db) ≡ [])
      × ((i d : ℕ)
          → exists (is_on i d) (confirmed order now branch new memo m db).attendance ≡ (
              exists (is_on i d) db.attendance
              || (in_month m d
                  && exists (λ s. s.id == i && absent_on (kst_day now) branch db s d) db.staff)))
  confirm_absences_lem = (none_left, confirmed_days)
