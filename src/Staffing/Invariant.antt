-- ===== src/Staffing/Invariant.antt =====
-- Where the staff are: what the calls on staff and contracts keep true of the open assignments.
use sports_erp.Prelude.{
  ℕ, ◌≡◌, ◌≢◌, ◌≤◌, inl, inr, refl, sym, subst, Option, none, List, [], ◌∷◌, ◌++◌, String, Bool,
  true, false, not, ◌==◌, find, count, update, passes, arith, Bool-cases, Option-cases, All,
  All-update, All-append, All-map, All-trivial, count-update-le, count-update_gone, count-append,
  find-append_none, find-append_skip, find-append_some, find-update_other, find-update_same,
  ==_refl,
}
use sports_erp.Store.Branches.{Branch}
use sports_erp.Store.Staffing.{Staff, StaffAssignment}
use sports_erp.Integrity.{is_branch_terminated}
use sports_erp.Staffing.{Env, is_open, is_open_of, is_open_at, end_assignment, new_assignment}
use sports_erp.Staffing.Moves.{is_resigned, resign_row, move_row}

abbrev pub is_here : Staff → Bool
is_here s = not (is_resigned s.status)

abbrev pub staff_of : ℕ → List Staff → Option Staff
staff_of id = find (λ s. s.id == id)

abbrev pub branch_of : ℕ → List Branch → Option Branch
branch_of id = find (λ b. b.id == id)

abbrev pub works_at : ℕ → Option Staff → Bool
works_at branch = passes λ s. s.branch_id == branch

-- An open assignment is of somebody who has not left and whose branch it is, at a branch whose
-- contract runs; and nobody has two.
pub record IsStaffed (branches : List Branch) (staff : List Staff) (rows : List StaffAssignment)
    : Type 0 where
  pub one : (s : ℕ) → count (is_open_of s) rows ≤ 1
  pub here : (s : ℕ) → passes is_here (staff_of s staff) ≡ false → count (is_open_of s) rows ≡ 0
  pub live :
      (b : ℕ) → is_branch_terminated (branch_of b branches) ≡ true → count (is_open_at b) rows ≡ 0
  pub placed :
      All (λ a. is_open a ≡ true → works_at a.branch_id (staff_of a.staff_id staff) ≡ true) rows

module _ (p : StaffAssignment → Bool) (day : ℕ) (rows : List StaffAssignment) where
  -- Ending assignments opens none.
  count-end_of :
      (s : ℕ)
      → count (is_open_of s) (update p (end_assignment day) rows) ≤ count (is_open_of s) rows
  count-end_of s =
      count-update-le (λ _. Unit {0}) (is_open_of s) p (end_assignment day) rows
        (λ x _ _ h. absurd (ground (arith, h))) (All-trivial rows)

  count-end_at :
      (b : ℕ)
      → count (is_open_at b) (update p (end_assignment day) rows) ≤ count (is_open_at b) rows
  count-end_at b =
      count-update-le (λ _. Unit {0}) (is_open_at b) p (end_assignment day) rows
        (λ x _ _ h. absurd (ground (arith, h))) (All-trivial rows)

module _ (branches : List Branch) (staff : List Staff) (rows : List StaffAssignment) (day : ℕ) where
  -- Who ends assignments on the way keeps all of it.
  pub ended-IsStaffed :
      (p : StaffAssignment → Bool)
      → IsStaffed branches staff rows
      → IsStaffed branches staff (update p (end_assignment day) rows)
  ended-IsStaffed p i = record {
    one = λ s. omega (arith, count-end_of p day rows s, i.one s);
    here = λ s h. omega (arith, count-end_of p day rows s, i.here s h);
    live = λ b h. omega (arith, count-end_at p day rows b, i.live b h);
    placed =
        All-update (λ a. is_open a ≡ true → works_at a.branch_id (staff_of a.staff_id staff) ≡ true)
          (λ a. is_open a ≡ true → works_at a.branch_id (staff_of a.staff_id staff) ≡ true) p
          (end_assignment day) rows (λ a _ _ h. absurd (ground (arith, h))) (λ a _ h. h) i.placed;
  }

  -- The rows that the end of one person's assignments leaves open are of somebody else.
  other :
      (id : ℕ) (a : StaffAssignment) → is_open_of id a ≡ false → is_open a ≡ true → a.staff_id ≢ id
  other id a f o e = absurd (ground (arith, f, o, e))

  distinct_ids : (s id : ℕ) → (s == id) ≡ false → s ≢ id
  distinct_ids s id f e = absurd (ground (arith, f, e))

  ended_of :
      (s id : ℕ)
      → s ≡ id
      → count (is_open_of s) (update (is_open_of id) (end_assignment day) rows) ≡ 0
  ended_of s id same =
      subst (λ k. count (is_open_of k) (update (is_open_of id) (end_assignment day) rows) ≡ 0)
        (sym same)
        (count-update_gone (is_open_of id) (end_assignment day) rows (λ x _. ground arith))

  pub resigned-IsStaffed :
      (id : ℕ)
      → IsStaffed branches staff rows
      → IsStaffed branches
          (update (λ s. s.id == id) (resign_row day) staff)
          (update (is_open_of id) (end_assignment day) rows)
  resigned-IsStaffed id i = record {
    one = λ s. omega (arith, count-end_of (is_open_of id) day rows s, i.one s);
    here = λ s h. elim (Bool-cases (s == id)) [
      | inl e ↦ ended_of s id (ground (arith, e))
      | inr ne ↦ omega (
        arith,
        count-end_of (is_open_of id) day rows s,
        i.here s (
            rw
              (find-update_other (λ t. t.id) s id (resign_row day) staff (λ x. refl)
                (distinct_ids s id ne))
              at h),
      )
    ];
    live = λ b h. omega (arith, count-end_at (is_open_of id) day rows b, i.live b h);
    placed =
        All-update (λ a. is_open a ≡ true → works_at a.branch_id (staff_of a.staff_id staff) ≡ true)
          (λ a.
            is_open a ≡ true
            → works_at a.branch_id
                (staff_of a.staff_id (update (λ s. s.id == id) (resign_row day) staff))
              ≡ true)
          (is_open_of id) (end_assignment day) rows (λ a _ _ h. absurd (ground (arith, h)))
          (λ a f h o.
            rw
              (find-update_other (λ t. t.id) a.staff_id id (resign_row day) staff (λ x. refl)
                (other id a f o))
              (h o))
          i.placed;
  }

  pub assigned-IsStaffed :
      (e : Env) (id branch : ℕ) (remark : Option String)
      → passes is_here (staff_of id staff) ≡ true
      → is_branch_terminated (branch_of branch branches) ≡ false
      → IsStaffed branches staff rows
      → IsStaffed branches (update (λ s. s.id == id) (move_row branch) staff) (
          update (is_open_of id) (end_assignment day) rows
          ++ new_assignment e id branch day remark ∷ [])
  assigned-IsStaffed e id branch remark there running i = record {
    one = λ s. elim (Bool-cases (s == id)) [
      | inl same ↦
          ground (
            arith,
            count-append (is_open_of s) kept (new ∷ []),
            ended_of s id (ground (arith, same)),
          )
      | inr ne ↦ ground (
        arith,
        ne,
        count-append (is_open_of s) kept (new ∷ []),
        count-end_of (is_open_of id) day rows s,
        i.one s,
      )
    ];
    here = λ s h. elim (Bool-cases (s == id)) [
      | inl same ↦ elim (Option-cases (staff_of id staff)) [
        | inl n ↦ absurd (ground (arith, there, n))
        | inr (t, f) ↦ absurd (
            ground (
              arith,
              h,
              same,
              f,
              there,
              find-update_same (λ t. t.id) id (move_row branch) staff t (λ x. refl) f,
            ))
      ]
      | inr ne ↦ ground (
        arith,
        ne,
        count-append (is_open_of s) kept (new ∷ []),
        count-end_of (is_open_of id) day rows s,
        i.here s (
            rw
              (find-update_other (λ t. t.id) s id (move_row branch) staff (λ x. refl)
                (distinct_ids s id ne))
              at h),
      )
    ];
    live = λ b h. elim (Bool-cases (b == branch)) [
      | inl same ↦ absurd (ground (arith, same, h, running))
      | inr ne ↦ ground (
        arith,
        ne,
        count-append (is_open_at b) kept (new ∷ []),
        count-end_at (is_open_of id) day rows b,
        i.live b h,
      )
    ];
    placed =
        All-append _ kept (new ∷ [])
          (All-update
            (λ a. is_open a ≡ true → works_at a.branch_id (staff_of a.staff_id staff) ≡ true)
            (λ a.
              is_open a ≡ true
              → works_at a.branch_id
                  (staff_of a.staff_id (update (λ s. s.id == id) (move_row branch) staff))
                ≡ true)
            (is_open_of id) (end_assignment day) rows (λ a _ _ h. absurd (ground (arith, h)))
            (λ a f h o.
              rw
                (find-update_other (λ t. t.id) a.staff_id id (move_row branch) staff (λ x. refl)
                  (other id a f o))
                (h o))
            i.placed)
          (
            λ _. elim (Option-cases (staff_of id staff)) [
              | inl n ↦ absurd (ground (arith, there, n))
              | inr (t, f) ↦
                  rw (find-update_same (λ t. t.id) id (move_row branch) staff t (λ x. refl) f)
                    (==_refl branch)
            ],
            tt,
          );
  }
    where
      new : StaffAssignment
      new = new_assignment e id branch day remark

      kept : List StaffAssignment
      kept = update (is_open_of id) (end_assignment day) rows

  works_at-append :
      (branch id : ℕ) (t : Staff)
      → works_at branch (staff_of id staff) ≡ true
      → works_at branch (staff_of id (staff ++ t ∷ [])) ≡ true
  works_at-append branch id t h = elim (Option-cases (staff_of id staff)) [
    | inl n ↦ absurd (ground (arith, h, n))
    | inr (u, f) ↦ ground (arith, h, f, find-append_some (λ u. u.id == id) staff (t ∷ []) u f)
  ]

  pub hired-IsStaffed :
      (a : StaffAssignment) (t : Staff)
      → staff_of a.staff_id staff ≡ none
      → t.id ≡ a.staff_id
      → t.branch_id ≡ a.branch_id
      → is_here t ≡ true
      → is_branch_terminated (branch_of a.branch_id branches) ≡ false
      → IsStaffed branches staff rows
      → IsStaffed branches (staff ++ t ∷ []) (rows ++ a ∷ [])
  hired-IsStaffed a t fresh id at_branch there running i = record {
    one = λ s. elim (Bool-cases (s == a.staff_id)) [
      | inl same ↦
          let e : s ≡ a.staff_id = ground (arith, same) in
          ground (arith, count-append (is_open_of s) rows (a ∷ []), i.here s (rw (e, fresh) refl))
      | inr ne ↦ ground (arith, ne, count-append (is_open_of s) rows (a ∷ []), i.one s)
    ];
    here = λ s h. elim (Bool-cases (s == a.staff_id)) [
      | inl same ↦
          let e : s ≡ a.staff_id = ground (arith, same) in
          absurd (
            ground (
              arith,
              h,
              there,
              e,
              id,
              find-append_none (λ t. t.id == a.staff_id) staff (t ∷ []) fresh,
            ))
      | inr ne ↦
          let missed : staff_of s (t ∷ []) ≡ none = ground (arith, ne, id) in
          ground (
            arith,
            ne,
            count-append (is_open_of s) rows (a ∷ []),
            i.here s (rw (find-append_skip (λ u. u.id == s) staff (t ∷ []) missed) at h),
          )
    ];
    live = λ b h. elim (Bool-cases (b == a.branch_id)) [
      | inl same ↦ absurd (ground (arith, same, h, running))
      | inr ne ↦ ground (arith, ne, count-append (is_open_at b) rows (a ∷ []), i.live b h)
    ];
    placed =
        All-append _ rows (a ∷ [])
          (All-map _ _ rows (λ r h o. works_at-append r.branch_id r.staff_id t (h o)) i.placed)
          (
            λ _.
                rw (find-append_none (λ u. u.id == a.staff_id) staff (t ∷ []) fresh)
                  (ground (arith, id, at_branch)),
            tt,
          );
  }

-- What a change of one branch keeps, if it does not end a contract.
module _ (branches : List Branch) (staff : List Staff) (rows : List StaffAssignment) where
  pub branches-IsStaffed :
      (branches' : List Branch)
      → ((b : ℕ)
          → is_branch_terminated (branch_of b branches') ≡ true
          → is_branch_terminated (branch_of b branches) ≡ true)
      → IsStaffed branches staff rows
      → IsStaffed branches' staff rows
  branches-IsStaffed branches' h i = record {
    one = i.one;
    here = i.here;
    live = λ b t. i.live b (h b t);
    placed = i.placed;
  }
