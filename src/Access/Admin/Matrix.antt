-- ===== src/Access/Admin/Matrix.antt =====
-- What the head office sees of one person agrees with what the guard decides.
use sports_erp.Prelude.{
  subst, ◌≡◌, refl, ℕ, some, List, [], ◌∷◌, map, Bool, true, ◌&&◌, ◌==◌, inl, inr, Bool-cases,
  Option-cases, find, exists, select, arith, All, All-map, All-append,
}
use sports_erp.Store.{Db}
use sports_erp.Store.Errors.{ok}
use sports_erp.Store.Staffing.{Account, Role, Staff}
use sports_erp.Store.Access.{PermissionAction, Feature, RolePermission}
use sports_erp.Access.Catalog.{
  is_governed, within_ceiling, ceiling, features, action_eq, action_eq_refl,
}
use sports_erp.Access.{PermissionCell, allows, personal, role_default, is_cell, build_request_user}
use sports_erp.Access.Admin.{role_row, role_cell, staff_cell, StaffCell, staff_matrix, exception}

find-select {ℓ} :
    {A : Type ℓ} (q p : A → Bool) (xs : List A) → find q (select p xs) ≡ find (λ x. p x && q x) xs
find-select q p [] = refl
find-select q p (x ∷ xs) = ground (arith, find-select q p xs)

-- The exceptions that the caller carries are those of the table.
exception-eq-personal :
    (db : Db) (a : Account) (f : Feature) (c : PermissionAction)
    → exception db.account_permissions a.id f c ≡ personal (build_request_user db a) f c
unfolding exception personal build_request_user
exception-eq-personal db a f c =
    rw (find-select (is_cell f c) (λ p. p.account_id == a.id) db.account_permissions) refl

All-listed : (xs : List PermissionAction) → All (λ a. exists (λ b. action_eq b a) xs ≡ true) xs
All-listed [] = tt
All-listed (x ∷ xs) =
    (rw (action_eq_refl x) refl, All-map _ _ xs (λ a h. ground (arith, h)) (All-listed xs))

module _ (rows : List RolePermission) (role : Role) where
  abbrev Fits : PermissionCell → Type 0
  Fits c =
      (within_ceiling role c.feature c.action ≡ true)
      × (c.allowed ≡ role_default rows role c.feature c.action)

  block-Fits :
      (f : Feature) (actions : List PermissionAction)
      → All (λ a. within_ceiling role f a ≡ true) actions
      → All Fits (map (role_cell rows role f) actions)
  block-Fits f [] h = tt
  block-Fits f (a ∷ actions) h = ((h.0, refl), block-Fits f actions h.1)

  within-listed : (f : Feature) → All (λ a. within_ceiling role f a ≡ true) (ceiling f role)
  unfolding within_ceiling
  within-listed f = All-listed (ceiling f role)

  row-Fits : (fs : List Feature) → All Fits (role_row rows role fs)
  unfolding role_row
  row-Fits [] = tt
  row-Fits (f ∷ fs) =
      All-append Fits (map (role_cell rows role f) (ceiling f role)) (role_row rows role fs)
        (block-Fits f (ceiling f role) (within-listed f)) (row-Fits fs)

module _ (db : Db) (a : Account) where
  -- The cell says what the guard decides for the person.
  abbrev pub IsDecided : StaffCell → Type 0
  IsDecided c =
      c.effective ≡ allows db.role_permissions (build_request_user db a) c.feature c.action

  cell-IsDecided :
      (c : PermissionCell)
      → Fits db.role_permissions a.role c
      → IsDecided (staff_cell db.account_permissions a.id c)
  unfolding allows build_request_user
  cell-IsDecided c fits =
      ground (arith, fits.0, fits.1, exception-eq-personal db a c.feature c.action)

  cells-IsDecided :
      (cells : List PermissionCell)
      → All (Fits db.role_permissions a.role) cells
      → All IsDecided (map (staff_cell db.account_permissions a.id) cells)
  cells-IsDecided [] h = tt
  cells-IsDecided (c ∷ cells) h = (cell-IsDecided c h.0, cells-IsDecided cells h.1)

-- If the head office gets the cells of a staff member, the member and the account have rows, the
-- role is the account's, and each cell says as effective what the guard decides for the caller
-- that is built from the account.
pub staff_matrix_lem :
    (db db' : Db) (staff_id : ℕ) (role : Role) (cells : List StaffCell)
    → staff_matrix staff_id db ≡ (ok (role, cells), db')
    → (s : Staff) × (a : Account) × (find (λ s. s.id == staff_id) db.staff ≡ some s)
      × (find (λ a. a.id == s.account_id) db.accounts ≡ some a)
      × (a.role ≡ role)
      × All (IsDecided db a) cells
unfolding staff_matrix
staff_matrix_lem db db' staff_id role cells h =
    elim (Option-cases (find (λ s. s.id == staff_id) db.staff)) [
      | inl e ↦ absurd (ground (arith, h, e))
      | inr (s, e) ↦ elim (Option-cases (find (λ a. a.id == s.account_id) db.accounts)) [
        | inl f ↦ absurd (ground (arith, h, e, f))
        | inr (a, f) ↦ (
          s,
          a,
          e,
          f,
          ground (arith, h, e, f),
          elim (Bool-cases (is_governed a.role)) [
            | inl g ↦
                let shown : map (staff_cell db.account_permissions a.id)
                      (role_row db.role_permissions a.role features)
                    ≡ cells =
                  ground (arith, h, e, f, g) in
                subst (All (IsDecided db a)) shown (
                  cells-IsDecided db a (role_row db.role_permissions a.role features)
                    (row-Fits db.role_permissions a.role features))
            | inr g ↦
                let nothing : [] ≡ cells = ground (arith, h, e, f, g) in
                subst (All (IsDecided db a)) nothing tt
          ],
        )
      ]
    ]
